-- ===== src/Raft/Library.antt =====
-- What raft.go uses of the raft library (raft/), which is another project's: a raw node and the
-- memory storage that it reads. The calls may panic and may draw random numbers.
use model_guiding_fuzz.Common.{Bool, List, Option, Random, ℕ}
use Prim.Native.String.{String}
use model_guiding_fuzz.Types.Event.{Message, Entry}

-- The fields of the library's Status that the program reads; `raft_state` is the number of the
-- library's constant.
pub record Status : Type 0 where
  pub raft_state : ℕ
  pub term : ℕ
  pub commit : ℕ

abbrev pub state_candidate : ℕ
state_candidate = 1

abbrev pub state_leader : ℕ
state_leader = 2

-- The number of the message type MsgProp.
abbrev pub msg_prop : ℕ
msg_prop = 2

pub record RaftLibrary (G : Type 0) : Type 1 where
  -- `MessageType.String`
  pub type_name : ℕ → String
  pub RawNode : Type 0
  pub MemoryStorage : Type 0
  pub Snapshot : Type 0
  pub Ready : Type 0
  pub new_memory_storage : MemoryStorage
  -- The ID, the two ticks of the configuration, and the storage. The other fields are constant.
  pub new_raw_node : ℕ → ℕ → ℕ → MemoryStorage → Random G RawNode
  -- `ApplyConfChange` with the change that adds a node.
  pub apply_add_node : ℕ → RawNode → Random G RawNode
  pub status : RawNode → Status
  -- The error that Step may return is not read.
  pub step : MemoryStorage → Message → RawNode → Random G RawNode
  pub tick : MemoryStorage → RawNode → Random G RawNode
  pub has_ready : MemoryStorage → RawNode → Bool
  pub ready : MemoryStorage → RawNode → Random G (Ready × RawNode)
  pub advance : MemoryStorage → Ready → RawNode → Random G RawNode
  -- The parts of a Ready, with no snapshot where it is empty.
  pub snapshot : Ready → Option Snapshot
  pub entries : Ready → List Entry
  pub committed_entries : Ready → List Entry
  pub messages : Ready → List Message
  pub apply_snapshot : Snapshot → MemoryStorage → Random G MemoryStorage
  pub append : List Entry → MemoryStorage → Random G MemoryStorage
  -- `Entries(lo, hi, max)` of a storage, nothing where it returns an error. What it counts of its
  -- calls is read nowhere. The limit is a size in bytes, over which only one entry is returned.
  pub storage_entries : ℕ → ℕ → ℕ → MemoryStorage → Random G (Option (List Entry))
