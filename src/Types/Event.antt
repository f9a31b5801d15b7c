-- ===== src/Types/Event.antt =====
-- types.go, Event, and the raft messages and log entries (raft/raftpb/raft.pb.go) that events
-- carry. The types of a message and of an entry are the numbers of the protobuf enumerations.
-- The Responses of a message are left out: the library fills them only for AsyncStorageWrites,
-- which the program leaves off.
use model_guiding_fuzz.Common.{Bool, List, Option, ℕ}
use model_guiding_fuzz.Types.Sequence.{Sequence}
use Prim.Native.String.{String}

pub record Entry : Type 0 where
  pub term : ℕ
  pub index : ℕ
  pub type : ℕ
  pub payload : List ℕ

-- A snapshot, with the parts of its metadata.
pub record Snapshot : Type 0 where
  pub payload : List ℕ
  pub index : ℕ
  pub term : ℕ
  pub voters : List ℕ
  pub learners : List ℕ
  pub voters_outgoing : List ℕ
  pub learners_next : List ℕ
  pub auto_leave : Bool

pub record Message : Type 0 where
  pub type : ℕ
  pub to : ℕ
  pub from : ℕ
  pub term : ℕ
  pub log_term : ℕ
  pub index : ℕ
  pub entries : List Entry
  pub commit : ℕ
  pub vote : ℕ
  pub snapshot : Option Snapshot
  pub reject : Bool
  pub reject_hint : ℕ
  pub context : List ℕ

-- The values that the parameters of an event take.
pub data Param : Type 0 where
  num : ℕ → Param
  flag : Bool → Param
  text : String → Param
  log : List Entry → Param

pub record Event : Type 0 where
  pub name : String
  pub node : ℕ
  pub params : List (String × Param)
  pub reset : Bool

abbrev pub EventTrace : Type 0
EventTrace = Sequence Event
