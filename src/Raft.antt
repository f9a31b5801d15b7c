-- ===== src/Raft.antt =====
-- raft.go: the cluster that the fuzzer runs, over the raft library (Raft/Library). Pointers to
-- nodes and storages become entries of the maps, which are written back after each call.
pub mod Library
pub mod Presence
pub mod History
pub mod Requests
pub mod Beginning
use model_guiding_fuzz.Common.{
  Bool, List, Option, Random, Runtime, [], delete, each, get_elem?, if◌then◌else◌, insert, keys,
  lookup, ltb, none, not, or_panic, pure, range, some, suc, zero, ℕ, ◌&&◌, ◌++◌, ◌+◌, ◌==◌, ◌>>=◌,
  ◌||◌, ◌∷◌,
}
use model_guiding_fuzz.Types.Event.{Message, Entry, Event, EventTrace, Param, num}
use model_guiding_fuzz.Types.Sequence.{append}
use model_guiding_fuzz.Types.Sample.{int_range}
use model_guiding_fuzz.Types.Decimal.{atoi}
use model_guiding_fuzz.Fuzzer.Context.{event}
use model_guiding_fuzz.Raft.Library.{Status, state_candidate, state_leader, msg_prop, RaftLibrary}

pub record RaftEnvironmentConfig : Type 0 where
  pub replicas : ℕ
  pub election_tick : ℕ
  pub heartbeat_tick : ℕ
  pub ticks_per_step : ℕ

-- A missing entry of `curStates` reads as zeros.
abbrev zero_status : Status
zero_status = record { raft_state = 0; term = 0; commit = 0 }

status_or_zero : Option Status → Status
status_or_zero none = zero_status
status_or_zero (some s) = s

is_leader : Status → Bool
is_leader s = s.raft_state == state_leader

-- The first node, in the order of the visit, that is a leader.
find_leader : {N : Type 0} → (N → Status) → List (ℕ × N) → Option ℕ
unfolding is_leader
find_leader status [] = none
find_leader status ((id, node) ∷ rest) =
    let later = find_leader status rest in if is_leader (status node) then some id else later

module _ {G : Type 0} (lib : RaftLibrary G) where
  pub record RaftEnvironment : Type 0 where
    pub nodes : List (ℕ × lib.RawNode)
    pub storages : List (ℕ × lib.MemoryStorage)
    pub cur_states : List (ℕ × Status)

  abbrev pub World : Type 0
  World = RaftEnvironment × EventTrace

  save_snapshot : Option lib.Snapshot → lib.MemoryStorage → Random G lib.MemoryStorage
  save_snapshot none storage = pure storage
  save_snapshot (some snapshot) storage = lib.apply_snapshot snapshot storage

module _ {G : Type 0} {lib : RaftLibrary G} where
  add_event : Event → World lib → World lib
  unfolding append
  add_event e (env, events) = (env, append events e)

  -- A call of the library on the node `id`, which reads the storage of that node.
  on_node :
      (lib.MemoryStorage → lib.RawNode → Random G lib.RawNode)
      → ℕ
      → World lib
      → Random G (World lib)
  on_node call id (env, events) = do
    node ← or_panic (lookup id env.nodes)
    storage ← or_panic (lookup id env.storages)
    node' ← call storage node
    pure (record env { nodes = insert id node' env.nodes }, events)

  module _ (config : RaftEnvironmentConfig) where
    make_node : ℕ → RaftEnvironment lib → Random G (RaftEnvironment lib)
    unfolding int_range
    make_node id env = do
      node ← lib.new_raw_node id config.election_tick config.heartbeat_tick lib.new_memory_storage
      node' ← each lib.apply_add_node (int_range 1 (config.replicas + 1)) node
      pure (record {
        nodes = insert id node' env.nodes;
        storages = insert id lib.new_memory_storage env.storages;
        cur_states = insert id (lib.status node') env.cur_states;
      })

    unfoldable pub make_nodes : RaftEnvironment lib → Random G (RaftEnvironment lib)
    unfolding make_node
    make_nodes = each make_node (int_range 1 (config.replicas + 1))

    unfoldable pub new_raft_environment : Random G (RaftEnvironment lib)
    unfolding make_nodes
    new_raft_environment = make_nodes (record { nodes = []; storages = []; cur_states = [] })

    -- Reset
    unfoldable pub reset : World lib → Random G (World lib)
    unfolding make_nodes
    reset (env, events) = do env' ← make_nodes env; pure (env', events)

    -- Start, on what the map of storages has for the node.
    unfoldable start_from : ℕ → Option lib.MemoryStorage → World lib → Random G (World lib)
    start_from id none w = pure w
    start_from id (some storage) (env, events) = do
      node ← lib.new_raw_node id config.election_tick config.heartbeat_tick storage
      pure (record env { nodes = insert id node env.nodes }, events)

    unfoldable pub start : ℕ → World lib → Random G (World lib)
    unfolding start_from
    start id w = start_from id (lookup id w.0.storages) w

  -- Stop
  unfoldable pub stop : ℕ → World lib → World lib
  stop id (env, events) = (record env { nodes = delete id env.nodes }, events)

  -- A request goes to the leader, if there is one.
  propose : Message → Option ℕ → World lib → Random G (World lib)
  unfolding on_node add_event atoi
  propose m none w = pure w
  propose m (some leader) w = do
    entry ← or_panic (get_elem? m.entries 0)
    let request =
        event "ClientRequest" leader
          (("request", num (atoi entry.payload)) ∷ ("leader", num leader) ∷ [])
    on_node (λ storage node. lib.step storage (record m { to = leader }) node) leader
        (add_event request w)

  deliver : Message → World lib → Random G (World lib)
  unfolding on_node
  deliver m w = elim (lookup m.to w.0.nodes) [
    | none ↦ pure w
    | some node ↦ on_node (λ storage node. lib.step storage m node) m.to w
  ]

  module _ (rt : Runtime G) where
    unfoldable pub step : Message → World lib → Random G (World lib)
    unfolding find_leader propose deliver
    step m w =
        if m.type == msg_prop
        then (range rt w.0.nodes >>= λ order. propose m (find_leader lib.status order) w)
        else deliver m w

    tick_node : ℕ → ℕ → World lib → Random G (World lib)
    unfolding on_node
    tick_node zero id w = pure w
    tick_node (suc n) id w = on_node lib.tick id w >>= tick_node n id

    -- The events that a change of status is worth.
    status_events : ℕ → Status → Status → World lib → World lib
    unfolding add_event
    status_events id old new w =
        let params = ("node", num id) ∷ [] in
        if not (old.raft_state == new.raft_state) && new.raft_state == state_leader
        then add_event (event "ClientRequest" id (("request", num 0) ∷ ("leader", num id) ∷ []))
            (add_event (event "BecomeLeader" id params) w)
        else if (not (old.raft_state == new.raft_state) && new.raft_state == state_candidate)
            || (ltb old.term new.term
                && (old.raft_state == new.raft_state && new.raft_state == state_candidate))
        then add_event (event "Timeout" id params) w
        else w

    update_state : ℕ → World lib → Random G (World lib)
    unfolding status_events status_or_zero
    update_state id w = do
      node ← or_panic (lookup id w.0.nodes)
      let new = lib.status node
      let (env, events) = status_events id (status_or_zero (lookup id w.0.cur_states)) new w
      pure (record env { cur_states = insert id new env.cur_states }, events)

    unfoldable pub update_states : World lib → Random G (World lib)
    unfolding update_state
    update_states w = do order ← range rt (keys w.0.nodes); each update_state order w

    -- `storages[id].ApplySnapshot` and `Append`, which go through a nil pointer if there is none.
    store : ℕ → lib.Ready → World lib → Random G (World lib)
    unfolding save_snapshot
    store id ready (env, events) = do
      storage ← or_panic (lookup id env.storages)
      storage' ← save_snapshot lib (lib.snapshot ready) storage
      storage'' ← lib.append (lib.entries ready) storage'
      pure (record env { storages = insert id storage'' env.storages }, events)

    advance_event : ℕ → lib.Ready → World lib → World lib
    unfolding add_event
    advance_event id ready w = elim (lib.committed_entries ready) [
      | [] ↦ w
      | e ∷ es ↦ add_event (event "AdvanceCommitIndex" id (("i", num id) ∷ [])) w
    ]

    handle_some :
        ℕ
        → lib.MemoryStorage
        → lib.RawNode
        → World lib × List Message
        → Random G (World lib × List Message)
    unfolding store advance_event on_node
    handle_some id storage node ((env, events), result) = do
      (ready, node') ← lib.ready storage node
      w ← store id ready (record env { nodes = insert id node' env.nodes }, events)
      w' ← on_node (λ storage node. lib.advance storage ready node) id (advance_event id ready w)
      pure (w', result ++ lib.messages ready)

    handle_ready : ℕ → World lib × List Message → Random G (World lib × List Message)
    unfolding handle_some
    handle_ready id ((env, events), result) = do
      node ← or_panic (lookup id env.nodes)
      storage ← or_panic (lookup id env.storages)
      if lib.has_ready storage node
          then handle_some id storage node ((env, events), result)
          else pure ((env, events), result)

    -- The messages that the nodes send, and the cluster after a tick.
    unfoldable pub tick : RaftEnvironmentConfig → World lib → Random G (World lib × List Message)
    unfolding tick_node update_states handle_ready
    tick config w = do
      order₁ ← range rt (keys w.0.nodes)
      w₁ ← each (tick_node config.ticks_per_step) order₁ w
      w₂ ← update_states w₁
      order₂ ← range rt (keys w₂.0.nodes)
      each handle_ready order₂ (w₂, [])
