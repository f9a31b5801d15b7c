-- ===== src/Tests/Rafts.antt =====
-- A witness of the theorem on the raft environment, with a library whose nodes only count their
-- ticks and messages.
use model_guiding_fuzz.Common.{
  Ensures, List, [], arith, contains, if◌then◌else◌, keys, leb, lookup, none, pure, some, true, ℕ,
  ◌&&◌, ◌+◌, ◌==◌, ◌>>=◌, ◌↔◌, ◌∷◌, ◌≡◌,
}
use model_guiding_fuzz.Types.Event.{Entry}
use model_guiding_fuzz.Tests.{counter, no_events}
use model_guiding_fuzz.Raft.Library.{RaftLibrary, Status}
use model_guiding_fuzz.Raft.{RaftEnvironmentConfig, World, RaftEnvironment, new_raft_environment}
use model_guiding_fuzz.Checker.{single_leader}
use model_guiding_fuzz.Checker.Leaders.{single_leader_unique}
use model_guiding_fuzz.Raft.Beginning.{new-runs_after}
use model_guiding_fuzz.Raft.History.{
  Operation, stopped, started, ticked, perform_all, runs_after_all, perform_all-runs_after,
}

abbrev pub library : RaftLibrary ℕ
library = record {
  type_name = λ n. "";
  RawNode = ℕ;
  MemoryStorage = ℕ;
  Snapshot = Unit;
  Ready = Unit;
  new_memory_storage = 0;
  new_raw_node = λ id e h s. pure 0;
  apply_add_node = λ id n. pure n;
  status = λ n. record { raft_state = 0; term = n; commit = 0 };
  step = λ s m n. pure (n + 1);
  tick = λ s n. pure (n + 1);
  has_ready = λ s n. true;
  ready = λ s n. pure (tt, n);
  advance = λ s r n. pure n;
  snapshot = λ r. none;
  entries = λ r. [];
  committed_entries = λ r. [];
  messages = λ r. [];
  apply_snapshot = λ s m. pure m;
  append = λ es m. pure m;
  storage_entries = λ lo hi max m. pure (some []);
}

abbrev pub raft_config : RaftEnvironmentConfig
raft_config = record { replicas = 3; election_tick = 10; heartbeat_tick = 1; ticks_per_step = 2 }

abbrev cluster : World library
cluster = (
  record {
    nodes = (1, 0) ∷ (2, 0) ∷ (3, 0) ∷ [];
    storages = (1, 0) ∷ (2, 0) ∷ (3, 0) ∷ [];
    cur_states = [];
  },
  no_events,
)

abbrev operations : List Operation
operations = stopped 2 ∷ ticked ∷ stopped 3 ∷ started 2 ∷ started 4 ∷ ticked ∷ []

perform_all-runs_after_example : Ensures (perform_all counter raft_config operations cluster) λ w'.
    (id : ℕ)
    → (contains id (keys w'.0.nodes)
        ≡ runs_after_all id
            (contains id (1 ∷ 2 ∷ 3 ∷ []))
            operations
            (contains id (1 ∷ 2 ∷ 3 ∷ [])))
      × (contains id (keys w'.0.storages) ≡ contains id (1 ∷ 2 ∷ 3 ∷ []))
perform_all-runs_after_example = perform_all-runs_after counter raft_config operations cluster

new-runs_after_example :
    Ensures
      (new_raft_environment {lib = library} raft_config >>= λ env.
        perform_all counter raft_config operations (env, no_events))
      λ w'.
        (id : ℕ)
        → contains id (keys w'.0.nodes)
          ≡ runs_after_all id (leb 1 id && leb id 3) operations (leb 1 id && leb id 3)
new-runs_after_example = new-runs_after counter raft_config operations no_events

-- Node 2 leads, node 1 has stopped following it.
abbrev states : List (ℕ × Status)
states =
    (1, record { raft_state = 1; term = 3; commit = 1 })
    ∷ (2, record { raft_state = 2; term = 2; commit = 1 })
    ∷ []

abbrev environment : RaftEnvironment library
environment = record { nodes = []; storages = []; cur_states = states }

single_leader_unique_example : (single_leader library environment ≡ true) ↔ (
    (i j : ℕ) (s t : Status)
    → lookup i states ≡ some s
    → lookup j states ≡ some t
    → s.raft_state ≡ 2
    → t.raft_state ≡ 2
    → i ≡ j)
single_leader_unique_example = single_leader_unique library environment (ground arith)

-- Two entries that each storage has; the second storage has a third.
abbrev log_of : ℕ → List Entry
log_of m =
    record { term = 1; index = 1; type = 0; payload = [] }
    ∷ record { term = 1; index = 2; type = m; payload = 49 ∷ [] }
    ∷ (if m == 0 then [] else record { term = 2; index = 3; type = 0; payload = [] } ∷ [])

abbrev with_logs : RaftLibrary ℕ
with_logs = record library { storage_entries = λ lo hi max m. pure (some (log_of m)) }

abbrev committed : RaftEnvironment with_logs
committed = record {
  nodes = [];
  storages = (1, 0) ∷ (2, 1) ∷ [];
  cur_states = (1, record { raft_state = 0; term = 1; commit = 2 }) ∷ [];
}
