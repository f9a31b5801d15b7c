-- ===== src/Tests/Runs.antt =====
-- Witnesses of the theorems on RunIteration, seed and Run, with a library whose nodes count their
-- ticks and messages, and send one message at each tick.
use model_guiding_fuzz.Common.{
  All, Bool-cases, Ends, Ends-library_panic, Ends-pure, Ensures, Halts, List, Option, Returns,
  Returns-pure, [], arith, false, if◌then◌else◌, inl, inr, length, library_panic, none, pure, refl,
  some, subst, suc, zero, ℕ, ◌*◌, ◌+◌, ◌==◌, ◌∷◌, ◌≡◌, ◌≤◌,
}
use Prim.Native.String.{String}
use model_guiding_fuzz.Types.Event.{EventTrace, Message}
use model_guiding_fuzz.Tests.{counter, counter-IsRuntime, no_events, mixed, link, stop}
use model_guiding_fuzz.Tests.Rafts.{library, raft_config}
use model_guiding_fuzz.Raft.Library.{RaftLibrary}
use model_guiding_fuzz.Raft.{RaftEnvironment}
use model_guiding_fuzz.Checker.{Checker, single_leader}
use model_guiding_fuzz.Guider.{Guider, IsCounting, new_tlc_state_guider}
use model_guiding_fuzz.Guider.Instances.{Gocov, LineGuider, tlc_guider, trace_guider, line_check}
use model_guiding_fuzz.Guider.Counting.{
  IsMerging, lines_of, tlc_guider-IsCounting, trace_guider-IsCounting, line_check-lines,
}
use model_guiding_fuzz.Mutator.Indices.{Mutator}
use model_guiding_fuzz.Fuzzer.Context.{new_ctx}
use model_guiding_fuzz.Fuzzer.Context.Links.{links_in}
use model_guiding_fuzz.Fuzzer.Messages.{new_queues}
use model_guiding_fuzz.Fuzzer.Setup.{FuzzerConfig, random_schedule}
use model_guiding_fuzz.Fuzzer.Setup.Bounds.{IsSchedule}
use model_guiding_fuzz.Fuzzer.Iteration.{IterationState, make_request, iterate}
use model_guiding_fuzz.Fuzzer.Iteration.Requests.{make_request-Requested}
use model_guiding_fuzz.Raft.Requests.{Requested}
use model_guiding_fuzz.Fuzzer.Iteration.Crashes.{IsClosed, TracksState, iterate-Tracks}
use model_guiding_fuzz.Fuzzer.Iteration.Legal.{IsLegalTrace}
use model_guiding_fuzz.Fuzzer.Run.Legal.{run-legal}
use model_guiding_fuzz.Mutator.Swap.{swap_mutate}
use model_guiding_fuzz.Mutator.Legal.{swap_mutate-IsLawful}
use model_guiding_fuzz.Fuzzer.Iteration.Crashes.Totality.{iterate-Ends}
use model_guiding_fuzz.Fuzzer.Messages.Contents.{HasQueues, new_queues-HasQueues}
use model_guiding_fuzz.Types.Sample.Ending.{drawn, Covers}
use model_guiding_fuzz.Raft.Presence.Totality.{IsSound, IsEnding, Fits}
use model_guiding_fuzz.Fuzzer.Run.{Fuzzer, run}
use model_guiding_fuzz.Fuzzer.Run.Iterations.{executions}
use model_guiding_fuzz.Fuzzer.Run.Growth.{IsRising, covered, queued, run-growth}
use model_guiding_fuzz.Fuzzer.Run.Ending.{run-Ends}
use model_guiding_fuzz.Fuzzer.Setup.Ending.{IsFair, IsUsable, random_schedule-Returns}
use model_guiding_fuzz.Guider.Answers.{IsAnswering, tlc_guider-IsTotal}

abbrev pub greeting : Message
greeting = record {
  type = 8;
  to = 2;
  from = 1;
  term = 1;
  log_term = 0;
  index = 0;
  entries = [];
  commit = 0;
  vote = 0;
  snapshot = none;
  reject = false;
  reject_hint = 0;
  context = [];
}

-- A library whose nodes greet, and panic on a commit index of 7.
abbrev pub talking : RaftLibrary ℕ
talking = record library {
  messages = λ r. greeting ∷ [];
  step = λ s m n. if m.commit == 7 then (λ g. library_panic) else pure (n + 1);
}

abbrev pub config : FuzzerConfig
config = record {
  iterations = 2;
  steps = 3;
  raft_environment_config = raft_config;
  mut_per_trace = 2;
  seed_population_size = 2;
  number_requests = 1;
  crash_quota = 1;
  max_messages = 2;
  reseed_frequency = 5;
}

abbrev no_nodes : RaftEnvironment talking
no_nodes = record { nodes = []; storages = []; cur_states = [] }

no_nodes-IsClosed : IsClosed counter config no_nodes
unfolding IsClosed
no_nodes-IsClosed id = (ground arith, ground arith)

iterate-Tracks_example :
    Ensures (iterate counter config 9 (some mixed) (new_queues 3) no_nodes) (TracksState 3)
iterate-Tracks_example =
    iterate-Tracks counter config 9 (some mixed) (new_queues 3) no_nodes no_nodes-IsClosed

-- A server that answers every trace with two states.
abbrev pub two_states : EventTrace → Option (List String × List ℕ)
two_states events = some ("a" ∷ "b" ∷ [], 7 ∷ 8 ∷ [])

abbrev guider : Guider ℕ
guider = tlc_guider two_states (λ t. 0) (λ s. 0)

trace_guider-IsCounting_example :
    IsCounting
      (trace_guider {G = ℕ} two_states (λ t. 0) (λ s. 0) (λ n. n.node) length)
      (λ c. c.unique_traces)
trace_guider-IsCounting_example =
    trace_guider-IsCounting two_states (λ t. 0) (λ s. 0) (λ n. n.node) length

unfoldable known_nothing : guider.GuiderState
unfolding tlc_guider
known_nothing = new_tlc_state_guider false

-- A fuzzer with one schedule queued.
abbrev fuzzer : Fuzzer talking guider
fuzzer = record {
  message_queues = new_queues 3;
  mutated_traces_queue = record { q = mixed ∷ [] };
  raft_environment = no_nodes;
  stats = record {
    random_executions = 0;
    mutated_executions = 0;
    buggy_executions = 0;
    first_buggy_execution = none;
  };
  guider_state = known_nothing;
}

abbrev checker : Option (Checker talking)
checker = some (λ env. pure (single_leader talking env))

abbrev copies : Mutator ℕ
copies trace events = pure (some trace)

-- A fuzzer whose queued schedule keeps to the configuration.
abbrev legal_fuzzer : Fuzzer talking guider
legal_fuzzer = record fuzzer {
  mutated_traces_queue = record { q = record { l = link 1 2 1 ∷ stop 3 5 ∷ link 2 3 1 ∷ [] } ∷ [] };
}

run-legal_example :
    Ensures
      (run counter config checker (swap_mutate counter 1 9) 9 legal_fuzzer)
      λ r. All (IsLegalTrace config) r.0.mutated_traces_queue.q
run-legal_example =
    run-legal counter counter-IsRuntime config checker (swap_mutate counter 1 9)
      (swap_mutate-IsLawful 3 2 counter 1 9) 9 legal_fuzzer
      (
        (
          (omega arith, omega arith, omega arith, omega arith),
          (
            (omega arith, omega arith, omega arith, omega arith),
            ((omega arith, omega arith, omega arith, omega arith), tt),
          ),
        ),
        tt,
      )

run-growth_example : Ensures (run counter config checker copies 9 fuzzer) λ (f', cs).
    IsRising (λ c. c.unique_states) cs
    × All (λ c. c.unique_states ≤ covered (λ c. c.unique_states) f') cs
    × (queued f' ≤ 2 + covered (λ c. c.unique_states) f' * 2)
run-growth_example =
    run-growth counter config checker copies 9 (λ c. c.unique_states) fuzzer
      (tlc_guider-IsCounting two_states (λ t. 0) (λ s. 0)) (omega arith)

-- Coverage data that is a number of lines, of which each reading has five.
abbrev pub five_lines : Gocov ℕ
five_lines = record {
  Coverage = ℕ;
  get_coverage = pure (some 5);
  covered_lines = λ n. n;
  merge = λ old cov. old + cov;
}

five_lines-IsMerging : IsMerging five_lines
five_lines-IsMerging = record { merge_le = λ old cov. omega arith }

abbrev line_state : LineGuider five_lines
line_state = record { cov_data = some 3; tlc = new_tlc_state_guider false }

line_check-lines_example :
    Ensures
      (line_check two_states (λ t. 0) (λ s. 0) five_lines mixed no_events line_state)
      λ r. lines_of five_lines r.1.cov_data ≡ 3 + r.0
line_check-lines_example =
    line_check-lines two_states (λ t. 0) (λ s. 0) five_lines mixed no_events line_state
      five_lines-IsMerging

-- A library whose nodes are the numbers of their states, and a cluster that node 2 leads.
abbrev led : RaftLibrary ℕ
led = record library { status = λ n. record { raft_state = n; term = 0; commit = 0 } }

abbrev led_cluster : IterationState led
led_cluster = record {
  ctx = new_ctx;
  message_queues = new_queues 3;
  raft_environment = record {
    nodes = (1, 0) ∷ (2, 2) ∷ [];
    storages = (1, 0) ∷ (2, 0) ∷ [];
    cur_states = [];
  };
  crashed = [];
}

make_request-Requested_example : Ensures (make_request counter config (some 1024) led_cluster) λ s'.
    Requested {lib = led} 1024
      (led_cluster.raft_environment, led_cluster.ctx.event_trace)
      s'.ctx.event_trace
make_request-Requested_example =
    make_request-Requested counter config 1024 led_cluster counter-IsRuntime

pub talking-IsEnding : IsEnding talking 3
talking-IsEnding = record {
  IsNode = λ n. Unit;
  IsStorage = λ s. Unit;
  IsDue = λ r. Unit;
  IsSent = IsSound 3;
  begins = tt;
  makes = λ id e h s _ _. Ends-pure 0 tt;
  adds = λ id n _ _. Ends-pure n tt;
  steps = λ m s n _ _ _. elim (Bool-cases (m.commit == 7)) [
    | inl wrong ↦ Ends-library_panic (λ g. rw wrong)
    | inr other ↦ rw other (Ends-pure (n + 1) tt)
  ];
  ticks = λ s n _ _. Ends-pure (n + 1) tt;
  readies = λ s n _ _. Ends-pure (tt, n) (tt, tt);
  advances = λ r s n _ _ _. Ends-pure n tt;
  applies = λ r x s _ _ _. Ends-pure s tt;
  appends = λ r s _ _. Ends-pure s tt;
  sends = λ r _.
      (record { from_le = omega arith; to_le = omega arith; has_entry = λ e. absurd (cc) }, tt);
  sounds = λ m h. h;
  redirects = λ m id h le. record { from_le = h.from_le; to_le = le; has_entry = h.has_entry };
  requests = λ payload. record {
    from_le = omega arith;
    to_le = omega arith;
    has_entry = λ e. omega arith;
  };
}

iterate-Ends_example :
    Ends
      (iterate counter config 9 (some mixed) (new_queues 3) no_nodes)
      λ s. TracksState 3 s × (links_in s.ctx ≡ 3)
iterate-Ends_example =
    iterate-Ends counter config counter-IsRuntime talking-IsEnding (omega arith) 9 mixed
      (new_queues 3) no_nodes (new_queues-HasQueues 3) no_nodes-IsClosed (tt, tt)

counter-covers : (n : ℕ) → n ≤ 4 → (g : ℕ) → Covers counter n 4 g
unfolding drawn
counter-covers zero h g i lt = absurd (omega arith)
counter-covers (suc zero) h g i lt = ground arith
counter-covers (suc (suc zero)) h g i lt = ground arith
counter-covers (suc (suc (suc zero))) h g i lt = ground arith
counter-covers (suc (suc (suc (suc zero)))) h g i lt = ground arith
counter-covers (suc (suc (suc (suc (suc n))))) h g i lt = absurd (omega arith)

pub counter-IsFair : IsFair counter config 4
counter-IsFair = record {
  nodes = counter-covers 4 (omega arith);
  steps = λ n h. counter-covers n (omega (arith, h));
}

pub config-IsUsable : IsUsable config
config-IsUsable = record { some_nodes = omega arith; some_messages = omega arith }

random_schedule-Returns_example :
    Returns (random_schedule counter config 5 new_ctx) (IsSchedule config)
random_schedule-Returns_example =
    random_schedule-Returns counter counter-IsRuntime config 4 counter-IsFair config-IsUsable

pub two_states-IsAnswering : IsAnswering two_states
two_states-IsAnswering = record { answers = λ e. (_, _, refl, omega arith) }

checker-Halts :
    (check : Checker talking)
    → checker ≡ some check
    → (env : RaftEnvironment talking) → Halts (check env)
checker-Halts check e env =
    let leaders : Checker talking = λ env. pure (single_leader talking env) in
    let same : leaders ≡ check = cc in
    subst (λ (c : Checker talking). Halts (c env)) same (Ends-pure _ tt)

run-Ends_example : Ends (run counter config checker copies 5 fuzzer) λ (f', cs).
    (executions f'.stats ≡ 2)
    × (length cs ≡ 2)
    × (HasQueues 3 f'.message_queues
        × IsClosed counter config f'.raft_environment
        × Fits 3 talking-IsEnding f'.raft_environment)
run-Ends_example =
    run-Ends counter config checker copies 4 counter-IsRuntime counter-IsFair config-IsUsable
      talking-IsEnding
      (record {
        checks = checker-Halts;
        mutates = λ trace events. Returns-pure _ tt;
        guides = tlc_guider-IsTotal two_states (λ t. 0) (λ s. 0) two_states-IsAnswering;
      })
      fuzzer (omega arith) (new_queues-HasQueues 3, no_nodes-IsClosed, (tt, tt))
