-- ===== src/Guider.antt =====
-- guider.go and tlc_client.go: the guiders, which score a run by what it covers that is new.
-- Hashes are 256-bit numbers, which the code writes in hexadecimal; a float that is a quotient of
-- two counts is kept as the two counts. Writing recorded traces to files is not modelled.
pub mod Coverage
pub mod Instances
pub mod Counting
pub mod Answers
use model_guiding_fuzz.Common.{
  Bool, Ensures, List, Option, Outcome, Random, [], add_key, contains, done, if◌then◌else◌, insert,
  keys, length, library_panic, lookup, none, out_of_fuel, panic, some, true, ℕ, ◌++◌, ◌+◌, ◌∷◌, ◌≡◌,
}
use Prim.Native.Nat.{max}
use Prim.Native.String.{String}
use model_guiding_fuzz.Types.Choice.{Trace}
use model_guiding_fuzz.Types.Event.{Event, EventTrace}
use model_guiding_fuzz.Types.Sequence.{append, iter}
use model_guiding_fuzz.Types.State.{State}

pub record CoverageStats : Type 0 where
  pub unique_states : ℕ
  pub unique_traces : ℕ
  pub unique_state_traces : ℕ

-- The interface that the fuzzer sees: a check of a run gives the number of what is new, and may
-- append to the events. The second result of Check is read nowhere.
pub record Guider (G : Type 0) : Type 1 where
  pub GuiderState : Type 0
  pub check : Trace → EventTrace → GuiderState → Random G (ℕ × GuiderState × EventTrace)
  pub coverage : GuiderState → CoverageStats
  pub reset : GuiderState → GuiderState

-- What the fuzzer relies on in a guider: what a check counts as new is by how much what is measured
-- of its coverage grows.
pub record IsCounting {G : Type 0} (guider : Guider G) (measured : CoverageStats → ℕ) : Type 0 where
  pub counts :
      (trace : Trace) (events : EventTrace) (s : guider.GuiderState)
      → Ensures
          (guider.check trace events s)
          λ r. measured (guider.coverage r.1) ≡ measured (guider.coverage s) + r.0

pub record TlcStateGuider : Type 0 where
  pub states_map : List ℕ
  pub traces_map : List ℕ
  pub state_traces_map : List ℕ
  pub record_traces : Bool
  pub count : ℕ

unfoldable pub new_tlc_state_guider : Bool → TlcStateGuider
new_tlc_state_guider record_traces = record {
  states_map = [];
  traces_map = [];
  state_traces_map = [];
  record_traces = record_traces;
  count = 0;
}

unfoldable pub reset : TlcStateGuider → TlcStateGuider
reset t = record t { states_map = []; traces_map = []; state_traces_map = [] }

unfoldable pub coverage : TlcStateGuider → CoverageStats
coverage t = record {
  unique_states = length t.states_map;
  unique_traces = length t.traces_map;
  unique_state_traces = length t.state_traces_map;
}

-- The score of a run: a count, and the two counts whose quotient is the second result.
pub record Score : Type 0 where
  pub new_count : ℕ
  pub over : ℕ

-- `{Repr: s, Key: tlcResponse.Keys[i]}` for each of the states: too few keys are a panic.
unfoldable pub states_of : List String → List ℕ → Outcome (List State)
states_of [] keys = done []
states_of (s ∷ ss) [] = panic
states_of (s ∷ ss) (k ∷ keys) = elim (states_of ss keys) [
  | done rest ↦ done (record { repr = s; key = k } ∷ rest)
  | panic ↦ panic
  | library_panic ↦ library_panic
  | out_of_fuel ↦ out_of_fuel
]

-- `prev` is the ID of the node before, none where the code has an empty text.
pub record EventNode : Type 0 where
  pub event : Event
  pub node : ℕ
  pub prev : Option ℕ

abbrev pub reset_event : Event
reset_event = record { name = ""; node = 0; params = []; reset = true }

-- The states that are new go into the map, and are counted.
unfoldable pub add_states : List State → List ℕ → ℕ → List ℕ × ℕ
add_states [] m n = (m, n)
add_states (s ∷ ss) m n =
    add_states ss (if contains s.key m then m else m ++ s.key ∷ [])
      (if contains s.key m then n else n + 1)

unfoldable pub record_trace : TlcStateGuider → TlcStateGuider
record_trace t = if t.record_traces then record t { count = t.count + 1 } else t

-- `execute` is what the TLC server answers for a trace of events, nothing where the request or the
-- answer fails; the hashes are those of the JSON texts.
module _ (execute : EventTrace → Option (List String × List ℕ)) (hash_trace : Trace → ℕ)
    (hash_states : List State → ℕ) where
  answered : Option (List String × List ℕ) → Outcome (List State)
  unfolding states_of
  answered none = panic
  answered (some (states, keys)) = states_of states keys

  -- The states of a run. The client adds a reset event to the trace; a failed request ends in the
  -- panic of the guider.
  unfoldable pub send_trace : EventTrace → EventTrace × Outcome (List State)
  unfolding answered append
  send_trace trace = let trace' = append trace reset_event in (trace', answered (execute trace'))

  pub note_states : Trace → List State → TlcStateGuider → Score × TlcStateGuider
  unfolding add_states record_trace
  note_states trace states t =
      let (states_map, new_states) = add_states states t.states_map 0 in
      (
        record { new_count = new_states; over = max (length t.states_map) 1 },
        record (record_trace t) {
          states_map = states_map;
          traces_map = add_key (hash_trace trace) t.traces_map;
          state_traces_map = add_key (hash_states states) t.state_traces_map;
        },
      )

  score_states :
      Trace
      → TlcStateGuider
      → EventTrace × Outcome (List State)
      → Outcome (Score × TlcStateGuider × EventTrace)
  unfolding note_states
  score_states trace t (events, done states) =
      let (score, t') = note_states trace states t in done (score, t', events)
  score_states trace t (events, panic) = panic
  score_states trace t (events, library_panic) = library_panic
  score_states trace t (events, out_of_fuel) = out_of_fuel

  unfoldable pub check :
      Trace → EventTrace → TlcStateGuider → Outcome (Score × TlcStateGuider × EventTrace)
  unfolding send_trace score_states
  check trace events t = score_states trace t (send_trace events)

  -- TraceCoverageGuider: the traces seen, and the guider that it embeds. The hashes are those of
  -- the JSON texts of an event node, which leaves out its ID, and of an event graph.
  module _ (hash_node : EventNode → ℕ) (hash_graph : List (ℕ × EventNode) → ℕ) where
    -- One round of the loop: `cur` has the ID of the last node of each process.
    link : Event → List (ℕ × ℕ) × List (ℕ × EventNode) → List (ℕ × ℕ) × List (ℕ × EventNode)
    link e (cur, nodes) =
        let node : EventNode = record { event = e; node = e.node; prev = lookup e.node cur } in
        let id = hash_node node in (insert e.node id cur, insert id node nodes)

    unfoldable pub link_all :
        List Event → List (ℕ × ℕ) × List (ℕ × EventNode) → List (ℕ × ℕ) × List (ℕ × EventNode)
    unfolding link
    link_all [] s = s
    link_all (e ∷ es) s = link_all es (link e s)

    unfoldable pub new_event_trace : EventTrace → List (ℕ × EventNode)
    unfolding link_all
    new_event_trace events = (link_all (iter events) ([], [])).1

    unfoldable pub trace_check :
        Trace
        → EventTrace
        → List ℕ × TlcStateGuider
        → Outcome (Score × (List ℕ × TlcStateGuider) × EventTrace)
    unfolding check new_event_trace
    trace_check trace events (traces, t) = elim (check trace events t) [
      | done (_, t', events') ↦
          let key = hash_graph (new_event_trace events') in
          let traces' = add_key key traces in
          let new_count : ℕ = if contains key traces then 0 else 1 in
          done (record { new_count = new_count; over = length traces' }, (traces', t'), events')
      | panic ↦ panic
      | library_panic ↦ library_panic
      | out_of_fuel ↦ out_of_fuel
    ]

-- NewTraceCoverageGuider
unfoldable pub new_trace_coverage_guider : Bool → List ℕ × TlcStateGuider
unfolding new_tlc_state_guider
new_trace_coverage_guider record_traces = ([], new_tlc_state_guider record_traces)

unfoldable pub trace_coverage : List ℕ × TlcStateGuider → CoverageStats
unfolding coverage
trace_coverage (traces, t) = record (coverage t) { unique_traces = length traces }

unfoldable pub trace_reset : List ℕ × TlcStateGuider → List ℕ × TlcStateGuider
unfolding reset
trace_reset (traces, t) = ([], reset t)
