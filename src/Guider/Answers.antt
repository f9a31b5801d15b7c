-- ===== src/Guider/Answers.antt =====
-- When the checks of the guiders return.
use model_guiding_fuzz.Common.{
  List, Option, Outcome, Returns-bind, Returns-pure, Total, [], add_key, arith, contains, done,
  if◌then◌else◌, length, refl, some, ℕ, ◌∷◌, ◌≡◌, ◌≤◌,
}
use Prim.Native.String.{String}
use model_guiding_fuzz.Types.Choice.{Trace}
use model_guiding_fuzz.Types.Event.{EventTrace}
use model_guiding_fuzz.Types.State.{State}
use model_guiding_fuzz.Types.Sequence.{append}
use model_guiding_fuzz.Guider.{
  Guider, TlcStateGuider, Score, EventNode, reset_event, states_of, answered, send_trace,
  score_states, check, new_event_trace, trace_check,
}
use model_guiding_fuzz.Guider.Instances.{
  Gocov, lift, tlc_guider, trace_guider, line_check, line_guider,
}

-- What the fuzzer asks of a guider: its checks return.
pub record IsTotal {G : Type 0} (guider : Guider G) : Type 0 where
  pub checks :
      (trace : Trace) (events : EventTrace) (s : guider.GuiderState)
      → Total (guider.check trace events s)

-- The server answers every trace, with a key for each state.
pub record IsAnswering (execute : EventTrace → Option (List String × List ℕ)) : Type 0 where
  pub answers :
      (events : EventTrace)
      → (states : List String) × (ks : List ℕ) × (execute events ≡ some (states, ks))
        × (length states ≤ length ks)

states_of-done :
    (states : List String) (ks : List ℕ)
    → length states ≤ length ks
    → (out : List State) × (states_of states ks ≡ done out)
unfolding states_of
states_of-done [] ks h = ([], refl)
states_of-done (s ∷ ss) [] h = absurd (omega arith)
states_of-done (s ∷ ss) (k ∷ ks) h =
    let (out, e) = states_of-done ss ks (omega arith) in
    (record { repr = s; key = k } ∷ out, rw e refl)

lift-Returns : {G A : Type 0} (o : Outcome A) (a : A) → o ≡ done a → Total (lift {G = G} o)
lift-Returns o a e = record { result = λ g. (a, g, rw e, tt) }

module _ (execute : EventTrace → Option (List String × List ℕ)) (hash_trace : Trace → ℕ)
    (hash_states : List State → ℕ) where
  score_states-done :
      (trace : Trace) (t : TlcStateGuider) (events : EventTrace) (states : List State)
      → (r : Score × TlcStateGuider × EventTrace) × (score_states execute hash_trace hash_states
            trace t
            (events, done states)
          ≡ done r)
  unfolding score_states
  score_states-done trace t events states = (_, refl)

  check-done :
      IsAnswering execute
      → (trace : Trace) (events : EventTrace) (t : TlcStateGuider)
      → (r : Score × TlcStateGuider × EventTrace) × (check execute hash_trace hash_states trace
            events t
          ≡ done r)
  unfolding check send_trace answered
  check-done answering trace events t =
      let (states, ks, e, h) = answering.answers (append events reset_event) in
      let (out, e') = states_of-done states ks h in
      let (r, e'') = score_states-done trace t (append events reset_event) out in
      (r, rw (e, e') e'')

  module _ {G : Type 0} (answering : IsAnswering execute) where
    pub tlc_guider-IsTotal : IsTotal (tlc_guider {G = G} execute hash_trace hash_states)
    unfolding tlc_guider
    tlc_guider-IsTotal = record {
      checks = λ trace events s.
          (let (r, e) = check-done answering trace events s in
            Returns-bind (lift-Returns _ r e) λ _ _. Returns-pure _ tt);
    }

    pub trace_guider-IsTotal :
        (hash_node : EventNode → ℕ) (hash_graph : List (ℕ × EventNode) → ℕ)
        → IsTotal (trace_guider {G = G} execute hash_trace hash_states hash_node hash_graph)
    unfolding trace_guider trace_check
    trace_guider-IsTotal hash_node hash_graph = record {
      checks = λ trace events s.
          (let (r, e) = trace_check-done trace events s.0 s.1 in
            Returns-bind (lift-Returns _ r e) λ _ _. Returns-pure _ tt);
    }
      where
        trace_check-done :
            (trace : Trace) (events : EventTrace) (traces : List ℕ) (t : TlcStateGuider)
            → (r : Score × (List ℕ × TlcStateGuider) × EventTrace) × (trace_check execute hash_trace
                  hash_states hash_node hash_graph trace events
                  (traces, t)
                ≡ done r)
        trace_check-done trace events traces t =
            let ((score, t', events'), e) = check-done answering trace events t in
            let key =
              hash_graph
                (new_event_trace execute hash_trace hash_states hash_node hash_graph events') in
            let new_count : ℕ = if contains key traces then 0 else 1 in
            let traces' = add_key key traces in
            (
              (record { new_count = new_count; over = length traces' }, (traces', t'), events'),
              rw (e, trace_check) refl,
            )

    pub line_guider-IsTotal :
        (gocov : Gocov G)
        → Total gocov.get_coverage
        → IsTotal (line_guider {G = G} execute hash_trace hash_states gocov)
    unfolding line_guider line_check
    line_guider-IsTotal gocov reads = record {
      checks = λ trace events s.
          (let (r, e) = check-done answering trace events s.tlc in
            Returns-bind (lift-Returns _ r e) λ _ _. Returns-bind reads λ cov _. Returns-pure _ tt);
    }
