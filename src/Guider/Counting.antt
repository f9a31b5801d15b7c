-- ===== src/Guider/Counting.antt =====
-- The guiders count: what a check calls new is by how much what it measures grows.
use model_guiding_fuzz.Common.{
  Ensures, Ensures-any, Ensures-bind, Ensures-pure, List, Option, Outcome, [], add_key, arith,
  contains, done, if◌then◌else◌, length, length-append, library_panic, none, out_of_fuel, panic,
  refl, some, ℕ, ◌+◌, ◌∷◌, ◌≡◌, ◌≤◌,
}
use Prim.Native.String.{String}
use model_guiding_fuzz.Types.Choice.{Trace}
use model_guiding_fuzz.Types.Event.{EventTrace}
use model_guiding_fuzz.Types.State.{State}
use model_guiding_fuzz.Guider.{
  IsCounting, TlcStateGuider, EventNode, Score, coverage, check, note_states, score_states,
  send_trace, trace_check, trace_coverage, new_event_trace,
}
use model_guiding_fuzz.Guider.Coverage.{note_states-coverage}
use model_guiding_fuzz.Guider.Instances.{
  Gocov, LineGuider, lift, tlc_guider, trace_guider, merge_lines, line_check,
}

Ensures-lift :
    {G A : Type 0} {P : A → Type 0} (o : Outcome A)
    → ((a : A) → o ≡ done a → P a)
    → Ensures {G = G} (lift o) P
Ensures-lift (done a) h = Ensures-pure a (h a refl)
Ensures-lift panic h = record { returns = λ g a g' e. absurd (cc) }
Ensures-lift library_panic h = record { returns = λ g a g' e. absurd (cc) }
Ensures-lift out_of_fuel h = record { returns = λ g a g' e. absurd (cc) }

-- The lines that the coverage data of a LineCoverageGuider covers, none before the first check.
abbrev pub lines_of : {G : Type 0} (gocov : Gocov G) → Option gocov.Coverage → ℕ
lines_of gocov none = 0
lines_of gocov (some cov) = gocov.covered_lines cov

-- What gocov documents of Merge: the lines that were covered still are.
pub record IsMerging {G : Type 0} (gocov : Gocov G) : Type 0 where
  pub merge_le :
      (old cov : gocov.Coverage)
      → gocov.covered_lines old ≤ gocov.covered_lines (gocov.merge old cov)

merge_lines-grown :
    {G : Type 0} (gocov : Gocov G) (execute : EventTrace → Option (List String × List ℕ))
    (hash_trace : Trace → ℕ) (hash_states : List State → ℕ)
    → IsMerging gocov
    → (cov old : Option gocov.Coverage)
    → lines_of gocov (merge_lines execute hash_trace hash_states gocov cov old).1
      ≡ lines_of gocov old + (merge_lines execute hash_trace hash_states gocov cov old).0
unfolding merge_lines
merge_lines-grown gocov execute hash_trace hash_states merging none old = omega arith
merge_lines-grown gocov execute hash_trace hash_states merging (some cov) none = omega arith
merge_lines-grown gocov execute hash_trace hash_states merging (some cov) (some old) =
    omega (arith, merging.merge_le old cov)

module _ (execute : EventTrace → Option (List String × List ℕ)) (hash_trace : Trace → ℕ)
    (hash_states : List State → ℕ) where
  score_states-grown :
      (trace : Trace) (t : TlcStateGuider) (o : EventTrace × Outcome (List State)) (score : Score)
      (t' : TlcStateGuider) (events' : EventTrace)
      → score_states execute hash_trace hash_states trace t o ≡ done (score, t', events')
      → (coverage t').unique_states ≡ (coverage t).unique_states + score.new_count
  unfolding score_states
  score_states-grown trace t (events, done states) score t' events' e =
      let noted = note_states execute hash_trace hash_states trace states t in
      let same : noted.0 ≡ score = cc in
      let same' : noted.1 ≡ t' = cc in
      let (_, grown, _) = note_states-coverage execute hash_trace hash_states trace states t in
      rw (← same, ← same') grown
  score_states-grown trace t (events, panic) score t' events' e = absurd (cc)
  score_states-grown trace t (events, library_panic) score t' events' e = absurd (cc)
  score_states-grown trace t (events, out_of_fuel) score t' events' e = absurd (cc)

  -- TLCStateGuider is such a guider, measured by its unique states: if Check returns, the number
  -- that it reports as new is that by which the number of covered states grows, whatever the
  -- server answers.
  pub tlc_guider-IsCounting :
      {G : Type 0}
      → IsCounting {G = G} (tlc_guider execute hash_trace hash_states) (λ c. c.unique_states)
  unfolding tlc_guider check
  tlc_guider-IsCounting = record {
    counts = λ trace events t.
        Ensures-bind
          (Ensures-lift (check execute hash_trace hash_states trace events t) λ r e.
            score_states-grown trace t (send_trace execute hash_trace hash_states events) r.0 r.1
              r.2 e)
          λ r p. Ensures-pure _ p;
  }

  add_key-length :
      (key : ℕ) (m : List ℕ) → length (add_key key m) ≡ length m + (if contains key m then 0 else 1)
  add_key-length key m = ground (arith, length-append m (key ∷ []))

  -- TraceCoverageGuider counts too, measured by its unique traces: if its Check returns, the
  -- number that it reports as new is that by which the number of its traces grows.
  pub trace_guider-IsCounting :
      {G : Type 0} (hash_node : EventNode → ℕ) (hash_graph : List (ℕ × EventNode) → ℕ)
      → IsCounting {G = G}
          (trace_guider execute hash_trace hash_states hash_node hash_graph)
          (λ c. c.unique_traces)
  unfolding trace_guider trace_check trace_coverage
  trace_guider-IsCounting hash_node hash_graph = record {
    counts = λ trace events (traces, t).
        Ensures-bind
          (Ensures-lift
            (trace_check execute hash_trace hash_states hash_node hash_graph trace events
              (traces, t))
            (λ r e. by_check traces r (check execute hash_trace hash_states trace events t) e))
          λ r p. Ensures-pure _ p;
  }
    where
      by_check :
          (traces : List ℕ) (r : Score × (List ℕ × TlcStateGuider) × EventTrace)
          (o : Outcome (Score × TlcStateGuider × EventTrace))
          → (elim o [
            | done (_, t', events') ↦
                let key =
                  hash_graph
                    (new_event_trace execute hash_trace hash_states hash_node hash_graph events') in
                let traces' = add_key key traces in
                let new_count : ℕ = if contains key traces then 0 else 1 in
                done
                  (record { new_count = new_count; over = length traces' }, (traces', t'), events')
            | panic ↦ panic
            | library_panic ↦ library_panic
            | out_of_fuel ↦ out_of_fuel
          ])
            ≡ done r
          → length r.1.0 ≡ length traces + r.0.new_count
      by_check traces (score, (traces', t'), events') (done (_, t, events)) e =
          let key =
            hash_graph
              (new_event_trace execute hash_trace hash_states hash_node hash_graph events) in
          let same : add_key key traces ≡ traces' = cc in
          let count : (if contains key traces then 0 else 1) ≡ score.new_count = cc in
          rw (← same, ← count) (add_key-length key traces)
      by_check traces r panic e = absurd (cc)
      by_check traces r library_panic e = absurd (cc)
      by_check traces r out_of_fuel e = absurd (cc)

  -- If gocov never loses lines in a merge, and Check of LineCoverageGuider returns, the new lines
  -- that it reports are those by which its covered lines grow, also where gocov fails and at the
  -- first check.
  pub line_check-lines :
      {G : Type 0} (gocov : Gocov G) (trace : Trace) (events : EventTrace) (l : LineGuider gocov)
      → IsMerging gocov
      → Ensures
          (line_check execute hash_trace hash_states gocov trace events l)
          λ r. lines_of gocov r.1.cov_data ≡ lines_of gocov l.cov_data + r.0
  unfolding line_check
  line_check-lines gocov trace events l merging =
      Ensures-bind (Ensures-any (lift (check execute hash_trace hash_states trace events l.tlc)))
        λ r _. Ensures-bind (Ensures-any gocov.get_coverage) λ cov _.
          Ensures-pure _
            (merge_lines-grown gocov execute hash_trace hash_states merging cov l.cov_data)
