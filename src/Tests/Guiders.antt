-- ===== src/Tests/Guiders.antt =====
-- Witnesses of the guider's theorems.
use model_guiding_fuzz.Common.{
  List, Option, [], contains, done, refl, some, true, ℕ, ◌+◌, ◌||◌, ◌∷◌, ◌≡◌,
}
use Prim.Native.String.{String}
use model_guiding_fuzz.Types.Event.{EventTrace}
use model_guiding_fuzz.Types.Sequence.{append}
use model_guiding_fuzz.Types.State.{State}
use model_guiding_fuzz.Tests.{no_events}
use model_guiding_fuzz.Guider.{
  TlcStateGuider, Score, reset_event, coverage, send_trace, check, states_of,
}
use model_guiding_fuzz.Guider.Coverage.{fresh, visits, check-coverage}

-- A server that answers every trace with three states, the last as the first.
abbrev answer : EventTrace → Option (List String × List ℕ)
answer events = some ("a" ∷ "b" ∷ "a" ∷ [], 7 ∷ 8 ∷ 7 ∷ [])

abbrev answered_states : List State
answered_states =
    record { repr = "a"; key = 7 }
    ∷ record { repr = "b"; key = 8 }
    ∷ record { repr = "a"; key = 7 }
    ∷ []

abbrev reset_only : EventTrace
reset_only = record { l = reset_event ∷ [] }

-- A guider that knows a state.
abbrev guider : TlcStateGuider
guider = record {
  states_map = 8 ∷ [];
  traces_map = [];
  state_traces_map = [];
  record_traces = true;
  count = 0;
}

answered-answer : send_trace answer (λ t. 0) (λ s. 0) no_events ≡ (reset_only, done answered_states)
unfolding send_trace append states_of
answered-answer = refl

check-coverage_example :
    (score : Score) × (t' : TlcStateGuider) × (check answer
        (λ t. 0)
        (λ s. 0)
        (record { l = [] })
        no_events
        guider
      ≡ done (score, t', reset_only))
    × (score.new_count ≡ fresh (8 ∷ []) answered_states)
    × ((coverage t').unique_states ≡ (coverage guider).unique_states + score.new_count)
    × ((k : ℕ) → contains k t'.states_map ≡ (contains k (8 ∷ []) || visits k answered_states))
check-coverage_example =
    check-coverage answer (λ t. 0) (λ s. 0) (record { l = [] }) no_events reset_only answered_states
      guider answered-answer
