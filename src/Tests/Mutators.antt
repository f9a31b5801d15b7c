-- ===== src/Tests/Mutators.antt =====
-- The theorems on mutators at concrete traces.
use model_guiding_fuzz.Common.{
  Perm, Returns, [], arith, done, false, none, out_of_fuel, panic, pure, refl, some, true, ℕ, ◌++◌,
  ◌∷◌, ◌≡◌,
}
use model_guiding_fuzz.Types.Choice.{Trace, same_type, copy_trace, default_copy_filter}
use model_guiding_fuzz.Types.Sequence.{get, put}
use model_guiding_fuzz.Types.Sample.{fill, sample}
use model_guiding_fuzz.Types.Sample.Ending.{drawn, Covers}
use model_guiding_fuzz.Mutator.Rounds.{count_type}
use model_guiding_fuzz.Mutator.Flip.{flip_mutate}
use model_guiding_fuzz.Mutator.Flip.Effect.{Flips}
use model_guiding_fuzz.Mutator.Flip.Ending.{flip_mutate-out_of_fuel, flip_mutate-done}
use model_guiding_fuzz.Mutator.Skip.{skip_mutate}
use model_guiding_fuzz.Mutator.Skip.Effect.{Skips}
use model_guiding_fuzz.Mutator.Skip.Ending.{skip_mutate-done}
use model_guiding_fuzz.Mutator.Swap.{swap_mutate}
use model_guiding_fuzz.Mutator.Swap.Order.{swap_mutate-perm}
use model_guiding_fuzz.Mutator.Exchange.{max_messages, swap_crash_mutate, swap_max_mutate}
use model_guiding_fuzz.Mutator.Exchange.Effect.{Exchanged, swap_max_mutate-Exchanged}
use model_guiding_fuzz.Mutator.Exchange.Crashes.{
  ExchangedCrashes, swap_crash_mutate-ExchangedCrashes,
}
use model_guiding_fuzz.Mutator.Exchange.Ending.{swap_max_mutate-panic, swap_max_mutate-out_of_fuel}
use model_guiding_fuzz.Mutator.Indices.{Mutator}
use model_guiding_fuzz.Mutator.Scale.{scale_down_mutate, scale_up_mutate}
use model_guiding_fuzz.Mutator.Scale.Points.{ScalesAt}
use model_guiding_fuzz.Mutator.Scale.Effect.{
  IsLower, IsDoubled, scale_down_mutate-Scales, scale_up_mutate-Scales,
}
use model_guiding_fuzz.Tests.{
  counter, counter-IsRuntime, boolean, integer, link, stop, mixed, no_events,
}

runs : Unit {0}
unfolding fill sample flip_mutate skip_mutate swap_mutate swap_crash_mutate swap_max_mutate
    same_type drawn count_type get put copy_trace default_copy_filter
runs = tt

flip_mutate-out_of_fuel_example : flip_mutate counter 3 100 mixed no_events 0 ≡ out_of_fuel
unfolding count_type same_type
flip_mutate-out_of_fuel_example =
    flip_mutate-out_of_fuel counter mixed no_events 3 100 0 counter-IsRuntime (omega arith)
      (omega arith)

two_draws : Covers counter 2 2 0
unfolding drawn
two_draws i h = ground arith

flip_mutate-done_example :
    (t' : Trace) × (g' : ℕ) × (flip_mutate counter 2 3 mixed no_events 0 ≡ done (some t', g'))
    × Flips mixed.l t'.l 2
unfolding count_type same_type
flip_mutate-done_example =
    flip_mutate-done counter mixed no_events 2 2 0 counter-IsRuntime (omega arith) (omega arith)
      two_draws

skip_mutate-done_example :
    (t' : Trace) × (g' : ℕ) × (skip_mutate counter 2 3 mixed no_events 0 ≡ done (some t', g'))
    × Skips mixed.l t'.l 2
unfolding count_type same_type
skip_mutate-done_example =
    skip_mutate-done counter mixed no_events 2 2 0 counter-IsRuntime (omega arith) (omega arith)
      two_draws

-- The counting source draws the pair of positions (0, 4), so the two links change places.
abbrev swapped : Trace
swapped = record {
  l =
      link 2 3 1
      ∷ boolean true
      ∷ integer 7
      ∷ stop 3 5
      ∷ link 1 2 4
      ∷ boolean false
      ∷ integer 2
      ∷ stop 1 9
      ∷ [];
}

swap_mutate-perm_example : Perm swapped.l mixed.l
unfolding runs
swap_mutate-perm_example = swap_mutate-perm counter mixed 1 3 no_events 0 swapped 2 refl

abbrev crashes_swapped : Trace
crashes_swapped = record {
  l =
      link 1 2 4
      ∷ boolean true
      ∷ integer 7
      ∷ stop 1 5
      ∷ link 2 3 1
      ∷ boolean false
      ∷ integer 2
      ∷ stop 3 9
      ∷ [];
}

swap_crash_mutate-ExchangedCrashes_example : ExchangedCrashes mixed.l crashes_swapped.l
unfolding runs
swap_crash_mutate-ExchangedCrashes_example =
    swap_crash_mutate-ExchangedCrashes counter counter-IsRuntime mixed 1 3 no_events 0
      crashes_swapped 0 refl

abbrev limits_swapped : Trace
limits_swapped = record {
  l =
      link 1 2 1
      ∷ boolean true
      ∷ integer 7
      ∷ stop 3 5
      ∷ link 2 3 4
      ∷ boolean false
      ∷ integer 2
      ∷ stop 1 9
      ∷ [];
}

swap_max_mutate-Exchanged_example : Exchanged max_messages mixed.l limits_swapped.l
unfolding runs
swap_max_mutate-Exchanged_example =
    swap_max_mutate-Exchanged counter mixed 1 3 no_events 0 limits_swapped 0 refl

swap_max_mutate-panic_example :
    swap_max_mutate counter 1 5 (record { l = link 1 2 4 ∷ [] }) no_events 0 ≡ panic
unfolding count_type same_type
swap_max_mutate-panic_example =
    swap_max_mutate-panic counter (record { l = link 1 2 4 ∷ [] }) no_events 4 0 refl

swap_max_mutate-out_of_fuel_example : swap_max_mutate counter 2 100 mixed no_events 0 ≡ out_of_fuel
unfolding count_type same_type
swap_max_mutate-out_of_fuel_example = swap_max_mutate-out_of_fuel counter mixed no_events 100 0 refl

two_each : (g : ℕ) → Covers counter 2 2 g
unfolding drawn
two_each g i h = ground arith

scale_down_mutate-Scales_example :
    Returns
      (scale_down_mutate counter 1 3 mixed no_events)
      λ r. (t : Trace) × (r ≡ some t) × ScalesAt IsLower mixed 1 t
unfolding count_type same_type
scale_down_mutate-Scales_example =
    scale_down_mutate-Scales counter counter-IsRuntime mixed no_events 1 2 (omega arith)
      (omega arith) two_each

scale_up_mutate-Scales_example :
    Returns
      (scale_up_mutate counter 5 10 3 mixed no_events)
      λ r. (t : Trace) × (r ≡ some t) × ScalesAt (IsDoubled 10) mixed 2 t
unfolding count_type same_type
scale_up_mutate-Scales_example =
    scale_up_mutate-Scales counter counter-IsRuntime mixed no_events 5 10 2 (omega arith)
      (omega arith) two_each

-- A mutator that repeats the trace.
abbrev doubles : Mutator ℕ
doubles trace events = pure (some (record { l = trace.l ++ trace.l }))

-- One that fails.
abbrev fails : Mutator ℕ
fails trace events = pure none
