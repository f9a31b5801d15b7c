-- ===== src/Mutator/Skip/Ending.antt =====
-- When SkipNodeMutator returns.
use model_guiding_fuzz.Common.{
  >>=-done, IsRuntime, List, Runtime, [], arith, done, false, length, none, out_of_fuel, some,
  subst, suc, sym, true, ℕ, ◌<◌, ◌==◌, ◌>>=◌, ◌≡◌, ◌≤◌,
}
use model_guiding_fuzz.Types.Choice.{ChoiceType, Trace}
use model_guiding_fuzz.Types.Event.{EventTrace}
use model_guiding_fuzz.Types.Sample.{fill}
use model_guiding_fuzz.Mutator.Indices.{type_indices, draw_from}
use model_guiding_fuzz.Types.Sample.Ending.{Covers}
use model_guiding_fuzz.Mutator.Rounds.{
  count_type, length-type_indices, type_indices-Distinct, fill-out_of_fuel, fill-done,
}
use model_guiding_fuzz.Mutator.Skip.Effect.{Skips, skip_mutate-Skips}
use model_guiding_fuzz.Mutator.Skip.{skip_at, skip_mutate}

module _ {G : Type 0} (rt : Runtime G) (trace : Trace) (events : EventTrace) where
  abbrev indices : List ℕ
  indices = type_indices ChoiceType.node trace

  -- On a trace with no node choice it fails, and draws nothing.
  pub skip_mutate-none :
      (num_skips fuel : ℕ) (g : G)
      → count_type ChoiceType.node trace.l ≡ 0
      → skip_mutate rt num_skips fuel trace events g ≡ done (none, g)
  unfolding skip_mutate
  skip_mutate-none num_skips fuel g h =
      let e : (length indices == 0) ≡ true =
        ground (arith, length-type_indices ChoiceType.node trace) in
      rw e

  -- If NumSkips is more than the number of node choices, and there is one, the loop of
  -- SkipNodeMutator never ends, whatever the random source returns.
  pub skip_mutate-out_of_fuel :
      (num_skips fuel : ℕ) (g : G)
      → IsRuntime rt
      → 0 < count_type ChoiceType.node trace.l
      → count_type ChoiceType.node trace.l < num_skips
      → skip_mutate rt num_skips fuel trace events g ≡ out_of_fuel
  unfolding skip_mutate
  skip_mutate-out_of_fuel num_skips fuel g ok some_left few =
      let n = length-type_indices ChoiceType.node trace in
      let e : (length indices == 0) ≡ false = ground (arith, n) in
      rw e (
        rw (
          fill-out_of_fuel rt ok indices num_skips fuel g (omega (arith, n)) (omega (arith, n)),
          ◌>>=◌,
        ))

  -- If NumSkips is at most the number of node choices, and there is one, SkipNodeMutator returns a
  -- trace that leaves out exactly NumSkips node choices of its argument; the others stay as they
  -- were, in their order. It does so in at most k rounds of its loop if the next k draws reach
  -- every node choice.
  pub skip_mutate-done :
      (num_skips k : ℕ) (g : G)
      → IsRuntime rt
      → 0 < count_type ChoiceType.node trace.l
      → num_skips ≤ count_type ChoiceType.node trace.l
      → Covers rt (count_type ChoiceType.node trace.l) k g
      → (t' : Trace) × (g' : G) × (skip_mutate rt num_skips (suc k) trace events g
          ≡ done (some t', g'))
        × Skips trace.l t'.l num_skips
  unfolding skip_mutate
  skip_mutate-done num_skips k g ok some_left enough covers =
      let n = length-type_indices ChoiceType.node trace in
      let e : (length indices == 0) ≡ false = ground (arith, n) in
      let (m, g', loop) =
        fill-done rt ok indices num_skips k g (omega (arith, n))
          (type_indices-Distinct ChoiceType.node trace) (omega (arith, n))
          (subst (λ c. Covers rt c k g) (sym n) covers) in
      let out : Trace = record { l = skip_at m 0 trace.l } in
      let ends : skip_mutate rt num_skips (suc k) trace events g ≡ done (some out, g') =
        rw e (>>=-done (fill length (draw_from rt indices) num_skips (suc k) []) _ g loop) in
      (out, g', ends, skip_mutate-Skips rt num_skips (suc k) trace events g out g' ends)
