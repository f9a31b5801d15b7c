-- ===== src/Mutator/Flip/Ending.antt =====
-- When ChoiceMutator returns.
use model_guiding_fuzz.Common.{
  >>=-done, IsRuntime, List, Runtime, [], arith, done, false, length, none, out_of_fuel, some,
  subst, suc, sym, true, ℕ, ◌<◌, ◌==◌, ◌>>=◌, ◌≡◌, ◌≤◌,
}
use model_guiding_fuzz.Types.Choice.{random_boolean, Trace}
use model_guiding_fuzz.Types.Event.{EventTrace}
use model_guiding_fuzz.Types.Sample.{fill}
use model_guiding_fuzz.Mutator.Indices.{type_indices, draw_from}
use model_guiding_fuzz.Types.Sample.Ending.{Covers}
use model_guiding_fuzz.Mutator.Rounds.{
  count_type, length-type_indices, type_indices-Distinct, fill-out_of_fuel, fill-done,
}
use model_guiding_fuzz.Mutator.Flip.Effect.{Flips, flip_mutate-Flips}
use model_guiding_fuzz.Mutator.Flip.{flip_at, flip_mutate}

module _ {G : Type 0} (rt : Runtime G) (trace : Trace) (events : EventTrace) where
  abbrev indices : List ℕ
  indices = type_indices random_boolean trace

  -- On a trace with no Boolean choice it fails, and draws nothing.
  pub flip_mutate-none :
      (num_flips fuel : ℕ) (g : G)
      → count_type random_boolean trace.l ≡ 0
      → flip_mutate rt num_flips fuel trace events g ≡ done (none, g)
  unfolding flip_mutate
  flip_mutate-none num_flips fuel g h =
      let e : (length indices == 0) ≡ true =
        ground (arith, length-type_indices random_boolean trace) in
      rw e

  -- If NumFlips is more than the number of Boolean choices, and there is one, the loop of
  -- ChoiceMutator never ends, whatever the random source returns.
  pub flip_mutate-out_of_fuel :
      (num_flips fuel : ℕ) (g : G)
      → IsRuntime rt
      → 0 < count_type random_boolean trace.l
      → count_type random_boolean trace.l < num_flips
      → flip_mutate rt num_flips fuel trace events g ≡ out_of_fuel
  unfolding flip_mutate
  flip_mutate-out_of_fuel num_flips fuel g ok some_left few =
      let n = length-type_indices random_boolean trace in
      let e : (length indices == 0) ≡ false = ground (arith, n) in
      rw e (
        rw (
          fill-out_of_fuel rt ok indices num_flips fuel g (omega (arith, n)) (omega (arith, n)),
          ◌>>=◌,
        ))

  -- If NumFlips is at most the number of Boolean choices, and there is one, ChoiceMutator returns
  -- a trace with exactly NumFlips of the Boolean choices of its argument negated: in the place of
  -- each is a Boolean choice with the other value and zero in every other field, and every other
  -- choice is as it was. It does so in at most k rounds of its loop if the next k draws reach
  -- every Boolean choice.
  pub flip_mutate-done :
      (num_flips k : ℕ) (g : G)
      → IsRuntime rt
      → 0 < count_type random_boolean trace.l
      → num_flips ≤ count_type random_boolean trace.l
      → Covers rt (count_type random_boolean trace.l) k g
      → (t' : Trace) × (g' : G) × (flip_mutate rt num_flips (suc k) trace events g
          ≡ done (some t', g'))
        × Flips trace.l t'.l num_flips
  unfolding flip_mutate
  flip_mutate-done num_flips k g ok some_left enough covers =
      let n = length-type_indices random_boolean trace in
      let e : (length indices == 0) ≡ false = ground (arith, n) in
      let (m, g', loop) =
        fill-done rt ok indices num_flips k g (omega (arith, n))
          (type_indices-Distinct random_boolean trace) (omega (arith, n))
          (subst (λ c. Covers rt c k g) (sym n) covers) in
      let out : Trace = record { l = flip_at m 0 trace.l } in
      let ends : flip_mutate rt num_flips (suc k) trace events g ≡ done (some out, g') =
        rw e (>>=-done (fill length (draw_from rt indices) num_flips (suc k) []) _ g loop) in
      (out, g', ends, flip_mutate-Flips rt num_flips (suc k) trace events g out g' ends)
