-- ===== src/Mutator/Flip/Effect.antt =====
-- What ChoiceMutator does to a trace.
use model_guiding_fuzz.Common.{
  >>=-eq-done, Bool-cases, List, Runtime, [], arith, contains, done, inl, inr, length, not, refl,
  some, suc, zero, ℕ, ◌==◌, ◌∷◌, ◌≡◌,
}
use model_guiding_fuzz.Types.Choice.{SchedulingChoice, random_boolean, Trace, copy, zero_choice}
use model_guiding_fuzz.Types.Event.{EventTrace}
use model_guiding_fuzz.Types.Sample.{fill}
use model_guiding_fuzz.Mutator.Indices.{type_indices, draw_from}
use model_guiding_fuzz.Mutator.Draws.{
  Names, Names-head, Names-tail, IsPicked, fill-IsPicked, picked-Names, picked-hits,
}
use model_guiding_fuzz.Mutator.Hits.{hits}
use model_guiding_fuzz.Mutator.Flip.{flip_choice, flip_at, flip_mutate}

-- The second list is the first with exactly `n` of its Boolean choices negated: as long, every
-- other choice as it was, and in place of a negated choice a Boolean choice with the other value
-- and zero in every other field.
pub data Flips : List SchedulingChoice → List SchedulingChoice → ℕ → Type 0 where
  end : Flips [] [] zero
  kept :
      (c : SchedulingChoice) {cs ds : List SchedulingChoice} {n : ℕ}
      → Flips cs ds n
      → Flips (c ∷ cs) (c ∷ ds) n
  flipped :
      (c d : SchedulingChoice) {cs ds : List SchedulingChoice} {n : ℕ}
      → c.type ≡ random_boolean
      → d ≡ record (zero_choice random_boolean) { boolean_choice = not c.boolean_choice }
      → Flips cs ds n
      → Flips (c ∷ cs) (d ∷ ds) (suc n)

module _ (m : List ℕ) where
  flip_at-Flips :
      (i : ℕ) (cs : List SchedulingChoice)
      → Names m random_boolean i cs
      → Flips cs (flip_at m i cs) (hits m i (length cs))
  unfolding flip_at copy flip_choice
  flip_at-Flips i [] h = end
  flip_at-Flips i (c ∷ cs) h =
      let rest = flip_at-Flips (suc i) cs (Names-tail m random_boolean i c cs h) in
      elim (Bool-cases (contains i m)) [
        | inl e ↦
            let typed = Names-head m random_boolean i c cs h e in
            let same : flip_choice c
                ≡ record (zero_choice random_boolean) { boolean_choice = not c.boolean_choice } =
              rw typed refl in
            rw e (flipped c (flip_choice c) typed same rest)
        | inr e ↦ rw e (kept c rest)
      ]

module _ {G : Type 0} (rt : Runtime G) where
  -- A ChoiceMutator that returns a trace has negated exactly NumFlips of the Boolean choices of
  -- its argument, and changed no other choice.
  pub flip_mutate-Flips :
      (num_flips fuel : ℕ) (trace : Trace) (events : EventTrace) (g : G) (t' : Trace) (g' : G)
      → flip_mutate rt num_flips fuel trace events g ≡ done (some t', g')
      → Flips trace.l t'.l num_flips
  unfolding flip_mutate
  flip_mutate-Flips num_flips fuel trace events g t' g' h =
      elim (Bool-cases (length indices == 0)) [
        | inl empty ↦ absurd (ground arith)
        | inr some_left ↦
            let (m, g₁, e, out) =
              >>=-eq-done (fill length (draw_from rt indices) num_flips fuel []) _ g
                (rw (some_left) at h) in
            let (p, size) = fill-IsPicked rt indices num_flips fuel g m g₁ e in
            finish m p size (ground arith)
      ]
    where
      indices : List ℕ
      indices = type_indices random_boolean trace

      finish :
          (m : List ℕ)
          → IsPicked rt indices num_flips m
          → length m ≡ num_flips
          → t'.l ≡ flip_at m 0 trace.l
          → Flips trace.l t'.l num_flips
      finish m p size same =
          rw (same, ← size, ← picked-hits rt random_boolean trace num_flips m p)
            (flip_at-Flips m 0 trace.l (picked-Names rt random_boolean trace num_flips m p))
