-- ===== src/Mutator/Skip/Effect.antt =====
-- What SkipNodeMutator does to a trace.
use model_guiding_fuzz.Common.{
  >>=-eq-done, Bool-cases, List, Runtime, [], arith, contains, done, inl, inr, length, refl, some,
  suc, zero, ℕ, ◌+◌, ◌==◌, ◌∷◌, ◌≡◌,
}
use model_guiding_fuzz.Types.Choice.{SchedulingChoice, ChoiceType, Trace, copy}
use model_guiding_fuzz.Types.Event.{EventTrace}
use model_guiding_fuzz.Types.Sample.{fill}
use model_guiding_fuzz.Mutator.Indices.{type_indices, draw_from}
use model_guiding_fuzz.Mutator.Draws.{
  Names, Names-head, Names-tail, IsPicked, fill-IsPicked, picked-Names, picked-hits,
}
use model_guiding_fuzz.Mutator.Hits.{hits}
use model_guiding_fuzz.Mutator.Skip.{skip_at, skip_mutate}

-- The second list is the first with exactly `n` of its node choices left out.
pub data Skips : List SchedulingChoice → List SchedulingChoice → ℕ → Type 0 where
  end : Skips [] [] zero
  kept :
      (c : SchedulingChoice) {cs ds : List SchedulingChoice} {n : ℕ}
      → Skips cs ds n
      → Skips (c ∷ cs) (c ∷ ds) n
  skipped :
      (c : SchedulingChoice) {cs ds : List SchedulingChoice} {n : ℕ}
      → c.type ≡ ChoiceType.node
      → Skips cs ds n
      → Skips (c ∷ cs) ds (suc n)

pub length-Skips :
    {cs ds : List SchedulingChoice} {n : ℕ} → Skips cs ds n → length ds + n ≡ length cs
length-Skips end = refl
length-Skips (kept c s) = omega (arith, length-Skips s)
length-Skips (skipped c e s) = omega (arith, length-Skips s)

module _ (m : List ℕ) where
  skip_at-Skips :
      (i : ℕ) (cs : List SchedulingChoice)
      → Names m ChoiceType.node i cs
      → Skips cs (skip_at m i cs) (hits m i (length cs))
  unfolding skip_at copy
  skip_at-Skips i [] h = end
  skip_at-Skips i (c ∷ cs) h =
      let rest = skip_at-Skips (suc i) cs (Names-tail m ChoiceType.node i c cs h) in
      elim (Bool-cases (contains i m)) [
        | inl e ↦ rw e (skipped c (Names-head m ChoiceType.node i c cs h e) rest)
        | inr e ↦ rw e (kept c rest)
      ]

module _ {G : Type 0} (rt : Runtime G) where
  -- A SkipNodeMutator that returns a trace has left out exactly NumSkips node choices of its
  -- argument; the others stay as they were, in their order.
  pub skip_mutate-Skips :
      (num_skips fuel : ℕ) (trace : Trace) (events : EventTrace) (g : G) (t' : Trace) (g' : G)
      → skip_mutate rt num_skips fuel trace events g ≡ done (some t', g')
      → Skips trace.l t'.l num_skips
  unfolding skip_mutate
  skip_mutate-Skips num_skips fuel trace events g t' g' h =
      elim (Bool-cases (length indices == 0)) [
        | inl empty ↦ absurd (ground arith)
        | inr some_left ↦
            let (m, g₁, e, out) =
              >>=-eq-done (fill length (draw_from rt indices) num_skips fuel []) _ g
                (rw (some_left) at h) in
            let (p, size) = fill-IsPicked rt indices num_skips fuel g m g₁ e in
            finish m p size (ground arith)
      ]
    where
      indices : List ℕ
      indices = type_indices ChoiceType.node trace

      finish :
          (m : List ℕ)
          → IsPicked rt indices num_skips m
          → length m ≡ num_skips
          → t'.l ≡ skip_at m 0 trace.l
          → Skips trace.l t'.l num_skips
      finish m p size same =
          rw (same, ← size, ← picked-hits rt ChoiceType.node trace num_skips m p)
            (skip_at-Skips m 0 trace.l (picked-Names rt ChoiceType.node trace num_skips m p))
