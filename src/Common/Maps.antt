-- ===== src/Common/Maps.antt =====
-- Go maps with integer keys, as association lists in the order of insertion.
use Prim.Native.Nat.{ℕ}
use mathlib.Core.List.{List, [], ◌∷◌, map}
use mathlib.Core.Option.{Option, none, some, some-injective}
use mathlib.Core.Path.{◌≡◌, refl, subst}
use mathlib.Core.Logic.{inl, inr}
use model_guiding_fuzz.Common.Lists.{All}
use native.Mathlib.Omega.{arith}
use model_guiding_fuzz.Common.Tests.{Bool-cases, ==→eq, ◌==◌, if◌then◌else◌}

module _ {ℓ} {V : Type ℓ} where
  -- `v, ok := m[k]`
  abbrev pub lookup : ℕ → List (ℕ × V) → Option V
  lookup k [] = none
  lookup k ((j, v) ∷ m) = if j == k then some v else lookup k m

  -- `m[k] = v`
  abbrev pub insert : ℕ → V → List (ℕ × V) → List (ℕ × V)
  insert k v [] = (k, v) ∷ []
  insert k v ((j, w) ∷ m) = if j == k then (k, v) ∷ m else (j, w) ∷ insert k v m

  -- `delete(m, k)`
  abbrev pub delete : ℕ → List (ℕ × V) → List (ℕ × V)
  delete k [] = []
  delete k ((j, w) ∷ m) = if j == k then delete k m else (j, w) ∷ delete k m

  abbrev pub keys : List (ℕ × V) → List ℕ
  keys = map (λ e. e.0)

  pub lookup-insert :
      (k j : ℕ) (v : V) (m : List (ℕ × V))
      → lookup j (insert k v m) ≡ (if k == j then some v else lookup j m)
  lookup-insert k j v [] = refl
  lookup-insert k j v ((i, w) ∷ m) = ground (arith, lookup-insert k j v m)

  pub lookup-delete :
      (k j : ℕ) (m : List (ℕ × V)) → lookup j (delete k m) ≡ (if k == j then none else lookup j m)
  lookup-delete k j [] = ground arith
  lookup-delete k j ((i, w) ∷ m) = ground (arith, lookup-delete k j m)

  pub All-entry {κ} :
      (P : ℕ × V → Type κ) (k : ℕ) (v : V) (m : List (ℕ × V))
      → All P m
      → lookup k m ≡ some v
      → P (k, v)
  All-entry P k v [] h e = absurd (cc)
  All-entry P k v ((j, w) ∷ m) h e = elim (Bool-cases (j == k)) [
    | inl same ↦
        let here : j ≡ k = ==→eq j k same in
        let value : w ≡ v = some-injective w v (rw same at e) in
        subst (λ x. P (x, v)) here (subst (λ x. P (j, x)) value h.0)
    | inr other ↦ All-entry P k v m h.1 (rw other at e)
  ]

  pub All-delete {κ} :
      (P : ℕ × V → Type κ) (k : ℕ) (m : List (ℕ × V)) → All P m → All P (delete k m)
  All-delete P k [] h = tt
  All-delete P k ((j, w) ∷ m) h = elim (Bool-cases (j == k)) [
    | inl same ↦ rw same (All-delete P k m h.1)
    | inr other ↦ rw other (h.0, All-delete P k m h.1)
  ]

  pub All-insert {κ} :
      (P : ℕ × V → Type κ) (k : ℕ) (v : V) (m : List (ℕ × V))
      → All P m
      → P (k, v)
      → All P (insert k v m)
  All-insert P k v [] h p = (p, tt)
  All-insert P k v ((j, w) ∷ m) h p = elim (Bool-cases (j == k)) [
    | inl same ↦ rw same (p, h.1)
    | inr other ↦ rw other (h.0, All-insert P k v m h.1 p)
  ]
