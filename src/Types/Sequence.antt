-- ===== src/Types/Sequence.antt =====
-- types.go, List: the growable list that a trace is kept in. It goes by the name `Sequence` here,
-- since `List` is the library's.
use model_guiding_fuzz.Common.{
  Bool, Bool-cases, List, Option, [], ap, arith, false, get_elem?, if◌then◌else◌, inl, inr, leb,
  length, none, refl, set, suc, sym, true, zero, ℕ, ◌++◌, ◌∷◌, ◌≡◌,
}

pub record Sequence {ℓ} (A : Type ℓ) : Type ℓ where
  pub l : List A

module _ {ℓ} {A : Type ℓ} where
  unfoldable pub new_sequence : Sequence A
  new_sequence = record { l = [] }

  unfoldable pub append : Sequence A → A → Sequence A
  append s elem = record s { l = s.l ++ elem ∷ [] }

  unfoldable pub size : Sequence A → ℕ
  size s = length s.l

  -- The index is a number from 0: the code never asks for a negative one.
  unfoldable pub get : Sequence A → ℕ → Option A
  get s index = if leb (length s.l) index then none else get_elem? s.l index

  -- `false`, and no change, past the end.
  unfoldable pub put : Sequence A → ℕ → A → Sequence A × Bool
  put s index elem =
      if leb (length s.l) index then (s, false) else (record s { l = set s.l index elem }, true)

  unfoldable pub iter : Sequence A → List A
  iter s = s.l

  unfoldable pub reset : Sequence A → Sequence A
  reset s = record s { l = [] }

  get_elem?_past : (xs : List A) (i : ℕ) → leb (length xs) i ≡ true → get_elem? xs i ≡ none
  get_elem?_past [] i h = refl
  get_elem?_past (x ∷ xs) i h = past x xs i (get_elem?_past xs) h
    where
      past :
          (x : A) (xs : List A) (i : ℕ)
          → ((j : ℕ) → leb (length xs) j ≡ true → get_elem? xs j ≡ none)
          → leb (suc (length xs)) i ≡ true
          → get_elem? (x ∷ xs) i ≡ none
      past x xs zero rec h = absurd (ground arith)
      past x xs (suc i) rec h = rec i (ground arith)

  -- `Get` reads the slice, and fails exactly past its end.
  pub get_lem : (s : Sequence A) (i : ℕ) → get s i ≡ get_elem? s.l i
  unfolding get
  get_lem s i = elim (Bool-cases (leb (length s.l) i)) [
    | inl past ↦ rw past (sym (get_elem?_past s.l i past))
    | inr inside ↦ rw inside
  ]

  set_past : (xs : List A) (i : ℕ) (v : A) → leb (length xs) i ≡ true → set xs i v ≡ xs
  set_past [] i v h = refl
  set_past (x ∷ xs) zero v h = absurd (ground arith)
  set_past (x ∷ xs) (suc i) v h = ap (◌∷◌ x) (set_past xs i v (ground arith))

  -- `Set` writes the slice, and changes nothing past its end.
  pub put_lem : (s : Sequence A) (i : ℕ) (v : A) → (put s i v).0.l ≡ set s.l i v
  unfolding put
  put_lem s i v = elim (Bool-cases (leb (length s.l) i)) [
    | inl past ↦ rw past (sym (set_past s.l i v past))
    | inr inside ↦ rw inside
  ]
