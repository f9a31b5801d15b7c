-- ===== src/Mutator/Hits.antt =====
-- How many positions of a list a set of positions names.
use model_guiding_fuzz.Common.{
  All, Bool-cases, Distinct, List, [], ap, arith, contains, false, if◌then◌else◌, inl, inr, length,
  refl, suc, zero, ℕ, ◌+◌, ◌<◌, ◌==◌, ◌∙◌, ◌∷◌, ◌≡◌, ◌≤◌,
}

-- The positions from `i` up to `i + n` that the set holds.
abbrev pub hits : List ℕ → ℕ → ℕ → ℕ
hits m i zero = 0
hits m i (suc n) = let rest = hits m (suc i) n in if contains i m then suc rest else rest

hits-nil : (i n : ℕ) → hits [] i n ≡ 0
hits-nil i zero = refl
hits-nil i (suc n) = hits-nil (suc i) n

-- A position below the range adds nothing.
hits-cons_below : (x : ℕ) (m : List ℕ) (i n : ℕ) → x < i → hits (x ∷ m) i n ≡ hits m i n
hits-cons_below x m i zero h = refl
hits-cons_below x m i (suc n) h = ground (arith, hits-cons_below x m (suc i) n)

hits-cons :
    (x : ℕ) (m : List ℕ) (i n : ℕ)
    → contains x m ≡ false
    → i ≤ x
    → x < i + n
    → hits (x ∷ m) i n ≡ suc (hits m i n)
hits-cons x m i zero new lo hi = absurd (omega arith)
hits-cons x m i (suc n) new lo hi = elim (Bool-cases (x == i)) [
  | inl here ↦ ground (arith, hits-cons_below x m (suc i) n)
  | inr later ↦ ground (arith, hits-cons x m (suc i) n)
]

-- Distinct positions within the range are all counted.
pub hits_lem :
    (m : List ℕ) (i n : ℕ) → Distinct m → All (λ k. (i ≤ k) × (k < i + n)) m → hits m i n ≡ length m
hits_lem [] i n d b = hits-nil i n
hits_lem (x ∷ m) i n d b = hits-cons x m i n d.0 b.0.0 b.0.1 ∙ ap suc (hits_lem m i n d.1 b.1)
