-- ===== src/Benchmark/Names.antt =====
-- Which names the maps of the benchmarks have.
use model_guiding_fuzz.Common.{
  All, All-map, Bool, Bool-cases, List, [], ap, arith, false, inl, inr, refl, some, subst, true,
  ◌||◌, ◌∷◌, ◌≡◌,
}
use Prim.Native.String.{String}
use text.Mathlib.Text
use text.Mathlib.TextEquality.{eq_iff}
use model_guiding_fuzz.Benchmark.{RunInfo, lookup_name, insert_name}

abbrev pub has_name : {A : Type 0} → String → List (String × A) → Bool
has_name name [] = false
has_name name ((n, a) ∷ m) = Text.◌==◌ n name || has_name name m

pub lookup_name-has :
    {A : Type 0} (name : String) (m : List (String × A))
    → has_name name m ≡ true
    → (a : A) × (lookup_name name m ≡ some a)
unfolding lookup_name
lookup_name-has name [] h = absurd (cc)
lookup_name-has name ((n, a) ∷ m) h = elim (Bool-cases (Text.◌==◌ n name)) [
  | inl same ↦ (a, rw same refl)
  | inr other ↦ let (b, e) = lookup_name-has name m (ground (arith, h, other)) in (b, rw (other) e)
]

-- A write adds its name, and no other.
pub has_name-insert :
    {A : Type 0} (k name : String) (a : A) (m : List (String × A))
    → has_name k (insert_name name a m) ≡ (Text.◌==◌ name k || has_name k m)
unfolding insert_name
has_name-insert k name a [] = refl
has_name-insert k name a ((n, b) ∷ m) = elim (Bool-cases (Text.◌==◌ n name)) [
  | inl same ↦
      let e : Text.◌==◌ n k ≡ Text.◌==◌ name k = ap (λ s. Text.◌==◌ s k) ((eq_iff n name).0 same) in
      rw same (ground (arith, e))
  | inr other ↦ rw other (ground (arith, has_name-insert k name a m))
]

-- The elements of a map have their names in it.
pub names_self : {A : Type 0} (m : List (String × A)) → All (λ e. has_name e.0 m ≡ true) m
names_self [] = tt
names_self ((n, a) ∷ m) = (
  ground (arith, (eq_iff n n).1 refl),
  All-map (λ e. has_name e.0 m ≡ true) _ m (λ e h. ground (arith, h)) (names_self m),
)

-- What holds of the elements of a map holds of one with a name that the map has.
pub All-has_name :
    {A : Type 0} (P : String → Type 0) (name : String) (m : List (String × A))
    → All (λ e. P e.0) m
    → has_name name m ≡ true
    → P name
All-has_name P name [] h e = absurd (cc)
All-has_name P name ((n, a) ∷ m) h e = elim (Bool-cases (Text.◌==◌ n name)) [
  | inl same ↦ subst P ((eq_iff n name).0 same) h.0
  | inr other ↦ All-has_name P name m h.1 (ground (arith, e, other))
]

-- The names of the benchmarks that some run has a time for.
abbrev pub is_recorded : String → List RunInfo → Bool
is_recorded name [] = false
is_recorded name (info ∷ infos) = has_name name info.run_times || is_recorded name infos
