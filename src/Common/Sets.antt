-- ===== src/Common/Sets.antt =====
-- A Go `map[int]bool` used as a set: its keys, in the order of insertion.
use Prim.Native.Nat.{ℕ, suc, ◌≤◌}
use mathlib.Core.Bool.{Bool, true, false, not, ◌&&◌, ◌||◌}
use mathlib.Core.List.{List, [], ◌∷◌, ◌++◌, Perm, Permᴰ}
use mathlib.Core.Logic.{inl, inr, ◌≢◌, ∥∥₁_elim}
use mathlib.Core.Path.{◌≡◌, refl, subst, ◌∙◌}
use native.Mathlib.Omega.{arith}
use model_guiding_fuzz.Common.Tests.{◌==◌, if◌then◌else◌, Bool-cases, ==→eq, ==_refl}
use model_guiding_fuzz.Common.Lists.{length, All, length-append, All-map}

abbrev pub contains : ℕ → List ℕ → Bool
contains k [] = false
contains k (x ∷ xs) = (x == k) || contains k xs

-- `m[k] = true`
abbrev pub add_key : ℕ → List ℕ → List ℕ
add_key k m = if contains k m then m else m ++ k ∷ []

-- No number stands twice.
abbrev pub Distinct : List ℕ → Type 0
Distinct [] = Unit
Distinct (x ∷ xs) = (contains x xs ≡ false) × Distinct xs

-- What holds of all numbers of a set holds of each.
pub All-contains {κ} :
    (P : ℕ → Type κ) (k : ℕ) (xs : List ℕ) → All P xs → contains k xs ≡ true → P k
All-contains P k [] h e = absurd (cc)
All-contains P k (x ∷ xs) h e = elim (Bool-cases (x == k)) [
  | inl same ↦ subst P (==→eq x k same) h.0
  | inr other ↦ All-contains P k xs h.1 (ground (arith, e, other))
]

-- Every number of the first list stands in the second.
abbrev pub Within : List ℕ → List ℕ → Type 0
Within xs ys = All (λ x. contains x ys ≡ true) xs

remove_key : ℕ → List ℕ → List ℕ
remove_key k [] = []
remove_key k (x ∷ xs) = if x == k then xs else x ∷ remove_key k xs

length-remove_key :
    (k : ℕ) (xs : List ℕ) → contains k xs ≡ true → length xs ≡ suc (length (remove_key k xs))
unfolding remove_key
length-remove_key k [] h = absurd (ground arith)
length-remove_key k (x ∷ xs) h = ground (arith, length-remove_key k xs)

contains-remove_key :
    (k j : ℕ) (xs : List ℕ) → contains j xs ≡ true → k ≢ j → contains j (remove_key k xs) ≡ true
unfolding remove_key
contains-remove_key k j [] h n = h
contains-remove_key k j (x ∷ xs) h n = ground (arith, contains-remove_key k j xs)

Within-remove_key :
    (k : ℕ) (xs ys : List ℕ) → Within xs ys → contains k xs ≡ false → Within xs (remove_key k ys)
Within-remove_key k [] ys w n = tt
Within-remove_key k (x ∷ xs) ys w n =
    (contains-remove_key k x ys w.0 (ground arith), Within-remove_key k xs ys w.1 (ground arith))

-- Distinct numbers that all stand in a list are at most as many as its elements.
pub pigeonhole : (xs ys : List ℕ) → Distinct xs → Within xs ys → length xs ≤ length ys
pigeonhole [] ys d w = omega arith
pigeonhole (x ∷ xs) ys d w = omega (
  arith,
  length-remove_key x ys w.0,
  pigeonhole xs (remove_key x ys) d.1 (Within-remove_key x xs ys w.1 d.0),
)

-- Each element of a list is in it.
pub contains_self : (xs : List ℕ) → Within xs xs
contains_self [] = tt
contains_self (x ∷ xs) = (
  ground (arith, ==_refl x),
  All-map (λ y. contains y xs ≡ true) _ xs (λ y h. ground (arith, h)) (contains_self xs),
)

pub contains-append :
    (k : ℕ) (xs ys : List ℕ) → contains k (xs ++ ys) ≡ (contains k xs || contains k ys)
contains-append k [] ys = refl
contains-append k (x ∷ xs) ys = ground (arith, contains-append k xs ys)

pub contains-add_key :
    (k j : ℕ) (m : List ℕ) → contains j (add_key k m) ≡ ((k == j) || contains j m)
contains-add_key k j m = ground (arith, contains-append j m (k ∷ []))

Distinct-append :
    (xs : List ℕ) (k : ℕ) → Distinct xs → contains k xs ≡ false → Distinct (xs ++ k ∷ [])
Distinct-append [] k d n = (refl, tt)
Distinct-append (x ∷ xs) k d n =
    (ground (arith, contains-append x xs (k ∷ [])), Distinct-append xs k d.1 (ground arith))

pub Distinct-add_key : (k : ℕ) (m : List ℕ) → Distinct m → Distinct (add_key k m)
Distinct-add_key k m d = ground (arith, Distinct-append m k d)

pub length-add_key : (k : ℕ) (m : List ℕ) → length (add_key k m) ≤ suc (length m)
length-add_key k m = ground (arith, length-append m (k ∷ []))

All-append_one {κ} : (P : ℕ → Type κ) (m : List ℕ) (k : ℕ) → All P m → P k → All P (m ++ k ∷ [])
All-append_one P [] k h p = (p, tt)
All-append_one P (x ∷ m) k h p = (h.0, All-append_one P m k h.1 p)

pub All-add_key {κ} : (P : ℕ → Type κ) (k : ℕ) (m : List ℕ) → All P m → P k → All P (add_key k m)
All-add_key P k m h p = elim (Bool-cases (contains k m)) [
  | inl old ↦ rw old h
  | inr new ↦ rw new (All-append_one P m k h p)
]

pub All-lookup {κ} : (P : ℕ → Type κ) (k : ℕ) (m : List ℕ) → All P m → contains k m ≡ true → P k
All-lookup P k [] h c = absurd (ground arith)
All-lookup P k (x ∷ m) h c = elim (Bool-cases (x == k)) [
  | inl same ↦ rw (← ==→eq x k same) h.0
  | inr other ↦ All-lookup P k m h.1 (ground arith)
]

-- `delete(m, k)` on a map that is a set
abbrev pub delete_key : ℕ → List ℕ → List ℕ
delete_key k [] = []
delete_key k (x ∷ xs) = if x == k then delete_key k xs else x ∷ delete_key k xs

pub contains-delete_key :
    (k j : ℕ) (xs : List ℕ) → contains j (delete_key k xs) ≡ (not (k == j) && contains j xs)
contains-delete_key k j [] = ground arith
contains-delete_key k j (x ∷ xs) = ground (arith, contains-delete_key k j xs)

contains-Permᴰ : {xs ys : List ℕ} (k : ℕ) → Permᴰ xs ys → contains k xs ≡ contains k ys
contains-Permᴰ k Permᴰ.nil = refl
contains-Permᴰ k (Permᴰ.cons e p) = ground (arith, contains-Permᴰ k p, e)
contains-Permᴰ k (Permᴰ.swap e f) = ground (arith, e, f)
contains-Permᴰ k (Permᴰ.trans p q) = contains-Permᴰ k p ∙ contains-Permᴰ k q

Distinct-Permᴰ : {xs ys : List ℕ} → Permᴰ xs ys → Distinct ys → Distinct xs
Distinct-Permᴰ Permᴰ.nil d = tt
Distinct-Permᴰ (Permᴰ.cons {a} e p) d =
    (ground (arith, contains-Permᴰ a p, e, d.0), Distinct-Permᴰ p d.1)
Distinct-Permᴰ (Permᴰ.swap e f) d =
    (ground (arith, e, f, d.0, d.1.0), (ground (arith, e, f, d.0), d.1.1))
Distinct-Permᴰ (Permᴰ.trans p q) d = Distinct-Permᴰ p (Distinct-Permᴰ q d)

Distinct-IsProp : (xs : List ℕ) → IsProp (Distinct xs)
Distinct-IsProp [] = hlevel
Distinct-IsProp (x ∷ xs) = hlevel (Distinct-IsProp xs)

-- Reorderings of distinct numbers are distinct.
pub Distinct-Perm : (xs ys : List ℕ) → Perm xs ys → Distinct ys → Distinct xs
Distinct-Perm xs ys p d = ∥∥₁_elim p (Distinct-IsProp xs) (λ q. Distinct-Permᴰ q d)
