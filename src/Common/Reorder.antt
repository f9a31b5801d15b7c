-- ===== src/Common/Reorder.antt =====
-- Writes into a list, seen as reorderings and under a map.
use Prim.Native.Nat.{ℕ, zero, suc}
use mathlib.Core.List.{
  List, [], ◌∷◌, map, Perm, Mem, mem-cons_self, mem-cons_of_mem, eq-or-mem_of_mem-cons, not-mem-nil,
}
use mathlib.Core.Logic.Or
use mathlib.Core.List.Perm
use mathlib.Core.List.{Permᴰ}
use mathlib.Core.Logic.{∥∥₁_elim}
use mathlib.Core.Option.{some}
use mathlib.Core.Path.{◌≡◌, refl, ap, subst, sym, ◌∙◌}
use model_guiding_fuzz.Common.Lists.{get_elem?, set, All, length}

-- An element that moves to the front, and the front element into its place.
perm-set_front {ℓ} :
    {A : Type ℓ} (x y : A) (xs : List A) (j : ℕ)
    → get_elem? xs j ≡ some y
    → Perm (y ∷ set xs j x) (x ∷ xs)
perm-set_front x y [] j e = absurd (cc)
perm-set_front x y (z ∷ zs) zero e = let same : z ≡ y = cc in rw same (Perm.swap x y zs)
perm-set_front x y (z ∷ zs) (suc j) e =
    Perm.trans (Perm.swap z y (set zs j x))
      (Perm.trans (Perm.cons z (perm-set_front x y zs j e)) (Perm.swap x z zs))

-- Two writes that exchange two elements only reorder the list.
pub perm-set_set {ℓ} :
    {A : Type ℓ} (xs : List A) (i j : ℕ) (x y : A)
    → get_elem? xs i ≡ some x
    → get_elem? xs j ≡ some y
    → Perm (set (set xs i y) j x) xs
perm-set_set [] i j x y e f = absurd (cc)
perm-set_set (z ∷ zs) zero zero x y e f = let same : z ≡ x = cc in rw same (Perm.refl (x ∷ zs))
perm-set_set (z ∷ zs) zero (suc j) x y e f =
    let same : z ≡ x = cc in rw same (perm-set_front x y zs j f)
perm-set_set (z ∷ zs) (suc i) zero x y e f =
    let same : z ≡ y = cc in rw same (perm-set_front y x zs i e)
perm-set_set (z ∷ zs) (suc i) (suc j) x y e f = Perm.cons z (perm-set_set zs i j x y e f)

-- A write of the element that is there already changes nothing.
pub set_same {ℓ} :
    {A : Type ℓ} (xs : List A) (i : ℕ) (x : A) → get_elem? xs i ≡ some x → set xs i x ≡ xs
set_same [] i x e = refl
set_same (z ∷ zs) zero x e = let same : z ≡ x = cc in rw same
set_same (z ∷ zs) (suc i) x e = ap (◌∷◌ z) (set_same zs i x e)

module _ {ℓ κ} {A : Type ℓ} {B : Type κ} (f : A → B) where
  pub map-set : (xs : List A) (i : ℕ) (x : A) → map f (set xs i x) ≡ set (map f xs) i (f x)
  map-set [] i x = refl
  map-set (z ∷ zs) zero x = refl
  map-set (z ∷ zs) (suc i) x = ap (◌∷◌ (f z)) (map-set zs i x)

  pub get_elem?-map :
      (xs : List A) (i : ℕ) (x : A) → get_elem? xs i ≡ some x → get_elem? (map f xs) i ≡ some (f x)
  get_elem?-map [] i x e = absurd (cc)
  get_elem?-map (z ∷ zs) zero x e = let same : z ≡ x = cc in rw same
  get_elem?-map (z ∷ zs) (suc i) x e = get_elem?-map zs i x e

-- What holds of all elements holds of each, and back.
pub All-Mem :
    {A : Type 0} (P : A → Type 0) (x : A) (xs : List A) → IsProp (P x) → All P xs → Mem x xs → P x
All-Mem P x [] prop h m = absurd (not-mem-nil m)
All-Mem P x (y ∷ ys) prop h m =
    Or.elim prop (eq-or-mem_of_mem-cons m) (λ e. subst P (sym e) h.0)
      (λ m'. All-Mem P x ys prop h.1 m')

pub Mem-All : {A : Type 0} (P : A → Type 0) (xs : List A) → ((x : A) → Mem x xs → P x) → All P xs
Mem-All P [] h = tt
Mem-All P (x ∷ xs) h = (h x mem-cons_self, Mem-All P xs (λ y m. h y (mem-cons_of_mem x m)))

pub All-Perm :
    {A : Type 0} (P : A → Type 0) (xs ys : List A)
    → ((x : A) → IsProp (P x))
    → Perm xs ys
    → All P ys
    → All P xs
All-Perm P xs ys prop p h =
    Mem-All P xs (λ x m. All-Mem P x ys (prop x) h ((Perm.mem_iff {a = x} p).0 m))

module _ {A : Type 0} where
  Permᴰ-length : {xs ys : List A} → Permᴰ xs ys → length xs ≡ length ys
  Permᴰ-length Permᴰ.nil = refl
  Permᴰ-length (Permᴰ.cons e p) = ap suc (Permᴰ-length p)
  Permᴰ-length (Permᴰ.swap e f) = refl
  Permᴰ-length (Permᴰ.trans p q) = Permᴰ-length p ∙ Permᴰ-length q

  pub length-Perm : {xs ys : List A} → Perm xs ys → length xs ≡ length ys
  length-Perm p = ∥∥₁_elim p (hlevel) Permᴰ-length
