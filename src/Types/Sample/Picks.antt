-- ===== src/Types/Sample/Picks.antt =====
-- What a sample and a range of numbers hold.
use model_guiding_fuzz.Common.{
  All, All-get_elem?, All-map, Ensures, Ensures-any, Ensures-bind, Ensures-if, Ensures-or_panic,
  Ensures-pure, List, Runtime, [], ap, arith, get_elem?, leb, length, range, refl, suc, zero, ℕ,
  ◌+◌, ◌-◌, ◌<◌, ◌∷◌, ◌≡◌, ◌≤◌,
}
use model_guiding_fuzz.Types.Sample.{pick_all, sample, count_up, int_range}

pick_all-All :
    {G A : Type 0} (P : A → Type 0) (l : List A) (ks : List ℕ)
    → All P l
    → Ensures {G = G} (pick_all l ks) (All P)
unfolding pick_all
pick_all-All P l [] h = Ensures-pure [] tt
pick_all-All P l (k ∷ ks) h =
    Ensures-bind (Ensures-or_panic (get_elem? l k) (λ x e. All-get_elem? P l k x h e))
      λ x p. Ensures-bind (pick_all-All P l ks h) λ xs q. Ensures-pure (x ∷ xs) (p, q)

-- A sample holds nothing but elements of the list that it is taken from.
pub sample-All :
    {G : Type 0} (rt : Runtime G) (P : ℕ → Type 0) (fuel : ℕ) (l : List ℕ) (size : ℕ)
    → All P l
    → Ensures (sample rt fuel l size) (All P)
unfolding sample
sample-All rt P fuel l size h =
    Ensures-if (leb (length l) size) (λ _. Ensures-pure l h)
      λ _. Ensures-bind (Ensures-any _) λ indexes _.
        Ensures-bind (Ensures-any (range rt indexes)) λ order _. pick_all-All P l order h

pub count_up-All : (i n : ℕ) → All (λ k. (i ≤ k) × (k < i + n)) (count_up i n)
unfolding count_up
count_up-All i zero = tt
count_up-All i (suc n) = (
  omega arith,
  All-map (λ k. (i + 1 ≤ k) × (k < i + 1 + n)) (λ k. (i ≤ k) × (k < i + suc n)) (count_up (i + 1) n)
      (λ k h. omega (arith, h)) (count_up-All (i + 1) n),
)

pub int_range-All : (start end : ℕ) → All (λ k. (start ≤ k) × (k < end)) (int_range start end)
unfolding int_range
int_range-All start end =
    All-map _ (λ k. (start ≤ k) × (k < end)) (count_up start (end - start))
      (λ k h. omega (arith, h)) (count_up-All start (end - start))

pub length-count_up : (i n : ℕ) → length (count_up i n) ≡ n
unfolding count_up
length-count_up i zero = refl
length-count_up i (suc n) = ap suc (length-count_up (i + 1) n)

pub length-int_range : (n : ℕ) → length (int_range 0 n) ≡ n
unfolding int_range
length-int_range n = omega (arith, length-count_up 0 (n - 0))
