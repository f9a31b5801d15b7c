-- ===== src/Types/Sample.antt =====
-- types.go, sample and intRange, and the loops that draw until a map holds enough entries.
pub mod Fill
pub mod Picks
pub mod Ending
use model_guiding_fuzz.Common.{
  List, Random, Runtime, [], add_key, done, false, get_elem?, if◌then◌else◌, intn, leb, length, ltb,
  or_panic, out_of_fuel, pure, range, suc, true, zero, ℕ, ◌+◌, ◌-◌, ◌>>=◌, ◌∷◌,
}

-- `for len(m) < want { ... }` with fuel: one call of `add` is one round of the loop.
unfoldable pub fill : {G M : Type 0} → (M → ℕ) → (M → Random G M) → ℕ → ℕ → M → Random G M
fill size add want zero m g = out_of_fuel
fill size add want (suc fuel) m g = elim (ltb (size m) want) [
  | true ↦ (add m >>= fill size add want fuel) g
  | false ↦ done (m, g)
]

-- The reads `l[k]` for the keys of a map.
unfoldable pub pick_all : {G A : Type 0} → List A → List ℕ → Random G (List A)
pick_all l [] = pure []
pick_all l (k ∷ ks) = do x ← or_panic (get_elem? l k); xs ← pick_all l ks; pure (x ∷ xs)

module _ {G : Type 0} (rt : Runtime G) where
  unfoldable pub draw_index : ℕ → List ℕ → Random G (List ℕ)
  draw_index n indexes = do i ← intn rt n; pure (add_key i indexes)

  unfoldable pub sample : ℕ → List ℕ → ℕ → Random G (List ℕ)
  unfolding draw_index
  sample fuel l size = if leb (length l) size then pure l else do
    indexes ← fill length (draw_index (length l)) size fuel []
    order ← range rt indexes
    pick_all l order

-- `n` numbers from `i` up.
unfoldable pub count_up : ℕ → ℕ → List ℕ
count_up i zero = []
count_up i (suc n) = i ∷ count_up (i + 1) n

-- The numbers from `start` up to `end`. Go's `make` panics where `end < start`; no call has that.
unfoldable pub int_range : ℕ → ℕ → List ℕ
unfolding count_up
int_range start end = count_up start (end - start)
