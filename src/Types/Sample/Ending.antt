-- ===== src/Types/Sample/Ending.antt =====
-- When a sample returns: in terms of what the next calls of `rand.Intn` return.
use model_guiding_fuzz.Common.{
  >>=-done, All, All-Perm, All-add_key, All-contains, All-map, Bool-cases, Distinct,
  Distinct-add_key, Ensures, Ensures-bind, Ensures-intn, Ensures-pure, IsRuntime, List, Returns,
  Returns-bind, Returns-if, Returns-or_panic, Returns-pure, Returns-range, Returns-weaken, Runtime,
  [], add_key, ap, arith, contains, contains-add_key, done, false, get_elem?, get_elem?-lt, inl,
  inr, intn, intn-done, leb, length, length-Perm, length-add_key, pigeonhole, refl, suc, true, zero,
  ℕ, ◌+◌, ◌<◌, ◌||◌, ◌∷◌, ◌≡◌, ◌≤◌, ◌⊎◌,
}
use native.Mathlib.Bridge.{le_prop}
use model_guiding_fuzz.Types.Sample.{fill, pick_all, draw_index, sample, count_up}
use model_guiding_fuzz.Types.Sample.Fill.{fill_inv, fill_ends}
use model_guiding_fuzz.Types.Sample.Picks.{count_up-All, length-count_up}

-- What the next `k` calls of `rand.Intn(n)` return.
unfoldable pub drawn : {G : Type 0} → Runtime G → ℕ → ℕ → G → List ℕ
drawn rt n zero g = []
drawn rt n (suc k) g = (rt.draw n g).0 ∷ drawn rt n k (rt.draw n g).1

-- The next `k` calls of `rand.Intn(n)` return each number below `n` at least once.
abbrev pub Covers : {G : Type 0} → Runtime G → ℕ → ℕ → G → Type 0
Covers rt n k g = (i : ℕ) → i < n → contains i (drawn rt n k g) ≡ true

count_up-Distinct : (i n : ℕ) → Distinct (count_up i n)
unfolding count_up
count_up-Distinct i zero = tt
count_up-Distinct i (suc n) = (new, count_up-Distinct (i + 1) n)
  where
    new : contains i (count_up (i + 1) n) ≡ false
    new = elim (Bool-cases (contains i (count_up (i + 1) n))) [
      | inl e ↦
          absurd (omega (arith, All-contains _ i (count_up (i + 1) n) (count_up-All (i + 1) n) e))
      | inr e ↦ e
    ]

-- Distinct indices of a list of length `n`, `want` of them at most.
pub record IsChosen (n want : ℕ) (m : List ℕ) : Type 0 where
  pub below : All (λ i. i < n) m
  pub distinct : Distinct m
  pub bounded : length m ≤ want

module _ {G : Type 0} (rt : Runtime G) (ok : IsRuntime rt) where
  draw_index-done :
      (n : ℕ) (m : List ℕ) (g : G)
      → 0 < n
      → draw_index rt n m g ≡ done (add_key (rt.draw n g).0 m, (rt.draw n g).1)
  unfolding draw_index
  draw_index-done n m g h = >>=-done (intn rt n) _ g (intn-done rt n g h)

  draw_index-IsChosen :
      (n want : ℕ) (m : List ℕ) (g : G) (m' : List ℕ) (g' : G)
      → IsChosen n want m
      → length m < want
      → draw_index rt n m g ≡ done (m', g')
      → IsChosen n want m'
  unfolding draw_index
  draw_index-IsChosen n want m g m' g' h more e =
      let keeps : Ensures (draw_index rt n m) (IsChosen n want) =
        Ensures-bind (Ensures-intn rt ok n) λ i lt. Ensures-pure (add_key i m) (record {
          below = All-add_key (λ i. i < n) i m h.below lt;
          distinct = Distinct-add_key i m h.distinct;
          bounded = omega (arith, length-add_key i m);
        }) in
      keeps.returns g m' g' e

  -- What a loop over indices has still to see, when `k` rounds are left.
  abbrev Unseen : ℕ → ℕ → List ℕ → G → Type 0
  Unseen n k m g = (i : ℕ) → i < n → (contains i m || contains i (drawn rt n k g)) ≡ true

  -- The loop of a sample ends if `k` draws reach every index, and it holds indices only.
  pub fill-indices :
      (n want k : ℕ)
      → 0 < n
      → want ≤ n
      → ((g : G) → Covers rt n k g)
      → Returns
          (fill length (draw_index rt n) want (suc k) [])
          (λ m. IsChosen n want m × (want ≤ length m))
  unfolding drawn
  fill-indices n want k pos enough covers = record {
    result = λ g.
        (let (m, g', e) =
            fill_ends length (draw_index rt n) want (Unseen n) full again k [] g (covers g) in
          (
            m,
            g',
            e,
            fill_inv length (draw_index rt n) want (IsChosen n want) (draw_index-IsChosen n want)
                (suc k) [] g m g' (record { below = tt; distinct = tt; bounded = omega arith }) e,
          ));
  }
    where
      full : (m : List ℕ) (g : G) → Unseen n 0 m g → want ≤ length m
      full m g s = omega (
        arith,
        pigeonhole (count_up 0 n) m (count_up-Distinct 0 n) (
            All-map _ _ (count_up 0 n) (λ i h. ground (arith, s i (omega (arith, h))))
              (count_up-All 0 n)),
        length-count_up 0 n,
      )

      again :
          (k : ℕ) (m : List ℕ) (g : G)
          → Unseen n (suc k) m g
          → length m < want
          → (m' : List ℕ) × (g' : G) × (draw_index rt n m g ≡ done (m', g')) × Unseen n k m' g'
      again k m g s more =
          let i = (rt.draw n g).0 in
          (
            add_key i m,
            _,
            draw_index-done n m g pos,
            λ j h. ground (arith, s j h, contains-add_key i j m),
          )

  -- Reads at indices of the list return as many elements.
  pick_all-Returns :
      (l : List ℕ) (ks : List ℕ)
      → All (λ k. k < length l) ks
      → Returns {G = G} (pick_all l ks) (λ xs. length xs ≡ length ks)
  unfolding pick_all
  pick_all-Returns l [] h = Returns-pure [] refl
  pick_all-Returns l (k ∷ ks) h =
      let (x, e) = get_elem?-lt l k h.0 in
      Returns-bind (Returns-or_panic (get_elem? l k) x e)
        λ y _. Returns-bind (pick_all-Returns l ks h.1) λ ys n. Returns-pure (y ∷ ys) (ap suc n)

  -- If `k` draws reach every index of a list, from wherever they begin, a sample of it returns,
  -- in at most `k` rounds of its loop. It holds as many elements as were asked for, or the whole
  -- list.
  pub sample-Returns :
      (l : List ℕ) (size k : ℕ)
      → ((g : G) → Covers rt (length l) k g)
      → Returns (sample rt (suc k) l size) (λ xs. (size ≤ length xs) ⊎ (xs ≡ l))
  unfolding sample
  sample-Returns l size k covers =
      Returns-if (leb (length l) size) (λ _. Returns-pure l (inr refl))
        λ more.
          Returns-bind
            (fill-indices (length l) size k (ground (arith, more)) (ground (arith, more)) covers)
            λ m (chosen, enough). Returns-bind (Returns-range rt ok m) λ order p.
              Returns-weaken (λ xs e. inl (omega (arith, e, length-Perm p)))
                (pick_all-Returns l order
                  (All-Perm (λ i. i < length l) order m (λ i. le_prop) p chosen.below))
