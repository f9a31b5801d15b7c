-- ===== src/Types/Sample/Fill.antt =====
-- The rules for a loop that draws until a map holds enough entries.
use model_guiding_fuzz.Common.{
  >>=-done, >>=-eq-done, Bool-cases, Outcome, Random, done, ge→ltb, inl, inr, ltb, ltb→ge, ltb→lt,
  lt→ltb, out_of_fuel, refl, subst, suc, zero, ℕ, ◌<◌, ◌∙◌, ◌≡◌, ◌≤◌,
}
use model_guiding_fuzz.Types.Sample.{fill}

module _ {G M : Type 0} (size : M → ℕ) (add : M → Random G M) (want : ℕ) where
  -- A loop that ends has reached its size, and keeps what each of its rounds keeps.
  pub fill_inv {κ} :
      (P : M → Type κ)
      → ((m : M) (g : G) (m' : M) (g' : G) → P m → size m < want → add m g ≡ done (m', g') → P m')
      → (fuel : ℕ) (m : M) (g : G) (m' : M) (g' : G) → P m
      → fill size add want fuel m g ≡ done (m', g')
      → P m' × (want ≤ size m')
  unfolding fill
  fill_inv P round zero m g m' g' p h = absurd (cc)
  fill_inv P round (suc fuel) m g m' g' p h = elim (Bool-cases (ltb (size m) want)) [
    | inl more ↦
        let (m₁, g₁, e, rest) =
          >>=-eq-done (add m) (fill size add want fuel) g (rw (more, fill) at h) in
        fill_inv P round fuel m₁ g₁ m' g' (round m g m₁ g₁ p (ltb→lt _ _ more) e) rest
    | inr stop ↦
        let e : (let r : Outcome (M × G) = done (m, g) in r ≡ done (m', g')) =
          rw (stop, fill) at h in
        let same : m ≡ m' = cc in (subst P same p, rw (← same) (ltb→ge _ _ stop))
  ]

  -- A loop whose rounds all succeed, and keep a bound that its size never gets past, goes on for
  -- ever.
  pub fill_stuck {κ} :
      (P : M → Type κ)
      → ((m : M) → P m → size m < want)
      → ((m : M) (g : G) → P m → (m' : M) × (g' : G) × (add m g ≡ done (m', g')) × P m')
      → (fuel : ℕ) (m : M) (g : G) → P m
      → fill size add want fuel m g ≡ out_of_fuel
  unfolding fill
  fill_stuck P below round zero m g p = refl
  fill_stuck P below round (suc fuel) m g p =
      let (m₁, g₁, e, p₁) = round m g p in
      rw (lt→ltb _ _ (below m p), fill)
        (>>=-done (add m) _ g e ∙ fill_stuck P below round fuel m₁ g₁ p₁)

  -- A loop ends within its fuel if each round keeps `P` at one less, and `P 0` means that the size
  -- is reached.
  pub fill_ends {κ} :
      (P : ℕ → M → G → Type κ)
      → ((m : M) (g : G) → P 0 m g → want ≤ size m)
      → ((k : ℕ) (m : M) (g : G)
          → P (suc k) m g
          → size m < want
          → (m' : M) × (g' : G) × (add m g ≡ done (m', g')) × P k m' g')
      → (k : ℕ) (m : M) (g : G) → P k m g
      → (m' : M) × (g' : G) × (fill size add want (suc k) m g ≡ done (m', g'))
  unfolding fill
  fill_ends P full round zero m g p = (m, g, rw (ge→ltb _ _ (full m g p), fill))
  fill_ends P full round (suc k) m g p = elim (Bool-cases (ltb (size m) want)) [
    | inl more ↦
        let (m₁, g₁, e, p₁) = round k m g p (ltb→lt _ _ more) in
        let (m', g', rest) = fill_ends P full round k m₁ g₁ p₁ in
        (m', g', rw (more, fill) (>>=-done (add m) _ g e ∙ rest))
    | inr stop ↦ (m, g, rw (stop, fill))
  ]
