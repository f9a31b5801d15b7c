-- ===== src/Mutator/Rounds.antt =====
-- When the drawing loops of the mutators end.
use model_guiding_fuzz.Common.{
  >>=-done, All-add_key, Bool-cases, Distinct, Distinct-add_key, IsRuntime, List, Runtime, Within,
  [], add_key, arith, contains, contains-add_key, done, false, get_elem?, get_elem?-bound,
  get_elem?-lt, if◌then◌else◌, inl, inr, intn, intn-done, length, or_panic, or_panic-done,
  out_of_fuel, pigeonhole, refl, some, suc, true, ℕ, ◌<◌, ◌||◌, ◌∙◌, ◌∷◌, ◌≡◌, ◌≤◌,
}
use model_guiding_fuzz.Types.Choice.{SchedulingChoice, ChoiceType, Trace, same_type}
use model_guiding_fuzz.Types.Sample.{fill}
use model_guiding_fuzz.Types.Sample.Ending.{drawn, Covers}
use model_guiding_fuzz.Types.Sample.Fill.{fill_stuck, fill_ends}
use model_guiding_fuzz.Mutator.Indices.{indices_from, type_indices, draw_from}
use model_guiding_fuzz.Mutator.Draws.{contains-get_elem?, TypedAt-bounds, indices_from-TypedAt}

indices_from-Distinct :
    (t : ChoiceType) (i : ℕ) (cs : List SchedulingChoice) → Distinct (indices_from t i cs)
unfolding indices_from
indices_from-Distinct t i [] = tt
indices_from-Distinct t i (c ∷ cs) =
    let rest = indices_from-Distinct t (suc i) cs in ground (arith, rest, new)
  where
    new : contains i (indices_from t (suc i) cs) ≡ false
    new = elim (Bool-cases (contains i (indices_from t (suc i) cs))) [
      | inl e ↦
          let (a, _) = TypedAt-bounds t (suc i) cs i (indices_from-TypedAt t (suc i) cs i e) in
          absurd (omega arith)
      | inr e ↦ e
    ]

pub type_indices-Distinct : (t : ChoiceType) (trace : Trace) → Distinct (type_indices t trace)
unfolding type_indices
type_indices-Distinct t trace = indices_from-Distinct t 0 trace.l

-- How many choices of a type a trace has.
unfoldable pub count_type : ChoiceType → List SchedulingChoice → ℕ
count_type t [] = 0
count_type t (c ∷ cs) = let rest = count_type t cs in if same_type c.type t then suc rest else rest

length-indices_from :
    (t : ChoiceType) (i : ℕ) (cs : List SchedulingChoice)
    → length (indices_from t i cs) ≡ count_type t cs
unfolding indices_from count_type
length-indices_from t i [] = refl
length-indices_from t i (c ∷ cs) = ground (arith, length-indices_from t (suc i) cs)

pub length-type_indices :
    (t : ChoiceType) (trace : Trace) → length (type_indices t trace) ≡ count_type t trace.l
unfolding type_indices
length-type_indices t trace = length-indices_from t 0 trace.l

Within-by-index :
    (xs m : List ℕ) → ((i x : ℕ) → get_elem? xs i ≡ some x → contains x m ≡ true) → Within xs m
Within-by-index [] m h = tt
Within-by-index (x ∷ xs) m h = (h 0 x refl, Within-by-index xs m (λ i y e. h (suc i) y e))

module _ {G : Type 0} (rt : Runtime G) (ok : IsRuntime rt) (indices : List ℕ) where
  -- A round of the loop draws one of the positions.
  draw_from_total :
      (m : List ℕ) (g : G)
      → 0 < length indices
      → (x : ℕ) × (get_elem? indices (rt.draw (length indices) g).0 ≡ some x)
        × (draw_from rt indices m g ≡ done (add_key x m, (rt.draw (length indices) g).1))
  unfolding draw_from
  draw_from_total m g h =
      let n = length indices in
      let (x, e) = get_elem?-lt indices (rt.draw n g).0 (ok.draw_lt n g h) in (x, e, step x e)
    where
      step :
          (x : ℕ)
          → get_elem? indices (rt.draw (length indices) g).0 ≡ some x
          → draw_from rt indices m g ≡ done (add_key x m, (rt.draw (length indices) g).1)
      step x e =
          >>=-done (intn rt (length indices)) _ g (intn-done rt (length indices) g h)
          ∙ >>=-done (or_panic (get_elem? indices (rt.draw (length indices) g).0)) _ _
              (or_panic-done _ _ e)

  abbrev Chosen : List ℕ → Type 0
  Chosen m = Distinct m × Within m indices

  -- No loop collects more distinct positions than there are.
  pub fill-out_of_fuel :
      (want fuel : ℕ) (g : G)
      → 0 < length indices
      → length indices < want
      → fill length (draw_from rt indices) want fuel [] g ≡ out_of_fuel
  fill-out_of_fuel want fuel g some_left few =
      fill_stuck length (draw_from rt indices) want Chosen
        (λ m p. omega (arith, pigeonhole m indices p.0 p.1)) (λ m g p. again m g p) fuel [] g
        (tt, tt)
    where
      again :
          (m : List ℕ) (g : G)
          → Chosen m
          → (m' : List ℕ) × (g' : G) × (draw_from rt indices m g ≡ done (m', g')) × Chosen m'
      again m g p =
          let (x, e, step) = draw_from_total m g some_left in
          (
            add_key x m,
            _,
            step,
            (
              Distinct-add_key x m p.0,
              All-add_key (λ y. contains y indices ≡ true) x m p.1
                  (contains-get_elem? indices _ x e),
            ),
          )

  -- What the loop has still to see, when `k` rounds are left: every position is in the set, or is
  -- among the next `k` draws.
  abbrev Seen : ℕ → List ℕ → G → Type 0
  Seen k m g =
      (i x : ℕ)
      → get_elem? indices i ≡ some x
      → (contains x m || contains i (drawn rt (length indices) k g)) ≡ true

  -- A loop ends if it asks for no more positions than there are, and `k` draws reach all of them.
  pub fill-done :
      (want k : ℕ) (g : G)
      → 0 < length indices
      → Distinct indices
      → want ≤ length indices
      → Covers rt (length indices) k g
      → (m : List ℕ) × (g' : G) × (fill length (draw_from rt indices) want (suc k) [] g
          ≡ done (m, g'))
  unfolding drawn
  fill-done want k g some_left distinct enough covers =
      fill_ends length (draw_from rt indices) want Seen full again k [] g
        (λ i x e. covers i (get_elem?-bound indices i x e))
    where
      full : (m : List ℕ) (g : G) → Seen 0 m g → want ≤ length m
      full m g s = omega (
        arith,
        pigeonhole indices m distinct
            (Within-by-index indices m (λ i x e. ground (arith, s i x e))),
      )

      again :
          (k : ℕ) (m : List ℕ) (g : G)
          → Seen (suc k) m g
          → length m < want
          → (m' : List ℕ) × (g' : G) × (draw_from rt indices m g ≡ done (m', g')) × Seen k m' g'
      again k m g s more =
          let (x, e, step) = draw_from_total m g some_left in
          (add_key x m, _, step, λ j y h. ground (arith, s j y h, contains-add_key x y m))
