-- ===== src/Mutator/Draws.antt =====
-- What the drawing loops of the mutators choose: distinct positions of choices of one type.
use model_guiding_fuzz.Common.{
  >>=-eq-done, All-add_key, All-lookup, All-map, Distinct, Distinct-add_key, List, Runtime, Within,
  [], add_key, arith, contains, done, get_elem?, inl, inr, intn, length, length-add_key, or_panic,
  some, suc, true, zero, ℕ, ◌+◌, ◌<◌, ◌∷◌, ◌≡◌, ◌≤◌, ◌⊎◌,
}
use model_guiding_fuzz.Types.Choice.{SchedulingChoice, ChoiceType, Trace, same_type→eq}
use model_guiding_fuzz.Types.Sample.{fill}
use model_guiding_fuzz.Types.Sample.Fill.{fill_inv}
use model_guiding_fuzz.Mutator.Hits.{hits, hits_lem}
use model_guiding_fuzz.Mutator.Indices.{indices_from, type_indices, draw_from}

-- In a list whose first position is `i`, position `k` holds a choice of type `t`.
abbrev pub TypedAt : ChoiceType → ℕ → List SchedulingChoice → ℕ → Type 0
TypedAt t i [] k = ⊥
TypedAt t i (c ∷ cs) k = ((k ≡ i) × (c.type ≡ t)) ⊎ TypedAt t (suc i) cs k

pub TypedAt-bounds :
    (t : ChoiceType) (i : ℕ) (cs : List SchedulingChoice) (k : ℕ)
    → TypedAt t i cs k
    → (i ≤ k) × (k < i + length cs)
TypedAt-bounds t i [] k h = absurd h
TypedAt-bounds t i (c ∷ cs) k (inl (e, _)) = omega arith
TypedAt-bounds t i (c ∷ cs) k (inr h) = let (a, b) = TypedAt-bounds t (suc i) cs k h in omega arith

-- The set names choices of type `t` only, as far as the list from position `i` goes.
abbrev pub Names : List ℕ → ChoiceType → ℕ → List SchedulingChoice → Type 0
Names m t i cs = (k : ℕ) → contains k m ≡ true → i ≤ k → TypedAt t i cs k

module _ (m : List ℕ) (t : ChoiceType) where
  pub Names-head :
      (i : ℕ) (c : SchedulingChoice) (cs : List SchedulingChoice)
      → Names m t i (c ∷ cs)
      → contains i m ≡ true
      → c.type ≡ t
  Names-head i c cs h e = elim (h i e (omega arith)) [
    | inl (_, typed) ↦ typed
    | inr later ↦ let (a, _) = TypedAt-bounds t (suc i) cs i later in absurd (omega arith)
  ]

  pub Names-tail :
      (i : ℕ) (c : SchedulingChoice) (cs : List SchedulingChoice)
      → Names m t i (c ∷ cs)
      → Names m t (suc i) cs
  Names-tail i c cs h k e lo = elim (h k e (omega arith)) [
    | inl (same, _) ↦ absurd (omega arith)
    | inr later ↦ later
  ]

pub indices_from-TypedAt :
    (t : ChoiceType) (i : ℕ) (cs : List SchedulingChoice) (k : ℕ)
    → contains k (indices_from t i cs) ≡ true
    → TypedAt t i cs k
unfolding indices_from
indices_from-TypedAt t i [] k h = absurd (ground arith)
indices_from-TypedAt t i (c ∷ cs) k h =
    ground (arith, indices_from-TypedAt t (suc i) cs k, same_type→eq c.type t)

pub type_indices-TypedAt :
    (t : ChoiceType) (trace : Trace) (k : ℕ)
    → contains k (type_indices t trace) ≡ true
    → TypedAt t 0 trace.l k
unfolding type_indices
type_indices-TypedAt t trace k h = indices_from-TypedAt t 0 trace.l k h

pub contains-get_elem? : (xs : List ℕ) (k x : ℕ) → get_elem? xs k ≡ some x → contains x xs ≡ true
contains-get_elem? [] k x h = absurd (cc)
contains-get_elem? (y ∷ xs) zero x h = ground arith
contains-get_elem? (y ∷ xs) (suc k) x h = ground (arith, contains-get_elem? xs k x h)

module _ {G : Type 0} (rt : Runtime G) (indices : List ℕ) where
  draw_from_inv :
      (m : List ℕ) (g : G) (m' : List ℕ) (g' : G)
      → draw_from rt indices m g ≡ done (m', g')
      → (next : ℕ) × (contains next indices ≡ true) × (m' ≡ add_key next m)
  unfolding draw_from
  draw_from_inv m g m' g' h =
      let (k, g₁, e₁, h₁) = >>=-eq-done (intn rt (length indices)) _ g h in
      let (next, g₂, e₂, h₂) = >>=-eq-done (or_panic (get_elem? indices k)) _ g₁ h₁ in
      (next, contains-get_elem? indices k next (ground arith), ground arith)

  -- A set of positions, of the size asked for.
  pub record IsPicked (want : ℕ) (m : List ℕ) : Type 0 where
    pub distinct : Distinct m
    pub within : Within m indices
    pub bounded : length m ≤ want

  -- A drawing loop that ends has chosen as many distinct positions as it was asked for.
  pub fill-IsPicked :
      (want fuel : ℕ) (g : G) (m : List ℕ) (g' : G)
      → fill length (draw_from rt indices) want fuel [] g ≡ done (m, g')
      → IsPicked want m × (length m ≡ want)
  fill-IsPicked want fuel g m g' h =
      let (p, enough) =
        fill_inv length (draw_from rt indices) want (IsPicked want) round fuel [] g m g'
          (record { distinct = tt; within = tt; bounded = omega arith }) h in
      (p, omega arith)
    where
      round :
          (m : List ℕ) (g : G) (m' : List ℕ) (g' : G)
          → IsPicked want m
          → length m < want
          → draw_from rt indices m g ≡ done (m', g')
          → IsPicked want m'
      round m g m' g' p more e =
          let (next, inside, same) = draw_from_inv m g m' g' e in
          rw same (record {
            distinct = Distinct-add_key next m p.distinct;
            within = All-add_key (λ x. contains x indices ≡ true) next m p.within inside;
            bounded = omega (arith, length-add_key next m);
          })

-- What a drawing loop chooses among the positions of a type.
module _ {G : Type 0} (rt : Runtime G) (t : ChoiceType) (trace : Trace) (want : ℕ)
    (m : List ℕ) where
  pub picked-Names : IsPicked rt (type_indices t trace) want m → Names m t 0 trace.l
  picked-Names p k e _ =
      type_indices-TypedAt t trace k
        (All-lookup (λ x. contains x (type_indices t trace) ≡ true) k m p.within e)

  pub picked-hits : IsPicked rt (type_indices t trace) want m → hits m 0 (length trace.l) ≡ length m
  picked-hits p = hits_lem m 0 (length trace.l) p.distinct (
      All-map _ (λ k. (0 ≤ k) × (k < 0 + length trace.l)) m
        (λ k e. TypedAt-bounds t 0 trace.l k (type_indices-TypedAt t trace k e)) p.within)
