-- ===== src/Mutator/Scale/Points.antt =====
-- The steps of ScaleDownIntChoiceMutator and ScaleUpIntChoiceMutator at the points that they draw.
use native.Mathlib.Bridge.{le_prop}
use model_guiding_fuzz.Common.{
  ==_refl, ==→eq, All, All-Perm, Bool-cases, Distinct, Distinct-Perm, IsRuntime, List, Random,
  Returns, Returns-bind, Returns-or_panic, Returns-pure, Returns-range, Returns-weaken, Runtime, [],
  ap, arith, contains, false, get_elem?, get_elem?-bound, get_elem?-lt, get_elem?-set_ne,
  get_elem?-set_self, inl, inr, length, length-Perm, length-set, pure, range, refl, set, some, suc,
  true, zero, ℕ, ◌+◌, ◌<◌, ◌==◌, ◌>>=◌, ◌∙◌, ◌∷◌, ◌≡◌, ◌≢◌, ◌≤◌,
}
use model_guiding_fuzz.Types.Choice.{
  SchedulingChoice, ChoiceType, random_integer, Trace, copy_trace, default_copy_filter,
  copy_trace-default,
}
use model_guiding_fuzz.Types.Sample.{fill, draw_index}
use model_guiding_fuzz.Types.Sample.Ending.{Covers, fill-indices}
use model_guiding_fuzz.Mutator.Indices.{type_indices}
use model_guiding_fuzz.Mutator.Draws.{
  contains-get_elem?, type_indices-TypedAt, TypedAt, TypedAt-bounds,
}
use model_guiding_fuzz.Mutator.Rounds.{type_indices-Distinct}
use model_guiding_fuzz.Mutator.Scale.{scale_points}

-- The second list is the first with a step at each of the points, which are distinct positions of
-- integer choices, and as it was elsewhere.
pub record Scales (Step : SchedulingChoice → SchedulingChoice → Type 0)
    (cs ds : List SchedulingChoice) (points : List ℕ) : Type 0 where
  pub distinct : Distinct points
  pub same_length : length ds ≡ length cs
  pub scaled :
      (i : ℕ)
      → contains i points ≡ true
      → (c d : SchedulingChoice) × (get_elem? cs i ≡ some c)
        × (get_elem? ds i ≡ some d)
        × (c.type ≡ random_integer)
        × Step c d
  pub kept : (i : ℕ) → contains i points ≡ false → get_elem? ds i ≡ get_elem? cs i

-- One position more.
Scales-step :
    (Step : SchedulingChoice → SchedulingChoice → Type 0) (cs ds es : List SchedulingChoice)
    (points : List ℕ)
    → Scales Step cs ds points
    → (i : ℕ) (c d : SchedulingChoice) → contains i points ≡ false
    → get_elem? cs i ≡ some c
    → c.type ≡ random_integer
    → Step c d
    → es ≡ set ds i d
    → Scales Step cs es (i ∷ points)
Scales-step Step cs ds es points h i c d fresh e typed p written = record {
  distinct = (fresh, h.distinct);
  same_length = rw written (length-set ds i d ∙ h.same_length);
  scaled = λ j k. elim (Bool-cases (i == j)) [
    | inl here ↦ (c, d, rw (← ==→eq i j here) e, rw (← ==→eq i j here) at_i, typed, p)
    | inr other ↦
        let (c', d', e', f', typed', p') = h.scaled j (ground (arith, k, other)) in
        (c', d', e', elsewhere j (λ q. ground (arith, q, other)) ∙ f', typed', p')
  ];
  kept = λ j k. elsewhere j (λ q. ground (arith, q, k)) ∙ h.kept j (ground (arith, k));
}
  where
    at_i : get_elem? es i ≡ some d
    at_i =
        rw written
          (get_elem?-set_self ds i d (omega (arith, get_elem?-bound cs i c e, h.same_length)))

    elsewhere : (j : ℕ) → i ≢ j → get_elem? es j ≡ get_elem? ds j
    elsewhere j differ = rw written (get_elem?-set_ne ds i j d differ)

-- Distinct elements stand at one index each.
index_unique :
    (xs : List ℕ) (i j x : ℕ)
    → Distinct xs
    → get_elem? xs i ≡ some x
    → get_elem? xs j ≡ some x
    → i ≡ j
index_unique [] i j x d e f = absurd (cc)
index_unique (y ∷ xs) zero zero x d e f = refl
index_unique (y ∷ xs) zero (suc j) x d e f =
    absurd (ground (arith, contains-get_elem? xs j x f, e, d.0))
index_unique (y ∷ xs) (suc i) zero x d e f =
    absurd (ground (arith, contains-get_elem? xs i x e, f, d.0))
index_unique (y ∷ xs) (suc i) (suc j) x d e f = ap suc (index_unique xs i j x d.1 e f)

-- The choice at a position that has one of the type.
pub TypedAt-get_elem? :
    (t : ChoiceType) (i : ℕ) (cs : List SchedulingChoice) (k p : ℕ)
    → p ≡ i + k
    → TypedAt t i cs p
    → (c : SchedulingChoice) × (get_elem? cs k ≡ some c) × (c.type ≡ t)
TypedAt-get_elem? t i [] k p e h = absurd h
TypedAt-get_elem? t i (c ∷ cs) zero p e h = elim h [
  | inl (_, typed) ↦ (c, refl, typed)
  | inr later ↦ let (a, b) = TypedAt-bounds t (suc i) cs p later in absurd (omega arith)
]
TypedAt-get_elem? t i (c ∷ cs) (suc k) p e h = elim h [
  | inl (same, _) ↦ absurd (omega arith)
  | inr later ↦ TypedAt-get_elem? t (suc i) cs k p (omega arith) later
]

-- Steps at `n` points.
abbrev pub ScalesAt : (SchedulingChoice → SchedulingChoice → Type 0) → Trace → ℕ → Trace → Type 0
ScalesAt Step trace n t = (points : List ℕ) × (length points ≡ n) × Scales Step trace.l t.l points

module _ {G : Type 0} (Step : SchedulingChoice → SchedulingChoice → Type 0)
    (step : ℕ → Trace → Random G Trace) (trace : Trace) where
  abbrev pub indices : List ℕ
  indices = type_indices random_integer trace

  -- What a step is to do: write a choice in place of the one that is there.
  abbrev pub Writes : Type 0
  Writes =
      (i : ℕ) (t : Trace) (c : SchedulingChoice)
      → get_elem? t.l i ≡ some c
      → Returns (step i t) (λ t'. (d : SchedulingChoice) × Step c d × (t'.l ≡ set t.l i d))

  -- No position that the indices name is among the points yet.
  abbrev Fresh : List ℕ → List ℕ → Type 0
  Fresh order points =
      (k x : ℕ) → contains k order ≡ true → get_elem? indices k ≡ some x → contains x points ≡ false

  scale_points-Scales :
      Writes
      → (order : List ℕ) (t : Trace) (points : List ℕ) → Scales Step trace.l t.l points
      → Distinct order
      → All (λ k. k < length indices) order
      → Fresh order points
      → Returns
          (scale_points step indices order t)
          (ScalesAt Step trace (length points + length order))
  unfolding scale_points
  scale_points-Scales writes [] t points h d below fresh = Returns-pure t (points, omega arith, h)
  scale_points-Scales writes (k ∷ rest) t points h d below fresh =
      let (x₀, e₀) = get_elem?-lt indices k below.0 in
      Returns-bind (Returns-or_panic (get_elem? indices k) x₀ e₀) λ x e.
        (let there = contains-get_elem? indices k x e in
          let new = fresh k x (ground (arith, ==_refl k)) e in
          let (c, f, typed) =
            TypedAt-get_elem? random_integer 0 trace.l x x (omega arith)
              (type_indices-TypedAt random_integer trace x there) in
          Returns-bind (writes x t c (h.kept x new ∙ f)) λ t' (w, p, e').
            Returns-weaken (λ t'' (ps, n, r). (ps, omega (arith, n), r))
              (scale_points-Scales writes rest t' (x ∷ points)
                (Scales-step Step trace.l t.l t'.l points h x c w new f typed p e') d.1 below.1
                λ j y inside f'.
                  ground (arith, fresh j y (ground (arith, inside)) f', still x y j e f' inside)))
    where
      -- Another index names another position.
      still :
          (x y j : ℕ)
          → get_elem? indices k ≡ some x
          → get_elem? indices j ≡ some y
          → contains j rest ≡ true
          → (x == y) ≡ false
      still x y j e f inside = elim (Bool-cases (x == y)) [
        | inl same ↦
            (let one =
                index_unique indices k j x (type_indices-Distinct random_integer trace) e
                  (rw (==→eq x y same) f) in
              absurd (ground (arith, d.0, inside, one)))
        | inr other ↦ other
      ]

  Scales-none : Scales Step trace.l trace.l []
  Scales-none = record {
    distinct = tt;
    same_length = refl;
    scaled = λ i e. absurd (cc);
    kept = λ i e. refl;
  }

  module _ (rt : Runtime G) (ok : IsRuntime rt) (want k : ℕ) where
    -- What both mutators do once they know how many points to draw.
    pub scale_drawn-Returns :
        Writes
        → 0 < length indices
        → want ≤ length indices
        → ((g : G) → Covers rt (length indices) k g)
        → Returns
            (fill length (draw_index rt (length indices)) want (suc k) [] >>= λ points.
              range rt points >>= λ order.
              scale_points step indices order (copy_trace trace default_copy_filter) >>= λ t.
              pure (some t))
            (λ r. (t : Trace) × (r ≡ some t) × ScalesAt Step trace want t)
    scale_drawn-Returns writes some_left enough covers =
        Returns-bind (fill-indices rt ok (length indices) want k some_left enough covers)
          λ m (chosen, full). Returns-bind (Returns-range rt ok m) λ order p.
            (let steps : Returns
                  (scale_points step indices order (copy_trace trace default_copy_filter))
                  (ScalesAt Step trace (length order)) =
                rw (copy_trace-default trace) (
                  Returns-weaken (λ t (points, n, h). (points, omega (arith, n), h))
                    (scale_points-Scales writes order trace [] Scales-none
                      (Distinct-Perm order m p chosen.distinct)
                      (All-Perm (λ i. i < length indices) order m (λ i. le_prop) p chosen.below)
                      (λ _ _ _ _. refl))) in
              Returns-bind steps λ t (points, n, h).
                Returns-pure (some t)
                  (t, refl, (points, omega (arith, n, length-Perm p, chosen.bounded, full), h)))
