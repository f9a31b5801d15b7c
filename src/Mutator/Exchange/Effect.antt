-- ===== src/Mutator/Exchange/Effect.antt =====
-- What SwapCrashNodeMutator and SwapMaxMessagesMutator do to a trace.
use model_guiding_fuzz.Common.{
  Ensures, Ensures-any, Ensures-bind, Ensures-if, Ensures-or_panic, Ensures-pure, Ensures-weaken,
  Given, List, Perm, Runtime, [], done, get_elem?, get_elem?-map, length, ltb, map, map-set, none,
  perm-set_set, range, refl, set, set_same, some, subst, sym, ℕ, ◌*◌, ◌∙◌, ◌∷◌, ◌≡◌,
}
use mathlib.Core.List.Perm
use model_guiding_fuzz.Types.Choice.{
  SchedulingChoice, ChoiceType, stop_node, Trace, copy_trace-default,
}
use model_guiding_fuzz.Types.Event.{EventTrace}
use model_guiding_fuzz.Types.Sample.{fill}
use model_guiding_fuzz.Types.Sequence.{get, put, get_lem, put_lem}
use model_guiding_fuzz.Mutator.Indices.{type_indices}
use model_guiding_fuzz.Mutator.Exchange.{
  Field, crash_node, max_messages, take_field, exchange_pair, exchange_pairs, add_swap, exchange,
  swap_crash_mutate, swap_max_mutate,
}

-- The exchanged field of a choice, and the choice without it.
abbrev pub value : Field → SchedulingChoice → ℕ
value crash_node c = c.node
value max_messages c = c.max_messages

abbrev pub blank : Field → SchedulingChoice → SchedulingChoice
blank crash_node c = record c { node = 0 }
blank max_messages c = record c { max_messages = 0 }

-- The second list has the same choices in the same order, but for the values of one field, which
-- are reordered among them.
pub record Exchanged (f : Field) (cs ds : List SchedulingChoice) : Type 0 where
  pub values : Perm (map (value f) ds) (map (value f) cs)
  pub others : map (blank f) ds ≡ map (blank f) cs

module _ (f : Field) where
  Exchanged-refl : (cs : List SchedulingChoice) → Exchanged f cs cs
  Exchanged-refl cs = record { values = Perm.refl (map (value f) cs); others = refl }

  Exchanged-trans :
      (l bs cs : List SchedulingChoice) → Exchanged f l bs → Exchanged f bs cs → Exchanged f l cs
  Exchanged-trans l bs cs h k = record {
    values = Perm.trans k.values h.values;
    others = k.others ∙ h.others;
  }

value-take_field : (f : Field) (c d : SchedulingChoice) → value f (take_field f c d) ≡ value f d
unfolding take_field
value-take_field crash_node c d = refl
value-take_field max_messages c d = refl

blank-take_field : (f : Field) (c d : SchedulingChoice) → blank f (take_field f c d) ≡ blank f c
unfolding take_field
blank-take_field crash_node c d = refl
blank-take_field max_messages c d = refl

module _ (f : Field) (cs : List SchedulingChoice) (i j : ℕ) (x y : SchedulingChoice)
    (at_i : get_elem? cs i ≡ some x) (at_j : get_elem? cs j ≡ some y) where
  set-Exchanged : Exchanged f cs (set (set cs i (take_field f x y)) j (take_field f y x))
  set-Exchanged = record {
    values =
        rw (map-set, map-set, value-take_field, value-take_field)
          (perm-set_set (map (value f) cs) i j (value f x) (value f y)
            (get_elem?-map (value f) cs i x at_i) (get_elem?-map (value f) cs j y at_j));
    others =
        rw
          (
            map-set,
            map-set,
            blank-take_field,
            blank-take_field,
            set_same (map (blank f) cs) i (blank f x) (get_elem?-map (blank f) cs i x at_i),
          )
          (set_same (map (blank f) cs) j (blank f y) (get_elem?-map (blank f) cs j y at_j));
  }

put_both :
    (trace : Trace) (i j : ℕ) (x y : SchedulingChoice)
    → (put (put trace i x).0 j y).0.l ≡ set (set trace.l i x) j y
put_both trace i j x y = rw (put_lem, put_lem)

module _ {G : Type 0} (f : Field) where
  exchange_pair-Exchanged :
      (p : ℕ × ℕ) (trace : Trace)
      → Ensures (exchange_pair {G = G} f p trace) (λ t. Exchanged f trace.l t.l)
  unfolding exchange_pair
  exchange_pair-Exchanged (i, j) trace =
      Ensures-bind (Ensures-or_panic (get trace i) (λ x e. e)) λ x e.
        Ensures-bind (Ensures-or_panic (get trace j) (λ y h. h)) λ y h. Ensures-pure _ (
          rw put_both (
            set-Exchanged f trace.l i j x y (sym (get_lem trace i) ∙ e)
              (sym (get_lem trace j) ∙ h)))

  exchange_pairs-Exchanged :
      (ps : List (ℕ × ℕ)) (trace : Trace)
      → Ensures (exchange_pairs {G = G} f ps trace) (λ t. Exchanged f trace.l t.l)
  unfolding exchange_pairs
  exchange_pairs-Exchanged [] trace = Ensures-pure trace (Exchanged-refl f trace.l)
  exchange_pairs-Exchanged (p ∷ ps) trace = Ensures-bind (exchange_pair-Exchanged p trace) λ t₁ h.
      Ensures-weaken (λ t k. Exchanged-trans f trace.l t₁.l t.l h k)
        (exchange_pairs-Exchanged ps t₁)

module _ {G : Type 0} (rt : Runtime G) (trace : Trace) where
  exchange-Exchanged :
      (f : Field) (num_swaps fuel : ℕ) (positions : List ℕ)
      → Ensures (exchange rt f num_swaps fuel positions trace) (Given λ t. Exchanged f trace.l t.l)
  unfolding exchange
  exchange-Exchanged f num_swaps fuel positions =
      Ensures-bind (Ensures-any (fill length (add_swap rt fuel positions) num_swaps fuel []))
        λ swaps _. Ensures-bind (Ensures-any (range rt swaps)) λ order _.
          Ensures-bind (exchange_pairs-Exchanged f order _) λ t h.
            Ensures-pure (some t)
              (subst (λ (u : Trace). Exchanged f u.l t.l) (copy_trace-default trace) h)

  -- A trace that SwapCrashNodeMutator returns differs from its argument in the crashed nodes only,
  -- and those are the same nodes, as often, in another order.
  pub swap_crash_mutate-Exchanged :
      (num_swaps fuel : ℕ) (events : EventTrace) (g : G) (t' : Trace) (g' : G)
      → swap_crash_mutate rt num_swaps fuel trace events g ≡ done (some t', g')
      → Exchanged crash_node trace.l t'.l
  unfolding swap_crash_mutate
  swap_crash_mutate-Exchanged num_swaps fuel events g t' g' = exchanged.returns g (some t') g'
    where
      exchanged :
          Ensures
            (swap_crash_mutate rt num_swaps fuel trace events)
            (Given λ t. Exchanged crash_node trace.l t.l)
      exchanged =
          Ensures-if (ltb (length (type_indices stop_node trace)) (num_swaps * 2))
            (λ _. Ensures-pure none tt)
            (λ _. exchange-Exchanged crash_node num_swaps fuel (type_indices stop_node trace))

  -- A trace that SwapMaxMessagesMutator returns differs from its argument in the message limits
  -- only, and those are the same limits, as often, in another order.
  pub swap_max_mutate-Exchanged :
      (num_swaps fuel : ℕ) (events : EventTrace) (g : G) (t' : Trace) (g' : G)
      → swap_max_mutate rt num_swaps fuel trace events g ≡ done (some t', g')
      → Exchanged max_messages trace.l t'.l
  unfolding swap_max_mutate
  swap_max_mutate-Exchanged num_swaps fuel events g t' g' = exchanged.returns g (some t') g'
    where
      exchanged :
          Ensures
            (swap_max_mutate rt num_swaps fuel trace events)
            (Given λ t. Exchanged max_messages trace.l t.l)
      exchanged =
          Ensures-if (ltb (length (type_indices ChoiceType.node trace)) num_swaps)
            (λ _. Ensures-pure none tt)
            (λ _.
              exchange-Exchanged max_messages num_swaps fuel (type_indices ChoiceType.node trace))
