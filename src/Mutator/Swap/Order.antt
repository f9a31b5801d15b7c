-- ===== src/Mutator/Swap/Order.antt =====
-- What SwapNodeMutator and SwapIntegerChoiceMutator do to a trace.
use model_guiding_fuzz.Common.{
  Ensures, Ensures-any, Ensures-bind, Ensures-if, Ensures-or_panic, Ensures-pure, Ensures-weaken,
  Given, List, Option, Perm, Random, Runtime, [], done, if◌then◌else◌, length, ltb, none,
  perm-set_set, range, set, some, subst, sym, ℕ, ◌==◌, ◌∙◌, ◌∷◌, ◌≡◌,
}
use mathlib.Core.List.Perm
use model_guiding_fuzz.Types.Choice.{
  SchedulingChoice, ChoiceType, random_integer, Trace, copy, copy_lem, copy_trace-default,
}
use model_guiding_fuzz.Types.Event.{EventTrace}
use model_guiding_fuzz.Types.Sample.{fill}
use model_guiding_fuzz.Types.Sequence.{get, put, get_lem, put_lem}
use model_guiding_fuzz.Mutator.Indices.{type_indices}
use model_guiding_fuzz.Mutator.Swap.{
  Pair, swap_pair, swap_pairs, apply_swaps, add_pair, add_new_key, swap_mutate, swap_integer_mutate,
}

put_both :
    (trace : Trace) (i j : ℕ) (x y : SchedulingChoice)
    → (put (put trace i (copy y)).0 j (copy x)).0.l ≡ set (set trace.l i y) j x
put_both trace i j x y = rw (copy_lem y, copy_lem x, put_lem, put_lem)

module _ {G : Type 0} where
  swap_pair-perm :
      (p : Pair) (trace : Trace) → Ensures (swap_pair {G = G} p trace) (λ t. Perm t.l trace.l)
  unfolding swap_pair
  swap_pair-perm (i, j) trace = Ensures-bind (Ensures-or_panic (get trace i) (λ x e. e)) λ x e.
      Ensures-bind (Ensures-or_panic (get trace j) (λ y f. f)) λ y f. Ensures-pure _ (
        rw put_both
          (perm-set_set trace.l i j x y (sym (get_lem trace i) ∙ e) (sym (get_lem trace j) ∙ f)))

  swap_pairs-perm :
      (ps : List Pair) (trace : Trace)
      → Ensures (swap_pairs {G = G} ps trace) (λ t. Perm t.l trace.l)
  unfolding swap_pairs
  swap_pairs-perm [] trace = Ensures-pure trace (Perm.refl trace.l)
  swap_pairs-perm (p ∷ ps) trace =
      Ensures-bind (swap_pair-perm p trace)
        λ t₁ h. Ensures-weaken (λ t k. Perm.trans k h) (swap_pairs-perm ps t₁)

module _ {G : Type 0} (rt : Runtime G) (trace : Trace) where
  abbrev Reordered : Option Trace → Type 0
  Reordered = Given λ t. Perm t.l trace.l

  apply_swaps-perm : (ps : List Pair) → Ensures (apply_swaps rt ps trace) Reordered
  unfolding apply_swaps
  apply_swaps-perm ps = Ensures-bind (Ensures-any (range rt ps)) λ order _.
      Ensures-bind (swap_pairs-perm order _) λ t h.
        Ensures-pure (some t) (subst (λ (u : Trace). Perm t.l u.l) (copy_trace-default trace) h)

  -- A trace that SwapNodeMutator returns is a reordering of its argument, whatever is drawn and in
  -- whatever order the map of swaps is visited.
  pub swap_mutate-perm :
      (num_swaps fuel : ℕ) (events : EventTrace) (g : G) (t' : Trace) (g' : G)
      → swap_mutate rt num_swaps fuel trace events g ≡ done (some t', g')
      → Perm t'.l trace.l
  unfolding swap_mutate
  swap_mutate-perm num_swaps fuel events g t' g' = reordered.returns g (some t') g'
    where
      indices : List ℕ
      indices = type_indices ChoiceType.node trace

      to_swap : Random G (List Pair)
      to_swap =
          fill length (add_pair rt indices)
            (if ltb num_swaps (length indices) then num_swaps else length indices) fuel []

      reordered : Ensures (swap_mutate rt num_swaps fuel trace events) Reordered
      reordered =
          Ensures-if (length indices == 0) (λ _. Ensures-pure none tt)
            λ _. Ensures-bind (Ensures-any to_swap) λ ps _. apply_swaps-perm ps

  -- A trace that SwapIntegerChoiceMutator returns is a reordering of its argument, whatever is
  -- drawn and in whatever order the map of swaps is visited.
  pub swap_integer_mutate-perm :
      (num_swaps fuel : ℕ) (events : EventTrace) (g : G) (t' : Trace) (g' : G)
      → swap_integer_mutate rt num_swaps fuel trace events g ≡ done (some t', g')
      → Perm t'.l trace.l
  unfolding swap_integer_mutate
  swap_integer_mutate-perm num_swaps fuel events g t' g' = reordered.returns g (some t') g'
    where
      indices : List ℕ
      indices = type_indices random_integer trace

      to_swap : Random G (List Pair)
      to_swap = fill length (add_new_key rt indices) num_swaps fuel []

      reordered : Ensures (swap_integer_mutate rt num_swaps fuel trace events) Reordered
      reordered =
          Ensures-if (length indices == 0) (λ _. Ensures-pure none tt)
            λ _. Ensures-bind (Ensures-any to_swap) λ ps _. apply_swaps-perm ps
