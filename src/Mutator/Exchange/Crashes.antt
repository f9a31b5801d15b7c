-- ===== src/Mutator/Exchange/Crashes.antt =====
-- SwapCrashNodeMutator exchanges nodes between the choices that stop nodes, and no others.
use model_guiding_fuzz.Common.{
  All, All-Perm, All-get_elem?, All-insert, Bool-cases, Ensures, Ensures-any, Ensures-bind,
  Ensures-if, Ensures-or_panic, Ensures-pure, Ensures-range, Ensures-weaken, Given, IsRuntime, List,
  Runtime, [], arith, contains, contains_self, done, false, get_elem?, get_elem?-set_ne, inl, inr,
  length, ltb, none, or_panic, refl, some, subst, true, ℕ, ◌*◌, ◌∙◌, ◌∷◌, ◌≡◌, ◌≢◌,
}
use model_guiding_fuzz.Types.Choice.{SchedulingChoice, stop_node, Trace, copy_trace-default}
use model_guiding_fuzz.Types.Event.{EventTrace}
use model_guiding_fuzz.Types.Sample.{fill}
use model_guiding_fuzz.Types.Sample.Fill.{fill_inv}
use model_guiding_fuzz.Types.Sample.Picks.{sample-All}
use model_guiding_fuzz.Types.Sequence.{get, put, put_lem}
use model_guiding_fuzz.Mutator.Indices.{type_indices}
use model_guiding_fuzz.Mutator.Draws.{type_indices-TypedAt}
use model_guiding_fuzz.Mutator.Scale.Points.{TypedAt-get_elem?}
use model_guiding_fuzz.Mutator.Exchange.{
  crash_node, exchange_pair, exchange_pairs, add_swap, exchange, swap_crash_mutate,
}
use model_guiding_fuzz.Mutator.Exchange.Effect.{Exchanged, swap_crash_mutate-Exchanged}

-- The second list has the same choices in the same order, but for the nodes of those that stop a
-- node, which are reordered among these.
pub record ExchangedCrashes (cs ds : List SchedulingChoice) : Type 0 where
  pub exchanged : Exchanged crash_node cs ds
  pub others_kept :
      (k : ℕ) (c : SchedulingChoice)
      → get_elem? cs k ≡ some c
      → c.type ≢ stop_node
      → get_elem? ds k ≡ some c

module _ (positions : List ℕ) where
  -- Both positions of a swap are among these.
  abbrev IsInside : ℕ × ℕ → Type 0
  IsInside p = (contains p.0 positions ≡ true) × (contains p.1 positions ≡ true)

  -- The lists are the same at all other positions.
  abbrev SameOutside : List SchedulingChoice → List SchedulingChoice → Type 0
  SameOutside cs ds = (k : ℕ) → contains k positions ≡ false → get_elem? ds k ≡ get_elem? cs k

  put-SameOutside :
      (trace : Trace) (i : ℕ) (c : SchedulingChoice)
      → contains i positions ≡ true
      → SameOutside trace.l (put trace i c).0.l
  put-SameOutside trace i c inside k out =
      rw (put_lem trace i c) (get_elem?-set_ne trace.l i k c apart)
    where
      apart : i ≢ k
      apart same = absurd (cc)

  module _ {G : Type 0} where
    exchange_pair-SameOutside :
        (p : ℕ × ℕ) (trace : Trace)
        → IsInside p
        → Ensures (exchange_pair {G = G} crash_node p trace) (λ t. SameOutside trace.l t.l)
    unfolding exchange_pair
    exchange_pair-SameOutside (i, j) trace (in_i, in_j) =
        Ensures-bind (Ensures-any (or_panic (get trace i))) λ x _.
          Ensures-bind (Ensures-any (or_panic (get trace j))) λ y _. Ensures-pure _ (λ k out.
            put-SameOutside (put trace i _).0 j _ in_j k out ∙ put-SameOutside trace i _ in_i k out)

    exchange_pairs-SameOutside :
        (ps : List (ℕ × ℕ)) (trace : Trace)
        → All IsInside ps
        → Ensures (exchange_pairs {G = G} crash_node ps trace) (λ t. SameOutside trace.l t.l)
    unfolding exchange_pairs
    exchange_pairs-SameOutside [] trace h = Ensures-pure trace (λ k out. refl)
    exchange_pairs-SameOutside (p ∷ ps) trace h =
        Ensures-bind (exchange_pair-SameOutside p trace h.0) λ t₁ q.
          Ensures-weaken (λ t r k out. r k out ∙ q k out) (exchange_pairs-SameOutside ps t₁ h.1)

    module _ (rt : Runtime G) where
      add_swap-Inside :
          (fuel : ℕ) (swaps : List (ℕ × ℕ))
          → All IsInside swaps
          → Ensures (add_swap rt fuel positions swaps) (All IsInside)
      unfolding add_swap
      add_swap-Inside fuel swaps h =
          Ensures-bind
            (sample-All rt (λ i. contains i positions ≡ true) fuel positions 2
              (contains_self positions))
            λ sp within.
              Ensures-bind
                (Ensures-or_panic (get_elem? sp 0) (λ a e. All-get_elem? _ sp 0 a within e))
                λ a in_a.
                  Ensures-bind
                    (Ensures-or_panic (get_elem? sp 1) (λ b e. All-get_elem? _ sp 1 b within e))
                    λ b in_b. Ensures-pure _ (All-insert IsInside a b swaps h (in_a, in_b))

      fill-Inside :
          (num_swaps fuel : ℕ)
          → Ensures (fill length (add_swap rt fuel positions) num_swaps fuel []) (All IsInside)
      fill-Inside num_swaps fuel = record {
        returns = λ g swaps g' e.
            (fill_inv length (add_swap rt fuel positions) num_swaps (All IsInside)
              (λ m g m' g' h _ e. (add_swap-Inside fuel m h).returns g m' g' e) fuel [] g swaps g'
              tt e).0;
      }

      exchange-SameOutside :
          (ok : IsRuntime rt) (num_swaps fuel : ℕ) (trace : Trace)
          → Ensures
              (exchange rt crash_node num_swaps fuel positions trace)
              (Given λ t. SameOutside trace.l t.l)
      unfolding exchange
      exchange-SameOutside ok num_swaps fuel trace =
          Ensures-bind (fill-Inside num_swaps fuel) λ swaps inside.
            Ensures-bind (Ensures-range rt ok swaps) λ order p.
              Ensures-bind
                (exchange_pairs-SameOutside order _
                  (All-Perm IsInside order swaps (λ p. hlevel) p inside))
                λ t h.
                  Ensures-pure (some t)
                    (subst (λ (u : Trace). SameOutside u.l t.l) (copy_trace-default trace) h)

module _ {G : Type 0} (rt : Runtime G) (ok : IsRuntime rt) (trace : Trace) where
  -- A trace that SwapCrashNodeMutator returns is its argument with the nodes of the choices that
  -- stop a node reordered: they are the same nodes, as often, the other fields of these choices
  -- are as they were, and so is every choice of another type. It is asked that range keeps to what
  -- Go promises.
  pub swap_crash_mutate-ExchangedCrashes :
      (num_swaps fuel : ℕ) (events : EventTrace) (g : G) (t' : Trace) (g' : G)
      → swap_crash_mutate rt num_swaps fuel trace events g ≡ done (some t', g')
      → ExchangedCrashes trace.l t'.l
  unfolding swap_crash_mutate
  swap_crash_mutate-ExchangedCrashes num_swaps fuel events g t' g' e = record {
    exchanged = swap_crash_mutate-Exchanged rt trace num_swaps fuel events g t' g' e;
    others_kept = λ k c at_k other. elim (Bool-cases (contains k positions)) [
      | inl inside ↦
          let (d, at_k', typed) =
            TypedAt-get_elem? stop_node 0 trace.l k k (omega arith)
              (type_indices-TypedAt stop_node trace k inside) in
          absurd (other (let same : d ≡ c = cc in subst (λ x. x.type ≡ stop_node) same typed))
      | inr out ↦ outside.returns g (some t') g' e k out ∙ at_k
    ];
  }
    where
      positions : List ℕ
      positions = type_indices stop_node trace

      outside :
          Ensures
            (swap_crash_mutate rt num_swaps fuel trace events)
            (Given λ t. SameOutside positions trace.l t.l)
      outside =
          Ensures-if (ltb (length positions) (num_swaps * 2)) (λ _. Ensures-pure none tt)
            (λ _. exchange-SameOutside positions rt ok num_swaps fuel trace)
