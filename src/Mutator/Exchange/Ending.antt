-- ===== src/Mutator/Exchange/Ending.antt =====
-- When SwapMaxMessagesMutator goes wrong.
use model_guiding_fuzz.Common.{
  ==_refl, List, Runtime, [], arith, done, if◌then◌else◌, inl, inr, insert, length, ltb, none,
  out_of_fuel, panic, pure, refl, suc, ℕ, ◌>>=◌, ◌∙◌, ◌∷◌, ◌≡◌, ◌⊎◌,
}
use model_guiding_fuzz.Types.Choice.{ChoiceType, Trace}
use model_guiding_fuzz.Types.Event.{EventTrace}
use model_guiding_fuzz.Types.Sample.{fill}
use model_guiding_fuzz.Types.Sample.Fill.{fill_stuck}
use model_guiding_fuzz.Mutator.Indices.{type_indices}
use model_guiding_fuzz.Mutator.Rounds.{count_type, length-type_indices}
use model_guiding_fuzz.Mutator.Exchange.{max_messages, add_swap, exchange, swap_max_mutate}

module _ {G : Type 0} (rt : Runtime G) where
  -- With two positions `sample` returns both, in their order.
  add_swap-two :
      (fuel a b : ℕ) (m : List (ℕ × ℕ)) (g : G)
      → add_swap rt fuel (a ∷ b ∷ []) m g ≡ done (insert a b m, g)
  unfolding add_swap
  add_swap-two fuel a b m g = refl

  -- With one position it returns one, and `sp[1]` is out of range.
  exchange-one :
      (fuel a : ℕ) (trace : Trace) (g : G)
      → exchange rt max_messages 1 (suc fuel) (a ∷ []) trace g ≡ panic
  unfolding exchange fill
  exchange-one fuel a trace g = refl

  exchange-two :
      (fuel a b : ℕ) (trace : Trace) (g : G)
      → exchange rt max_messages 2 fuel (a ∷ b ∷ []) trace g ≡ out_of_fuel
  unfolding exchange
  exchange-two fuel a b trace g = rw (stuck, ◌>>=◌)
    where
      OneKey : List (ℕ × ℕ) → Type 0
      OneKey m = (m ≡ []) ⊎ ((v : ℕ) × (m ≡ (a, v) ∷ []))

      again : (m : List (ℕ × ℕ)) → OneKey m → insert a b m ≡ (a, b) ∷ []
      again m (inl e) = rw e
      again m (inr (v, e)) = rw (e, ==_refl a)

      stuck : fill length (add_swap rt fuel (a ∷ b ∷ [])) 2 fuel [] g ≡ out_of_fuel
      stuck =
          fill_stuck length (add_swap rt fuel (a ∷ b ∷ [])) 2 OneKey (λ m p. ground arith)
            (λ m g p. (insert a b m, g, add_swap-two fuel a b m g, inr (b, again m p))) fuel [] g
            (inl refl)

  module _ (trace : Trace) (events : EventTrace) where
    -- Asked for one swap, on a trace with exactly one node choice, SwapMaxMessagesMutator panics.
    pub swap_max_mutate-panic :
        (fuel : ℕ) (g : G)
        → count_type ChoiceType.node trace.l ≡ 1
        → swap_max_mutate rt 1 (suc fuel) trace events g ≡ panic
    unfolding swap_max_mutate
    swap_max_mutate-panic fuel g h =
        go (type_indices ChoiceType.node trace) (length-type_indices ChoiceType.node trace ∙ h)
      where
        go :
            (is : List ℕ)
            → length is ≡ 1
            → (if ltb (length is) 1
                  then pure none
                  else exchange rt max_messages 1 (suc fuel) is trace)
                g
              ≡ panic
        go [] e = absurd (omega arith)
        go (a ∷ []) e = exchange-one fuel a trace g
        go (a ∷ b ∷ is) e = absurd (omega arith)

    -- Asked for two swaps, on a trace with exactly two node choices, SwapMaxMessagesMutator never
    -- returns.
    pub swap_max_mutate-out_of_fuel :
        (fuel : ℕ) (g : G)
        → count_type ChoiceType.node trace.l ≡ 2
        → swap_max_mutate rt 2 fuel trace events g ≡ out_of_fuel
    unfolding swap_max_mutate
    swap_max_mutate-out_of_fuel fuel g h =
        go (type_indices ChoiceType.node trace) (length-type_indices ChoiceType.node trace ∙ h)
      where
        go :
            (is : List ℕ)
            → length is ≡ 2
            → (if ltb (length is) 2 then pure none else exchange rt max_messages 2 fuel is trace) g
              ≡ out_of_fuel
        go [] e = absurd (omega arith)
        go (a ∷ []) e = absurd (omega arith)
        go (a ∷ b ∷ []) e = exchange-two fuel a b trace g
        go (a ∷ b ∷ c ∷ is) e = absurd (omega arith)
