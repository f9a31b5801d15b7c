-- ===== src/Mutator/Exchange.antt =====
-- mutator.go, SwapCrashNodeMutator and SwapMaxMessagesMutator: exchange one field of two choices.
pub mod Effect
pub mod Crashes
pub mod Ending
use model_guiding_fuzz.Common.{
  List, Option, Random, Runtime, [], get_elem?, if◌then◌else◌, insert, length, ltb, none, or_panic,
  pure, range, some, ℕ, ◌*◌, ◌>>=◌, ◌∷◌,
}
use model_guiding_fuzz.Types.Choice.{
  SchedulingChoice, ChoiceType, stop_node, Trace, copy, copy_trace, default_copy_filter,
}
use model_guiding_fuzz.Types.Sample.{fill, sample}
use model_guiding_fuzz.Types.Sequence.{get, put}
use model_guiding_fuzz.Mutator.Indices.{Mutator, type_indices}

-- The field that is exchanged.
pub data Field : Type 0 where
  crash_node max_messages : Field

-- `c` with the field of `d`.
unfoldable pub take_field : Field → SchedulingChoice → SchedulingChoice → SchedulingChoice
take_field crash_node c d = record c { node = d.node }
take_field max_messages c d = record c { max_messages = d.max_messages }

exchange_pair : {G : Type 0} → Field → ℕ × ℕ → Trace → Random G Trace
unfolding take_field copy
exchange_pair field (i, j) trace = do
  i_ch ← or_panic (get trace i)
  j_ch ← or_panic (get trace j)
  pure
      (put (put trace i (take_field field (copy i_ch) j_ch)).0 j
        (take_field field (copy j_ch) i_ch)).0

exchange_pairs : {G : Type 0} → Field → List (ℕ × ℕ) → Trace → Random G Trace
unfolding exchange_pair
exchange_pairs field [] trace = pure trace
exchange_pairs field (p ∷ ps) trace = exchange_pair field p trace >>= exchange_pairs field ps

module _ {G : Type 0} (rt : Runtime G) where
  -- `sp := sample(nodeChoices, 2, r); swaps[sp[0]] = sp[1]`
  add_swap : ℕ → List ℕ → List (ℕ × ℕ) → Random G (List (ℕ × ℕ))
  unfolding sample
  add_swap fuel node_choices swaps = do
    sp ← sample rt fuel node_choices 2
    a ← or_panic (get_elem? sp 0)
    b ← or_panic (get_elem? sp 1)
    pure (insert a b swaps)

  exchange : Field → ℕ → ℕ → List ℕ → Trace → Random G (Option Trace)
  unfolding add_swap exchange_pairs
  exchange field num_swaps fuel node_choices trace = do
    swaps ← fill length (add_swap fuel node_choices) num_swaps fuel []
    order ← range rt swaps
    new_trace ← exchange_pairs field order (copy_trace trace default_copy_filter)
    pure (some new_trace)

  unfoldable pub swap_crash_mutate : ℕ → ℕ → Mutator G
  unfolding type_indices exchange
  swap_crash_mutate num_swaps fuel trace events =
      let node_choices = type_indices stop_node trace in
      if ltb (length node_choices) (num_swaps * 2)
      then pure none
      else exchange crash_node num_swaps fuel node_choices trace

  unfoldable pub swap_max_mutate : ℕ → ℕ → Mutator G
  unfolding type_indices exchange
  swap_max_mutate num_swaps fuel trace events =
      let node_choices = type_indices ChoiceType.node trace in
      if ltb (length node_choices) num_swaps
      then pure none
      else exchange max_messages num_swaps fuel node_choices trace
