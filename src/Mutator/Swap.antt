-- ===== src/Mutator/Swap.antt =====
-- mutator.go, SwapNodeMutator and SwapIntegerChoiceMutator: exchange whole choices.
pub mod Order
use model_guiding_fuzz.Common.{
  Bool, List, Option, Random, Runtime, [], contains, false, get_elem?, if◌then◌else◌, intn, keys,
  length, ltb, none, or_panic, pure, range, some, ℕ, ◌&&◌, ◌++◌, ◌==◌, ◌>>=◌, ◌||◌, ◌∷◌,
}
use model_guiding_fuzz.Types.Choice.{
  ChoiceType, random_integer, Trace, copy, copy_trace, default_copy_filter,
}
use model_guiding_fuzz.Types.Sample.{fill}
use model_guiding_fuzz.Types.Sequence.{get, put}
use model_guiding_fuzz.Mutator.Indices.{Mutator, type_indices}

abbrev pub Pair : Type 0
Pair = ℕ × ℕ

-- Whether a map with the keys "i_j" has the key of this pair.
has_pair : ℕ → ℕ → List Pair → Bool
has_pair i j [] = false
has_pair i j ((a, b) ∷ m) = (a == i && b == j) || has_pair i j m

-- The two choices change places. A position past the end would give a nil pointer.
swap_pair : {G : Type 0} → Pair → Trace → Random G Trace
swap_pair (i, j) trace = do
  first ← or_panic (get trace i)
  second ← or_panic (get trace j)
  pure (put (put trace i (copy second)).0 j (copy first)).0

swap_pairs : {G : Type 0} → List Pair → Trace → Random G Trace
unfolding swap_pair
swap_pairs [] trace = pure trace
swap_pairs (p ∷ ps) trace = swap_pair p trace >>= swap_pairs ps

module _ {G : Type 0} (rt : Runtime G) where
  draw_pair : List ℕ → Random G Pair
  draw_pair indices = do
    a ← intn rt (length indices)
    i ← or_panic (get_elem? indices a)
    b ← intn rt (length indices)
    j ← or_panic (get_elem? indices b)
    pure (i, j)

  add_pair : List ℕ → List Pair → Random G (List Pair)
  unfolding draw_pair has_pair
  add_pair indices m = do
    (i, j) ← draw_pair indices
    pure (if has_pair i j m then m else m ++ (i, j) ∷ [])

  -- `toSwap[i] = {j: true}`, unless `i` is there already.
  add_new_key : List ℕ → List Pair → Random G (List Pair)
  unfolding draw_pair
  add_new_key indices m = do
    (i, j) ← draw_pair indices
    pure (if contains i (keys m) then m else m ++ (i, j) ∷ [])

  -- The copy of the trace with the swaps done, in the order in which `range` visits the map.
  apply_swaps : List Pair → Trace → Random G (Option Trace)
  unfolding swap_pairs
  apply_swaps to_swap trace = do
    order ← range rt to_swap
    new_trace ← swap_pairs order (copy_trace trace default_copy_filter)
    pure (some new_trace)

  unfoldable pub swap_mutate : ℕ → ℕ → Mutator G
  unfolding type_indices add_pair apply_swaps
  swap_mutate num_swaps fuel trace events =
      let indices = type_indices ChoiceType.node trace in
      if length indices == 0 then pure none else do
        let choices = if ltb num_swaps (length indices) then num_swaps else length indices
        to_swap ← fill length (add_pair indices) choices fuel []
        apply_swaps to_swap trace

  unfoldable pub swap_integer_mutate : ℕ → ℕ → Mutator G
  unfolding type_indices add_new_key apply_swaps
  swap_integer_mutate num_swaps fuel trace events =
      let indices = type_indices random_integer trace in
      if length indices == 0 then pure none else do
        to_swap ← fill length (add_new_key indices) num_swaps fuel []
        apply_swaps to_swap trace
