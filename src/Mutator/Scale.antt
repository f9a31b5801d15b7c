-- ===== src/Mutator/Scale.antt =====
-- mutator.go, ScaleDownIntChoiceMutator and ScaleUpIntChoiceMutator: make integer choices smaller
-- or larger.
pub mod Points
pub mod Effect
use model_guiding_fuzz.Common.{
  Bool, List, Random, Runtime, [], get_elem?, if◌then◌else◌, intn, length, ltb, none, or_panic,
  pure, range, some, ℕ, ◌%◌, ◌*◌, ◌+◌, ◌==◌, ◌>>=◌, ◌^◌, ◌∷◌,
}
use model_guiding_fuzz.Types.Choice.{
  SchedulingChoice, random_integer, Trace, zero_choice, copy_trace, default_copy_filter,
}
use model_guiding_fuzz.Types.Sample.{fill, draw_index}
use model_guiding_fuzz.Types.Sequence.{get, put}
use model_guiding_fuzz.Mutator.Indices.{Mutator, type_indices}

-- `<` of Go's int, on the words of 64 bits that stand for the integers in two's complement.
unfoldable pub int_ltb : ℕ → ℕ → Bool
int_ltb a b = ltb ((a + 2 ^ 63) % 2 ^ 64) ((b + 2 ^ 63) % 2 ^ 64)

-- `min` of types.go, on such words.
unfoldable pub int_min : ℕ → ℕ → ℕ
unfolding int_ltb
int_min a b = if int_ltb b a then b else a

integer_of : ℕ → SchedulingChoice
integer_of n = record (zero_choice random_integer) { integer_choice = n }

-- `for i := range points`: a step at the index that each point names.
pub scale_points :
    {G : Type 0} → (ℕ → Trace → Random G Trace) → List ℕ → List ℕ → Trace → Random G Trace
scale_points step indices [] trace = pure trace
scale_points step indices (i ∷ rest) trace = do
  index ← or_panic (get_elem? indices i)
  trace' ← step index trace
  scale_points step indices rest trace'

module _ {G : Type 0} (rt : Runtime G) where
  scale_down_choice : ℕ → Trace → SchedulingChoice → Random G Trace
  unfolding integer_of int_ltb
  scale_down_choice index trace choice =
      if int_ltb 0 choice.integer_choice
      then (do n ← intn rt choice.integer_choice; pure (put trace index (integer_of n)).0)
      else pure trace

  scale_down_step : ℕ → Trace → Random G Trace
  unfolding scale_down_choice
  scale_down_step index trace = elim (get trace index) [
    | none ↦ pure trace
    | some choice ↦ scale_down_choice index trace choice
  ]

  unfoldable pub scale_down_mutate : ℕ → ℕ → Mutator G
  unfolding type_indices draw_index scale_points scale_down_step
  scale_down_mutate num_points fuel trace events =
      let indices = type_indices random_integer trace in
      if length indices == 0 then pure none else do
        points ← fill length (draw_index rt (length indices)) num_points fuel []
        order ← range rt points
        new_trace ←
            scale_points scale_down_step indices order (copy_trace trace default_copy_filter)
        pure (some new_trace)

  scale_up_step : ℕ → ℕ → Trace → Random G Trace
  unfolding integer_of int_min
  scale_up_step most index trace = elim (get trace index) [
    | none ↦ pure trace
    | some choice ↦
        pure (put trace index (integer_of (int_min most (choice.integer_choice * 2 % 2 ^ 64)))).0
  ]

  unfoldable pub scale_up_mutate : ℕ → ℕ → ℕ → Mutator G
  unfolding type_indices draw_index scale_points scale_up_step
  scale_up_mutate num_points most fuel trace events =
      let indices = type_indices random_integer trace in
      if length indices == 0 then pure none else do
        let choices = if ltb num_points (length indices) then num_points else length indices
        points ← fill length (draw_index rt (length indices)) choices fuel []
        order ← range rt points
        new_trace ←
            scale_points (scale_up_step most) indices order (copy_trace trace default_copy_filter)
        pure (some new_trace)
