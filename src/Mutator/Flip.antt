-- ===== src/Mutator/Flip.antt =====
-- mutator.go, ChoiceMutator: negates some of the Boolean choices.
pub mod Effect
pub mod Ending
use model_guiding_fuzz.Common.{
  List, Runtime, [], contains, if◌then◌else◌, length, none, not, pure, some, suc, ℕ, ◌==◌, ◌>>=◌,
  ◌∷◌,
}
use model_guiding_fuzz.Types.Choice.{SchedulingChoice, random_boolean, zero_choice, copy}
use model_guiding_fuzz.Types.Sample.{fill}
use model_guiding_fuzz.Types.Sequence.{iter}
use model_guiding_fuzz.Mutator.Indices.{Mutator, type_indices, draw_from}

unfoldable pub flip_choice : SchedulingChoice → SchedulingChoice
flip_choice choice = record (zero_choice choice.type) { boolean_choice = not choice.boolean_choice }

flip_at : List ℕ → ℕ → List SchedulingChoice → List SchedulingChoice
flip_at to_flip i [] = []
flip_at to_flip i (choice ∷ rest) =
    (if contains i to_flip then flip_choice choice else copy choice) ∷ flip_at to_flip (suc i) rest

module _ {G : Type 0} (rt : Runtime G) where
  unfoldable pub flip_mutate : ℕ → ℕ → Mutator G
  unfolding type_indices draw_from flip_at flip_choice copy iter
  flip_mutate num_flips fuel trace events =
      let indices = type_indices random_boolean trace in
      if length indices == 0 then pure none else do
        to_flip ← fill length (draw_from rt indices) num_flips fuel []
        pure (some (record { l = flip_at to_flip 0 (iter trace) }))
