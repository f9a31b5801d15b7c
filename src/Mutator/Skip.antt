-- ===== src/Mutator/Skip.antt =====
-- mutator.go, SkipNodeMutator: leaves some of the node choices out.
pub mod Effect
pub mod Ending
use model_guiding_fuzz.Common.{
  List, Runtime, [], contains, if◌then◌else◌, length, none, pure, some, suc, ℕ, ◌==◌, ◌>>=◌, ◌∷◌,
}
use model_guiding_fuzz.Types.Choice.{SchedulingChoice, ChoiceType, copy}
use model_guiding_fuzz.Types.Sample.{fill}
use model_guiding_fuzz.Types.Sequence.{iter}
use model_guiding_fuzz.Mutator.Indices.{Mutator, type_indices, draw_from}

skip_at : List ℕ → ℕ → List SchedulingChoice → List SchedulingChoice
skip_at to_skip i [] = []
skip_at to_skip i (choice ∷ rest) =
    if contains i to_skip
    then skip_at to_skip (suc i) rest
    else copy choice ∷ skip_at to_skip (suc i) rest

module _ {G : Type 0} (rt : Runtime G) where
  unfoldable pub skip_mutate : ℕ → ℕ → Mutator G
  unfolding type_indices draw_from skip_at copy iter
  skip_mutate num_skips fuel trace events =
      let indices = type_indices ChoiceType.node trace in
      if length indices == 0 then pure none else do
        to_skip ← fill length (draw_from rt indices) num_skips fuel []
        pure (some (record { l = skip_at to_skip 0 (iter trace) }))
