-- ===== src/Mutator/Combined.antt =====
-- mutator.go, combinedMutator: one mutator after another.
pub mod Effect
use model_guiding_fuzz.Common.{List, Option, Random, [], none, pure, some, ◌>>=◌, ◌∷◌}
use model_guiding_fuzz.Types.Choice.{Trace, copy_trace, default_copy_filter}
use model_guiding_fuzz.Types.Event.{EventTrace}
use model_guiding_fuzz.Mutator.Indices.{Mutator}

-- A mutator that fails ends the row.
unfoldable pub then_rest :
    {G : Type 0} → (Trace → Random G (Option Trace)) → Option Trace → Random G (Option Trace)
then_rest f none = pure none
then_rest f (some t) = f t

unfoldable pub mutate_all :
    {G : Type 0} → List (Mutator G) → Trace → EventTrace → Random G (Option Trace)
unfolding then_rest
mutate_all [] cur events = pure (some cur)
mutate_all (m ∷ ms) cur events = m cur events >>= then_rest (λ t. mutate_all ms t events)

unfoldable pub combined_mutate : {G : Type 0} → List (Mutator G) → Mutator G
unfolding mutate_all
combined_mutate mutators trace events =
    mutate_all mutators (copy_trace trace default_copy_filter) events
