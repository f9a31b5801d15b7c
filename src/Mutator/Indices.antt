-- ===== src/Mutator/Indices.antt =====
-- The interface of fuzzer.go, and the loops over a trace that each mutator of mutator.go begins
-- with.
use model_guiding_fuzz.Common.{
  List, Option, Random, Runtime, [], add_key, get_elem?, if◌then◌else◌, intn, length, none,
  or_panic, pure, suc, ℕ, ◌>>=◌, ◌∷◌,
}
use model_guiding_fuzz.Types.Choice.{SchedulingChoice, ChoiceType, Trace, same_type}
use model_guiding_fuzz.Types.Event.{EventTrace}
use model_guiding_fuzz.Types.Sequence.{iter}

abbrev pub Mutator : Type 0 → Type 0
Mutator G = Trace → EventTrace → Random G (Option Trace)

-- EmptyMutator
unfoldable pub empty_mutate : {G : Type 0} → Mutator G
empty_mutate trace events = pure none

unfoldable pub indices_from : ChoiceType → ℕ → List SchedulingChoice → List ℕ
indices_from t i [] = []
indices_from t i (choice ∷ rest) =
    if same_type choice.type t then i ∷ indices_from t (suc i) rest else indices_from t (suc i) rest

-- The positions of the choices of one type.
unfoldable pub type_indices : ChoiceType → Trace → List ℕ
unfolding indices_from iter
type_indices t trace = indices_from t 0 (iter trace)

-- One round of a drawing loop: `next := indices[rand.Intn(n)]`, added to the set.
unfoldable pub draw_from : {G : Type 0} → Runtime G → List ℕ → List ℕ → Random G (List ℕ)
draw_from rt indices chosen = do
  k ← intn rt (length indices)
  next ← or_panic (get_elem? indices k)
  pure (add_key next chosen)
