-- ===== src/Tests.antt =====
-- The theorems at concrete inputs, and the data that they use.
mod Mutators
mod Contexts
mod Guiders
mod Messages
mod Rafts
mod Runs
mod Clients
mod Commands
mod Others
use model_guiding_fuzz.Common.{Bool, IsRuntime, Perm, Runtime, [], false, true, ℕ, ◌%◌, ◌+◌, ◌∷◌}
use mathlib.Core.List.Perm
use native.Mathlib.Nat.{mod-lt}
use model_guiding_fuzz.Types.Choice.{
  SchedulingChoice, ChoiceType, random_boolean, random_integer, start_node, stop_node,
  client_request, zero_choice, Trace,
}
use model_guiding_fuzz.Types.Event.{EventTrace}

-- A random source that counts up, and maps that are visited in the order of insertion.
abbrev counter : Runtime ℕ
counter = record { draw = λ n g. (g % n, g + 1); range_order = λ A xs g. (xs, g) }

counter-IsRuntime : IsRuntime counter
counter-IsRuntime = record { draw_lt = λ n g h. mod-lt g h; range_perm = λ A xs g. Perm.refl xs }

abbrev boolean : Bool → SchedulingChoice
boolean b = record (zero_choice random_boolean) { boolean_choice = b }

abbrev integer : ℕ → SchedulingChoice
integer n = record (zero_choice random_integer) { integer_choice = n }

abbrev link : ℕ → ℕ → ℕ → SchedulingChoice
link from to n = record (zero_choice ChoiceType.node) { from = from; to = to; max_messages = n }

abbrev stop : ℕ → ℕ → SchedulingChoice
stop node step = record (zero_choice stop_node) { node = node; step = step }

abbrev mixed : Trace
mixed = record {
  l =
      link 1 2 4
      ∷ boolean true
      ∷ integer 7
      ∷ stop 3 5
      ∷ link 2 3 1
      ∷ boolean false
      ∷ integer 2
      ∷ stop 1 9
      ∷ [];
}

abbrev no_events : EventTrace
no_events = record { l = [] }
