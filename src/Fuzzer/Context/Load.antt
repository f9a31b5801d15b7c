-- ===== src/Fuzzer/Context/Load.antt =====
-- fuzzer.go, the first part of RunIteration: a recorded trace becomes the context of a new
-- iteration.
use model_guiding_fuzz.Common.{List, [], insert, ◌∷◌}
use model_guiding_fuzz.Types.Choice.{
  SchedulingChoice, ChoiceType, random_boolean, random_integer, start_node, stop_node,
  client_request, Trace, copy,
}
use model_guiding_fuzz.Types.Queue.{push}
use model_guiding_fuzz.Types.Sequence.{iter}
use model_guiding_fuzz.Fuzzer.Context.{TraceCtx}

unfoldable pub load_typed : ChoiceType → SchedulingChoice → TraceCtx → TraceCtx
unfolding push copy
load_typed ChoiceType.node ch t = record t { node_choices = push t.node_choices (copy ch) }
load_typed random_boolean ch t = record t {
  boolean_choices = push t.boolean_choices ch.boolean_choice;
}
load_typed random_integer ch t = record t {
  integer_choices = push t.integer_choices ch.integer_choice;
}
load_typed start_node ch t = record t { start_points = insert ch.step ch.node t.start_points }
load_typed stop_node ch t = record t { crash_points = insert ch.step ch.node t.crash_points }
load_typed client_request ch t = record t {
  client_requests = insert ch.step ch.request t.client_requests;
}

unfoldable pub load_list : List SchedulingChoice → TraceCtx → TraceCtx
unfolding load_typed
load_list [] t = t
load_list (ch ∷ rest) t = load_list rest (load_typed ch.type ch t)

-- `for i := 0; i < mimic.Size(); i++ { ... }`
unfoldable pub load : Trace → TraceCtx → TraceCtx
unfolding load_list iter
load mimic t = load_list (iter mimic) t
