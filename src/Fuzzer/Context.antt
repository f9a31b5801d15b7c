-- ===== src/Fuzzer/Context.antt =====
-- fuzzer.go, traceCtx: where an iteration takes its choices from, and what it records.
pub mod Load
pub mod Ask
pub mod Feeds
pub mod Points
pub mod Replay
pub mod Requests
pub mod Links
pub mod Legal
use model_guiding_fuzz.Common.{
  Bool, List, Option, Random, Runtime, [], false, get_elem?, intn, length, lookup, none, or_panic,
  pure, some, ℕ, ◌==◌, ◌>>=◌, ◌∷◌,
}
use Prim.Native.String.{String}
use model_guiding_fuzz.Types.Choice.{
  SchedulingChoice, ChoiceType, random_boolean, random_integer, start_node, stop_node,
  client_request, Trace, zero_choice,
}
use model_guiding_fuzz.Types.Event.{Event, EventTrace, Param, num, flag}
use model_guiding_fuzz.Types.Queue.{Queue, size, pop, new_queue}
use model_guiding_fuzz.Types.Sequence.{append, new_sequence}

-- The maps from steps hold the node to crash or start there, and the request to make.
pub record TraceCtx : Type 0 where
  pub trace : Trace
  pub event_trace : EventTrace
  pub node_choices : Queue SchedulingChoice
  pub boolean_choices : Queue Bool
  pub integer_choices : Queue ℕ
  pub crash_points : List (ℕ × ℕ)
  pub start_points : List (ℕ × ℕ)
  pub client_requests : List (ℕ × ℕ)

-- The context that RunIteration begins with.
unfoldable pub new_ctx : TraceCtx
unfolding new_sequence new_queue
new_ctx = record {
  trace = new_sequence;
  event_trace = new_sequence;
  node_choices = new_queue;
  boolean_choices = new_queue;
  integer_choices = new_queue;
  crash_points = [];
  start_points = [];
  client_requests = [];
}

abbrev pub event : String → ℕ → List (String × Param) → Event
event name node params = record { name = name; node = node; params = params; reset = false }

unfoldable pub add_event : TraceCtx → Event → TraceCtx
unfolding append
add_event t e = record t { event_trace = append t.event_trace e }

add_choice : TraceCtx → SchedulingChoice → TraceCtx
unfolding append
add_choice t c = record t { trace = append t.trace c }

-- The event and the choice that a call of the context records.
record_boolean : Bool → TraceCtx → TraceCtx
unfolding add_event add_choice
record_boolean choice t =
    add_choice (add_event t (event "RandomBooleanChoice" 0 (("choice", flag choice) ∷ [])))
      (record (zero_choice random_boolean) { boolean_choice = choice })

record_integer : ℕ → TraceCtx → TraceCtx
unfolding add_event add_choice
record_integer choice t =
    add_choice (add_event t (event "RandomIntegerChoice" 0 (("choice", num choice) ∷ [])))
      (record (zero_choice random_integer) { integer_choice = choice })

record_point : String → ChoiceType → ℕ → ℕ → TraceCtx → TraceCtx
unfolding add_event add_choice
record_point name type node step t =
    add_choice (add_event t (event name node (("i", num node) ∷ [])))
      (record (zero_choice type) { node = node; step = step })

-- What `GetNextNodeChoice` returns: from, to, and how many messages at most.
pub record Link : Type 0 where
  pub from : ℕ
  pub to : ℕ
  pub max_messages : ℕ

unfoldable pub link_choice : Link → SchedulingChoice
link_choice l = record (zero_choice ChoiceType.node) {
  from = l.from;
  to = l.to;
  max_messages = l.max_messages;
}

link_of : SchedulingChoice → Link
link_of c = record { from = c.from; to = c.to; max_messages = c.max_messages }

module _ {G : Type 0} (rt : Runtime G) where
  -- A link between two nodes drawn from all of them. `Intn(MaxMessages)` panics at 0.
  random_link : List ℕ → ℕ → Random G Link
  random_link nodes max_messages = do
    i ← intn rt (length nodes)
    j ← intn rt (length nodes)
    from ← or_panic (get_elem? nodes i)
    to ← or_panic (get_elem? nodes j)
    n ← intn rt max_messages
    pure (record { from = from; to = to; max_messages = n })

  -- The next entry of a queue of choices, or else a random one.
  take_or : {A B : Type 0} → (A → B) → Option A × Queue A → Random G B → Random G (B × Queue A)
  take_or f (some c, rest) fallback = pure (f c, rest)
  take_or f (none, rest) fallback = fallback >>= λ c. pure (c, rest)

  unfoldable pub get_next_node_choice : List ℕ → ℕ → TraceCtx → Random G (Link × TraceCtx)
  unfolding random_link take_or pop link_of add_choice link_choice
  get_next_node_choice nodes max_messages t = do
    (l, rest) ← take_or link_of (pop t.node_choices) (random_link nodes max_messages)
    pure (l, add_choice (record t { node_choices = rest }) (link_choice l))

  random_boolean_of : Random G Bool
  random_boolean_of = do n ← intn rt 2; pure (n == 0)

  unfoldable pub get_random_boolean : TraceCtx → Random G (Bool × TraceCtx)
  unfolding random_boolean_of take_or pop record_boolean
  get_random_boolean t = do
    (choice, rest) ← take_or (λ b. b) (pop t.boolean_choices) random_boolean_of
    pure (choice, record_boolean choice (record t { boolean_choices = rest }))

  unfoldable pub get_random_integer : ℕ → TraceCtx → Random G (ℕ × TraceCtx)
  unfolding take_or pop record_integer
  get_random_integer max t = do
    (choice, rest) ← take_or (λ n. n) (pop t.integer_choices) (intn rt max)
    pure (choice, record_integer choice (record t { integer_choices = rest }))

-- The node to crash at a step, if any.
unfoldable pub can_crash : ℕ → TraceCtx → Option ℕ × TraceCtx
unfolding record_point
can_crash step t = elim (lookup step t.crash_points) [
  | none ↦ (none, t)
  | some node ↦ (some node, record_point "Remove" stop_node node step t)
]

-- The node to start at a step, if any.
unfoldable pub can_start : ℕ → TraceCtx → Option ℕ × TraceCtx
unfolding record_point
can_start step t = elim (lookup step t.start_points) [
  | none ↦ (none, t)
  | some node ↦ (some node, record_point "Add" start_node node step t)
]

-- The request to make at a step, if any. The choice that it records has no step.
unfoldable pub is_client_request : ℕ → TraceCtx → Option ℕ × TraceCtx
unfolding add_choice
is_client_request step t = elim (lookup step t.client_requests) [
  | none ↦ (none, t)
  | some req ↦ (some req, add_choice t (record (zero_choice client_request) { request = req }))
]
