-- ===== src/Fuzzer/Iteration.antt =====
-- fuzzer.go, RunIteration: the steps of one run of the cluster. The state of a run is the context,
-- the message queues, the cluster and the nodes that are crashed.
pub mod Crashes
pub mod Keeps
pub mod Choices
pub mod Legal
pub mod Requests
use model_guiding_fuzz.Common.{
  List, Option, Random, Runtime, [], add_key, contains, delete_key, each, false, if◌then◌else◌,
  none, or_panic, pure, some, ℕ, ◌>>=◌, ◌∷◌,
}
use Prim.Native.String.{String}
use model_guiding_fuzz.Types.Choice.{Trace}
use model_guiding_fuzz.Types.Decimal.{itoa}
use model_guiding_fuzz.Types.Event.{Event, EventTrace, Message, Param, num, flag, text, log}
use model_guiding_fuzz.Types.Sample.{int_range}
use model_guiding_fuzz.Fuzzer.Context.{
  TraceCtx, Link, new_ctx, event, add_event, get_next_node_choice, can_crash, can_start,
  is_client_request,
}
use model_guiding_fuzz.Fuzzer.Context.Load.{load}
use model_guiding_fuzz.Fuzzer.Messages.{MessageQueues, schedule, send, reset_queues}
use model_guiding_fuzz.Fuzzer.Setup.{FuzzerConfig, fuzzer_nodes, random_schedule}
use model_guiding_fuzz.Raft.Library.{RaftLibrary, msg_prop}
use model_guiding_fuzz.Raft.{RaftEnvironment, World, reset, start, stop, step, tick}

pub record IterationState {G : Type 0} (lib : RaftLibrary G) : Type 0 where
  pub ctx : TraceCtx
  pub message_queues : MessageQueues
  pub raft_environment : RaftEnvironment lib
  pub crashed : List ℕ

-- `recordReceive` and `recordSend`: the event of a message.
message_params : (ℕ → String) → Message → List (String × Param)
message_params type_name m =
    ("type", text (type_name m.type))
    ∷ ("term", num m.term)
    ∷ ("from", num m.from)
    ∷ ("to", num m.to)
    ∷ ("log_term", num m.log_term)
    ∷ ("entries", log m.entries)
    ∷ ("index", num m.index)
    ∷ ("commit", num m.commit)
    ∷ ("vote", num m.vote)
    ∷ ("reject", flag m.reject)
    ∷ []

unfoldable pub record_receive : (ℕ → String) → Message → TraceCtx → TraceCtx
unfolding add_event message_params
record_receive type_name m t =
    add_event t (event "DeliverMessage" m.to (message_params type_name m))

unfoldable pub record_send : (ℕ → String) → Message → TraceCtx → TraceCtx
unfolding add_event message_params
record_send type_name m t = add_event t (event "SendMessage" m.from (message_params type_name m))

-- The request that a client makes, with its number as the data of the only entry.
unfoldable pub client_message : ℕ → Message
client_message n = record {
  type = msg_prop;
  to = 0;
  from = 0;
  term = 0;
  log_term = 0;
  index = 0;
  entries = record { term = 0; index = 0; type = 0; payload = itoa n } ∷ [];
  commit = 0;
  vote = 0;
  snapshot = none;
  reject = false;
  reject_hint = 0;
  context = [];
}

-- The context that a run begins with: the schedule that it mimics, or a random one.
unfoldable pub begin_ctx :
    {G : Type 0} → Runtime G → FuzzerConfig → ℕ → Option Trace → Random G TraceCtx
unfolding new_ctx
begin_ctx rt config fuel none = random_schedule rt config fuel new_ctx
begin_ctx rt config fuel (some mimic) = pure (load mimic new_ctx)

module _ {G : Type 0} {lib : RaftLibrary G} where
  -- The cluster, and the events that its calls append to, which are those of the context.
  unfoldable pub world : IterationState lib → World lib
  world s = (s.raft_environment, s.ctx.event_trace)

  unfoldable pub put_world : World lib → IterationState lib → IterationState lib
  put_world (env, events) s = record s {
    raft_environment = env;
    ctx = record s.ctx { event_trace = events };
  }

  put_ctx : TraceCtx → IterationState lib → IterationState lib
  put_ctx t s = record s { ctx = t }

  -- A node stops; nothing happens where there is none to stop.
  unfoldable crash : Option ℕ → IterationState lib → IterationState lib
  unfolding world put_world
  crash none s = s
  crash (some node) s = record (put_world (stop node (world s)) s) {
    crashed = add_key node s.crashed;
  }

  unfoldable pub crash_step : ℕ → IterationState lib → IterationState lib
  unfolding crash put_ctx
  crash_step j s = let (to_crash, t) = can_crash j s.ctx in crash to_crash (put_ctx t s)

  -- A call on the cluster, whose events go to the context.
  unfoldable on_world :
      (World lib → Random G (World lib)) → IterationState lib → Random G (IterationState lib)
  unfolding world put_world
  on_world f s = do w ← f (world s); pure (put_world w s)

  module _ (rt : Runtime G) (config : FuzzerConfig) where
    -- A node starts, if it is crashed.
    unfoldable restart : Option ℕ → IterationState lib → Random G (IterationState lib)
    unfolding on_world
    restart none s = pure s
    restart (some node) s =
        if contains node s.crashed
        then (on_world (start config.raft_environment_config node) s >>= λ s'.
            pure (record s' { crashed = delete_key node s'.crashed }))
        else pure s

    unfoldable pub start_step : ℕ → IterationState lib → Random G (IterationState lib)
    unfolding restart put_ctx
    start_step j s = let (to_start, t) = can_start j s.ctx in restart to_start (put_ctx t s)

    unfoldable receive : Message → IterationState lib → Random G (IterationState lib)
    unfolding on_world put_ctx
    receive m s = on_world (step rt m) (put_ctx (record_receive lib.type_name m s.ctx) s)

    -- The messages of a link go to its end, unless that is crashed.
    unfoldable deliver_link : Link → IterationState lib → Random G (IterationState lib)
    unfolding receive
    deliver_link l s =
        if contains l.to s.crashed
        then pure s
        else let (messages, queues) = schedule l.from l.to l.max_messages s.message_queues in
          each receive messages (record s { message_queues = queues })

    unfoldable pub deliver_step : IterationState lib → Random G (IterationState lib)
    unfolding deliver_link put_ctx
    deliver_step s = do
      (l, t) ← get_next_node_choice rt (fuzzer_nodes config) config.max_messages s.ctx
      deliver_link l (put_ctx t s)

    unfoldable pub make_request : Option ℕ → IterationState lib → Random G (IterationState lib)
    unfolding on_world
    make_request none s = pure s
    make_request (some n) s = on_world (step rt (client_message n)) s

    unfoldable pub request_step : ℕ → IterationState lib → Random G (IterationState lib)
    unfolding make_request put_ctx
    request_step j s = let (req, t) = is_client_request j s.ctx in make_request req (put_ctx t s)

    -- What a node sends goes to the queue of its link.
    unfoldable send_message : Message → IterationState lib → Random G (IterationState lib)
    unfolding put_ctx
    send_message m s = do
      queues ← or_panic (send m s.message_queues)
      pure (record (put_ctx (record_send lib.type_name m s.ctx) s) { message_queues = queues })

    unfoldable pub tick_step : IterationState lib → Random G (IterationState lib)
    unfolding world put_world send_message
    tick_step s = do
      (w, messages) ← tick rt config.raft_environment_config (world s)
      each send_message messages (put_world w s)

    -- One round of the loop of RunIteration.
    unfoldable pub iteration_step : ℕ → IterationState lib → Random G (IterationState lib)
    unfolding crash_step start_step deliver_step request_step tick_step
    iteration_step j s = do
      s₁ ← start_step j (crash_step j s)
      s₂ ← deliver_step s₁
      s₃ ← request_step j s₂
      tick_step s₃

    -- The set-up of a run: the context, empty queues, and a cluster that is made anew.
    unfoldable pub begin_iteration :
        ℕ → Option Trace → MessageQueues → RaftEnvironment lib → Random G (IterationState lib)
    unfolding begin_ctx
    begin_iteration fuel mimic queues env = do
      t ← begin_ctx rt config fuel mimic
      (env', events) ← reset config.raft_environment_config (env, t.event_trace)
      pure (record {
        ctx = record t { event_trace = events };
        message_queues = reset_queues queues;
        raft_environment = env';
        crashed = [];
      })

    -- RunIteration without the checker.
    unfoldable pub iterate :
        ℕ → Option Trace → MessageQueues → RaftEnvironment lib → Random G (IterationState lib)
    unfolding begin_iteration iteration_step
    iterate fuel mimic queues env = do
      s ← begin_iteration fuel mimic queues env
      each iteration_step (int_range 0 config.steps) s
