-- ===== src/Fuzzer/Iteration/Keeps.antt =====
-- What the recorded choices of a run satisfy: it is enough to look at the calls of the context.
use model_guiding_fuzz.Common.{
  All-any, Ensures, Ensures-any, Ensures-bind, Ensures-each_inv, Ensures-if, Ensures-pure,
  Ensures-weaken, List, Option, Random, Runtime, [], arith, contains, each, length, none, or_panic,
  some, subst, suc, ℕ, ◌+◌, ◌∷◌, ◌≡◌,
}
use model_guiding_fuzz.Types.Event.{EventTrace, Message}
use model_guiding_fuzz.Types.Choice.{Trace}
use model_guiding_fuzz.Types.Sample.{int_range}
use model_guiding_fuzz.Types.Sample.Picks.{length-int_range}
use model_guiding_fuzz.Fuzzer.Context.{
  TraceCtx, Link, can_crash, can_start, is_client_request, get_next_node_choice,
}
use model_guiding_fuzz.Fuzzer.Messages.{MessageQueues, schedule, send}
use model_guiding_fuzz.Fuzzer.Setup.{FuzzerConfig, fuzzer_nodes}
use model_guiding_fuzz.Fuzzer.Iteration.{
  IterationState, record_receive, record_send, client_message, world, put_world, put_ctx, crash,
  crash_step, on_world, restart, start_step, receive, deliver_link, deliver_step, make_request,
  request_step, send_message, tick_step, iteration_step, begin_ctx, begin_iteration, iterate,
}
use model_guiding_fuzz.Raft.Library.{RaftLibrary}
use model_guiding_fuzz.Raft.{RaftEnvironment, reset, World, start, step, tick}

-- A property of the context, after some number of links, that no event changes, and that the calls
-- of the context keep.
pub record IsKept {G : Type 0} (rt : Runtime G) (config : FuzzerConfig) (P : ℕ → TraceCtx → Type 0)
    : Type 0 where
  pub on_events :
      (n : ℕ) (t : TraceCtx) (events : EventTrace) → P n t → P n (record t { event_trace = events })
  pub on_crash : (n j : ℕ) (t : TraceCtx) → P n t → P n (can_crash j t).1
  pub on_start : (n j : ℕ) (t : TraceCtx) → P n t → P n (can_start j t).1
  pub on_request : (n j : ℕ) (t : TraceCtx) → P n t → P n (is_client_request j t).1
  pub on_link :
      (n : ℕ) (t : TraceCtx)
      → P n t
      → Ensures
          (get_next_node_choice rt (fuzzer_nodes config) config.max_messages t)
          (λ r. P (suc n) r.1)

module _ {G : Type 0} {lib : RaftLibrary G} (rt : Runtime G) (config : FuzzerConfig)
    (P : ℕ → TraceCtx → Type 0) (kept : IsKept rt config P) where
  abbrev Holds : ℕ → IterationState lib → Type 0
  Holds n s = P n s.ctx

  on_world-Holds :
      (n : ℕ) (f : World lib → Random G (World lib)) (s : IterationState lib)
      → Holds n s
      → Ensures (on_world f s) (Holds n)
  unfolding on_world put_world
  on_world-Holds n f s h =
      Ensures-bind (Ensures-any (f (world s)))
        λ w _. Ensures-pure (put_world w s) (kept.on_events n s.ctx w.1 h)

  crash-Holds : (n : ℕ) (o : Option ℕ) (s : IterationState lib) → Holds n s → Holds n (crash o s)
  unfolding crash put_world
  crash-Holds n none s h = h
  crash-Holds n (some node) s h = kept.on_events n s.ctx _ h

  restart-Holds :
      (n : ℕ) (o : Option ℕ) (s : IterationState lib)
      → Holds n s
      → Ensures (restart rt config o s) (Holds n)
  unfolding restart
  restart-Holds n none s h = Ensures-pure s h
  restart-Holds n (some node) s h =
      Ensures-if (contains node s.crashed)
        (λ _.
          Ensures-bind (on_world-Holds n (start config.raft_environment_config node) s h)
            λ s' p. Ensures-pure _ p)
        (λ _. Ensures-pure s h)

  receive-Holds :
      (n : ℕ) (m : Message) (s : IterationState lib)
      → Holds n s
      → Ensures (receive rt config m s) (Holds n)
  unfolding receive put_ctx record_receive
  receive-Holds n m s h = on_world-Holds n (step rt m) _ (kept.on_events n s.ctx _ h)

  deliver_link-Holds :
      (n : ℕ) (l : Link) (s : IterationState lib)
      → Holds n s
      → Ensures (deliver_link rt config l s) (Holds n)
  unfolding deliver_link
  deliver_link-Holds n l s h =
      Ensures-if (contains l.to s.crashed) (λ _. Ensures-pure s h)
        λ _.
          (let (messages, queues) = schedule l.from l.to l.max_messages s.message_queues in
            Ensures-each_inv (λ _. Unit) (Holds n) (λ m t _ p. receive-Holds n m t p) messages
              (record s { message_queues = queues }) (All-any messages) h)

  deliver_step-Holds :
      (n : ℕ) (s : IterationState lib)
      → Holds n s
      → Ensures (deliver_step rt config s) (Holds (suc n))
  unfolding deliver_step put_ctx
  deliver_step-Holds n s h =
      Ensures-bind (kept.on_link n s.ctx h) λ (l, t) p. deliver_link-Holds (suc n) l (put_ctx t s) p

  make_request-Holds :
      (n : ℕ) (o : Option ℕ) (s : IterationState lib)
      → Holds n s
      → Ensures (make_request rt config o s) (Holds n)
  unfolding make_request
  make_request-Holds n none s h = Ensures-pure s h
  make_request-Holds n (some i) s h = on_world-Holds n (step rt (client_message i)) s h

  send_message-Holds :
      (n : ℕ) (m : Message) (s : IterationState lib)
      → Holds n s
      → Ensures (send_message rt config m s) (Holds n)
  unfolding send_message put_ctx record_send
  send_message-Holds n m s h =
      Ensures-bind (Ensures-any (or_panic (send m s.message_queues)))
        λ queues _. Ensures-pure _ (kept.on_events n s.ctx _ h)

  tick_step-Holds :
      (n : ℕ) (s : IterationState lib) → Holds n s → Ensures (tick_step rt config s) (Holds n)
  unfolding tick_step put_world
  tick_step-Holds n s h =
      Ensures-bind (Ensures-any (tick rt config.raft_environment_config (world s))) λ r _.
        Ensures-each_inv (λ _. Unit) (Holds n) (λ m t _ q. send_message-Holds n m t q) r.1
          (put_world r.0 s) (All-any r.1) (kept.on_events n s.ctx _ h)

  iteration_step-Holds :
      (n j : ℕ) (s : IterationState lib)
      → Holds n s
      → Ensures (iteration_step rt config j s) (Holds (suc n))
  unfolding iteration_step crash_step start_step request_step put_ctx
  iteration_step-Holds n j s h =
      let (o, t) = can_crash j s.ctx in
      let s₀ = crash_step j s in
      let h₀ : Holds n s₀ = crash-Holds n o (put_ctx t s) (kept.on_crash n j s.ctx h) in
      let (o₁, t₁) = can_start j s₀.ctx in
      Ensures-bind (restart-Holds n o₁ (put_ctx t₁ s₀) (kept.on_start n j s₀.ctx h₀)) λ s₁ h₁.
        Ensures-bind (deliver_step-Holds n s₁ h₁) λ s₂ h₂.
          (let (o₂, t₂) = is_client_request j s₂.ctx in
            Ensures-bind
              (make_request-Holds (suc n) o₂ (put_ctx t₂ s₂) (kept.on_request (suc n) j s₂.ctx h₂))
              λ s₃ h₃. tick_step-Holds (suc n) s₃ h₃)

  each-Holds :
      (js : List ℕ) (n : ℕ) (s : IterationState lib)
      → Holds n s
      → Ensures (each (iteration_step rt config) js s) (Holds (n + length js))
  each-Holds [] n s h =
      let e : n ≡ n + 0 = omega arith in Ensures-pure s (subst (λ m. P m s.ctx) e h)
  each-Holds (j ∷ js) n s h =
      let e : suc n + length js ≡ n + suc (length js) = omega arith in
      Ensures-bind (iteration_step-Holds n j s h)
        λ s' h'. Ensures-weaken (λ u p. subst (λ m. P m u.ctx) e p) (each-Holds js (suc n) s' h')

  -- If the context that a run begins with has the property at no links, then the one that it ends
  -- with has it at as many as there are Steps.
  pub iterate-Holds :
      (fuel : ℕ) (mimic : Option Trace) (queues : MessageQueues) (env : RaftEnvironment lib)
      → Ensures (begin_ctx rt config fuel mimic) (P 0)
      → Ensures (iterate rt config fuel mimic queues env) (Holds config.steps)
  unfolding iterate begin_iteration
  iterate-Holds fuel mimic queues env begins =
      Ensures-bind
        (Ensures-bind {Q = Holds 0} begins λ t p.
          Ensures-bind (Ensures-any (reset config.raft_environment_config (env, t.event_trace)))
            λ w _. Ensures-pure _ (kept.on_events 0 t w.1 p))
        λ s h.
          (let e : 0 + length (int_range 0 config.steps) ≡ config.steps =
              omega (arith, length-int_range config.steps) in
            Ensures-weaken (λ u p. subst (λ m. P m u.ctx) e p)
              (each-Holds (int_range 0 config.steps) 0 s h))
