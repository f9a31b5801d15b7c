-- ===== src/Fuzzer/Iteration/Crashes/Totality.antt =====
-- A run that mimics a schedule returns, unless the raft library panics.
use model_guiding_fuzz.Common.{
  All-any, All-delete, Ends, Ends-Returns, Ends-and, Ends-bind, Ends-each_inv, Ends-if,
  Ends-or_panic, Ends-pure, Ends-weaken, Halts, IsRuntime, Option, Random, Runtime, arith, contains,
  none, refl, some, subst, ℕ, ◌+◌, ◌<◌, ◌≡◌,
}
use model_guiding_fuzz.Types.Event.{Message}
use model_guiding_fuzz.Types.Choice.{Trace}
use model_guiding_fuzz.Types.Decimal.{itoa}
use model_guiding_fuzz.Types.Sample.{int_range}
use model_guiding_fuzz.Types.Sample.Picks.{length-int_range}
use model_guiding_fuzz.Fuzzer.Context.{Link, can_crash, can_start, is_client_request, new_ctx}
use model_guiding_fuzz.Fuzzer.Context.Links.{links_in, get_next_node_choice-Returns}
use model_guiding_fuzz.Fuzzer.Context.Load.{load}
use model_guiding_fuzz.Fuzzer.Messages.{MessageQueues, schedule, send}
use model_guiding_fuzz.Fuzzer.Messages.Contents.{
  HasQueues, Contains, schedule-Contains, send-Contains, reset_queues-Contains,
}
use model_guiding_fuzz.Fuzzer.Setup.{FuzzerConfig, fuzzer_nodes}
use model_guiding_fuzz.Fuzzer.Iteration.{
  IterationState, record_receive, client_message, world, put_world, put_ctx, crash, crash_step,
  on_world, restart, start_step, receive, deliver_link, deliver_step, make_request, request_step,
  send_message, tick_step, iteration_step, begin_ctx, begin_iteration, iterate,
}
use model_guiding_fuzz.Fuzzer.Iteration.Crashes.{
  Tracks, TracksState, IsClosed, replicas_of, crash-Tracks, restart-Tracks, receive-Tracks,
  make_request-Tracks, send_message-Tracks, Keeps-Tracks, begin_iteration-Tracks,
}
use model_guiding_fuzz.Fuzzer.Iteration.Choices.{iterate-links}
use model_guiding_fuzz.Raft.Library.{RaftLibrary}
use model_guiding_fuzz.Raft.{World, RaftEnvironment, start, stop, step}
use model_guiding_fuzz.Raft.Presence.Totality.{IsOwnNode, IsEnding, Fits, IsSafe}
use model_guiding_fuzz.Raft.Presence.Totality.Ticks.{tick-Ends}
use model_guiding_fuzz.Raft.Presence.Totality.Steps.{step-Ends, reset-Ends, start-Ends}

module _ {G : Type 0} {lib : RaftLibrary G} (rt : Runtime G) (config : FuzzerConfig)
    (ok : IsRuntime rt) (returning : IsEnding lib (replicas_of config))
    (some_messages : 0 < config.max_messages) where
  abbrev replicas : ℕ
  replicas = replicas_of config

  -- The queues of the links are there, and the queued messages, the nodes and the storages are such
  -- as come up in the cluster.
  abbrev pub Queued : IterationState lib → Type 0
  Queued s =
      Contains returning.IsSent replicas s.message_queues
      × Fits replicas returning s.raft_environment

  -- What each step keeps.
  abbrev pub IsReady : IterationState lib → Type 0
  IsReady s = TracksState replicas s × Queued s

  IsReady-IsSafe : (s : IterationState lib) → IsReady s → IsSafe replicas returning (world s)
  unfolding world Tracks
  IsReady-IsSafe s (tracks, (queues, fits)) = (λ id e. ground (arith, e, tracks id), fits)

  on_world-Queued :
      (f : World lib → Random G (World lib)) (s : IterationState lib)
      → Ends (f (world s)) (λ w. Fits replicas returning w.0)
      → Queued s
      → Ends (on_world f s) Queued
  unfolding on_world put_world
  on_world-Queued f s total (queues, _) =
      Ends-bind total λ w p. Ends-pure (put_world w s) (queues, p)

  Fits-world :
      (s : IterationState lib)
      → Fits replicas returning s.raft_environment
      → Fits replicas returning (world s).0
  unfolding world
  Fits-world s h = h

  restart-IsReady :
      (o : Option ℕ) (s : IterationState lib) → IsReady s → Ends (restart rt config o s) IsReady
  unfolding restart
  restart-IsReady o s (tracks, queues) =
      Ends-and (by_node o) (restart-Tracks replicas rt config o s tracks)
    where
      by_node : (o : Option ℕ) → Ends (restart rt config o s) Queued
      by_node none = Ends-pure s queues
      by_node (some node) =
          Ends-if (contains node s.crashed)
            (λ _.
              Ends-bind
                (on_world-Queued (start config.raft_environment_config node) s
                  (start-Ends rt ok replicas returning config.raft_environment_config node (world s)
                    (Fits-world s queues.1))
                  queues)
                λ s' q. Ends-pure _ q)
            (λ _. Ends-pure s queues)

  receive-IsReady :
      (m : Message) (s : IterationState lib)
      → returning.IsSent m
      → IsReady s
      → Ends (receive rt config m s) IsReady
  unfolding receive put_ctx record_receive world
  receive-IsReady m s sound h =
      Ends-and
        (on_world-Queued (step rt m) (put_ctx (record_receive lib.type_name m s.ctx) s)
          (Ends-weaken (λ w k. k.1)
            (step-Ends rt ok replicas returning m _ (IsReady-IsSafe s h) sound))
          h.1)
        (receive-Tracks replicas rt config m s h.0)

  deliver_link-IsReady :
      (l : Link) (s : IterationState lib) → IsReady s → Ends (deliver_link rt config l s) IsReady
  unfolding deliver_link
  deliver_link-IsReady l s h =
      Ends-if (contains l.to s.crashed) (λ _. Ends-pure s h)
        λ _.
          (let (messages, queues) = schedule l.from l.to l.max_messages s.message_queues in
            let (sound, left) =
              schedule-Contains returning.IsSent replicas l.from l.to l.max_messages
                s.message_queues h.1.0 in
            Ends-each_inv returning.IsSent IsReady (λ m t p q. receive-IsReady m t p q) messages
              (record s { message_queues = queues }) sound (h.0, (left, h.1.1)))

  deliver_step-IsReady :
      (s : IterationState lib) → IsReady s → Ends (deliver_step rt config s) IsReady
  unfolding deliver_step put_ctx fuzzer_nodes
  deliver_step-IsReady s h =
      Ends-bind
        (Ends-Returns (
          get_next_node_choice-Returns rt (fuzzer_nodes config) config.max_messages s.ctx ok
            (omega (arith, length-int_range (replicas + 1))) some_messages))
        λ (l, t) _. deliver_link-IsReady l (put_ctx t s) h

  make_request-IsReady :
      (o : Option ℕ) (s : IterationState lib)
      → IsReady s
      → Ends (make_request rt config o s) IsReady
  unfolding make_request client_message
  make_request-IsReady none s h = Ends-pure s h
  make_request-IsReady (some n) s h =
      Ends-and
        (on_world-Queued (step rt (client_message n)) s
          (Ends-weaken (λ w k. k.1)
            (step-Ends rt ok replicas returning (client_message n) (world s) (IsReady-IsSafe s h)
              (returning.requests (itoa n))))
          h.1)
        (make_request-Tracks replicas rt config (some n) s h.0)

  send_message-IsReady :
      (m : Message) (s : IterationState lib)
      → returning.IsSent m
      → IsReady s
      → Ends (send_message rt config m s) IsReady
  unfolding send_message put_ctx
  send_message-IsReady m s sound h =
      let (queues, e, left) =
        send-Contains returning.IsSent replicas m s.message_queues h.1.0
          (returning.sounds m sound).from_le (returning.sounds m sound).to_le sound in
      Ends-and
        (Ends-bind (Ends-or_panic (send m s.message_queues) queues e) λ queues' e'.
          (let same : queues ≡ queues' = cc in
            Ends-pure _ (subst (Contains returning.IsSent replicas) same left, h.1.1)))
        (send_message-Tracks replicas rt config m s h.0)

  tick_step-IsReady : (s : IterationState lib) → IsReady s → Ends (tick_step rt config s) IsReady
  unfolding tick_step world put_world
  tick_step-IsReady s h =
      Ends-bind
        (tick-Ends rt ok replicas returning config.raft_environment_config (world s)
          (IsReady-IsSafe s h))
        λ r (keeps, sound).
          Ends-each_inv returning.IsSent IsReady (λ m t p q. send_message-IsReady m t p q) r.1
            (put_world r.0 s) sound
            (Keeps-Tracks replicas (world s) r.0 s.crashed h.0 keeps.0, (h.1.0, keeps.1))

  iteration_step-IsReady :
      (j : ℕ) (s : IterationState lib) → IsReady s → Ends (iteration_step rt config j s) IsReady
  unfolding iteration_step crash_step start_step request_step put_ctx stop
  iteration_step-IsReady j s h =
      let (o, t) = can_crash j s.ctx in
      let s₀ = crash_step j s in
      let h₀ : IsReady s₀ =
        (crash-Tracks replicas o (put_ctx t s) h.0, crash-Queued o (put_ctx t s) h.1) in
      let (o₁, t₁) = can_start j s₀.ctx in
      Ends-bind (restart-IsReady o₁ (put_ctx t₁ s₀) h₀) λ s₁ h₁.
        Ends-bind (deliver_step-IsReady s₁ h₁) λ s₂ h₂.
          (let (o₂, t₂) = is_client_request j s₂.ctx in
            Ends-bind (make_request-IsReady o₂ (put_ctx t₂ s₂) h₂) λ s₃ h₃. tick_step-IsReady s₃ h₃)
    where
      crash-Queued : (o : Option ℕ) (s : IterationState lib) → Queued s → Queued (crash o s)
      crash-Queued none s q = q
      crash-Queued (some node) s (queues, (nodes, storages)) = (
        queues,
        (All-delete (IsOwnNode replicas returning) node s.raft_environment.nodes nodes, storages),
      )

  begin_iteration-IsReady :
      (fuel : ℕ) (mimic : Option Trace) (queues : MessageQueues) (env : RaftEnvironment lib)
      → Halts (begin_ctx rt config fuel mimic)
      → HasQueues replicas queues
      → IsClosed rt config env
      → Fits replicas returning env
      → Ends (begin_iteration rt config fuel mimic queues env) IsReady
  unfolding begin_iteration
  begin_iteration-IsReady fuel mimic queues env begins there closed fits =
      Ends-and
        (Ends-bind begins λ t _.
          Ends-bind
            (reset-Ends rt ok replicas returning config.raft_environment_config (env, t.event_trace)
              refl fits)
            λ w p. Ends-pure _ (reset_queues-Contains returning.IsSent replicas queues there, p))
        (begin_iteration-Tracks rt config fuel mimic queues env closed)

  -- Once a run has its schedule, it goes on to its end, unless the library panics, and leaves what
  -- the next run needs.
  pub iterate-IsReady :
      (fuel : ℕ) (mimic : Option Trace) (queues : MessageQueues) (env : RaftEnvironment lib)
      → Halts (begin_ctx rt config fuel mimic)
      → HasQueues replicas queues
      → IsClosed rt config env
      → Fits replicas returning env
      → Ends (iterate rt config fuel mimic queues env) IsReady
  unfolding iterate
  iterate-IsReady fuel mimic queues env begins there closed fits =
      Ends-bind (begin_iteration-IsReady fuel mimic queues env begins there closed fits) λ s h.
        Ends-each_inv (λ _. Unit) IsReady (λ j t _ q. iteration_step-IsReady j t q)
          (int_range 0 config.steps) s (All-any _) h

  -- A run that mimics a schedule returns, whatever the schedule is, unless the raft library panics
  -- in it: no index of the code itself is out of range, no queue is missing, and no loop goes on
  -- for ever. If it returns, the crashed nodes are those that do not run, and the recorded
  -- schedule has a link for each step. It is asked that each call of the raft library returns or
  -- panics on the nodes, storages and messages that come up, as IsEnding says, and that the
  -- messages go between nodes of the cluster, and proposals have an entry, that the random source
  -- and range keep to what Go promises, that MaxMessages is positive, that there is a queue for
  -- each link, that no node but those of the cluster runs or has a storage before, and that those
  -- are such as come up.
  pub iterate-Ends :
      (fuel : ℕ) (mimic : Trace) (queues : MessageQueues) (env : RaftEnvironment lib)
      → HasQueues (replicas_of config) queues
      → IsClosed rt config env
      → Fits (replicas_of config) returning env
      → Ends
          (iterate rt config fuel (some mimic) queues env)
          λ s. TracksState (replicas_of config) s × (links_in s.ctx ≡ config.steps)
  unfolding begin_ctx
  iterate-Ends fuel mimic queues env there closed fits =
      Ends-weaken (λ s h. (h.1.0, h.0))
        (Ends-and
          (iterate-IsReady fuel (some mimic) queues env (Ends-pure (load mimic new_ctx) tt) there
            closed fits)
          (iterate-links rt config fuel (some mimic) queues env))
