-- ===== src/Fuzzer/Iteration/Crashes.antt =====
-- RunIteration keeps book of the crashed nodes: they are the nodes of the cluster that do not run.
pub mod Totality
use model_guiding_fuzz.Common.{
  ==→eq, All-any, Bool, Ensures, Ensures-any, Ensures-bind, Ensures-each_inv, Ensures-if,
  Ensures-pure, Ensures-weaken, List, Option, Random, Runtime, ap, ap₂, arith, contains,
  contains-add_key, contains-delete_key, keys, leb, none, not, or_panic, refl, some, ℕ, ◌&&◌, ◌+◌,
  ◌==◌, ◌||◌, ◌∙◌, ◌≡◌,
}
use model_guiding_fuzz.Types.Event.{Message}
use model_guiding_fuzz.Types.Choice.{Trace}
use model_guiding_fuzz.Types.Sample.{int_range}
use model_guiding_fuzz.Fuzzer.Context.{
  Link, can_crash, can_start, is_client_request, get_next_node_choice,
}
use model_guiding_fuzz.Fuzzer.Messages.{MessageQueues, schedule, send}
use model_guiding_fuzz.Fuzzer.Setup.{FuzzerConfig, fuzzer_nodes}
use model_guiding_fuzz.Fuzzer.Iteration.{
  IterationState, record_receive, client_message, world, put_world, put_ctx, crash, crash_step,
  on_world, restart, start_step, receive, deliver_link, deliver_step, make_request, request_step,
  send_message, tick_step, iteration_step, begin_ctx, begin_iteration, iterate,
}
use model_guiding_fuzz.Raft.Library.{RaftLibrary}
use model_guiding_fuzz.Raft.{RaftEnvironment, World, reset, start, stop, step}
use model_guiding_fuzz.Raft.Presence.{Keeps, step-Keeps, tick-Keeps}
use model_guiding_fuzz.Raft.History.{Follows, runs_after, start-Follows, contains-delete}
use model_guiding_fuzz.Raft.Beginning.{Adds, make_nodes-Adds, contains-int_range}

-- The nodes of the cluster: 1 to `replicas`.
abbrev pub in_cluster : ℕ → ℕ → Bool
in_cluster replicas id = leb 1 id && leb id replicas

module _ {G : Type 0} {lib : RaftLibrary G} (replicas : ℕ) where
  -- Of the cluster, the nodes that run are those that are not crashed, and all have a storage.
  unfoldable pub Tracks : RaftEnvironment lib → List ℕ → Type 0
  Tracks env crashed =
      (id : ℕ)
      → (contains id (keys env.nodes) ≡ (in_cluster replicas id && not (contains id crashed)))
        × (contains id (keys env.storages) ≡ in_cluster replicas id)

  abbrev pub TracksState : IterationState lib → Type 0
  TracksState s = Tracks s.raft_environment s.crashed

  Keeps-Tracks :
      (w w' : World lib) (crashed : List ℕ) → Tracks w.0 crashed → Keeps w w' → Tracks w'.0 crashed
  unfolding Tracks Keeps
  Keeps-Tracks w w' crashed h k id = ((k id).0 ∙ (h id).0, (k id).1 ∙ (h id).1)

  crash-Tracks : (o : Option ℕ) (s : IterationState lib) → TracksState s → TracksState (crash o s)
  unfolding crash world put_world stop Tracks
  crash-Tracks none s h id = h id
  crash-Tracks (some node) s h id = (
    ground (
      arith,
      contains-delete node id s.raft_environment.nodes,
      contains-add_key node id s.crashed,
      h id,
      ==→eq id node,
      ==→eq node id,
    ),
    (h id).1,
  )

  on_world-Tracks :
      (f : World lib → Random G (World lib)) (s : IterationState lib)
      → TracksState s
      → Ensures (f (world s)) (Keeps (world s))
      → Ensures (on_world f s) (λ s'. TracksState s' × (s'.crashed ≡ s.crashed))
  unfolding on_world world put_world
  on_world-Tracks f s h k =
      Ensures-bind k
        λ w p. Ensures-pure (put_world w s) (Keeps-Tracks (world s) w s.crashed h p, refl)

  module _ (rt : Runtime G) (config : FuzzerConfig) where
    -- What a start leaves behind, before the node is taken out of the crashed ones.
    Started : ℕ → IterationState lib → IterationState lib → Type 0
    Started node s s' =
        (s'.crashed ≡ s.crashed)
        × ((id : ℕ)
            → (contains id (keys s'.raft_environment.nodes) ≡ (
                (id == node && in_cluster replicas id)
                || (in_cluster replicas id && not (contains id s.crashed))))
              × (contains id (keys s'.raft_environment.storages) ≡ in_cluster replicas id))

    start-Started :
        (node : ℕ) (s : IterationState lib)
        → TracksState s
        → Ensures (on_world (start config.raft_environment_config node) s) (Started node s)
    unfolding on_world world put_world Follows runs_after Tracks Started
    start-Started node s h =
        Ensures-bind (start-Follows config.raft_environment_config node (world s)) λ w p.
          Ensures-pure (put_world w s) (
            refl,
            λ id. (
              (p id).0 ∙ ap₂ (λ b c. (id == node && b) || c) (h id).1 (h id).0,
              (p id).1 ∙ (h id).1,
            ),
          )

    restart-Tracks :
        (o : Option ℕ) (s : IterationState lib)
        → TracksState s
        → Ensures (restart rt config o s) TracksState
    unfolding restart Started Tracks
    restart-Tracks none s h = Ensures-pure s h
    restart-Tracks (some node) s h =
        Ensures-if (contains node s.crashed)
          (λ e. Ensures-bind (start-Started node s h) λ s' p. Ensures-pure _ λ id. (
            ground (
              arith,
              p.1 id,
              ap (contains id) p.0,
              contains-delete_key node id s'.crashed,
              ==→eq id node,
              ==→eq node id,
            ),
            (p.1 id).1,
          ))
          (λ _. Ensures-pure s h)

    receive-Tracks :
        (m : Message) (s : IterationState lib)
        → TracksState s
        → Ensures (receive rt config m s) TracksState
    unfolding receive put_ctx record_receive
    receive-Tracks m s h =
        Ensures-weaken (λ s' p. p.0)
          (on_world-Tracks (step rt m) (put_ctx (record_receive lib.type_name m s.ctx) s) h
            (step-Keeps rt m _))

    deliver_link-Tracks :
        (l : Link) (s : IterationState lib)
        → TracksState s
        → Ensures (deliver_link rt config l s) TracksState
    unfolding deliver_link
    deliver_link-Tracks l s h =
        Ensures-if (contains l.to s.crashed) (λ _. Ensures-pure s h)
          λ _.
            (let (messages, queues) = schedule l.from l.to l.max_messages s.message_queues in
              Ensures-each_inv (λ _. Unit) TracksState (λ m t _ p. receive-Tracks m t p) messages
                (record s { message_queues = queues }) (All-any messages) h)

    deliver_step-Tracks :
        (s : IterationState lib) → TracksState s → Ensures (deliver_step rt config s) TracksState
    unfolding deliver_step put_ctx
    deliver_step-Tracks s h =
        Ensures-bind
          (Ensures-any (get_next_node_choice rt (fuzzer_nodes config) config.max_messages s.ctx))
          λ (l, t) _. deliver_link-Tracks l (put_ctx t s) h

    make_request-Tracks :
        (o : Option ℕ) (s : IterationState lib)
        → TracksState s
        → Ensures (make_request rt config o s) TracksState
    unfolding make_request
    make_request-Tracks none s h = Ensures-pure s h
    make_request-Tracks (some n) s h =
        Ensures-weaken (λ s' p. p.0)
          (on_world-Tracks (step rt (client_message n)) s h
            (step-Keeps rt (client_message n) (world s)))

    send_message-Tracks :
        (m : Message) (s : IterationState lib)
        → TracksState s
        → Ensures (send_message rt config m s) TracksState
    unfolding send_message put_ctx
    send_message-Tracks m s h =
        Ensures-bind (Ensures-any (or_panic (send m s.message_queues))) λ queues _. Ensures-pure _ h

    tick_step-Tracks :
        (s : IterationState lib) → TracksState s → Ensures (tick_step rt config s) TracksState
    unfolding tick_step world put_world
    tick_step-Tracks s h =
        Ensures-bind (tick-Keeps rt config.raft_environment_config (world s)) λ r p.
          Ensures-each_inv (λ _. Unit) TracksState (λ m t _ q. send_message-Tracks m t q) r.1
            (put_world r.0 s) (All-any r.1) (Keeps-Tracks (world s) r.0 s.crashed h p)

    iteration_step-Tracks :
        (j : ℕ) (s : IterationState lib)
        → TracksState s
        → Ensures (iteration_step rt config j s) TracksState
    unfolding iteration_step crash_step start_step request_step put_ctx
    iteration_step-Tracks j s h =
        let (o, t) = can_crash j s.ctx in
        let s₀ = crash_step j s in
        let h₀ : TracksState s₀ = crash-Tracks o (put_ctx t s) h in
        let (o₁, t₁) = can_start j s₀.ctx in
        Ensures-bind (restart-Tracks o₁ (put_ctx t₁ s₀) h₀) λ s₁ h₁.
          Ensures-bind (deliver_step-Tracks s₁ h₁) λ s₂ h₂.
            (let (o₂, t₂) = is_client_request j s₂.ctx in
              Ensures-bind (make_request-Tracks o₂ (put_ctx t₂ s₂) h₂)
                λ s₃ h₃. tick_step-Tracks s₃ h₃)

abbrev pub replicas_of : FuzzerConfig → ℕ
replicas_of config = config.raft_environment_config.replicas

module _ {G : Type 0} {lib : RaftLibrary G} (rt : Runtime G) (config : FuzzerConfig) where
  -- No node but those of the cluster runs or has a storage.
  unfoldable pub IsClosed : RaftEnvironment lib → Type 0
  IsClosed env =
      (id : ℕ)
      → ((in_cluster (replicas_of config) id || contains id (keys env.nodes))
          ≡ in_cluster (replicas_of config) id)
        × ((in_cluster (replicas_of config) id || contains id (keys env.storages))
            ≡ in_cluster (replicas_of config) id)

  -- So it is after each run, for the next.
  pub Tracks-IsClosed :
      (env : RaftEnvironment lib) (crashed : List ℕ)
      → Tracks (replicas_of config) env crashed
      → IsClosed env
  unfolding Tracks IsClosed
  Tracks-IsClosed env crashed h id = (ground (arith, h id), ground (arith, h id))

  begin_iteration-Tracks :
      (fuel : ℕ) (mimic : Option Trace) (queues : MessageQueues) (env : RaftEnvironment lib)
      → IsClosed env
      → Ensures (begin_iteration rt config fuel mimic queues env) (TracksState (replicas_of config))
  unfolding begin_iteration reset Adds Tracks IsClosed
  begin_iteration-Tracks fuel mimic queues env h =
      Ensures-bind (Ensures-any (begin_ctx rt config fuel mimic)) λ t _.
        Ensures-bind
          (Ensures-bind {Q = λ w. Adds (int_range 1 (replicas_of config + 1)) env w.0}
            (make_nodes-Adds config.raft_environment_config env)
            λ e p. Ensures-pure (e, t.event_trace) p)
          λ w p. Ensures-pure _ λ id. (
            ground (arith, p id, h id, contains-int_range (replicas_of config) id),
            ground (arith, p id, h id, contains-int_range (replicas_of config) id),
          )

  -- Whatever schedule a run has, random or mimicked, if the run returns, then of the nodes 1 to
  -- Replicas those that are booked as crashed do not run, all others run, no other node runs, and
  -- each of them has a storage. It is asked that no node but these runs or has a storage before.
  pub iterate-Tracks :
      (fuel : ℕ) (mimic : Option Trace) (queues : MessageQueues) (env : RaftEnvironment lib)
      → IsClosed env
      → Ensures (iterate rt config fuel mimic queues env) (TracksState (replicas_of config))
  unfolding iterate
  iterate-Tracks fuel mimic queues env h =
      Ensures-bind (begin_iteration-Tracks fuel mimic queues env h) λ s p.
        Ensures-each_inv (λ _. Unit) (TracksState (replicas_of config))
          (λ j t _ q. iteration_step-Tracks (replicas_of config) rt config j t q)
          (int_range 0 config.steps) s (All-any (int_range 0 config.steps)) p
