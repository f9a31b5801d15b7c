-- ===== src/Raft/Beginning.antt =====
-- The cluster that makeNodes sets up, and its histories.
use model_guiding_fuzz.Common.{
  Ensures, Ensures-any, Ensures-bind, Ensures-pure, Ensures-weaken, List, Runtime, [], ap₂, arith,
  contains, each, keys, leb, ltb, refl, suc, zero, ℕ, ◌&&◌, ◌+◌, ◌-◌, ◌>>=◌, ◌||◌, ◌∙◌, ◌∷◌, ◌≡◌,
}
use model_guiding_fuzz.Types.Event.{EventTrace}
use model_guiding_fuzz.Types.Sample.{count_up, int_range}
use model_guiding_fuzz.Raft.Library.{RaftLibrary}
use model_guiding_fuzz.Raft.{
  RaftEnvironmentConfig, RaftEnvironment, make_node, make_nodes, new_raft_environment,
}
use model_guiding_fuzz.Raft.History.{
  Operation, perform_all, runs_after_all, perform_all-runs_after, contains-insert,
}

contains-count_up : (i n id : ℕ) → contains id (count_up i n) ≡ (leb i id && ltb id (i + n))
unfolding count_up
contains-count_up i zero id = ground arith
contains-count_up i (suc n) id = ground (arith, contains-count_up (i + 1) n id)

pub contains-int_range : (n id : ℕ) → contains id (int_range 1 (n + 1)) ≡ (leb 1 id && leb id n)
unfolding int_range
contains-int_range n id = ground (arith, contains-count_up 1 (n + 1 - 1) id)

module _ {G : Type 0} {lib : RaftLibrary G} where
  -- The numbers of a list are added to the nodes and to the storages.
  unfoldable pub Adds : List ℕ → RaftEnvironment lib → RaftEnvironment lib → Type 0
  Adds xs env env' =
      (id : ℕ)
      → (contains id (keys env'.nodes) ≡ (contains id xs || contains id (keys env.nodes)))
        × (contains id (keys env'.storages) ≡ (contains id xs || contains id (keys env.storages)))

  make_node-Adds :
      (config : RaftEnvironmentConfig) (n : ℕ) (env : RaftEnvironment lib)
      → Ensures (make_node config n env) (Adds (n ∷ []) env)
  unfolding make_node Adds
  make_node-Adds config n env =
      Ensures-bind
        (Ensures-any
          (lib.new_raw_node n config.election_tick config.heartbeat_tick lib.new_memory_storage))
        λ node _.
          Ensures-bind
            (Ensures-any (each lib.apply_add_node (int_range 1 (config.replicas + 1)) node))
            λ node' _. Ensures-pure _ λ id. (
              ground (arith, contains-insert n id node' env.nodes),
              ground (arith, contains-insert n id lib.new_memory_storage env.storages),
            )

  make_all-Adds :
      (config : RaftEnvironmentConfig) (xs : List ℕ) (env : RaftEnvironment lib)
      → Ensures (each (make_node config) xs env) (Adds xs env)
  unfolding Adds
  make_all-Adds config [] env = Ensures-pure env (λ id. (refl, refl))
  make_all-Adds config (x ∷ xs) env = Ensures-bind (make_node-Adds config x env) λ e p.
      Ensures-weaken (λ e' q id. (ground (arith, p id, q id), ground (arith, p id, q id)))
        (make_all-Adds config xs e)

  pub make_nodes-Adds :
      (config : RaftEnvironmentConfig) (env : RaftEnvironment lib)
      → Ensures (make_nodes config env) (Adds (int_range 1 (config.replicas + 1)) env)
  unfolding make_nodes
  make_nodes-Adds config env = make_all-Adds config (int_range 1 (config.replicas + 1)) env

  -- In a new environment, after any stops, starts, steps and ticks, if they return, a node runs
  -- exactly if it is one of 1 to Replicas and was started after its last stop, if it was stopped.
  pub new-runs_after :
      (rt : Runtime G) (config : RaftEnvironmentConfig) (os : List Operation) (events : EventTrace)
      → Ensures
          (new_raft_environment {lib = lib} config >>= λ env.
            perform_all rt config os (env, events))
          λ w'.
            (id : ℕ)
            → contains id (keys w'.0.nodes)
              ≡ runs_after_all id
                  (leb 1 id && leb id config.replicas)
                  os
                  (leb 1 id && leb id config.replicas)
  unfolding new_raft_environment Adds
  new-runs_after rt config os events = Ensures-bind (make_nodes-Adds config _) λ env p.
      Ensures-weaken
        (λ w' q id.
          (q id).0
          ∙ ap₂ (λ s r. runs_after_all id s os r)
              (ground (arith, p id, contains-int_range config.replicas id))
              (ground (arith, p id, contains-int_range config.replicas id)))
        (perform_all-runs_after rt config os (env, events))
