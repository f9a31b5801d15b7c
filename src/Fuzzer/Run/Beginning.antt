-- ===== src/Fuzzer/Run/Beginning.antt =====
-- A new fuzzer is fit to run.
use model_guiding_fuzz.Common.{
  Ends, Ends-and, Ends-bind, Ends-pure, Ensures, Ensures-weaken, IsRuntime, Runtime, arith, refl,
  ◌≡◌,
}
use model_guiding_fuzz.Guider.{Guider}
use model_guiding_fuzz.Raft.Library.{RaftLibrary}
use model_guiding_fuzz.Raft.{new_raft_environment}
use model_guiding_fuzz.Raft.Beginning.{Adds, make_nodes-Adds, contains-int_range}
use model_guiding_fuzz.Raft.Presence.Totality.{IsEnding, Fits}
use model_guiding_fuzz.Raft.Presence.Totality.Steps.{new_raft_environment-Ends}
use model_guiding_fuzz.Fuzzer.Messages.Contents.{HasQueues, new_queues-HasQueues}
use model_guiding_fuzz.Fuzzer.Setup.{FuzzerConfig}
use model_guiding_fuzz.Fuzzer.Iteration.Crashes.{IsClosed, replicas_of}
use model_guiding_fuzz.Fuzzer.Run.{new_fuzzer}
use model_guiding_fuzz.Fuzzer.Run.Iterations.{executions}

module _ {G : Type 0} {lib : RaftLibrary G} (rt : Runtime G) (ok : IsRuntime rt)
    (config : FuzzerConfig) (raft : IsEnding lib (replicas_of config)) where
  new_raft_environment-IsClosed :
      Ensures (new_raft_environment {lib = lib} config.raft_environment_config) (IsClosed rt config)
  unfolding new_raft_environment Adds IsClosed
  new_raft_environment-IsClosed =
      Ensures-weaken
        (λ env p id. (
          ground (arith, p id, contains-int_range (replicas_of config) id),
          ground (arith, p id, contains-int_range (replicas_of config) id),
        ))
        (make_nodes-Adds config.raft_environment_config _)

  pub new_fuzzer-Ends :
      {guider : Guider G} (state : guider.GuiderState)
      → Ends (new_fuzzer {lib = lib} {guider = guider} config state) λ f.
        (HasQueues (replicas_of config) f.message_queues
          × IsClosed rt config f.raft_environment
          × Fits (replicas_of config) raft f.raft_environment)
        × (executions f.stats ≡ 0)
  unfolding new_fuzzer
  new_fuzzer-Ends {guider} state =
      Ends-bind
        (Ends-and
          (new_raft_environment-Ends rt ok (replicas_of config) raft config.raft_environment_config
            refl)
          new_raft_environment-IsClosed)
        λ env (closed, fits).
          Ends-pure _ ((new_queues-HasQueues (replicas_of config), closed, fits), refl)
