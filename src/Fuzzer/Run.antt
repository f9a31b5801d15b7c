-- ===== src/Fuzzer/Run.antt =====
-- fuzzer.go: Fuzzer, NewFuzzer, RunIteration with its checker, seed and Run. A run of the fuzzer
-- seeds its queue of schedules, mimics those that are queued, and queues mutants of the runs that
-- the guider finds new.
pub mod Iterations
pub mod Counts
pub mod Growth
pub mod Executions
pub mod Ending
pub mod Beginning
pub mod Legal
use model_guiding_fuzz.Common.{
  Bool, List, Option, Random, Runtime, [], each, false, if◌then◌else◌, none, not, panic, pure, some,
  ℕ, ◌%◌, ◌*◌, ◌++◌, ◌+◌, ◌==◌, ◌>>=◌, ◌∷◌,
}
use model_guiding_fuzz.Types.Choice.{Trace, copy_trace, default_copy_filter}
use model_guiding_fuzz.Types.Event.{EventTrace}
use model_guiding_fuzz.Types.Queue
use model_guiding_fuzz.Types.Queue.{Queue}
use model_guiding_fuzz.Types.Sample.{int_range}
use model_guiding_fuzz.Mutator.Indices.{Mutator}
use model_guiding_fuzz.Fuzzer.Messages.{MessageQueues, new_queues}
use model_guiding_fuzz.Fuzzer.Setup.{FuzzerConfig}
use model_guiding_fuzz.Fuzzer.Iteration.{IterationState, iterate}
use model_guiding_fuzz.Checker.{Checker}
use model_guiding_fuzz.Guider.{Guider, CoverageStats}
use model_guiding_fuzz.Raft.Library.{RaftLibrary}
use model_guiding_fuzz.Raft.{RaftEnvironment, new_raft_environment}

-- The names of the runs: "pop_" or "fuzz_", and a number.
pub data Execution : Type 0 where
  pop fuzz : ℕ → Execution

-- The entries of the map `stats`.
pub record Stats : Type 0 where
  pub random_executions : ℕ
  pub mutated_executions : ℕ
  pub buggy_executions : ℕ
  pub first_buggy_execution : Option Execution

pub record Fuzzer {G : Type 0} (lib : RaftLibrary G) (guider : Guider G) : Type 0 where
  pub message_queues : MessageQueues
  pub mutated_traces_queue : Queue Trace
  pub raft_environment : RaftEnvironment lib
  pub stats : Stats
  -- What the guider of the configuration has seen.
  pub guider_state : guider.GuiderState

first_or : Option Execution → Execution → Option Execution
first_or none name = some name
first_or (some first) name = some first

-- A run that the checker refuses.
unfoldable pub note_bug : Execution → Stats → Stats
unfolding first_or
note_bug name stats = record stats {
  buggy_executions = stats.buggy_executions + 1;
  first_buggy_execution = first_or stats.first_buggy_execution name;
}

-- Whether the checker of the configuration, if there is one, refuses the cluster.
is_buggy :
    {G : Type 0} {lib : RaftLibrary G} → Option (Checker lib) → RaftEnvironment lib → Random G Bool
is_buggy none env = pure false
is_buggy (some checker) env = checker env >>= λ good. pure (not good)

module _ {G : Type 0} {lib : RaftLibrary G} {guider : Guider G} where
  unfoldable pub new_fuzzer : FuzzerConfig → guider.GuiderState → Random G (Fuzzer lib guider)
  new_fuzzer config state = do
    env ← new_raft_environment config.raft_environment_config
    pure (record {
      message_queues = new_queues config.raft_environment_config.replicas;
      mutated_traces_queue = Queue.new_queue;
      raft_environment = env;
      stats = record {
        random_executions = 0;
        mutated_executions = 0;
        buggy_executions = 0;
        first_buggy_execution = none;
      };
      guider_state = state;
    })

  push_trace : Trace → Fuzzer lib guider → Fuzzer lib guider
  push_trace t f = record f {
    mutated_traces_queue = Queue.push f.mutated_traces_queue (copy_trace t default_copy_filter);
  }

  -- The next schedule to mimic, if one is queued, and which kind of execution that makes.
  pub take_mimic : Option Trace × Queue Trace → Fuzzer lib guider → Option Trace × Fuzzer lib guider
  take_mimic (none, queue) f =
      let stats = f.stats in
      (none, record f { stats = record stats { random_executions = stats.random_executions + 1 } })
  take_mimic (some mimic, queue) f =
      let stats = f.stats in
      (
        some mimic,
        record f {
          mutated_traces_queue = queue;
          stats = record stats { mutated_executions = stats.mutated_executions + 1 };
        },
      )

  module _ (rt : Runtime G) (config : FuzzerConfig) (checker : Option (Checker lib))
      (mutator : Mutator G) (fuel : ℕ) where
    after_iteration : Execution → IterationState lib → Bool → Fuzzer lib guider → Fuzzer lib guider
    unfolding note_bug
    after_iteration name s buggy f = record f {
      message_queues = s.message_queues;
      raft_environment = s.raft_environment;
      stats = if buggy then note_bug name f.stats else f.stats;
    }

    unfoldable pub run_iteration :
        Execution
        → Option Trace
        → Fuzzer lib guider
        → Random G ((Trace × EventTrace) × Fuzzer lib guider)
    unfolding is_buggy after_iteration
    run_iteration name mimic f = do
      s ← iterate rt config fuel mimic f.message_queues f.raft_environment
      buggy ← is_buggy checker s.raft_environment
      pure ((s.ctx.trace, s.ctx.event_trace), after_iteration name s buggy f)

    seed_one : ℕ → Fuzzer lib guider → Random G (Fuzzer lib guider)
    unfolding run_iteration push_trace
    seed_one i f = do
      ((trace, events), f') ← run_iteration (pop i) none f
      pure (push_trace trace f')

    unfoldable pub seed : Fuzzer lib guider → Random G (Fuzzer lib guider)
    unfolding seed_one
    seed f =
        each seed_one (int_range 0 config.seed_population_size)
          (record f { mutated_traces_queue = Queue.reset f.mutated_traces_queue })

    -- One call of the mutator on a run that is new; what it returns, if anything, is queued.
    pub mutate_one : Trace → EventTrace → ℕ → Fuzzer lib guider → Random G (Fuzzer lib guider)
    unfolding push_trace
    mutate_one trace events j f = do
      new ← mutator trace events
      pure (elim new [ none ↦ f | some t ↦ push_trace t f ])

    -- `i % ReseedFrequency` panics at 0.
    pub reseed : ℕ → Fuzzer lib guider → Random G (Fuzzer lib guider)
    unfolding seed
    reseed i f =
        if config.reseed_frequency == 0
        then (λ g. panic)
        else if i % config.reseed_frequency == 0
        then seed f
        else pure f

    -- The guider's check of a run, and the mutants that it is worth.
    learn : Trace → EventTrace → Fuzzer lib guider → Random G (Fuzzer lib guider)
    unfolding mutate_one
    learn trace events f = do
      (new_states, state, events') ← guider.check trace events f.guider_state
      each (mutate_one trace events') (int_range 0 (new_states * config.mut_per_trace))
          (record f { guider_state = state })

    -- One round of the loop of Run.
    unfoldable pub run_step :
        ℕ
        → Fuzzer lib guider × List CoverageStats
        → Random G (Fuzzer lib guider × List CoverageStats)
    unfolding reseed take_mimic run_iteration learn
    run_step i (f, coverages) = do
      f₁ ← reseed i f
      let (mimic, f₂) = take_mimic (Queue.pop f₁.mutated_traces_queue) f₁
      ((trace, events), f₃) ← run_iteration (fuzz i) mimic f₂
      f₄ ← learn trace events f₃
      pure (f₄, coverages ++ guider.coverage f₄.guider_state ∷ [])

    unfoldable pub run : Fuzzer lib guider → Random G (Fuzzer lib guider × List CoverageStats)
    unfolding run_step
    run f = each run_step (int_range 0 config.iterations) (f, [])
