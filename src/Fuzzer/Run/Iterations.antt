-- ===== src/Fuzzer/Run/Iterations.antt =====
-- What a run of the cluster leaves alone in the fuzzer, and what it records.
use model_guiding_fuzz.Common.{
  Bool, Ensures, Ensures-any, Ensures-bind, Ensures-pure, Option, Runtime, arith, false, refl, true,
  ℕ, ◌+◌, ◌≡◌, ◌≤◌,
}
use model_guiding_fuzz.Types.Choice.{Trace}
use model_guiding_fuzz.Mutator.Indices.{Mutator}
use model_guiding_fuzz.Mutator.Rounds.{count_type}
use model_guiding_fuzz.Types.Choice.{ChoiceType}
use model_guiding_fuzz.Checker.{Checker}
use model_guiding_fuzz.Guider.{Guider}
use model_guiding_fuzz.Raft.Library.{RaftLibrary}
use model_guiding_fuzz.Fuzzer.Setup.{FuzzerConfig}
use model_guiding_fuzz.Fuzzer.Iteration.{IterationState}
use model_guiding_fuzz.Fuzzer.Iteration.Choices.{iterate-links}
use model_guiding_fuzz.Fuzzer.Run.{
  Execution, Stats, Fuzzer, note_bug, is_buggy, after_iteration, run_iteration,
}

abbrev pub executions : Stats → ℕ
executions s = s.random_executions + s.mutated_executions

-- The queue of schedules, what the guider has seen and the counts of the random and the mutated
-- executions stay. At most one buggy execution is counted.
pub record Leaves {G : Type 0} {lib : RaftLibrary G} {guider : Guider G} (f f' : Fuzzer lib guider)
    : Type 0 where
  pub queue : f'.mutated_traces_queue ≡ f.mutated_traces_queue
  pub guided : f'.guider_state ≡ f.guider_state
  pub counted : executions f'.stats ≡ executions f.stats
  pub buggy_le : f.stats.buggy_executions ≤ f'.stats.buggy_executions
  pub le_buggy : f'.stats.buggy_executions ≤ f.stats.buggy_executions + 1

module _ {G : Type 0} {lib : RaftLibrary G} {guider : Guider G} (rt : Runtime G)
    (config : FuzzerConfig) (checker : Option (Checker lib)) (mutator : Mutator G) (fuel : ℕ) where
  after_iteration-Leaves :
      (name : Execution) (s : IterationState lib) (buggy : Bool) (f : Fuzzer lib guider)
      → Leaves f (after_iteration rt config checker mutator fuel name s buggy f)
  unfolding after_iteration note_bug
  after_iteration-Leaves name s true f = record {
    queue = refl;
    guided = refl;
    counted = refl;
    buggy_le = omega arith;
    le_buggy = omega arith;
  }
  after_iteration-Leaves name s false f = record {
    queue = refl;
    guided = refl;
    counted = refl;
    buggy_le = omega arith;
    le_buggy = omega arith;
  }

  -- A run of the cluster has one link for each step, and leaves the rest of the fuzzer alone.
  pub run_iteration-Leaves :
      (name : Execution) (mimic : Option Trace) (f : Fuzzer lib guider)
      → Ensures
          (run_iteration rt config checker mutator fuel name mimic f)
          λ r. Leaves f r.1 × (count_type ChoiceType.node r.0.0.l ≡ config.steps)
  unfolding run_iteration
  run_iteration-Leaves name mimic f =
      Ensures-bind (iterate-links rt config fuel mimic f.message_queues f.raft_environment) λ s p.
        Ensures-bind (Ensures-any (is_buggy checker s.raft_environment))
          λ buggy _. Ensures-pure _ (after_iteration-Leaves name s buggy f, p)
