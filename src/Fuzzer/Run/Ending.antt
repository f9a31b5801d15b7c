-- ===== src/Fuzzer/Run/Ending.antt =====
-- When Run returns: it does, if what it calls does, unless the raft library panics.
use model_guiding_fuzz.Common.{
  All-any, Ends, Ends-Returns, Ends-and, Ends-bind, Ends-each_inv, Ends-if, Ends-pure, Ends-weaken,
  Halts, IsRuntime, List, Option, Runtime, Total, [], arith, false, length, none, refl, some, suc,
  ℕ, ◌%◌, ◌*◌, ◌+◌, ◌<◌, ◌==◌, ◌≡◌,
}
use model_guiding_fuzz.Types.Choice.{Trace}
use model_guiding_fuzz.Types.Event.{EventTrace}
use model_guiding_fuzz.Types.Queue
use model_guiding_fuzz.Types.Queue.{Queue}
use model_guiding_fuzz.Types.Sample.{int_range}
use model_guiding_fuzz.Mutator.Indices.{Mutator}
use model_guiding_fuzz.Checker.{Checker}
use model_guiding_fuzz.Guider.{Guider, CoverageStats}
use model_guiding_fuzz.Guider.Answers.{IsTotal}
use model_guiding_fuzz.Raft.Library.{RaftLibrary}
use model_guiding_fuzz.Raft.{RaftEnvironment}
use model_guiding_fuzz.Raft.Presence.Totality.{IsEnding, Fits}
use model_guiding_fuzz.Fuzzer.Messages.Contents.{HasQueues}
use model_guiding_fuzz.Fuzzer.Setup.{FuzzerConfig}
use model_guiding_fuzz.Fuzzer.Setup.Ending.{IsFair, IsUsable, random_schedule-Returns}
use model_guiding_fuzz.Fuzzer.Iteration.{begin_ctx}
use model_guiding_fuzz.Fuzzer.Iteration.Crashes.{IsClosed, replicas_of, Tracks-IsClosed}
use model_guiding_fuzz.Fuzzer.Iteration.Crashes.Totality.{iterate-IsReady}
use model_guiding_fuzz.Fuzzer.Run.{
  Execution, pop, fuzz, Fuzzer, is_buggy, after_iteration, push_trace, take_mimic, run_iteration,
  seed_one, seed, mutate_one, reseed, learn, run_step, run,
}
use model_guiding_fuzz.Fuzzer.Run.Iterations.{executions}
use model_guiding_fuzz.Fuzzer.Run.Executions.{run-executions}

-- What Run asks of the mutator and the guider, whose calls return, and of the checker, whose calls
-- return unless the raft library panics in them.
pub record AreEnding {G : Type 0} (lib : RaftLibrary G) (guider : Guider G)
    (checker : Option (Checker lib)) (mutator : Mutator G) : Type 0 where
  pub checks :
      (check : Checker lib) → checker ≡ some check → (env : RaftEnvironment lib) → Halts (check env)
  pub mutates : (trace : Trace) (events : EventTrace) → Total (mutator trace events)
  pub guides : IsTotal guider

module _ {G : Type 0} {lib : RaftLibrary G} {guider : Guider G} (rt : Runtime G)
    (config : FuzzerConfig) (checker : Option (Checker lib)) (mutator : Mutator G) (k : ℕ)
    (ok : IsRuntime rt) (fair : IsFair rt config k) (usable : IsUsable config)
    (raft : IsEnding lib (replicas_of config)) (parts : AreEnding lib guider checker mutator) where
  -- What each run of the cluster needs, and leaves for the next.
  abbrev pub IsRunnable : Fuzzer lib guider → Type 0
  IsRunnable f =
      HasQueues (replicas_of config) f.message_queues
      × IsClosed rt config f.raft_environment
      × Fits (replicas_of config) raft f.raft_environment

  begin_ctx-Ends : (mimic : Option Trace) → Halts (begin_ctx rt config (suc k) mimic)
  unfolding begin_ctx
  begin_ctx-Ends none =
      Ends-weaken (λ t h. tt) (Ends-Returns (random_schedule-Returns rt ok config k fair usable))
  begin_ctx-Ends (some mimic) = Ends-pure _ tt

  is_buggy-Ends : (env : RaftEnvironment lib) → Halts (is_buggy checker env)
  unfolding is_buggy
  is_buggy-Ends env = by_checker checker (λ check e. parts.checks check e)
    where
      by_checker :
          (o : Option (Checker lib))
          → ((check : Checker lib)
              → o ≡ some check
              → (env : RaftEnvironment lib) → Halts (check env))
          → Halts (is_buggy o env)
      by_checker none h = Ends-pure false tt
      by_checker (some check) h = Ends-bind (h check refl env) λ good _. Ends-pure _ tt

  run_iteration-Ends :
      (name : Execution) (mimic : Option Trace) (f : Fuzzer lib guider)
      → IsRunnable f
      → Ends (run_iteration rt config checker mutator (suc k) name mimic f) (λ r. IsRunnable r.1)
  unfolding run_iteration after_iteration
  run_iteration-Ends name mimic f (there, closed, fits) =
      Ends-bind
        (iterate-IsReady rt config ok raft usable.some_messages (suc k) mimic f.message_queues
          f.raft_environment (begin_ctx-Ends mimic) there closed fits)
        λ s h. Ends-bind (is_buggy-Ends s.raft_environment) λ buggy _.
          Ends-pure _
            (h.1.0.has_queue, Tracks-IsClosed rt config s.raft_environment s.crashed h.0, h.1.1)

  seed-Ends :
      (f : Fuzzer lib guider)
      → IsRunnable f
      → Ends (seed rt config checker mutator (suc k) f) IsRunnable
  unfolding seed seed_one push_trace
  seed-Ends f h =
      Ends-each_inv (λ _. Unit) IsRunnable
        (λ i f' _ h'. Ends-bind (run_iteration-Ends (pop i) none f' h') λ r p. Ends-pure _ p)
        (int_range 0 config.seed_population_size) _ (All-any _) h

  reseed-Ends :
      (i : ℕ) (f : Fuzzer lib guider)
      → 0 < config.reseed_frequency
      → IsRunnable f
      → Ends (reseed rt config checker mutator (suc k) i f) IsRunnable
  unfolding reseed
  reseed-Ends i f some_rounds h =
      Ends-if (config.reseed_frequency == 0) (λ e. absurd (ground arith))
        λ _. Ends-if (i % config.reseed_frequency == 0) (λ _. seed-Ends f h) (λ _. Ends-pure f h)

  learn-Ends :
      (trace : Trace) (events : EventTrace) (f : Fuzzer lib guider)
      → IsRunnable f
      → Ends (learn rt config checker mutator (suc k) trace events f) IsRunnable
  unfolding learn mutate_one push_trace
  learn-Ends trace events f h =
      Ends-bind (Ends-Returns (parts.guides.checks trace events f.guider_state))
        λ (n, state, events') _.
          Ends-each_inv (λ _. Unit) IsRunnable
            (λ j f' _ h'.
              Ends-bind (Ends-Returns (parts.mutates trace events'))
                λ new _. Ends-pure _ (queued new f' h'))
            (int_range 0 (n * config.mut_per_trace)) _ (All-any _) h
    where
      queued :
          (new : Option Trace) (f : Fuzzer lib guider)
          → IsRunnable f
          → IsRunnable (elim new [ none ↦ f | some t ↦ push_trace t f ])
      queued none f h = h
      queued (some t) f h = h

  take_mimic-IsRunnable :
      (r : Option Trace × Queue Trace) (f : Fuzzer lib guider)
      → IsRunnable f
      → IsRunnable (take_mimic r f).1
  unfolding take_mimic
  take_mimic-IsRunnable (none, q) f h = h
  take_mimic-IsRunnable (some t, q) f h = h

  run_step-Ends :
      (i : ℕ) (f : Fuzzer lib guider) (cs : List CoverageStats)
      → 0 < config.reseed_frequency
      → IsRunnable f
      → Ends (run_step rt config checker mutator (suc k) i (f, cs)) (λ r. IsRunnable r.0)
  unfolding run_step
  run_step-Ends i f cs some_rounds h = Ends-bind (reseed-Ends i f some_rounds h) λ f₁ h₁.
      (let (mimic, f₂) = take_mimic (Queue.pop f₁.mutated_traces_queue) f₁ in
        let h₂ = take_mimic-IsRunnable (Queue.pop f₁.mutated_traces_queue) f₁ h₁ in
        Ends-bind (run_iteration-Ends (fuzz i) mimic f₂ h₂) λ ((trace, events), f₃) h₃.
          Ends-bind (learn-Ends trace events f₃ h₃) λ f₄ h₄. Ends-pure _ h₄)

  -- Run returns, unless the raft library panics in it: no index of its code is out of range, and
  -- no loop goes on for ever. If it returns, it has made as many random and mutated executions
  -- together as Iterations, returns a coverage for each, and leaves the fuzzer fit to run again: a
  -- queue for each link, no node or storage outside of the cluster, and those such as come up in
  -- it, which is asked for at the start, too. It is asked that each call of the raft library
  -- returns or panics on the nodes, storages and messages that come up, as IsEnding says, and the
  -- checker on each environment, that the mutator and the guider return, and that the messages go
  -- between nodes of the cluster, and proposals have an entry. It is also asked that the random
  -- source and range keep to what Go promises, that k draws, from wherever they begin, return
  -- every node, and every step that a sample is taken from, that there is a node, and that
  -- MaxMessages and ReseedFrequency are positive.
  pub run-Ends :
      (f : Fuzzer lib guider)
      → 0 < config.reseed_frequency
      → IsRunnable f
      → Ends (run rt config checker mutator (suc k) f) λ (f', cs).
        (executions f'.stats ≡ executions f.stats + config.iterations)
        × (length cs ≡ config.iterations)
        × IsRunnable f'
  unfolding run
  run-Ends f some_rounds h =
      Ends-weaken (λ r p. (p.0.0, p.0.1, p.1))
        (Ends-and
          (Ends-each_inv (λ _. Unit) (λ r. IsRunnable r.0)
            (λ i r _ h'. run_step-Ends i r.0 r.1 some_rounds h') (int_range 0 config.iterations)
            (f, []) (All-any _) h)
          (run-executions rt config checker mutator (suc k) f))
