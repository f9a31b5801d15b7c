-- ===== src/Fuzzer/Run/Executions.antt =====
-- How many runs of the cluster Run makes.
use model_guiding_fuzz.Common.{
  Ensures, Ensures-any, Ensures-bind, Ensures-pure, Ensures-weaken, List, Option, Runtime, [],
  arith, each, length, length-append, panic, refl, suc, ℕ, ◌*◌, ◌+◌, ◌-◌, ◌<◌, ◌∷◌, ◌≡◌,
}
use model_guiding_fuzz.Types.Choice.{Trace}
use model_guiding_fuzz.Types.Event.{EventTrace}
use model_guiding_fuzz.Types.Queue
use model_guiding_fuzz.Types.Queue.{Queue}
use model_guiding_fuzz.Types.Sample.{int_range, count_up}
use model_guiding_fuzz.Types.Sample.Picks.{length-int_range}
use model_guiding_fuzz.Mutator.Indices.{Mutator}
use model_guiding_fuzz.Checker.{Checker}
use model_guiding_fuzz.Guider.{Guider, CoverageStats}
use model_guiding_fuzz.Raft.Library.{RaftLibrary}
use model_guiding_fuzz.Fuzzer.Setup.{FuzzerConfig}
use model_guiding_fuzz.Fuzzer.Run.{fuzz, Fuzzer, take_mimic, reseed, learn, run_step, run}
use model_guiding_fuzz.Fuzzer.Run.Iterations.{executions, run_iteration-Leaves}
use model_guiding_fuzz.Fuzzer.Run.Growth.{mutate_all-Queues, pop-queued, reseed-bound}

module _ {G : Type 0} {lib : RaftLibrary G} {guider : Guider G} (rt : Runtime G)
    (config : FuzzerConfig) (checker : Option (Checker lib)) (mutator : Mutator G) (fuel : ℕ) where
  learn-executions :
      (trace : Trace) (events : EventTrace) (f : Fuzzer lib guider)
      → Ensures
          (learn rt config checker mutator fuel trace events f)
          λ f'. executions f'.stats ≡ executions f.stats
  unfolding learn
  learn-executions trace events f =
      Ensures-bind (Ensures-any (guider.check trace events f.guider_state)) λ (n, state, events') _.
        Ensures-weaken (λ f' q. q.counted)
          (mutate_all-Queues rt config checker mutator fuel trace events'
            (int_range 0 (n * config.mut_per_trace)) (record f { guider_state = state }))

  run_step-executions :
      (i : ℕ) (f : Fuzzer lib guider) (cs : List CoverageStats)
      → Ensures (run_step rt config checker mutator fuel i (f, cs)) λ (f', cs').
        (executions f'.stats ≡ suc (executions f.stats)) × (length cs' ≡ suc (length cs))
  unfolding run_step
  run_step-executions i f cs =
      Ensures-bind (reseed-bound rt config checker mutator fuel i f) λ f₁ p₁.
        (let (mimic, f₂) = take_mimic (Queue.pop f₁.mutated_traces_queue) f₁ in
          let p₂ = pop-queued f₁.mutated_traces_queue f₁ refl in
          Ensures-bind (run_iteration-Leaves rt config checker mutator fuel (fuzz i) mimic f₂)
            λ ((trace, events), f₃) (p₃, _).
              Ensures-bind (learn-executions trace events f₃) λ f₄ p₄. Ensures-pure _ (
                omega (arith, p₁.2, p₂.2, p₃.counted, p₄),
                omega (arith, length-append cs (guider.coverage f₄.guider_state ∷ [])),
              ))

  each-executions :
      (is : List ℕ) (f : Fuzzer lib guider) (cs : List CoverageStats)
      → Ensures (each (run_step rt config checker mutator fuel) is (f, cs)) λ (f', cs').
        (executions f'.stats ≡ executions f.stats + length is)
        × (length cs' ≡ length cs + length is)
  each-executions [] f cs = Ensures-pure (f, cs) (omega arith, omega arith)
  each-executions (i ∷ is) f cs = Ensures-bind (run_step-executions i f cs) λ (f₁, cs₁) p.
      Ensures-weaken (λ r q. (omega (arith, p.0, q.0), omega (arith, p.1, q.1)))
        (each-executions is f₁ cs₁)

  -- If Run returns, it has made as many random and mutated executions together as Iterations,
  -- whatever the checker, the guider and the mutator do, and returns a coverage for each.
  pub run-executions :
      (f : Fuzzer lib guider)
      → Ensures (run rt config checker mutator fuel f) λ (f', cs).
        (executions f'.stats ≡ executions f.stats + config.iterations)
        × (length cs ≡ config.iterations)
  unfolding run
  run-executions f =
      Ensures-weaken
        (λ r q. (
          omega (arith, q.0, length-int_range config.iterations),
          omega (arith, q.1, length-int_range config.iterations),
        ))
        (each-executions (int_range 0 config.iterations) f [])

  -- With a ReseedFrequency of 0, Run panics as soon as there is an iteration to make.
  pub run-panic :
      (f : Fuzzer lib guider) (g : G)
      → config.reseed_frequency ≡ 0
      → 0 < config.iterations
      → run rt config checker mutator fuel f g ≡ panic
  unfolding run run_step reseed int_range count_up
  run-panic f g zero_frequency some_left =
      let e : config.iterations - 0 ≡ suc (config.iterations - 1) = omega (arith, some_left) in
      rw (e, zero_frequency) refl
