-- ===== src/Fuzzer/Run/Legal.antt =====
-- Run keeps the queued schedules legal.
use model_guiding_fuzz.Common.{
  All, All-any, All-append, Ensures, Ensures-any, Ensures-bind, Ensures-each_inv, Ensures-if,
  Ensures-pure, Given, IsRuntime, List, Option, Runtime, [], none, refl, some, ℕ, ◌%◌, ◌*◌, ◌==◌,
  ◌∷◌, ◌≡◌,
}
use model_guiding_fuzz.Types.Choice.{Trace, copy_trace, default_copy_filter, copy_trace-default}
use model_guiding_fuzz.Types.Event.{EventTrace}
use model_guiding_fuzz.Types.Queue
use model_guiding_fuzz.Types.Queue.{Queue}
use model_guiding_fuzz.Types.Sample.{int_range}
use model_guiding_fuzz.Mutator.Indices.{Mutator}
use model_guiding_fuzz.Mutator.Legal.{IsLawful}
use model_guiding_fuzz.Checker.{Checker}
use model_guiding_fuzz.Guider.{Guider, CoverageStats}
use model_guiding_fuzz.Raft.Library.{RaftLibrary}
use model_guiding_fuzz.Fuzzer.Setup.{FuzzerConfig}
use model_guiding_fuzz.Fuzzer.Iteration.Crashes.{replicas_of}
use model_guiding_fuzz.Fuzzer.Iteration.Legal.{IsLegalTrace, IsLegalMimic, iterate-legal}
use model_guiding_fuzz.Fuzzer.Run.{
  Execution, pop, fuzz, Fuzzer, is_buggy, after_iteration, push_trace, take_mimic, run_iteration,
  seed_one, seed, mutate_one, reseed, learn, run_step, run,
}

module _ {G : Type 0} {lib : RaftLibrary G} {guider : Guider G} (rt : Runtime G) (ok : IsRuntime rt)
    (config : FuzzerConfig) (checker : Option (Checker lib)) (mutator : Mutator G)
    (lawful : IsLawful (replicas_of config) config.max_messages mutator) (fuel : ℕ) where
  -- All queued schedules are legal.
  abbrev pub IsLegalQueue : Fuzzer lib guider → Type 0
  IsLegalQueue f = All (IsLegalTrace config) f.mutated_traces_queue.q

  push_trace-legal :
      (t : Trace) (f : Fuzzer lib guider)
      → IsLegalTrace config t
      → IsLegalQueue f
      → IsLegalQueue (push_trace t f)
  unfolding push_trace Queue.push
  push_trace-legal t f p h =
      All-append (IsLegalTrace config) f.mutated_traces_queue.q
        (copy_trace t default_copy_filter ∷ []) h (rw (copy_trace-default t) p, tt)

  run_iteration-legal :
      (name : Execution) (mimic : Option Trace) (f : Fuzzer lib guider)
      → IsLegalMimic config mimic
      → IsLegalQueue f
      → Ensures
          (run_iteration rt config checker mutator fuel name mimic f)
          (λ r. IsLegalTrace config r.0.0 × IsLegalQueue r.1)
  unfolding run_iteration after_iteration
  run_iteration-legal name mimic f legal h =
      Ensures-bind (iterate-legal rt ok config fuel mimic f.message_queues f.raft_environment legal)
        λ s p.
          Ensures-bind (Ensures-any (is_buggy checker s.raft_environment))
            λ buggy _. Ensures-pure _ (p, h)

  reseed-legal :
      (i : ℕ) (f : Fuzzer lib guider)
      → IsLegalQueue f
      → Ensures (reseed rt config checker mutator fuel i f) IsLegalQueue
  unfolding reseed seed seed_one Queue.reset
  reseed-legal i f h =
      Ensures-if (config.reseed_frequency == 0) (λ _. record { returns = λ g a g' e. absurd (cc) })
        λ _.
          Ensures-if (i % config.reseed_frequency == 0)
            (λ _.
              Ensures-each_inv (λ _. Unit) IsLegalQueue
                (λ j f' _ h'.
                  Ensures-bind (run_iteration-legal (pop j) none f' tt h')
                    λ r p. Ensures-pure _ (push_trace-legal r.0.0 r.1 p.0 p.1))
                (int_range 0 config.seed_population_size) _ (All-any _) tt)
            (λ _. Ensures-pure f h)

  learn-legal :
      (trace : Trace) (events : EventTrace) (f : Fuzzer lib guider)
      → IsLegalTrace config trace
      → IsLegalQueue f
      → Ensures (learn rt config checker mutator fuel trace events f) IsLegalQueue
  unfolding learn mutate_one
  learn-legal trace events f p h =
      Ensures-bind (Ensures-any (guider.check trace events f.guider_state)) λ (n, state, events') _.
        Ensures-each_inv (λ _. Unit) IsLegalQueue
          (λ j f' _ h'.
            Ensures-bind (lawful.keeps trace events' p) λ new q. Ensures-pure _ (queue new f' q h'))
          (int_range 0 (n * config.mut_per_trace)) _ (All-any _) h
    where
      queue :
          (new : Option Trace) (f : Fuzzer lib guider)
          → Given (IsLegalTrace config) new
          → IsLegalQueue f
          → IsLegalQueue (elim new [ none ↦ f | some t ↦ push_trace t f ])
      queue none f q h = h
      queue (some t) f q h = push_trace-legal t f q h

  take_mimic-legal :
      (xs : List Trace) (f : Fuzzer lib guider)
      → f.mutated_traces_queue.q ≡ xs
      → All (IsLegalTrace config) xs
      → let r = take_mimic (Queue.pop (record { q = xs })) f in
        IsLegalMimic config r.0 × IsLegalQueue r.1
  unfolding take_mimic Queue.pop
  take_mimic-legal [] f e h = (tt, rw e h)
  take_mimic-legal (t ∷ ts) f e h = h

  run_step-legal :
      (i : ℕ) (f : Fuzzer lib guider) (cs : List CoverageStats)
      → IsLegalQueue f
      → Ensures (run_step rt config checker mutator fuel i (f, cs)) (λ r. IsLegalQueue r.0)
  unfolding run_step
  run_step-legal i f cs h = Ensures-bind (reseed-legal i f h) λ f₁ h₁.
      (let (mimic, f₂) = take_mimic (Queue.pop f₁.mutated_traces_queue) f₁ in
        let (legal, h₂) = take_mimic-legal f₁.mutated_traces_queue.q f₁ refl h₁ in
        Ensures-bind (run_iteration-legal (fuzz i) mimic f₂ legal h₂)
          λ ((trace, events), f₃) (p, h₃).
            Ensures-bind (learn-legal trace events f₃ p h₃) λ f₄ h₄. Ensures-pure _ h₄)

  -- With a mutator that makes legal schedules from legal ones, if Run returns on a queue of legal
  -- schedules, then all schedules that are queued are legal: every node that they name is one of 0
  -- to Replicas, and no link has a limit above MaxMessages. It is asked that the random source and
  -- range keep to what Go promises.
  pub run-legal :
      (f : Fuzzer lib guider)
      → IsLegalQueue f
      → Ensures (run rt config checker mutator fuel f) (λ r. IsLegalQueue r.0)
  unfolding run
  run-legal f h =
      Ensures-each_inv (λ _. Unit) (λ r. IsLegalQueue r.0) (λ i r _ p. run_step-legal i r.0 r.1 p)
        (int_range 0 config.iterations) (f, []) (All-any _) h
