-- ===== src/Fuzzer/Run/Growth.antt =====
-- What Run returns, and how its queue grows with what the guider finds.
use model_guiding_fuzz.Common.{
  All, All-any, All-append, All-map, Ensures, Ensures-any, Ensures-bind, Ensures-each_inv,
  Ensures-if, Ensures-pure, Ensures-weaken, List, Option, Runtime, [], ap, arith, each, inl, inr,
  length, length-append, none, refl, some, suc, ℕ, ◌%◌, ◌*◌, ◌++◌, ◌+◌, ◌==◌, ◌∙◌, ◌∷◌, ◌≡◌, ◌≤◌,
  ◌⊎◌,
}
use native.Mathlib.Nat.{add-mul}
use model_guiding_fuzz.Types.Choice.{Trace, copy_trace, default_copy_filter}
use model_guiding_fuzz.Types.Event.{EventTrace}
use model_guiding_fuzz.Types.Queue
use model_guiding_fuzz.Types.Queue.{Queue}
use model_guiding_fuzz.Types.Sample.{int_range}
use model_guiding_fuzz.Types.Sample.Picks.{length-int_range}
use model_guiding_fuzz.Mutator.Indices.{Mutator}
use model_guiding_fuzz.Checker.{Checker}
use model_guiding_fuzz.Guider.{Guider, IsCounting, CoverageStats}
use model_guiding_fuzz.Raft.Library.{RaftLibrary}
use model_guiding_fuzz.Fuzzer.Setup.{FuzzerConfig}
use model_guiding_fuzz.Fuzzer.Run.{
  fuzz, Fuzzer, push_trace, take_mimic, mutate_one, reseed, learn, run_step, run,
}
use model_guiding_fuzz.Fuzzer.Run.Iterations.{executions, run_iteration-Leaves}
use model_guiding_fuzz.Fuzzer.Run.Counts.{seed_lem}

-- No entry is above a later one.
unfoldable pub IsRising : (CoverageStats → ℕ) → List CoverageStats → Type 0
IsRising measured [] = Unit
IsRising measured (c ∷ cs) = All (λ d. measured c ≤ measured d) cs × IsRising measured cs

IsRising-append :
    (measured : CoverageStats → ℕ) (cs : List CoverageStats) (c : CoverageStats)
    → IsRising measured cs
    → All (λ d. measured d ≤ measured c) cs
    → IsRising measured (cs ++ c ∷ [])
unfolding IsRising
IsRising-append measured [] c h k = (tt, tt)
IsRising-append measured (d ∷ ds) c h k =
    (All-append _ ds (c ∷ []) h.0 (k.0, tt), IsRising-append measured ds c h.1 k.1)

-- The bound on the queue, over one round.
bound_step :
    (old reseeded new seeds c n c' mut : ℕ)
    → (reseeded ≤ seeds) ⊎ (reseeded ≡ old)
    → old ≤ seeds + c * mut
    → new ≤ reseeded + n * mut
    → c' ≡ c + n
    → new ≤ seeds + c' * mut
bound_step old reseeded new seeds c n c' mut (inl few) h k e =
    omega (arith, add-mul c n mut, ap (λ (m : ℕ). m * mut) e)
bound_step old reseeded new seeds c n c' mut (inr same) h k e =
    omega (arith, add-mul c n mut, ap (λ (m : ℕ). m * mut) e)

module _ {G : Type 0} {lib : RaftLibrary G} {guider : Guider G} where
  abbrev pub covered : (CoverageStats → ℕ) → Fuzzer lib guider → ℕ
  covered measured f = measured (guider.coverage f.guider_state)

  abbrev pub queued : Fuzzer lib guider → ℕ
  queued f = length f.mutated_traces_queue.q

  pub pop-queued :
      (q : Queue Trace) (f : Fuzzer lib guider)
      → f.mutated_traces_queue ≡ q
      → (queued (take_mimic (Queue.pop q) f).1 ≤ queued f)
        × ((take_mimic (Queue.pop q) f).1.guider_state ≡ f.guider_state)
        × (executions (take_mimic (Queue.pop q) f).1.stats ≡ suc (executions f.stats))
  unfolding take_mimic Queue.pop
  pop-queued q f h = by_elements q.q h
    where
      by_elements :
          (xs : List Trace)
          → f.mutated_traces_queue ≡ record { q = xs }
          → (queued (take_mimic (Queue.pop (record { q = xs })) f).1 ≤ queued f)
            × ((take_mimic (Queue.pop (record { q = xs })) f).1.guider_state ≡ f.guider_state)
            × (executions (take_mimic (Queue.pop (record { q = xs })) f).1.stats
                ≡ suc (executions f.stats))
      by_elements [] h = (omega arith, refl, omega arith)
      by_elements (x ∷ xs) h =
          (omega (arith, ap (λ (q : Queue Trace). length q.q) h), refl, omega arith)

  module _ (rt : Runtime G) (config : FuzzerConfig) (checker : Option (Checker lib))
      (mutator : Mutator G) (fuel : ℕ) where
    -- At most `n` schedules more are queued; the rest that is counted stays.
    pub record Queues (n : ℕ) (f f' : Fuzzer lib guider) : Type 0 where
      pub bound : queued f' ≤ queued f + n
      pub guided : f'.guider_state ≡ f.guider_state
      pub counted : executions f'.stats ≡ executions f.stats

    mutate_one-Queues :
        (trace : Trace) (events : EventTrace) (j : ℕ) (f : Fuzzer lib guider)
        → Ensures (mutate_one rt config checker mutator fuel trace events j f) (Queues 1 f)
    unfolding mutate_one push_trace Queue.push
    mutate_one-Queues trace events j f =
        Ensures-bind (Ensures-any (mutator trace events)) λ new _. Ensures-pure _ (by_result new)
      where
        by_result :
            (new : Option Trace) → Queues 1 f (elim new [ none ↦ f | some t ↦ push_trace t f ])
        by_result none = record { bound = omega arith; guided = refl; counted = refl }
        by_result (some t) = record {
          bound = omega (
            arith,
            length-append f.mutated_traces_queue.q (copy_trace t default_copy_filter ∷ []),
          );
          guided = refl;
          counted = refl;
        }

    pub mutate_all-Queues :
        (trace : Trace) (events : EventTrace) (js : List ℕ) (f : Fuzzer lib guider)
        → Ensures
            (each (mutate_one rt config checker mutator fuel trace events) js f)
            (Queues (length js) f)
    mutate_all-Queues trace events [] f =
        Ensures-pure f (record { bound = omega arith; guided = refl; counted = refl })
    mutate_all-Queues trace events (j ∷ js) f =
        Ensures-bind (mutate_one-Queues trace events j f) λ f₁ p.
          Ensures-weaken
            (λ f₂ q. record {
              bound = omega (arith, p.bound, q.bound);
              guided = q.guided ∙ p.guided;
              counted = q.counted ∙ p.counted;
            })
            (mutate_all-Queues trace events js f₁)

    pub reseed-bound :
        (i : ℕ) (f : Fuzzer lib guider)
        → Ensures (reseed rt config checker mutator fuel i f) λ f'.
          ((queued f' ≤ config.seed_population_size) ⊎ (queued f' ≡ queued f))
          × (f'.guider_state ≡ f.guider_state)
          × (executions f'.stats ≡ executions f.stats)
    unfolding reseed
    reseed-bound i f =
        Ensures-if (config.reseed_frequency == 0)
          (λ _. record { returns = λ g a g' e. absurd (cc) })
          λ _.
            Ensures-if (i % config.reseed_frequency == 0)
              (λ _.
                Ensures-weaken (λ f' p. (inl (omega (arith, p.0)), p.2, p.3))
                  (seed_lem rt config checker mutator fuel f))
              (λ _. Ensures-pure f (inr refl, refl, refl))

  module _ (rt : Runtime G) (config : FuzzerConfig) (checker : Option (Checker lib))
      (mutator : Mutator G) (fuel : ℕ) (measured : CoverageStats → ℕ) where
    -- The fuzzer's state after `n` new states were found.
    record Learns (f f' : Fuzzer lib guider) : Type 0 where
      news : ℕ
      grown : covered measured f' ≡ covered measured f + news
      bound : queued f' ≤ queued f + news * config.mut_per_trace
      counted : executions f'.stats ≡ executions f.stats

    learn-Learns :
        (counting : IsCounting guider measured) (trace : Trace) (events : EventTrace)
        (f : Fuzzer lib guider)
        → Ensures (learn rt config checker mutator fuel trace events f) (Learns f)
    unfolding learn
    learn-Learns counting trace events f =
        Ensures-bind (counting.counts trace events f.guider_state) λ (n, state, events') p.
          Ensures-weaken
            (λ f' q. record {
              news = n;
              grown = ap (λ s. measured (guider.coverage s)) q.guided ∙ p;
              bound = omega (arith, q.bound, length-int_range (n * config.mut_per_trace));
              counted = q.counted;
            })
            (mutate_all-Queues rt config checker mutator fuel trace events'
              (int_range 0 (n * config.mut_per_trace)) _)

    -- What each round of Run keeps: the queue is bounded by what is covered, and so are the entries
    -- of the result, which rise.
    record Holds (f : Fuzzer lib guider) (cs : List CoverageStats) : Type 0 where
      bound : queued f ≤ config.seed_population_size + covered measured f * config.mut_per_trace
      rising : IsRising measured cs
      below : All (λ c. measured c ≤ covered measured f) cs

    run_step-Holds :
        (counting : IsCounting guider measured) (i : ℕ) (f : Fuzzer lib guider)
        (cs : List CoverageStats)
        → Holds f cs
        → Ensures (run_step rt config checker mutator fuel i (f, cs)) λ (f', cs'). Holds f' cs'
    unfolding run_step
    run_step-Holds counting i f cs h =
        Ensures-bind (reseed-bound rt config checker mutator fuel i f) λ f₁ p₁.
          (let (mimic, f₂) = take_mimic (Queue.pop f₁.mutated_traces_queue) f₁ in
            let p₂ = pop-queued f₁.mutated_traces_queue f₁ refl in
            Ensures-bind (run_iteration-Leaves rt config checker mutator fuel (fuzz i) mimic f₂)
              λ ((trace, events), f₃) (p₃, _).
                Ensures-bind (learn-Learns counting trace events f₃) λ f₄ p₄.
                  (let q₃ = ap (λ (q : Queue Trace). length q.q) p₃.queue in
                    let c₁ = ap (λ s. measured (guider.coverage s)) p₁.1 in
                    let c₂ = ap (λ s. measured (guider.coverage s)) p₂.1 in
                    let c₃ = ap (λ s. measured (guider.coverage s)) p₃.guided in
                    let grown : covered measured f₄ ≡ covered measured f + p₄.news =
                      omega (arith, c₁, c₂, c₃, p₄.grown) in
                    let below : All (λ c. measured c ≤ covered measured f₄) cs =
                      All-map _ _ cs (λ c l. omega (arith, l, grown)) h.below in
                    Ensures-pure (f₄, cs ++ guider.coverage f₄.guider_state ∷ [])
                      (record {
                        bound =
                            bound_step (queued f) (queued f₁) (queued f₄)
                              config.seed_population_size (covered measured f) p₄.news
                              (covered measured f₄) config.mut_per_trace (p₁.0) h.bound
                              (omega (arith, p₂.0, q₃, p₄.bound)) grown;
                        rising =
                            IsRising-append measured cs (guider.coverage f₄.guider_state) h.rising
                              below;
                        below = All-append _ cs _ below (omega arith, tt);
                      })))

    each-Holds :
        (counting : IsCounting guider measured) (is : List ℕ) (f : Fuzzer lib guider)
        (cs : List CoverageStats)
        → Holds f cs
        → Ensures
            (each (run_step rt config checker mutator fuel) is (f, cs))
            λ (f', cs'). Holds f' cs'
    each-Holds counting is f cs h =
        Ensures-each_inv (λ _. Unit) (λ s. Holds s.0 s.1)
          (λ i s _ p. run_step-Holds counting i s.0 s.1 p) is (f, cs) (All-any is) h

    -- With a guider whose checks count what is measured of its coverage, if Run returns, the
    -- coverages that it returns never fall in that measure, none is above the last state of the
    -- guider, and the queue holds at most SeedPopulationSize schedules and MutPerTrace for each
    -- unit of the measure. It is asked that the queue is so bounded before.
    pub run-growth :
        (f : Fuzzer lib guider)
        → IsCounting guider measured
        → queued f ≤ config.seed_population_size + covered measured f * config.mut_per_trace
        → Ensures (run rt config checker mutator fuel f) λ (f', cs).
          IsRising measured cs
          × All (λ c. measured c ≤ covered measured f') cs
          × (queued f' ≤ config.seed_population_size + covered measured f' * config.mut_per_trace)
    unfolding run IsRising
    run-growth f counting bound =
        Ensures-weaken (λ (f', cs) p. (p.rising, p.below, p.bound))
          (each-Holds counting (int_range 0 config.iterations) f []
            (record { bound = bound; rising = tt; below = tt }))
