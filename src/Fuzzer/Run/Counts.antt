-- ===== src/Fuzzer/Run/Counts.antt =====
-- How many runs Run makes, and what seeding leaves in the queue.
use model_guiding_fuzz.Common.{
  All, All-append, Ensures, Ensures-bind, Ensures-pure, Ensures-weaken, List, Option, Runtime, [],
  ap, arith, each, length, length-append, none, refl, subst, sym, ℕ, ◌+◌, ◌∙◌, ◌∷◌, ◌≡◌, ◌≤◌,
}
use model_guiding_fuzz.Types.Choice.{
  Trace, ChoiceType, copy_trace, default_copy_filter, copy_trace-default,
}
use model_guiding_fuzz.Types.Queue
use model_guiding_fuzz.Types.Queue.{Queue}
use model_guiding_fuzz.Types.Sample.{int_range}
use model_guiding_fuzz.Types.Sample.Picks.{length-int_range}
use model_guiding_fuzz.Mutator.Indices.{Mutator}
use model_guiding_fuzz.Mutator.Rounds.{count_type}
use model_guiding_fuzz.Checker.{Checker}
use model_guiding_fuzz.Guider.{Guider}
use model_guiding_fuzz.Raft.Library.{RaftLibrary}
use model_guiding_fuzz.Fuzzer.Setup.{FuzzerConfig}
use model_guiding_fuzz.Fuzzer.Run.{pop, Fuzzer, push_trace, seed_one, seed}
use model_guiding_fuzz.Fuzzer.Run.Iterations.{executions, run_iteration-Leaves}

-- A schedule with one link for each step.
abbrev pub IsFull : FuzzerConfig → Trace → Type 0
IsFull config t = count_type ChoiceType.node t.l ≡ config.steps

module _ {G : Type 0} {lib : RaftLibrary G} {guider : Guider G} (rt : Runtime G)
    (config : FuzzerConfig) (checker : Option (Checker lib)) (mutator : Mutator G) (fuel : ℕ) where
  -- What `n` rounds of the loop of seed do.
  record Seeded (n : ℕ) (f f' : Fuzzer lib guider) : Type 0 where
    size : length f'.mutated_traces_queue.q ≡ length f.mutated_traces_queue.q + n
    full :
        All (IsFull config) f.mutated_traces_queue.q → All (IsFull config) f'.mutated_traces_queue.q
    guided : f'.guider_state ≡ f.guider_state
    counted : executions f'.stats ≡ executions f.stats
    buggy_le : f.stats.buggy_executions ≤ f'.stats.buggy_executions
    le_buggy : f'.stats.buggy_executions ≤ f.stats.buggy_executions + n

  seed_one-Seeded :
      (i : ℕ) (f : Fuzzer lib guider)
      → Ensures (seed_one rt config checker mutator fuel i f) (Seeded 1 f)
  unfolding seed_one push_trace Queue.push
  seed_one-Seeded i f =
      Ensures-bind (run_iteration-Leaves rt config checker mutator fuel (pop i) none f)
        λ ((trace, events), f₁) (leaves, full). Ensures-pure _ (record {
          size = omega (
            arith,
            length-append f₁.mutated_traces_queue.q (copy_trace trace default_copy_filter ∷ []),
            ap (λ (q : Queue Trace). length q.q) leaves.queue,
          );
          full = λ h.
              All-append (IsFull config) f₁.mutated_traces_queue.q _
                (subst (λ (q : Queue Trace). All (IsFull config) q.q) (sym leaves.queue) h)
                (subst (IsFull config) (sym (copy_trace-default trace)) full, tt);
          guided = leaves.guided;
          counted = leaves.counted;
          buggy_le = leaves.buggy_le;
          le_buggy = leaves.le_buggy;
        })

  seed_all-Seeded :
      (xs : List ℕ) (f : Fuzzer lib guider)
      → Ensures (each (seed_one rt config checker mutator fuel) xs f) (Seeded (length xs) f)
  seed_all-Seeded [] f = Ensures-pure f (record {
    size = omega arith;
    full = λ h. h;
    guided = refl;
    counted = refl;
    buggy_le = omega arith;
    le_buggy = omega arith;
  })
  seed_all-Seeded (x ∷ xs) f = Ensures-bind (seed_one-Seeded x f) λ f₁ p.
      Ensures-weaken
        (λ f₂ q. record {
          size = omega (arith, p.size, q.size);
          full = λ h. q.full (p.full h);
          guided = q.guided ∙ p.guided;
          counted = q.counted ∙ p.counted;
          buggy_le = omega (arith, p.buggy_le, q.buggy_le);
          le_buggy = omega (arith, p.le_buggy, q.le_buggy);
        })
        (seed_all-Seeded xs f₁)

  pub seed_lem :
      (f : Fuzzer lib guider)
      → Ensures (seed rt config checker mutator fuel f) λ f'.
        (length f'.mutated_traces_queue.q ≡ config.seed_population_size)
        × All (IsFull config) f'.mutated_traces_queue.q
        × (f'.guider_state ≡ f.guider_state)
        × (executions f'.stats ≡ executions f.stats)
        × (f.stats.buggy_executions ≤ f'.stats.buggy_executions)
        × (f'.stats.buggy_executions ≤ f.stats.buggy_executions + config.seed_population_size)
  unfolding seed Queue.reset
  seed_lem f =
      Ensures-weaken
        (λ f' p. (
          omega (arith, p.size, length-int_range config.seed_population_size),
          p.full tt,
          p.guided,
          p.counted,
          p.buggy_le,
          omega (arith, p.le_buggy, length-int_range config.seed_population_size),
        ))
        (seed_all-Seeded (int_range 0 config.seed_population_size) _)
