-- ===== src/Fuzzer/Iteration/Legal.antt =====
-- The schedule that RunIteration records names nodes that there are, and keeps to MaxMessages.
use model_guiding_fuzz.Common.{
  All, All-map, Ensures, Ensures-and, Ensures-pure, Ensures-weaken, IsRuntime, Option, Runtime,
  arith, none, some, ℕ, ◌+◌,
}
use model_guiding_fuzz.Types.Choice.{Trace}
use model_guiding_fuzz.Types.Sample.{int_range}
use model_guiding_fuzz.Types.Sample.Picks.{int_range-All}
use model_guiding_fuzz.Fuzzer.Context.{TraceCtx, new_ctx}
use model_guiding_fuzz.Fuzzer.Context.Load.{load}
use model_guiding_fuzz.Fuzzer.Context.Legal.{
  IsLegal, IsLegalCtx, can_crash-IsLegalCtx, can_start-IsLegalCtx, is_client_request-IsLegalCtx,
  load-IsLegalCtx, get_next_node_choice-IsLegalCtx,
}
use model_guiding_fuzz.Fuzzer.Messages.{MessageQueues}
use model_guiding_fuzz.Fuzzer.Setup.{FuzzerConfig, fuzzer_nodes}
use model_guiding_fuzz.Fuzzer.Setup.Bounds.{random_schedule-IsSchedule}
use model_guiding_fuzz.Fuzzer.Setup.Record.{random_schedule-Same}
use model_guiding_fuzz.Fuzzer.Iteration.{begin_ctx, iterate}
use model_guiding_fuzz.Fuzzer.Iteration.Crashes.{replicas_of}
use model_guiding_fuzz.Fuzzer.Iteration.Keeps.{IsKept, iterate-Holds}
use model_guiding_fuzz.Raft.Library.{RaftLibrary}
use model_guiding_fuzz.Raft.{RaftEnvironment}

-- A schedule of nodes that the configuration has, counting node 0, and with limits up to
-- MaxMessages.
abbrev pub IsLegalTrace : FuzzerConfig → Trace → Type 0
IsLegalTrace config trace = All (IsLegal (replicas_of config) config.max_messages) trace.l

-- What is mimicked, if anything, is such a schedule.
abbrev pub IsLegalMimic : FuzzerConfig → Option Trace → Type 0
IsLegalMimic config none = Unit
IsLegalMimic config (some mimic) = IsLegalTrace config mimic

module _ {G : Type 0} (rt : Runtime G) (ok : IsRuntime rt) (config : FuzzerConfig) where
  abbrev LegalCtx : ℕ → TraceCtx → Type 0
  LegalCtx n t = IsLegalCtx (replicas_of config) config.max_messages t

  legal-IsKept : IsKept rt config LegalCtx
  unfolding fuzzer_nodes
  legal-IsKept = record {
    on_events = λ n t events h. record {
      recorded = h.recorded;
      links = h.links;
      crashes = h.crashes;
      starts = h.starts;
    };
    on_crash = λ n j t h. can_crash-IsLegalCtx _ _ j t h;
    on_start = λ n j t h. can_start-IsLegalCtx _ _ j t h;
    on_request = λ n j t h. is_client_request-IsLegalCtx _ _ j t h;
    on_link = λ n t h.
        get_next_node_choice-IsLegalCtx (replicas_of config) config.max_messages rt ok
          (fuzzer_nodes config) t
          (All-map _ _ (int_range 0 (replicas_of config + 1)) (λ x p. omega (arith, p.1))
            (int_range-All 0 (replicas_of config + 1)))
          h;
  }

  begin_ctx-legal :
      (fuel : ℕ) (mimic : Option Trace)
      → IsLegalMimic config mimic
      → Ensures (begin_ctx rt config fuel mimic) (LegalCtx 0)
  unfolding begin_ctx new_ctx
  begin_ctx-legal fuel (some mimic) h =
      Ensures-pure (load mimic new_ctx) (load-IsLegalCtx _ _ mimic h)
  begin_ctx-legal fuel none h =
      Ensures-weaken
        (λ t (p, same). record {
          recorded = rw same tt;
          links =
              All-map _ _ t.node_choices.q
                (λ c q. (
                  omega (arith, q.1),
                  omega (arith, q.2.1),
                  omega (arith, q.3.1),
                  omega (arith, q.4),
                ))
                p.links;
          crashes = All-map _ _ t.crash_points (λ q b. b.1.1) p.crashes;
          starts = All-map _ _ t.start_points (λ q b. b.1.1) p.starts;
        })
        (Ensures-and (random_schedule-IsSchedule rt ok config fuel)
          (random_schedule-Same rt config fuel new_ctx))

  -- If a run that mimics a legal schedule, or none, returns, then the schedule that it has recorded
  -- is legal.
  pub iterate-legal :
      {lib : RaftLibrary G} (fuel : ℕ) (mimic : Option Trace) (queues : MessageQueues)
      (env : RaftEnvironment lib)
      → IsLegalMimic config mimic
      → Ensures (iterate rt config fuel mimic queues env) (λ s. IsLegalTrace config s.ctx.trace)
  iterate-legal fuel mimic queues env h =
      Ensures-weaken (λ s p. p.recorded)
        (iterate-Holds rt config LegalCtx legal-IsKept fuel mimic queues env
          (begin_ctx-legal fuel mimic h))
