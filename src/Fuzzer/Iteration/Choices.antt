-- ===== src/Fuzzer/Iteration/Choices.antt =====
-- The schedule that RunIteration records has one link for each step.
use model_guiding_fuzz.Common.{
  Ensures, Ensures-pure, Ensures-weaken, Option, Runtime, ap, none, some, suc, ℕ, ◌∙◌, ◌≡◌,
}
use model_guiding_fuzz.Types.Choice.{ChoiceType, Trace}
use model_guiding_fuzz.Fuzzer.Context.{new_ctx}
use model_guiding_fuzz.Fuzzer.Context.Load.{load}
use model_guiding_fuzz.Fuzzer.Messages.{MessageQueues}
use model_guiding_fuzz.Fuzzer.Setup.{FuzzerConfig, fuzzer_nodes}
use model_guiding_fuzz.Fuzzer.Iteration.{begin_ctx, iterate}
use model_guiding_fuzz.Fuzzer.Context.Links.{
  links_in, links-can_crash, links-can_start, links-is_client_request, links-get_next_node_choice,
}
use model_guiding_fuzz.Raft.Library.{RaftLibrary}
use model_guiding_fuzz.Mutator.Rounds.{count_type}
use model_guiding_fuzz.Types.Sequence.{new_sequence}
use model_guiding_fuzz.Fuzzer.Setup.Record.{random_schedule-Same}
use model_guiding_fuzz.Fuzzer.Context.Feeds.{load-Loaded}
use model_guiding_fuzz.Raft.{RaftEnvironment}
use model_guiding_fuzz.Fuzzer.Iteration.Keeps.{IsKept, iterate-Holds}

links-begin_ctx :
    {G : Type 0} (rt : Runtime G) (config : FuzzerConfig) (fuel : ℕ) (mimic : Option Trace)
    → Ensures (begin_ctx rt config fuel mimic) (λ t. links_in t ≡ 0)
unfolding begin_ctx new_ctx new_sequence count_type
links-begin_ctx rt config fuel none =
    Ensures-weaken (λ t p. ap (λ (l : Trace). count_type ChoiceType.node l.l) p)
      (random_schedule-Same rt config fuel new_ctx)
links-begin_ctx rt config fuel (some mimic) =
    Ensures-pure (load mimic new_ctx)
      (ap (count_type ChoiceType.node) (load-Loaded mimic new_ctx).trace)

module _ {G : Type 0} (rt : Runtime G) (config : FuzzerConfig) where
  links-IsKept : IsKept rt config (λ n t. links_in t ≡ n)
  links-IsKept = record {
    on_events = λ n t events h. h;
    on_crash = λ n j t h. links-can_crash j t ∙ h;
    on_start = λ n j t h. links-can_start j t ∙ h;
    on_request = λ n j t h. links-is_client_request j t ∙ h;
    on_link = λ n t h.
        Ensures-weaken (λ r p. p ∙ ap suc h)
          (links-get_next_node_choice rt (fuzzer_nodes config) config.max_messages t);
  }

  -- Whatever schedule a run has, random or mimicked, if the run returns, then the schedule that
  -- it has recorded has exactly one link for each of its Steps.
  pub iterate-links :
      {lib : RaftLibrary G} (fuel : ℕ) (mimic : Option Trace) (queues : MessageQueues)
      (env : RaftEnvironment lib)
      → Ensures (iterate rt config fuel mimic queues env) (λ s. links_in s.ctx ≡ config.steps)
  iterate-links fuel mimic queues env =
      iterate-Holds rt config (λ n t. links_in t ≡ n) links-IsKept fuel mimic queues env
        (links-begin_ctx rt config fuel mimic)
