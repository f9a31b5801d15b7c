-- ===== src/Tests/Commands.antt =====
-- Witnesses of the theorems on the comparison and on the commands.
use model_guiding_fuzz.Common.{
  All, Ends, List, Option, Returns-pure, [], arith, done, false, length, library_panic, none,
  out_of_fuel, panic, pure, refl, some, suc, true, zero, ℕ, ◌%◌, ◌<◌, ◌∷◌, ◌≡◌,
}
use Prim.Native.String.{String}
use model_guiding_fuzz.Tests.{counter, counter-IsRuntime, link, stop, no_events}
use model_guiding_fuzz.Types.Choice.{
  SchedulingChoice, Trace, same_type, copy_trace, default_copy_filter,
}
use model_guiding_fuzz.Types.Sequence.{get, put}
use model_guiding_fuzz.Types.Sample.{fill, pick_all, sample}
use model_guiding_fuzz.Mutator.Combined.{combined_mutate, mutate_all, then_rest}
use model_guiding_fuzz.Mutator.Swap.{swap_mutate}
use model_guiding_fuzz.Mutator.Exchange.{swap_crash_mutate, swap_max_mutate}
use model_guiding_fuzz.Fuzzer.Context.Legal.{IsLegal}
use model_guiding_fuzz.Mutator.Legal.{AllLegal}
use model_guiding_fuzz.CommandLine.Legal.{compare_mutate-legal}
use model_guiding_fuzz.Tests.Runs.{
  talking, config, two_states, five_lines, counter-IsFair, config-IsUsable, two_states-IsAnswering,
  talking-IsEnding,
}
use model_guiding_fuzz.Guider.Answers.{tlc_guider-IsTotal}
use model_guiding_fuzz.Benchmark.Names.{has_name}
use model_guiding_fuzz.Benchmark.Ending.{AreReady, run_and_record-Ends}
use model_guiding_fuzz.Mutator.Indices.{empty_mutate}
use model_guiding_fuzz.Types.Sample.{int_range, count_up}
use model_guiding_fuzz.Types.Queue.{new_queue}
use model_guiding_fuzz.Guider.{new_tlc_state_guider}
use model_guiding_fuzz.Guider.Instances.{tlc_guider, line_guider}
use model_guiding_fuzz.Fuzzer.Messages.{new_queues}
use model_guiding_fuzz.Fuzzer.Run.{Fuzzer, new_fuzzer}
use model_guiding_fuzz.Raft.{new_raft_environment, make_nodes}
use model_guiding_fuzz.Benchmark.{Setup, Comparision}
use model_guiding_fuzz.Benchmark.Report.{run_and_record}
use model_guiding_fuzz.CommandLine.{
  Flags, default_flags, fuzz_config, new_fuzz_fuzzer, fuzz_command, compare_setups,
}
use model_guiding_fuzz.CommandLine.Frequency.{fuzz_command-panic}

abbrev setups : String → Setup ℕ
setups name = record { guider = tlc_guider two_states (λ t. 0) (λ s. 0); mutator = empty_mutate }

unfoldable comparision : Comparision setups
unfolding tlc_guider
comparision = record {
  config = config;
  benchmarks = ("random", new_tlc_state_guider false) ∷ [];
  runs = 2;
  run_infos = [];
}

unfoldable none_yet : comparision.run_infos ≡ []
unfolding comparision
none_yet = refl

comparision-AreReady : AreReady setups talking counter none 4 (pure 3) comparision.config
unfolding comparision empty_mutate
comparision-AreReady = record {
  fair = counter-IsFair;
  usable = config-IsUsable;
  some_rounds = omega arith;
  raft = talking-IsEnding;
  parts = λ name. record {
    checks = λ check e. absurd (cc);
    mutates = λ trace events. Returns-pure none tt;
    guides = tlc_guider-IsTotal two_states (λ t. 0) (λ s. 0) two_states-IsAnswering;
  };
  clock = Returns-pure 3 tt;
}

some_work : (0 < comparision.runs) × (0 < comparision.config.iterations)
unfolding comparision
some_work = (omega arith, omega arith)

run_and_record-Ends_example :
    Ends
      (run_and_record setups {lib = talking} counter none 5 (pure 3) (λ points. true) comparision)
      λ m. All (λ b. has_name b.0 m ≡ true) comparision.benchmarks
run_and_record-Ends_example =
    run_and_record-Ends setups {lib = talking} counter counter-IsRuntime none 4 (pure 3)
      (λ points. true) comparision none_yet some_work.0 some_work.1 comparision-AreReady

abbrev flags : Flags
flags = record default_flags { replicas = 1 }

unfoldable made_fuzzer : Fuzzer talking (line_guider two_states (λ t. 0) (λ s. 0) five_lines)
unfolding line_guider
made_fuzzer = record {
  message_queues = new_queues 1;
  mutated_traces_queue = new_queue;
  raft_environment = record {
    nodes = (1, 0) ∷ [];
    storages = (1, 0) ∷ [];
    cur_states = (1, record { raft_state = 0; term = 0; commit = 0 }) ∷ [];
  };
  stats = record {
    random_executions = 0;
    mutated_executions = 0;
    buggy_executions = 0;
    first_buggy_execution = none;
  };
  guider_state = record { cov_data = none; tlc = new_tlc_state_guider false };
}

made :
    new_fuzz_fuzzer talking counter two_states
      (λ t. 0)
      (λ s. 0)
      (λ n. 0)
      length
      five_lines
      9
      flags
      0
    ≡ done (made_fuzzer, 0)
unfolding new_fuzz_fuzzer made_fuzzer fuzz_config new_fuzzer new_raft_environment make_nodes
    int_range count_up
made = refl

fuzz_command-panic_example :
    fuzz_command talking counter two_states (λ t. 0) (λ s. 0) (λ n. 0) length five_lines 9 flags 0
    ≡ panic
fuzz_command-panic_example =
    fuzz_command-panic talking counter two_states (λ t. 0) (λ s. 0) (λ n. 0) length five_lines 9
      flags made_fuzzer 0 0 made (omega arith)

-- A schedule with enough crashes and links for the mutators of the command compare.
abbrev links : ℕ → List SchedulingChoice
links zero = []
links (suc n) = link 1 2 (n % 5) ∷ links n

abbrev schedule : Trace
schedule = record { l = stop 3 5 ∷ stop 1 4 ∷ stop 2 9 ∷ stop 3 1 ∷ links 40 }

links-legal : (n : ℕ) → All (IsLegal 3 5) (links n)
links-legal zero = tt
links-legal (suc n) = ((omega arith, omega arith, omega arith, omega arith), links-legal n)

schedule-legal : AllLegal 3 5 schedule
schedule-legal = (
  (omega arith, omega arith, omega arith, omega arith),
  (
    (omega arith, omega arith, omega arith, omega arith),
    (
      (omega arith, omega arith, omega arith, omega arith),
      ((omega arith, omega arith, omega arith, omega arith), links-legal 40),
    ),
  ),
)

-- What the mutator of the benchmark traceCov makes of it, with the counting source.
unfoldable mutated : Option Trace
unfolding combined_mutate mutate_all then_rest swap_crash_mutate swap_mutate swap_max_mutate fill
    sample pick_all same_type get put copy_trace default_copy_filter
mutated =
    elim (combined_mutate
      (swap_crash_mutate counter 2 30
        ∷ swap_mutate counter 20 30
        ∷ swap_max_mutate counter 20 30
        ∷ [])
      schedule no_events 0) [
        | done (o, g) ↦ o
        | panic ↦ none
        | library_panic ↦ none
        | out_of_fuel ↦ none
      ]

abbrev or_empty : Option Trace → Trace
or_empty none = record { l = [] }
or_empty (some t) = t

-- It has the limits of the links in another order, and the nodes of the crashes.
abbrev mutated_schedule : Trace
mutated_schedule = or_empty mutated

mutates :
    (compare_setups talking counter two_states
        (λ t. 0)
        (λ s. 0)
        (λ n. 0)
        length
        five_lines
        30
        "traceCov").mutator
      schedule no_events 0
    ≡ done (some mutated_schedule, 84)
unfolding mutated compare_setups combined_mutate mutate_all then_rest swap_crash_mutate swap_mutate
    swap_max_mutate fill sample pick_all same_type get put copy_trace default_copy_filter
mutates = refl

compare_mutate-legal_example : AllLegal 3 5 mutated_schedule
compare_mutate-legal_example =
    compare_mutate-legal 3 5 talking counter two_states (λ t. 0) (λ s. 0) (λ n. 0) length five_lines
      30 "traceCov" schedule no_events 0 mutated_schedule 84 mutates schedule-legal
