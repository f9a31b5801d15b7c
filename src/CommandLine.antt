-- ===== src/CommandLine.antt =====
-- main.go: what the commands `fuzz` and `compare` run. The parsing of the flags is the library's;
-- the flags are an argument.
pub mod Frequency
pub mod Legal
use model_guiding_fuzz.Common.{
  Bool, List, Option, Random, Runtime, [], false, if◌then◌else◌, none, pure, some, ℕ, ◌>>=◌, ◌∷◌,
}
use Prim.Native.String.{String}
use text.Mathlib.Text
use model_guiding_fuzz.Types.Choice.{Trace}
use model_guiding_fuzz.Types.Event.{EventTrace}
use model_guiding_fuzz.Types.State.{State}
use model_guiding_fuzz.Mutator.Indices.{Mutator, empty_mutate}
use model_guiding_fuzz.Mutator.Swap.{swap_mutate}
use model_guiding_fuzz.Mutator.Exchange.{swap_crash_mutate, swap_max_mutate}
use model_guiding_fuzz.Mutator.Combined.{combined_mutate}
use model_guiding_fuzz.Checker.{Checker}
use model_guiding_fuzz.Checker.Serial.{serializability_checker}
use model_guiding_fuzz.Guider.{
  EventNode, CoverageStats, new_tlc_state_guider, new_trace_coverage_guider,
}
use model_guiding_fuzz.Guider.Instances.{
  Gocov, LineGuider, tlc_guider, trace_guider, line_guider, new_line_coverage_guider,
}
use model_guiding_fuzz.Raft.Library.{RaftLibrary}
use model_guiding_fuzz.Fuzzer.Setup.{FuzzerConfig}
use model_guiding_fuzz.Fuzzer.Run.{Fuzzer, new_fuzzer, run}
use model_guiding_fuzz.Benchmark.{Setup, Comparision, new_comparision, add, run_all}
use model_guiding_fuzz.Benchmark.Report.{RecordData, report}

-- The flags, but for the path that results are saved to.
pub record Flags : Type 0 where
  pub episodes : ℕ
  pub horizon : ℕ
  pub replicas : ℕ
  pub requests : ℕ
  pub num_runs : ℕ
  pub record_traces : Bool

-- The flags that are not given.
abbrev pub default_flags : Flags
default_flags = record {
  episodes = 10000;
  horizon = 50;
  replicas = 3;
  requests = 1;
  num_runs = 5;
  record_traces = false;
}

-- The configuration of `fuzz`. It leaves out ReseedFrequency, which is then 0.
unfoldable pub fuzz_config : Flags → FuzzerConfig
fuzz_config flags = record {
  iterations = flags.episodes;
  steps = flags.horizon;
  raft_environment_config = record {
    replicas = flags.replicas;
    election_tick = 20;
    heartbeat_tick = 2;
    ticks_per_step = 2;
  };
  mut_per_trace = 5;
  seed_population_size = 10;
  number_requests = flags.requests;
  crash_quota = 2;
  max_messages = 10;
  reseed_frequency = 0;
}

-- The configuration of `compare`.
unfoldable pub one_config : Flags → FuzzerConfig
one_config flags = record {
  iterations = flags.episodes;
  steps = flags.horizon;
  raft_environment_config = record {
    replicas = flags.replicas;
    election_tick = 12;
    heartbeat_tick = 2;
    ticks_per_step = 3;
  };
  mut_per_trace = 5;
  seed_population_size = 10;
  number_requests = flags.requests;
  crash_quota = 10;
  max_messages = 5;
  reseed_frequency = 2000;
}

-- The guiders all ask the same server.
module _ {G : Type 0} (lib : RaftLibrary G) (rt : Runtime G)
    (execute : EventTrace → Option (List String × List ℕ)) (hash_trace : Trace → ℕ)
    (hash_states : List State → ℕ) (hash_node : EventNode → ℕ)
    (hash_graph : List (ℕ × EventNode) → ℕ) (gocov : Gocov G) (fuel : ℕ) where
  -- `fuzz`: the line coverage guider, no mutants, no checker.
  unfoldable pub new_fuzz_fuzzer :
      Flags → Random G (Fuzzer lib (line_guider execute hash_trace hash_states gocov))
  unfolding fuzz_config line_guider new_line_coverage_guider
  new_fuzz_fuzzer flags =
      new_fuzzer (fuzz_config flags) (new_line_coverage_guider gocov flags.record_traces)

  unfoldable pub fuzz_command : Flags → Random G (List CoverageStats)
  unfolding new_fuzz_fuzzer
  fuzz_command flags = do
    f ← new_fuzz_fuzzer flags
    (f', coverages) ← run rt (fuzz_config flags) none empty_mutate fuel f
    pure coverages

  compare_mutator : Mutator G
  compare_mutator =
      combined_mutate
        (swap_crash_mutate rt 2 fuel ∷ swap_mutate rt 20 fuel ∷ swap_max_mutate rt 20 fuel ∷ [])

  -- The guider and the mutator of each name of `compare`; "random" is the last.
  unfoldable pub compare_setups : String → Setup G
  unfolding compare_mutator
  compare_setups name =
      if Text.◌==◌ name "traceCov"
      then record {
        guider = trace_guider execute hash_trace hash_states hash_node hash_graph;
        mutator = compare_mutator;
      }
      else if Text.◌==◌ name "lineCov"
      then record {
        guider = line_guider execute hash_trace hash_states gocov;
        mutator = compare_mutator;
      }
      else if Text.◌==◌ name "tlcstate"
      then record { guider = tlc_guider execute hash_trace hash_states; mutator = compare_mutator }
      else record { guider = tlc_guider execute hash_trace hash_states; mutator = empty_mutate }

  unfoldable pub new_compare : Flags → Comparision compare_setups
  unfolding compare_setups trace_guider line_guider tlc_guider new_line_coverage_guider
      new_trace_coverage_guider
  new_compare flags =
      add compare_setups ("random", new_tlc_state_guider flags.record_traces)
        (add compare_setups ("tlcstate", new_tlc_state_guider flags.record_traces)
          (add compare_setups ("lineCov", new_line_coverage_guider gocov flags.record_traces)
            (add compare_setups ("traceCov", new_trace_coverage_guider flags.record_traces)
              (new_comparision compare_setups (one_config flags) flags.num_runs))))

  -- `compare`, with what it writes to its file.
  unfoldable pub one_command :
      (List (ℕ × ℕ) → Bool) → Random G ℕ → Flags → Random G (List (String × RecordData))
  unfolding new_compare
  one_command new_line since flags = do
    c ←
        run_all compare_setups rt (some (serializability_checker lib rt)) fuel since
          (new_compare flags)
    report rt new_line c.run_infos
