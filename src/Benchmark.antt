-- ===== src/Benchmark.antt =====
-- benchmarking.go: Comparision, which runs each of its benchmarks as often as `runs`, and averages
-- what the runs covered. Printing, the plots and the file that is written are not modelled; of a
-- plot there is only whether its line can be made.
pub mod Names
pub mod Averages
pub mod Report
pub mod Outcomes
pub mod Ending
use model_guiding_fuzz.Common.{
  List, Option, Random, Runtime, [], each, if◌then◌else◌, none, pure, range, some, suc, zero, ℕ,
  ◌++◌, ◌>>=◌, ◌∷◌,
}
use Prim.Native.String.{String}
use text.Mathlib.Text
use model_guiding_fuzz.Mutator.Indices.{Mutator}
use model_guiding_fuzz.Checker.{Checker}
use model_guiding_fuzz.Guider.{Guider, CoverageStats}
use model_guiding_fuzz.Raft.Library.{RaftLibrary}
use model_guiding_fuzz.Fuzzer.Setup.{FuzzerConfig}
use model_guiding_fuzz.Fuzzer.Run.{Fuzzer, Stats, new_fuzzer, run}

-- Maps by names.
unfoldable pub lookup_name : {A : Type 0} → String → List (String × A) → Option A
lookup_name name [] = none
lookup_name name ((n, a) ∷ m) =
    let rest = lookup_name name m in if Text.◌==◌ n name then some a else rest

unfoldable pub insert_name : {A : Type 0} → String → A → List (String × A) → List (String × A)
insert_name name a [] = (name, a) ∷ []
insert_name name a ((n, b) ∷ m) =
    let rest = insert_name name a m in if Text.◌==◌ n name then (n, a) ∷ m else (n, b) ∷ rest

-- What Add gives to a name, without the state of the guider.
pub record Setup (G : Type 0) : Type 1 where
  pub guider : Guider G
  pub mutator : Mutator G

pub record RunInfo : Type 0 where
  pub run_times : List (String × ℕ)
  pub coverages : List (String × List CoverageStats)
  pub stats : List (String × Stats)

-- `setups` is what has been added under each name, each guider once.
module _ {G : Type 0} (setups : String → Setup G) where
  -- A name, and what its guider has seen.
  abbrev pub Benchmark : Type 0
  Benchmark = (name : String) × (setups name).guider.GuiderState

  pub record Comparision : Type 0 where
    pub config : FuzzerConfig
    pub benchmarks : List Benchmark
    pub runs : ℕ
    pub run_infos : List RunInfo

  unfoldable pub new_comparision : FuzzerConfig → ℕ → Comparision
  new_comparision config runs = record {
    config = config;
    benchmarks = [];
    runs = runs;
    run_infos = [];
  }

  -- A benchmark goes in the place of the one of its name.
  unfoldable pub put_benchmark : Benchmark → List Benchmark → List Benchmark
  put_benchmark b [] = b ∷ []
  put_benchmark b (c ∷ cs) =
      let rest = put_benchmark b cs in if Text.◌==◌ c.0 b.0 then b ∷ cs else c ∷ rest

  unfoldable pub add : Benchmark → Comparision → Comparision
  unfolding put_benchmark
  add b c = record c { benchmarks = put_benchmark b c.benchmarks }

  -- `since` is the time that a run took.
  module _ {lib : RaftLibrary G} (rt : Runtime G) (checker : Option (Checker lib)) (fuel : ℕ)
      (since : Random G ℕ) where
    -- One benchmark: a new fuzzer with the guider's state, which is reset afterwards.
    unfoldable pub run_benchmark :
        FuzzerConfig → Benchmark → List Benchmark × RunInfo → Random G (List Benchmark × RunInfo)
    unfolding insert_name put_benchmark
    run_benchmark config (name, state) (benchmarks, info) = do
      let setup = setups name
      f ← new_fuzzer {lib = lib} {guider = setup.guider} config state
      (f', coverages) ← run rt config checker setup.mutator fuel f
      elapsed ← since
      pure (
        put_benchmark (name, setup.guider.reset f'.guider_state) benchmarks,
        record {
          run_times = insert_name name elapsed info.run_times;
          coverages = insert_name name coverages info.coverages;
          stats = insert_name name f'.stats info.stats;
        },
      )

    -- `range` reads each benchmark before it is run, and no run changes another's.
    unfoldable pub do_run : Comparision → Random G (Comparision × RunInfo)
    unfolding run_benchmark
    do_run c = do
      order ← range rt c.benchmarks
      let none_yet : RunInfo = record { run_times = []; coverages = []; stats = [] }
      (benchmarks, info) ← each (run_benchmark c.config) order (c.benchmarks, none_yet)
      pure (record c { benchmarks = benchmarks }, info)

    -- The loop of Run, for `n` more runs.
    unfoldable pub do_runs : ℕ → Comparision → Random G Comparision
    unfolding do_run
    do_runs zero c = pure c
    do_runs (suc n) c =
        do_run c >>= λ (c', info). do_runs n (record c' { run_infos = c'.run_infos ++ info ∷ [] })

    unfoldable pub run_all : Comparision → Random G Comparision
    unfolding do_runs
    run_all c = do_runs c.runs c
