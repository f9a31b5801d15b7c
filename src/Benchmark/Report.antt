-- ===== src/Benchmark/Report.antt =====
-- benchmarking.go, record: what the runs of each benchmark covered, and the averages.
pub mod Gathering
pub mod Ending
use model_guiding_fuzz.Common.{
  Bool, List, Option, Random, Runtime, [], each, if◌then◌else◌, length, map, none, or_panic, pure,
  range, some, ℕ, ◌++◌, ◌+◌, ◌/◌, ◌>>=◌, ◌∷◌,
}
use Prim.Native.String.{String}
use model_guiding_fuzz.Guider.{CoverageStats}
use model_guiding_fuzz.Fuzzer.Run.{Stats}
use model_guiding_fuzz.Checker.{Checker}
use model_guiding_fuzz.Raft.Library.{RaftLibrary}
use model_guiding_fuzz.Benchmark.{Setup, Comparision, RunInfo, lookup_name, insert_name, run_all}

-- What is gathered from the runs, by the names of the benchmarks.
pub record Gathered : Type 0 where
  pub run_times : List (String × List ℕ)
  pub final_coverages : List (String × List CoverageStats)
  pub unique_state_coverages : List (String × List (List ℕ))
  pub stats : List (String × List Stats)

-- The entries of `recordData` of one name. `coverages` is written twice, and so is what stands
-- there at last: the final coverages or the curves.
pub data Coverages : Type 0 where
  final_points : List CoverageStats → Coverages
  state_curves : List (List ℕ) → Coverages

pub record RecordData : Type 0 where
  pub average_runtime : ℕ
  pub runtimes : List ℕ
  pub average_coverage : Option CoverageStats
  pub coverages : Option Coverages
  pub stats : List Stats

-- `if _, ok := m[name]; !ok { m[name] = make(…) }; m[name] = append(m[name], x)`
unfoldable pub gather : {A : Type 0} → String → A → List (String × List A) → List (String × List A)
unfolding lookup_name insert_name
gather name x m = elim (lookup_name name m) [
  | none ↦ insert_name name (x ∷ []) m
  | some xs ↦ insert_name name (xs ++ x ∷ []) m
]

-- `points[len(points)-1]`
unfoldable pub last_point : List CoverageStats → Option CoverageStats
last_point [] = none
last_point (p ∷ ps) = elim ps [ [] ↦ some p | q ∷ qs ↦ last_point ps ]

unfoldable pub sum_by : {A : Type 0} → (A → ℕ) → List A → ℕ
sum_by f [] = 0
sum_by f (x ∷ xs) = f x + sum_by f xs

-- The quotients of the sums. The lists of the maps have elements, or else this would be a panic.
unfoldable pub average : List CoverageStats → CoverageStats
unfolding sum_by
average cs = record {
  unique_states = sum_by (λ c. c.unique_states) cs / length cs;
  unique_traces = sum_by (λ c. c.unique_traces) cs / length cs;
  unique_state_traces = sum_by (λ c. c.unique_state_traces) cs / length cs;
}

module _ {G : Type 0} (rt : Runtime G) (new_line : List (ℕ × ℕ) → Bool) where
  -- The curve of a benchmark in one run, unless no line can be made of its points.
  plot_points : ℕ → List ℕ → List (ℕ × ℕ)
  plot_points j [] = []
  plot_points j (y ∷ ys) = (j, y) ∷ plot_points (j + 1) ys

  gather_curve : String × List CoverageStats → Gathered → Random G Gathered
  unfolding gather plot_points
  gather_curve (name, points) d =
      let curve = map (λ (p : CoverageStats). p.unique_states) points in
      pure (
        if new_line (plot_points 0 curve)
        then record d { unique_state_coverages = gather name curve d.unique_state_coverages }
        else d)

  gather_time : String × ℕ → Gathered → Random G Gathered
  unfolding gather
  gather_time (name, t) d = pure (record d { run_times = gather name t d.run_times })

  gather_final : String × List CoverageStats → Gathered → Random G Gathered
  unfolding gather last_point
  gather_final (name, points) d = do
    point ← or_panic (last_point points)
    pure (record d { final_coverages = gather name point d.final_coverages })

  gather_stats : String × Stats → Gathered → Random G Gathered
  unfolding gather
  gather_stats (name, s) d = pure (record d { stats = gather name s d.stats })

  -- One round of the loop over the runs.
  unfoldable pub gather_run : RunInfo → Gathered → Random G Gathered
  unfolding gather_curve gather_time gather_final gather_stats
  gather_run info d = do
    curves ← range rt info.coverages
    d₁ ← each gather_curve curves d
    times ← range rt info.run_times
    d₂ ← each gather_time times d₁
    finals ← range rt info.coverages
    d₃ ← each gather_final finals d₂
    stats ← range rt info.stats
    each gather_stats stats d₃

  -- The entries of a name; there are some only if there is a run time.
  on_data :
      (RecordData → RecordData)
      → String
      → List (String × RecordData)
      → Random G (List (String × RecordData))
  unfolding lookup_name insert_name
  on_data f name m = do d ← or_panic (lookup_name name m); pure (insert_name name (f d) m)

  write_time : String × List ℕ → List (String × RecordData) → Random G (List (String × RecordData))
  unfolding insert_name sum_by
  write_time (name, rts) m = pure (
      insert_name name
        (record {
          average_runtime = sum_by (λ t. t) rts / length rts;
          runtimes = rts;
          average_coverage = none;
          coverages = none;
          stats = [];
        })
        m)

  write_final :
      String × List CoverageStats
      → List (String × RecordData)
      → Random G (List (String × RecordData))
  unfolding on_data average
  write_final (name, cs) m =
      on_data
        (λ d. record d { average_coverage = some (average cs); coverages = some (final_points cs) })
        name m

  write_stats :
      String × List Stats → List (String × RecordData) → Random G (List (String × RecordData))
  unfolding on_data
  write_stats (name, ss) m = on_data (λ d. record d { stats = ss }) name m

  write_curves :
      String × List (List ℕ) → List (String × RecordData) → Random G (List (String × RecordData))
  unfolding on_data
  write_curves (name, cs) m = on_data (λ d. record d { coverages = some (state_curves cs) }) name m

  -- record, up to the file: what it writes.
  unfoldable pub report : List RunInfo → Random G (List (String × RecordData))
  unfolding gather_run write_time write_final write_stats write_curves
  report infos = do
    d ←
        each gather_run infos
          (record { run_times = []; final_coverages = []; unique_state_coverages = []; stats = [] })
    times ← range rt d.run_times
    m₁ ← each write_time times []
    finals ← range rt d.final_coverages
    m₂ ← each write_final finals m₁
    stats ← range rt d.stats
    m₃ ← each write_stats stats m₂
    curves ← range rt d.unique_state_coverages
    each write_curves curves m₃

-- Run: all runs, and the report on them.
unfoldable pub run_and_record :
    {G : Type 0} (setups : String → Setup G) {lib : RaftLibrary G}
    → Runtime G
    → Option (Checker lib)
    → ℕ
    → Random G ℕ
    → (List (ℕ × ℕ) → Bool)
    → Comparision setups
    → Random G (List (String × RecordData))
unfolding run_all report
run_and_record setups rt checker fuel since new_line c = do
  c' ← run_all setups rt checker fuel since c
  report rt new_line c'.run_infos
