-- ===== src/Benchmark/Ending.antt =====
-- When a comparison returns, with its report, unless the raft library panics.
use model_guiding_fuzz.Common.{
  All, All-Perm, All-any, All-map, Bool, Ends, Ends-Returns, Ends-and, Ends-bind, Ends-each_all,
  Ends-pure, Ends-range, Ends-weaken, IsRuntime, List, Option, Random, Runtime, Total, [], ap,
  arith, refl, subst, suc, sym, true, zero, ℕ, ◌++◌, ◌<◌, ◌||◌, ◌∙◌, ◌∷◌, ◌≡◌,
}
use mathlib.Core.List.Perm
use Prim.Native.String.{String}
use text.Mathlib.TextEquality.{eq_iff}
use model_guiding_fuzz.Checker.{Checker}
use model_guiding_fuzz.Raft.Library.{RaftLibrary}
use model_guiding_fuzz.Raft.Presence.Totality.{IsEnding}
use model_guiding_fuzz.Fuzzer.Setup.{FuzzerConfig}
use model_guiding_fuzz.Fuzzer.Setup.Ending.{IsFair, IsUsable}
use model_guiding_fuzz.Fuzzer.Iteration.Crashes.{replicas_of}
use model_guiding_fuzz.Fuzzer.Run.Beginning.{new_fuzzer-Ends}
use model_guiding_fuzz.Fuzzer.Run.Ending.{AreEnding, run-Ends}
use model_guiding_fuzz.Benchmark.{
  Setup, Benchmark, Comparision, RunInfo, run_benchmark, insert_name, do_run, do_runs, run_all,
}
use model_guiding_fuzz.Benchmark.Names.{has_name, has_name-insert, names_self, is_recorded}
use model_guiding_fuzz.Benchmark.Outcomes.{IsComplete, run_all-IsComplete}
use model_guiding_fuzz.Benchmark.Report.{run_and_record}
use model_guiding_fuzz.Benchmark.Report.Gathering.{IsReadable}
use model_guiding_fuzz.Benchmark.Report.Ending.{report-Returns}

-- A complete run of some iterations can be reported.
IsComplete-IsReadable :
    (config : FuzzerConfig) (info : RunInfo)
    → 0 < config.iterations
    → IsComplete config info
    → IsReadable info
IsComplete-IsReadable config info some_left h = record {
  covered =
      All-map _ _ info.coverages (λ e i. sym (h.covered_names e.0) ∙ i) (names_self info.coverages);
  counted = All-map _ _ info.stats (λ e i. sym (h.counted_names e.0) ∙ i) (names_self info.stats);
  some_points = All-map _ _ info.coverages (λ e i. omega (arith, i)) h.covered;
}

is_recorded-append :
    (k : String) (xs ys : List RunInfo)
    → is_recorded k (xs ++ ys) ≡ (is_recorded k xs || is_recorded k ys)
is_recorded-append k [] ys = refl
is_recorded-append k (x ∷ xs) ys = ground (arith, is_recorded-append k xs ys)

-- What a comparison asks of the configuration, and of what it calls.
pub record AreReady {G : Type 0} (setups : String → Setup G) (lib : RaftLibrary G) (rt : Runtime G)
    (checker : Option (Checker lib)) (k : ℕ) (since : Random G ℕ) (config : FuzzerConfig)
    : Type 1 where
  pub fair : IsFair rt config k
  pub usable : IsUsable config
  pub some_rounds : 0 < config.reseed_frequency
  pub raft : IsEnding lib (replicas_of config)
  pub parts : (name : String) → AreEnding lib (setups name).guider checker (setups name).mutator
  pub clock : Total since

module _ {G : Type 0} (setups : String → Setup G) {lib : RaftLibrary G} (rt : Runtime G)
    (ok : IsRuntime rt) (checker : Option (Checker lib)) (k : ℕ) (since : Random G ℕ) where
  -- The names that have a time keep it, and so does the benchmark that was run.
  abbrev Names : List (Benchmark setups) × RunInfo → List (Benchmark setups) × RunInfo → Type 0
  Names r r' = (n : String) → has_name n r.1.run_times ≡ true → has_name n r'.1.run_times ≡ true

  abbrev IsTimed : Benchmark setups → List (Benchmark setups) × RunInfo → Type 0
  IsTimed b r = has_name b.0 r.1.run_times ≡ true

  run_benchmark-Ends :
      (config : FuzzerConfig) (b : Benchmark setups) (r : List (Benchmark setups) × RunInfo)
      → AreReady setups lib rt checker k since config
      → Ends
          (run_benchmark setups rt checker (suc k) since config b r)
          (λ r'. Names r r' × IsTimed b r')
  unfolding run_benchmark
  run_benchmark-Ends config (name, state) (benchmarks, info) ready =
      Ends-bind (new_fuzzer-Ends rt ok config ready.raft state) λ f (runnable, _).
        Ends-bind
          (run-Ends rt config checker (setups name).mutator k ok ready.fair ready.usable ready.raft
            (ready.parts name) f ready.some_rounds runnable)
          λ (f', coverages) _. Ends-bind (Ends-Returns ready.clock) λ elapsed _. Ends-pure _ (
            λ n h. ground (arith, h, has_name-insert n name elapsed info.run_times),
            written name elapsed info.run_times,
          )
    where
      written :
          {A : Type 0} (name : String) (a : A) (m : List (String × A))
          → has_name name (insert_name name a m) ≡ true
      written name a m = ground (arith, has_name-insert name name a m, (eq_iff name name).1 refl)

  do_run-Ends :
      (c : Comparision setups)
      → AreReady setups lib rt checker k since c.config
      → Ends (do_run setups rt checker (suc k) since c) λ r.
        (r.0.config ≡ c.config)
        × (r.0.run_infos ≡ c.run_infos)
        × All (λ b. has_name b.0 r.1.run_times ≡ true) c.benchmarks
  unfolding do_run
  do_run-Ends c ready = Ends-bind (Ends-range rt ok c.benchmarks) λ order p.
      Ends-bind
        (Ends-each_all (λ _. Unit) Names IsTimed (λ r n h. h) (λ r s t i j n h. j n (i n h))
          (λ b r s i h. i b.0 h) (λ b r _. run_benchmark-Ends c.config b r ready) order
          (c.benchmarks, record { run_times = []; coverages = []; stats = [] }) (All-any order))
        λ r (_, timed).
          Ends-pure (record c { benchmarks = r.0 }, r.1)
            (refl, refl, All-Perm _ c.benchmarks order (λ b. (hlevel)) (Perm.symm p) timed)

  -- What is recorded stays recorded.
  do_runs-Ends :
      (n : ℕ) (c : Comparision setups)
      → AreReady setups lib rt checker k since c.config
      → Ends (do_runs setups rt checker (suc k) since n c) λ c'.
        (name : String) → is_recorded name c.run_infos ≡ true → is_recorded name c'.run_infos ≡ true
  unfolding do_runs
  do_runs-Ends zero c ready = Ends-pure c (λ name h. h)
  do_runs-Ends (suc n) c ready = Ends-bind (do_run-Ends c ready) λ (c₁, info) (same, kept, _).
      Ends-weaken
        (λ c' h name e. h name (
          ground (
            arith,
            e,
            ap (is_recorded name) kept,
            is_recorded-append name c₁.run_infos (info ∷ []),
          )))
        (do_runs-Ends n (record c₁ { run_infos = c₁.run_infos ++ info ∷ [] })
          (subst (AreReady setups lib rt checker k since) (sym same) ready))

  run_all-Ends :
      (c : Comparision setups)
      → 0 < c.runs
      → AreReady setups lib rt checker k since c.config
      → Ends
          (run_all setups rt checker (suc k) since c)
          λ c'. All (λ b. is_recorded b.0 c'.run_infos ≡ true) c.benchmarks
  unfolding run_all do_runs
  run_all-Ends c some_runs ready = by_runs c.runs some_runs
    where
      by_runs :
          (n : ℕ)
          → 0 < n
          → Ends
              (do_runs setups rt checker (suc k) since n c)
              λ c'. All (λ b. is_recorded b.0 c'.run_infos ≡ true) c.benchmarks
      by_runs zero h = absurd (omega arith)
      by_runs (suc n) h = Ends-bind (do_run-Ends c ready) λ (c₁, info) (same, kept, timed).
          Ends-weaken
            (λ c' i.
              All-map _ _ c.benchmarks
                (λ b e. i b.0 (ground (arith, e, is_recorded-append b.0 c₁.run_infos (info ∷ []))))
                timed)
            (do_runs-Ends n (record c₁ { run_infos = c₁.run_infos ++ info ∷ [] })
              (subst (AreReady setups lib rt checker k since) (sym same) ready))

  -- A comparison that makes some runs, of some iterations each, returns, unless the raft library
  -- panics in it, and its report has an entry for each of the benchmarks: no run and no part of
  -- the report panics itself or goes on for ever. It is asked that nothing was run before, that
  -- each call of the raft library returns or panics on the nodes, storages and messages that come
  -- up, as IsEnding says, and the checker on each environment, that the guiders, the mutators and
  -- the clock return, and that the messages go between nodes of the cluster, and proposals have an
  -- entry. It is also asked that the configuration has a node, and a positive MaxMessages and
  -- ReseedFrequency, that k draws, from wherever they begin, return every node and every step that
  -- a sample is taken from, and that the random source and range keep to what Go promises.
  pub run_and_record-Ends :
      (new_line : List (ℕ × ℕ) → Bool) (c : Comparision setups)
      → c.run_infos ≡ []
      → 0 < c.runs
      → 0 < c.config.iterations
      → AreReady setups lib rt checker k since c.config
      → Ends
          (run_and_record setups rt checker (suc k) since new_line c)
          λ m. All (λ b. has_name b.0 m ≡ true) c.benchmarks
  unfolding run_and_record
  run_and_record-Ends new_line c none_yet some_runs some_left ready =
      Ends-bind
        (Ends-and (run_all-Ends c some_runs ready)
          (run_all-IsComplete setups rt checker (suc k) since c none_yet))
        λ c' ((complete, _), recorded).
          Ends-weaken (λ m h. All-map _ _ c.benchmarks (λ b e. h b.0 e) recorded)
            (Ends-Returns (
              report-Returns rt ok new_line c'.run_infos (
                All-map _ _ c'.run_infos (λ i p. IsComplete-IsReadable c.config i some_left p)
                  complete)))
