-- ===== src/Benchmark/Outcomes.antt =====
-- What a run of the benchmarks returns for each of them.
use model_guiding_fuzz.Common.{
  All, All-any, All-append, Bool-cases, Ensures, Ensures-any, Ensures-bind, Ensures-each_inv,
  Ensures-pure, Ensures-weaken, List, Option, Random, Runtime, [], ap, arith, inl, inr, length,
  length-append, range, refl, subst, suc, sym, zero, ℕ, ◌++◌, ◌+◌, ◌∷◌, ◌≡◌,
}
use Prim.Native.String.{String}
use text.Mathlib.Text
use model_guiding_fuzz.Checker.{Checker}
use model_guiding_fuzz.Raft.Library.{RaftLibrary}
use model_guiding_fuzz.Fuzzer.Setup.{FuzzerConfig}
use model_guiding_fuzz.Fuzzer.Run.{new_fuzzer}
use model_guiding_fuzz.Fuzzer.Run.Iterations.{executions}
use model_guiding_fuzz.Fuzzer.Run.Executions.{run-executions}
use model_guiding_fuzz.Raft.{new_raft_environment}
use model_guiding_fuzz.Benchmark.Names.{has_name, has_name-insert}
use model_guiding_fuzz.Benchmark.{
  Setup, Benchmark, Comparision, RunInfo, insert_name, run_benchmark, do_run, do_runs, run_all,
}

All-insert_name :
    {A : Type 0} (P : A → Type 0) (name : String) (a : A) (m : List (String × A))
    → P a
    → All (λ e. P e.1) m
    → All (λ e. P e.1) (insert_name name a m)
unfolding insert_name
All-insert_name P name a [] p h = (p, tt)
All-insert_name P name a ((n, b) ∷ m) p h = elim (Bool-cases (Text.◌==◌ n name)) [
  | inl same ↦ rw same (p, h.1)
  | inr other ↦ rw other (h.0, All-insert_name P name a m p h.1)
]

-- The benchmarks of a run have as many coverages and executions as there are Iterations, and its
-- three maps the same names.
pub record IsComplete (config : FuzzerConfig) (info : RunInfo) : Type 0 where
  pub covered : All (λ e. length e.1 ≡ config.iterations) info.coverages
  pub counted : All (λ e. executions e.1 ≡ config.iterations) info.stats
  pub covered_names : (k : String) → has_name k info.coverages ≡ has_name k info.run_times
  pub counted_names : (k : String) → has_name k info.stats ≡ has_name k info.run_times

module _ {G : Type 0} (setups : String → Setup G) {lib : RaftLibrary G} (rt : Runtime G)
    (checker : Option (Checker lib)) (fuel : ℕ) (since : Random G ℕ) where
  run_benchmark-IsComplete :
      (config : FuzzerConfig) (b : Benchmark setups) (benchmarks : List (Benchmark setups))
      (info : RunInfo)
      → IsComplete config info
      → Ensures
          (run_benchmark setups rt checker fuel since config b (benchmarks, info))
          λ r. IsComplete config r.1
  unfolding run_benchmark new_fuzzer
  run_benchmark-IsComplete config (name, state) benchmarks info h =
      let setup = setups name in
      Ensures-bind {P = λ f. executions f.stats ≡ 0}
        (Ensures-bind (Ensures-any (new_raft_environment config.raft_environment_config))
          λ env _. Ensures-pure _ refl)
        λ f none_yet.
          Ensures-bind (run-executions rt config checker setup.mutator fuel f) λ (f', coverages) p.
            Ensures-bind (Ensures-any since) λ elapsed _. Ensures-pure _ (record {
              covered =
                  All-insert_name (λ cs. length cs ≡ config.iterations) name coverages
                    info.coverages p.1 h.covered;
              counted =
                  All-insert_name (λ s. executions s ≡ config.iterations) name f'.stats info.stats
                    (omega (arith, p.0, none_yet)) h.counted;
              covered_names = λ k. ground (
                arith,
                has_name-insert k name coverages info.coverages,
                has_name-insert k name elapsed info.run_times,
                h.covered_names k,
              );
              counted_names = λ k. ground (
                arith,
                has_name-insert k name f'.stats info.stats,
                has_name-insert k name elapsed info.run_times,
                h.counted_names k,
              );
            })

  do_run-IsComplete :
      (config : FuzzerConfig) (c : Comparision setups)
      → c.config ≡ config
      → Ensures
          (do_run setups rt checker fuel since c)
          λ r. IsComplete config r.1 × (r.0.config ≡ config) × (r.0.run_infos ≡ c.run_infos)
  unfolding do_run
  do_run-IsComplete config c same = Ensures-bind (Ensures-any (range rt c.benchmarks)) λ order _.
      Ensures-bind
        (Ensures-each_inv {f = run_benchmark setups rt checker fuel since c.config} (λ _. Unit)
          (λ r. IsComplete c.config r.1) (λ b r _ h. run_benchmark-IsComplete c.config b r.0 r.1 h)
          order (c.benchmarks, record { run_times = []; coverages = []; stats = [] })
          (All-any order)
          (record {
            covered = tt;
            counted = tt;
            covered_names = λ k. refl;
            counted_names = λ k. refl;
          }))
        λ r h.
          Ensures-pure (record c { benchmarks = r.0 }, r.1)
            (subst (λ x. IsComplete x r.1) same h, same, refl)

  do_runs-IsComplete :
      (config : FuzzerConfig) (n : ℕ) (c : Comparision setups)
      → c.config ≡ config
      → All (IsComplete config) c.run_infos
      → Ensures (do_runs setups rt checker fuel since n c) λ c'.
        All (IsComplete config) c'.run_infos × (length c'.run_infos ≡ length c.run_infos + n)
  unfolding do_runs
  do_runs-IsComplete config zero c same h = Ensures-pure c (h, omega arith)
  do_runs-IsComplete config (suc n) c same h =
      Ensures-bind (do_run-IsComplete config c same) λ (c₁, info) (complete, same₁, kept).
        (let infos : All (IsComplete config) (c₁.run_infos ++ info ∷ []) =
            All-append (IsComplete config) c₁.run_infos (info ∷ [])
              (subst (All (IsComplete config)) (sym kept) h) (complete, tt) in
          Ensures-weaken
            (λ c' p. (
              p.0,
              omega (
                arith,
                p.1,
                length-append c₁.run_infos (info ∷ []),
                ap (λ (i : List RunInfo). length i) kept,
              ),
            ))
            (do_runs-IsComplete config n (record c₁ { run_infos = c₁.run_infos ++ info ∷ [] }) same₁
              infos))

  pub run_all-IsComplete :
      (c : Comparision setups)
      → c.run_infos ≡ []
      → Ensures
          (run_all setups rt checker fuel since c)
          λ c'. All (IsComplete c.config) c'.run_infos × (length c'.run_infos ≡ c.runs)
  unfolding run_all
  run_all-IsComplete c none_yet =
      Ensures-weaken
        (λ c' p. (p.0, omega (arith, p.1, ap (λ (i : List RunInfo). length i) none_yet)))
        (do_runs-IsComplete c.config c.runs c refl (rw none_yet tt))
