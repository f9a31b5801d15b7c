-- ===== src/Benchmark/Report/Ending.antt =====
-- When the report on the runs of the benchmarks is written.
use model_guiding_fuzz.Common.{
  All, All-Perm, All-and, All-any, All-map, Bool, IsRuntime, List, Perm, Random, Returns,
  Returns-bind, Returns-each_all, Returns-each_inv, Returns-or_panic, Returns-pure, Returns-range,
  Returns-weaken, Runtime, [], arith, each, refl, true, ℕ, ◌∷◌, ◌≡◌,
}
use mathlib.Core.List.Perm
use Prim.Native.String.{String}
use text.Mathlib.TextEquality.{eq_iff}
use model_guiding_fuzz.Guider.{CoverageStats}
use model_guiding_fuzz.Fuzzer.Run.{Stats}
use model_guiding_fuzz.Benchmark.{RunInfo, lookup_name, insert_name}
use model_guiding_fuzz.Benchmark.Names.{
  has_name, lookup_name-has, has_name-insert, names_self, All-has_name, is_recorded,
}
use model_guiding_fuzz.Benchmark.Report.{
  Gathered, RecordData, on_data, write_time, write_final, write_stats, write_curves, report,
}
use model_guiding_fuzz.Benchmark.Report.Gathering.{IsReadable, gather_all-Gathers}

-- Every name that is in the first map is in the second.
Reaches : List (String × RecordData) → List (String × RecordData) → Type 0
Reaches m m' = (k : String) → has_name k m ≡ true → has_name k m' ≡ true

Recorded : RunInfo → List RunInfo → Type 0
Recorded info infos = (k : String) → has_name k info.run_times ≡ true → is_recorded k infos ≡ true

runs-Recorded : (infos : List RunInfo) → All (λ info. Recorded info infos) infos
unfolding Recorded
runs-Recorded [] = tt
runs-Recorded (info ∷ infos) = (
  λ k h. ground (arith, h),
  All-map (λ i. Recorded i infos) _ infos (λ i r k h. ground (arith, r k h)) (runs-Recorded infos),
)

module _ {G : Type 0} (rt : Runtime G) (ok : IsRuntime rt) (new_line : List (ℕ × ℕ) → Bool) where
  insert_name-Reaches :
      (name : String) (d : RecordData) (m : List (String × RecordData))
      → Reaches m (insert_name name d m)
  unfolding Reaches
  insert_name-Reaches name d m k h = ground (arith, h, has_name-insert k name d m)

  on_data-Reaches :
      (f : RecordData → RecordData) (name : String) (m : List (String × RecordData))
      → has_name name m ≡ true
      → Returns (on_data rt new_line f name m) (Reaches m)
  unfolding on_data
  on_data-Reaches f name m h =
      let (d, e) = lookup_name-has name m h in
      Returns-bind (Returns-or_panic (lookup_name name m) d e)
        λ d' _. Returns-pure _ (insert_name-Reaches name (f d') m)

  write_time-Reaches :
      (e : String × List ℕ) (m : List (String × RecordData))
      → Returns (write_time rt new_line e m) (λ m'. Reaches m m' × (has_name e.0 m' ≡ true))
  unfolding write_time
  write_time-Reaches (name, rts) m = Returns-pure _ (insert_name-Reaches name _ m, written name _ m)
    where
      written :
          (name : String) (d : RecordData) (m : List (String × RecordData))
          → has_name name (insert_name name d m) ≡ true
      written name d m = ground (arith, has_name-insert name name d m, (eq_iff name name).1 refl)

  write_times-Reaches :
      (ts : List (String × List ℕ)) (m : List (String × RecordData))
      → Returns (each (write_time rt new_line) ts m) (λ m'. All (λ e. has_name e.0 m' ≡ true) ts)
  unfolding Reaches
  write_times-Reaches ts m =
      Returns-weaken (λ m' p. p.1)
        (Returns-each_all (λ _. Unit) Reaches (λ e m. has_name e.0 m ≡ true) (λ m k h. h)
          (λ m m' m'' p q k h. q k (p k h)) (λ e m m' p h. p e.0 h)
          (λ e m _. write_time-Reaches e m) ts m (All-any ts))

  write_final-Reaches :
      (e : String × List CoverageStats) (m : List (String × RecordData))
      → has_name e.0 m ≡ true
      → Returns (write_final rt new_line e m) (Reaches m)
  unfolding write_final
  write_final-Reaches (name, xs) m h = on_data-Reaches _ name m h

  write_stats-Reaches :
      (e : String × List Stats) (m : List (String × RecordData))
      → has_name e.0 m ≡ true
      → Returns (write_stats rt new_line e m) (Reaches m)
  unfolding write_stats
  write_stats-Reaches (name, xs) m h = on_data-Reaches _ name m h

  write_curves-Reaches :
      (e : String × List (List ℕ)) (m : List (String × RecordData))
      → has_name e.0 m ≡ true
      → Returns (write_curves rt new_line e m) (Reaches m)
  unfolding write_curves
  write_curves-Reaches (name, xs) m h = on_data-Reaches _ name m h

  -- A loop over entries whose names have run times in the map.
  each-Reaches :
      {E : Type 0}
      {f : String × E → List (String × RecordData) → Random G (List (String × RecordData))}
      (es : List (String × E)) (times m : List (String × RecordData))
      → ((e : String × E) (m : List (String × RecordData))
          → has_name e.0 m ≡ true
          → Returns (f e m) (Reaches m))
      → All (λ e. has_name e.0 times ≡ true) es
      → Reaches times m
      → Returns (each f es m) (Reaches times)
  unfolding Reaches
  each-Reaches es times m round named reached =
      Returns-each_inv (λ e. has_name e.0 times ≡ true) (Reaches times)
        (λ e m h p. Returns-weaken (λ m' q k i. q k (p k i)) (round e m (p e.0 h))) es m named
        reached

  nothing : Gathered
  nothing = record { run_times = []; final_coverages = []; unique_state_coverages = []; stats = [] }

  names_of :
      {E : Type 0} (es order : List (String × E)) (times : List (String × RecordData))
      → Perm order es
      → ((k : String) → has_name k es ≡ true → has_name k times ≡ true)
      → All (λ e. has_name e.0 times ≡ true) order
  names_of es order times p h =
      All-Perm _ order es (λ e. (hlevel)) p (All-map _ _ es (λ e i. h e.0 i) (names_self es))

  -- If each of the runs has entries for the same benchmarks in its three maps, and no coverages
  -- of a benchmark are empty, the report is made, whatever the order in which the maps are visited:
  -- no index is out of range, and no entry is missing. It has an entry for every benchmark that a
  -- run has a time for.
  pub report-Returns :
      (infos : List RunInfo)
      → All IsReadable infos
      → Returns
          (report rt new_line infos)
          (λ m. (k : String) → is_recorded k infos ≡ true → has_name k m ≡ true)
  unfolding report nothing Reaches Recorded
  report-Returns infos readable =
      Returns-bind
        (gather_all-Gathers recorded rt ok new_line infos nothing
          (All-and _ _ infos readable (runs-Recorded infos)))
        λ d (g, times).
          (let w = g.within (record {
            finals = λ k e. absurd (cc);
            curves = λ k e. absurd (cc);
            stats = λ k e. absurd (cc);
          }) in
            let timed = reached infos d times in
            Returns-bind (Returns-range rt ok d.run_times) λ order p₀.
              Returns-bind (write_times-Reaches order []) λ m₁ written.
                (let there : (k : String) → recorded k ≡ true → has_name k m₁ ≡ true = λ k e.
                    All-has_name (λ n. has_name n m₁ ≡ true) k d.run_times
                      (All-Perm _ d.run_times order (λ e. (hlevel)) (Perm.symm p₀) written)
                      (timed k e) in
                  Returns-bind (Returns-range rt ok d.final_coverages) λ finals p₁.
                    Returns-bind
                      (each-Reaches finals m₁ m₁ write_final-Reaches
                        (names_of d.final_coverages finals m₁ p₁ (λ k e. there k (w.finals k e)))
                        (λ k e. e))
                      λ m₂ r₂. Returns-bind (Returns-range rt ok d.stats) λ stats p₂.
                        Returns-bind
                          (each-Reaches stats m₁ m₂ write_stats-Reaches
                            (names_of d.stats stats m₁ p₂ (λ k e. there k (w.stats k e))) r₂)
                          λ m₃ r₃.
                            Returns-bind (Returns-range rt ok d.unique_state_coverages) λ curves p₃.
                              Returns-weaken (λ m₄ r₄ k e. r₄ k (there k e))
                                (each-Reaches curves m₁ m₃ write_curves-Reaches
                                  (names_of d.unique_state_coverages curves m₁ p₃
                                    (λ k e. there k (w.curves k e)))
                                  r₃)))
    where
      recorded : String → Bool
      recorded k = is_recorded k infos

      reached :
          (is : List RunInfo) (d : Gathered)
          → All
              (λ info.
                (k : String) → has_name k info.run_times ≡ true → has_name k d.run_times ≡ true)
              is
          → (k : String) → is_recorded k is ≡ true
          → has_name k d.run_times ≡ true
      reached [] d h k e = absurd (cc)
      reached (i ∷ is) d h k e = ground (arith, e, h.0 k, reached is d h.1 k)
