-- ===== src/Benchmark/Report/Gathering.antt =====
-- What is gathered from the runs of the benchmarks, and that all of it is.
use model_guiding_fuzz.Common.{
  All, All-Perm, All-and, All-any, All-map, Bool, Bool-cases, IsRuntime, List, Option, Random,
  Returns, Returns-bind, Returns-each_all, Returns-or_panic, Returns-pure, Returns-range,
  Returns-weaken, Runtime, [], ap, arith, each, false, if◌then◌else◌, inl, inr, length, map, none,
  refl, some, sym, true, ℕ, ◌++◌, ◌<◌, ◌||◌, ◌∙◌, ◌∷◌, ◌≡◌,
}
use Prim.Native.String.{String}
use mathlib.Core.List.Perm
use native.Mathlib.Bridge.{le_prop}
use text.Mathlib.Text
use text.Mathlib.TextEquality.{eq_iff}
use model_guiding_fuzz.Guider.{CoverageStats}
use model_guiding_fuzz.Fuzzer.Run.{Stats}
use model_guiding_fuzz.Benchmark.{RunInfo, lookup_name, insert_name}
use model_guiding_fuzz.Benchmark.Names.{has_name, has_name-insert, All-has_name}
use model_guiding_fuzz.Benchmark.Report.{
  Gathered, gather, last_point, gather_curve, gather_time, gather_final, gather_stats, gather_run,
}

-- The three maps of a run have entries of the same benchmarks, and no coverages are empty.
pub record IsReadable (info : RunInfo) : Type 0 where
  pub covered : All (λ e. has_name e.0 info.run_times ≡ true) info.coverages
  pub counted : All (λ e. has_name e.0 info.run_times ≡ true) info.stats
  pub some_points : All (λ e. 0 < length e.1) info.coverages

last_point-some :
    (ps : List CoverageStats) → 0 < length ps → (p : CoverageStats) × (last_point ps ≡ some p)
unfolding last_point
last_point-some [] h = absurd (omega arith)
last_point-some (p ∷ []) h = (p, refl)
last_point-some (p ∷ q ∷ qs) h = last_point-some (q ∷ qs) (omega arith)

has_name-gather :
    {A : Type 0} (k name : String) (x : A) (m : List (String × List A))
    → has_name k (gather name x m) ≡ (Text.◌==◌ name k || has_name k m)
unfolding gather
has_name-gather k name x m = by_entry (lookup_name name m) refl
  where
    by_entry :
        (o : Option (List _))
        → lookup_name name m ≡ o
        → has_name k (elim o [
          | none ↦ insert_name name (x ∷ []) m
          | some xs ↦ insert_name name (xs ++ x ∷ []) m
        ])
          ≡ (Text.◌==◌ name k || has_name k m)
    by_entry none e = has_name-insert k name (x ∷ []) m
    by_entry (some xs) e = has_name-insert k name (xs ++ x ∷ []) m

module _ (recorded : String → Bool) where
  -- All names of what is gathered are recorded ones.
  pub record IsWithin (d : Gathered) : Type 0 where
    pub finals : (k : String) → has_name k d.final_coverages ≡ true → recorded k ≡ true
    pub curves : (k : String) → has_name k d.unique_state_coverages ≡ true → recorded k ≡ true
    pub stats : (k : String) → has_name k d.stats ≡ true → recorded k ≡ true

  -- What each step of the gathering keeps.
  pub record Gathers (d d' : Gathered) : Type 0 where
    pub within : IsWithin d → IsWithin d'
    pub kept : (k : String) → has_name k d.run_times ≡ true → has_name k d'.run_times ≡ true

  Gathers-refl : (d : Gathered) → Gathers d d
  Gathers-refl d = record { within = λ w. w; kept = λ k h. h }

  Gathers-trans : (d e f : Gathered) → Gathers d e → Gathers e f → Gathers d f
  Gathers-trans d e f p q = record {
    within = λ w. q.within (p.within w);
    kept = λ k h. q.kept k (p.kept k h);
  }

  -- A gathered name is one that was there, or the new one.
  gather-recorded :
      {A : Type 0} (name : String) (x : A) (m : List (String × List A))
      → recorded name ≡ true
      → ((k : String) → has_name k m ≡ true → recorded k ≡ true)
      → (k : String) → has_name k (gather name x m) ≡ true
      → recorded k ≡ true
  gather-recorded name x m h w k e = elim (Bool-cases (Text.◌==◌ name k)) [
    | inl same ↦ ap recorded (sym ((eq_iff name k).0 same)) ∙ h
    | inr other ↦ w k (ground (arith, e, other, has_name-gather k name x m))
  ]

  module _ {G : Type 0} (rt : Runtime G) (ok : IsRuntime rt) (new_line : List (ℕ × ℕ) → Bool) where
    gather_curve-Gathers :
        (e : String × List CoverageStats) (d : Gathered)
        → recorded e.0 ≡ true
        → Returns (gather_curve rt new_line e d) (Gathers d)
    unfolding gather_curve
    gather_curve-Gathers (name, points) d h = Returns-pure _ (by_line (new_line _))
      where
        curve : List ℕ
        curve = map (λ (p : CoverageStats). p.unique_states) points

        by_line :
            (b : Bool)
            → Gathers d (
                if b
                then record d {
                  unique_state_coverages = gather name curve d.unique_state_coverages;
                }
                else d)
        by_line false = Gathers-refl d
        by_line true = record {
          within = λ w. record {
            finals = w.finals;
            curves = gather-recorded name curve d.unique_state_coverages h w.curves;
            stats = w.stats;
          };
          kept = λ k i. i;
        }

    gather_time-Gathers :
        (e : String × ℕ) (d : Gathered)
        → Returns
            (gather_time rt new_line e d)
            (λ d'. Gathers d d' × (has_name e.0 d'.run_times ≡ true))
    unfolding gather_time
    gather_time-Gathers (name, t) d = Returns-pure _ (
      record {
        within = λ w. record { finals = w.finals; curves = w.curves; stats = w.stats };
        kept = λ k h. ground (arith, h, has_name-gather k name t d.run_times);
      },
      ground (arith, has_name-gather name name t d.run_times, (eq_iff name name).1 refl),
    )

    gather_final-Gathers :
        (e : String × List CoverageStats) (d : Gathered)
        → (recorded e.0 ≡ true) × (0 < length e.1)
        → Returns (gather_final rt new_line e d) (Gathers d)
    unfolding gather_final
    gather_final-Gathers (name, points) d (h, some_left) =
        let (p, e) = last_point-some points some_left in
        Returns-bind (Returns-or_panic (last_point points) p e) λ q _. Returns-pure _ (record {
          within = λ w. record {
            finals = gather-recorded name q d.final_coverages h w.finals;
            curves = w.curves;
            stats = w.stats;
          };
          kept = λ k i. i;
        })

    gather_stats-Gathers :
        (e : String × Stats) (d : Gathered)
        → recorded e.0 ≡ true
        → Returns (gather_stats rt new_line e d) (Gathers d)
    unfolding gather_stats
    gather_stats-Gathers (name, s) d h = Returns-pure _ (record {
      within = λ w. record {
        finals = w.finals;
        curves = w.curves;
        stats = gather-recorded name s d.stats h w.stats;
      };
      kept = λ k i. i;
    })

    each-Gathers :
        {E : Type 0} {f : E → Gathered → Random G Gathered} (Q : E → Type 0) (es : List E)
        (d : Gathered)
        → ((e : E) (d : Gathered) → Q e → Returns (f e d) (Gathers d))
        → All Q es
        → Returns (each f es d) (Gathers d)
    each-Gathers Q es d round q =
        Returns-weaken (λ d' p. p.0)
          (Returns-each_all Q Gathers (λ _ _. Unit) Gathers-refl Gathers-trans (λ _ _ _ _ _. tt)
            (λ e d q. Returns-weaken (λ d' p. (p, tt)) (round e d q)) es d q)

    -- The names of a run that is gathered have run times afterwards.
    abbrev pub Times : RunInfo → Gathered → Type 0
    Times info d = (k : String) → has_name k info.run_times ≡ true → has_name k d.run_times ≡ true

    gather_run-Gathers :
        (info : RunInfo) (d : Gathered)
        → IsReadable info
        → ((k : String) → has_name k info.run_times ≡ true → recorded k ≡ true)
        → Returns (gather_run rt new_line info d) (λ d'. Gathers d d' × Times info d')
    unfolding gather_run
    gather_run-Gathers info d h inside =
        Returns-bind (Returns-range rt ok info.coverages) λ curves p₁.
          Returns-bind
            (each-Gathers _ curves d gather_curve-Gathers
              (All-Perm _ curves info.coverages (λ e. (hlevel)) p₁ covered))
            λ d₁ g₁. Returns-bind (Returns-range rt ok info.run_times) λ times p₂.
              Returns-bind (each_time times d₁) λ d₂ (g₂, reached).
                Returns-bind (Returns-range rt ok info.coverages) λ finals p₃.
                  Returns-bind
                    (each-Gathers _ finals d₂ gather_final-Gathers (
                      All-Perm _ finals info.coverages (λ e. hlevel le_prop) p₃
                        (All-and _ _ info.coverages covered h.some_points)))
                    λ d₃ g₃. Returns-bind (Returns-range rt ok info.stats) λ stats p₄.
                      Returns-weaken
                        (λ d₄ g₄.
                          (let late = Gathers-trans d₂ d₃ d₄ g₃ g₄ in
                            (
                              Gathers-trans d d₁ d₄ g₁ (Gathers-trans d₁ d₂ d₄ g₂ late),
                              λ k e. late.kept k (
                                  All-has_name (λ n. has_name n d₂.run_times ≡ true) k
                                    info.run_times
                                    (All-Perm _ info.run_times times (λ e. (hlevel)) (Perm.symm p₂)
                                      reached)
                                    e),
                            )))
                        (each-Gathers _ stats d₃ gather_stats-Gathers (
                          All-Perm _ stats info.stats (λ e. (hlevel)) p₄
                            (All-map _ _ info.stats (λ e i. inside e.0 i) h.counted)))
      where
        covered : All (λ e. recorded e.0 ≡ true) info.coverages
        covered = All-map _ _ info.coverages (λ e i. inside e.0 i) h.covered

        each_time :
            (times : List (String × ℕ)) (d : Gathered)
            → Returns
                (each (gather_time rt new_line) times d)
                (λ d'. Gathers d d' × All (λ e. has_name e.0 d'.run_times ≡ true) times)
        each_time times d =
            Returns-each_all (λ _. Unit) Gathers (λ e d. has_name e.0 d.run_times ≡ true)
              Gathers-refl Gathers-trans (λ e s t g i. g.kept e.0 i)
              (λ e d _. gather_time-Gathers e d) times d (All-any times)

    pub gather_all-Gathers :
        (infos : List RunInfo) (d : Gathered)
        → All
            (λ info.
              IsReadable info
              × ((k : String) → has_name k info.run_times ≡ true → recorded k ≡ true))
            infos
        → Returns
            (each (gather_run rt new_line) infos d)
            (λ d'. Gathers d d' × All (λ info. Times info d') infos)
    gather_all-Gathers infos d =
        Returns-each_all _ Gathers Times Gathers-refl Gathers-trans
          (λ info s t g i k e. g.kept k (i k e))
          (λ info d (h, inside). gather_run-Gathers info d h inside) infos d
