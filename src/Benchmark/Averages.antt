-- ===== src/Benchmark/Averages.antt =====
-- The averages lie between the least and the greatest.
use model_guiding_fuzz.Common.{All, All-map, List, [], arith, length, ℕ, ◌*◌, ◌/◌, ◌<◌, ◌∷◌, ◌≤◌}
use native.Mathlib.Nat.{add-mul, mul_comm, le-div_iff_mul-le, div-le_of_le-mul}
use model_guiding_fuzz.Guider.{CoverageStats}
use model_guiding_fuzz.Benchmark.Report.{sum_by, average}

abbrev pub IsBetween : ℕ → ℕ → ℕ → Type 0
IsBetween lo hi n = (lo ≤ n) × (n ≤ hi)

-- Each count lies between those of the two bounds.
pub record Between (lo hi c : CoverageStats) : Type 0 where
  pub states : IsBetween lo.unique_states hi.unique_states c.unique_states
  pub traces : IsBetween lo.unique_traces hi.unique_traces c.unique_traces
  pub state_traces : IsBetween lo.unique_state_traces hi.unique_state_traces c.unique_state_traces

sum_by-bounds :
    {A : Type 0} (f : A → ℕ) (lo hi : ℕ) (xs : List A)
    → All (λ x. IsBetween lo hi (f x)) xs
    → IsBetween (length xs * lo) (length xs * hi) (sum_by f xs)
unfolding sum_by
sum_by-bounds f lo hi [] h = (omega arith, omega arith)
sum_by-bounds f lo hi (x ∷ xs) h =
    let (low, high) = sum_by-bounds f lo hi xs h.1 in
    (
      omega (arith, add-mul (length xs) 1 lo, h.0, low),
      omega (arith, add-mul (length xs) 1 hi, h.0, high),
    )

quotient-bounds : (lo hi n s : ℕ) → 0 < n → IsBetween (n * lo) (n * hi) s → IsBetween lo hi (s / n)
quotient-bounds lo hi n s pos (low, high) =
    ((le-div_iff_mul-le pos).1 (omega (arith, low, mul_comm lo n)), div-le_of_le-mul n high)

-- Where the final coverages of a benchmark, of which there is one, lie between two bounds in each
-- of their counts, so does their average.
pub average-Between :
    (lo hi : CoverageStats) (cs : List CoverageStats)
    → 0 < length cs
    → All (Between lo hi) cs
    → Between lo hi (average cs)
unfolding average
average-Between lo hi cs pos h = record {
  states =
      quotient-bounds _ _ _ _ pos (sum_by-bounds _ _ _ cs (All-map _ _ cs (λ c b. b.states) h));
  traces =
      quotient-bounds _ _ _ _ pos (sum_by-bounds _ _ _ cs (All-map _ _ cs (λ c b. b.traces) h));
  state_traces =
      quotient-bounds _ _ _ _ pos
        (sum_by-bounds _ _ _ cs (All-map _ _ cs (λ c b. b.state_traces) h));
}
