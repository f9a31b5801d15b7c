-- ===== src/Guider/Instances.antt =====
-- guider.go: LineCoverageGuider, and the three guiders as what the fuzzer sees of them. Gocov, the
-- library that counts covered lines, is a parameter.
use model_guiding_fuzz.Common.{
  Bool, List, Option, Outcome, Random, done, library_panic, none, out_of_fuel, panic, pure, some, ℕ,
  ◌-◌, ◌>>=◌,
}
use Prim.Native.String.{String}
use model_guiding_fuzz.Types.Choice.{Trace}
use model_guiding_fuzz.Types.Event.{EventTrace}
use model_guiding_fuzz.Types.State.{State}
use model_guiding_fuzz.Guider.{
  Guider, TlcStateGuider, new_tlc_state_guider, EventNode, check, coverage, reset, trace_check,
  trace_coverage, trace_reset,
}

-- What the code uses of gocov. `merge` is Merge on the data of the first coverage, in place; a
-- failed GetCoverage gives nothing.
pub record Gocov (G : Type 0) : Type 1 where
  pub Coverage : Type 0
  pub get_coverage : Random G (Option Coverage)
  pub covered_lines : Coverage → ℕ
  pub merge : Coverage → Coverage → Coverage

pub record LineGuider {G : Type 0} (gocov : Gocov G) : Type 0 where
  pub cov_data : Option gocov.Coverage
  pub tlc : TlcStateGuider

unfoldable pub new_line_coverage_guider : {G : Type 0} (gocov : Gocov G) → Bool → LineGuider gocov
unfolding new_tlc_state_guider
new_line_coverage_guider gocov record_traces = record {
  cov_data = none;
  tlc = new_tlc_state_guider record_traces;
}

-- A result that draws nothing at random.
abbrev pub lift : {G A : Type 0} → Outcome A → Random G A
lift (done a) g = done (a, g)
lift panic g = panic
lift library_panic g = library_panic
lift out_of_fuel g = out_of_fuel

module _ {G : Type 0} (execute : EventTrace → Option (List String × List ℕ))
    (hash_trace : Trace → ℕ) (hash_states : List State → ℕ) where
  unfoldable pub tlc_guider : Guider G
  tlc_guider = record {
    GuiderState = TlcStateGuider;
    check = λ trace events t.
        lift (check execute hash_trace hash_states trace events t) >>= λ (score, t', events').
        pure (score.new_count, t', events');
    coverage = coverage;
    reset = reset;
  }

  unfoldable pub trace_guider : (EventNode → ℕ) → (List (ℕ × EventNode) → ℕ) → Guider G
  trace_guider hash_node hash_graph = record {
    GuiderState = List ℕ × TlcStateGuider;
    check = λ trace events t.
        lift (trace_check execute hash_trace hash_states hash_node hash_graph trace events t)
        >>= λ (score, t', events'). pure (score.new_count, t', events');
    coverage = trace_coverage;
    reset = trace_reset;
  }

  module _ (gocov : Gocov G) where
    -- The lines that are new. The first coverage is all new; a failed GetCoverage keeps the data.
    -- Where a merge lost lines, the difference of the code is negative, here 0: Run only asks
    -- whether it is positive.
    unfoldable pub merge_lines :
        Option gocov.Coverage → Option gocov.Coverage → ℕ × Option gocov.Coverage
    merge_lines none old = (0, old)
    merge_lines (some cov) none = (gocov.covered_lines cov, some cov)
    merge_lines (some cov) (some old) =
        let merged = gocov.merge old cov in
        (gocov.covered_lines merged - gocov.covered_lines old, some merged)

    unfoldable pub line_check :
        Trace → EventTrace → LineGuider gocov → Random G (ℕ × LineGuider gocov × EventTrace)
    unfolding merge_lines
    line_check trace events l = do
      (_, t', events') ← lift (check execute hash_trace hash_states trace events l.tlc)
      cov ← gocov.get_coverage
      let (new_lines, cov_data) = merge_lines cov l.cov_data
      pure (new_lines, record { cov_data = cov_data; tlc = t' }, events')

    -- Coverage is the one of the guider that it embeds.
    unfoldable pub line_guider : Guider G
    unfolding line_check
    line_guider = record {
      GuiderState = LineGuider gocov;
      check = line_check;
      coverage = λ l. coverage l.tlc;
      reset = λ l. record { cov_data = none; tlc = reset l.tlc };
    }
