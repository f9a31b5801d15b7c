-- ===== src/CommandLine/Legal.antt =====
-- The mutators of the command compare keep schedules legal.
use model_guiding_fuzz.Common.{
  Bool, Ensures-pure, List, Option, Runtime, done, false, if◌then◌else◌, none, some, true, ℕ, ◌≡◌,
}
use Prim.Native.String.{String}
use text.Mathlib.Text
use model_guiding_fuzz.Types.Choice.{Trace}
use model_guiding_fuzz.Types.Event.{EventTrace}
use model_guiding_fuzz.Types.State.{State}
use model_guiding_fuzz.Mutator.Indices.{empty_mutate}
use model_guiding_fuzz.Mutator.Legal.{
  AllLegal, IsLawful, swap_crash_mutate-IsLawful, swap_mutate-IsLawful, swap_max_mutate-IsLawful,
  combined_mutate-IsLawful,
}
use model_guiding_fuzz.Guider.{EventNode}
use model_guiding_fuzz.Guider.Instances.{Gocov}
use model_guiding_fuzz.Raft.Library.{RaftLibrary}
use model_guiding_fuzz.Benchmark.{Setup}
use model_guiding_fuzz.CommandLine.{compare_mutator, compare_setups}

module _ (replicas most : ℕ) where
  empty_mutate-IsLawful : {G : Type 0} → IsLawful replicas most (empty_mutate {G = G})
  unfolding empty_mutate
  empty_mutate-IsLawful = record { keeps = λ trace events h. Ensures-pure none tt }

  if-IsLawful :
      {G : Type 0} (b : Bool) (s t : Setup G)
      → IsLawful replicas most s.mutator
      → IsLawful replicas most t.mutator
      → IsLawful replicas most (if b then s else t).mutator
  if-IsLawful true s t h k = h
  if-IsLawful false s t h k = k

  module _ {G : Type 0} (lib : RaftLibrary G) (rt : Runtime G)
      (execute : EventTrace → Option (List String × List ℕ)) (hash_trace : Trace → ℕ)
      (hash_states : List State → ℕ) (hash_node : EventNode → ℕ)
      (hash_graph : List (ℕ × EventNode) → ℕ) (gocov : Gocov G) (fuel : ℕ) where
    compare_mutator-IsLawful :
        IsLawful replicas most
          (compare_mutator lib rt execute hash_trace hash_states hash_node hash_graph gocov fuel)
    unfolding compare_mutator
    compare_mutator-IsLawful = combined_mutate-IsLawful replicas most rt _ (
      swap_crash_mutate-IsLawful replicas most rt 2 fuel,
      (
        swap_mutate-IsLawful replicas most rt 20 fuel,
        (swap_max_mutate-IsLawful replicas most rt 20 fuel, tt),
      ),
    )

    compare_setups-IsLawful :
        (name : String)
        → IsLawful replicas most
            (compare_setups lib rt execute hash_trace hash_states hash_node hash_graph gocov fuel
              name).mutator
    unfolding compare_setups
    compare_setups-IsLawful name =
        if-IsLawful (Text.◌==◌ name "traceCov") _ _ compare_mutator-IsLawful (
          if-IsLawful (Text.◌==◌ name "lineCov") _ _ compare_mutator-IsLawful (
            if-IsLawful (Text.◌==◌ name "tlcstate") _ _ compare_mutator-IsLawful
              empty_mutate-IsLawful))

    -- Each mutator that the command compare gives to a benchmark makes legal schedules from legal
    -- ones: where no node of its argument is above a bound, and no limit on messages above
    -- another, so it is with each schedule that it returns, whatever is drawn.
    pub compare_mutate-legal :
        (name : String) (trace : Trace) (events : EventTrace) (g : G) (t' : Trace) (g' : G)
        → (compare_setups lib rt execute hash_trace hash_states hash_node hash_graph gocov fuel
              name).mutator
            trace events g
          ≡ done (some t', g')
        → AllLegal replicas most trace
        → AllLegal replicas most t'
    compare_mutate-legal name trace events g t' g' e h =
        ((compare_setups-IsLawful name).keeps trace events h).returns g (some t') g' e
