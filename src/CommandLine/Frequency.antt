-- ===== src/CommandLine/Frequency.antt =====
-- What the frequencies of reseeding in the two commands lead to.
use model_guiding_fuzz.Common.{
  >>=-done, >>=-panic, List, Option, Runtime, done, none, panic, refl, ℕ, ◌<◌, ◌∙◌, ◌≡◌,
}
use Prim.Native.String.{String}
use model_guiding_fuzz.Types.Choice.{Trace}
use model_guiding_fuzz.Types.Event.{EventTrace}
use model_guiding_fuzz.Types.State.{State}
use model_guiding_fuzz.Mutator.Indices.{empty_mutate}
use model_guiding_fuzz.Guider.{EventNode}
use model_guiding_fuzz.Guider.Instances.{Gocov, line_guider}
use model_guiding_fuzz.Raft.Library.{RaftLibrary}
use model_guiding_fuzz.Fuzzer.Run.{Fuzzer, run}
use model_guiding_fuzz.Fuzzer.Run.Executions.{run-panic}
use model_guiding_fuzz.CommandLine.{Flags, fuzz_config, new_fuzz_fuzzer, fuzz_command}

module _ {G : Type 0} (lib : RaftLibrary G) (rt : Runtime G)
    (execute : EventTrace → Option (List String × List ℕ)) (hash_trace : Trace → ℕ)
    (hash_states : List State → ℕ) (hash_node : EventNode → ℕ)
    (hash_graph : List (ℕ × EventNode) → ℕ) (gocov : Gocov G) (fuel : ℕ) where
  -- Once the command fuzz has made its fuzzer, it panics, whatever its flags, if there is an
  -- episode to run.
  pub fuzz_command-panic :
      (flags : Flags) (f : Fuzzer lib (line_guider execute hash_trace hash_states gocov)) (g g' : G)
      → new_fuzz_fuzzer lib rt execute hash_trace hash_states hash_node hash_graph gocov fuel flags
          g
        ≡ done (f, g')
      → 0 < flags.episodes
      → fuzz_command lib rt execute hash_trace hash_states hash_node hash_graph gocov fuel flags g
        ≡ panic
  unfolding fuzz_command fuzz_config
  fuzz_command-panic flags f g g' made some_left =
      >>=-done
        (new_fuzz_fuzzer lib rt execute hash_trace hash_states hash_node hash_graph gocov fuel
          flags)
        _ g made
      ∙ >>=-panic (run rt (fuzz_config flags) none empty_mutate fuel f) _ g'
          (run-panic rt (fuzz_config flags) none empty_mutate fuel f g' refl some_left)
