-- ===== src/Fuzzer/Setup.antt =====
-- fuzzer.go, FuzzerConfig, NewFuzzer's nodes, and the random schedule with which RunIteration
-- begins when it mimics none. The loops that draw a node other than 0 run on fuel.
pub mod Bounds
pub mod Ending
pub mod Record
use model_guiding_fuzz.Common.{
  List, Random, Runtime, [], each, false, get_elem?, insert, intn, length, or_panic, out_of_fuel,
  pure, suc, true, zero, ℕ, ◌+◌, ◌==◌, ◌>>=◌, ◌∷◌,
}
use model_guiding_fuzz.Types.Choice.{SchedulingChoice, ChoiceType, zero_choice}
use model_guiding_fuzz.Types.Queue.{push}
use model_guiding_fuzz.Types.Sample.{sample, int_range}
use model_guiding_fuzz.Fuzzer.Context.{TraceCtx}
use model_guiding_fuzz.Raft.{RaftEnvironmentConfig}

-- The numbers of the configuration. The checker, the mutator and the guider are arguments of what
-- uses them; the strategy is used nowhere.
pub record FuzzerConfig : Type 0 where
  pub iterations : ℕ
  pub steps : ℕ
  pub raft_environment_config : RaftEnvironmentConfig
  pub mut_per_trace : ℕ
  pub seed_population_size : ℕ
  pub number_requests : ℕ
  pub crash_quota : ℕ
  pub max_messages : ℕ
  pub reseed_frequency : ℕ

-- `f.nodes`: the numbers from 0 to Replicas.
unfoldable pub fuzzer_nodes : FuzzerConfig → List ℕ
fuzzer_nodes config = int_range 0 (config.raft_environment_config.replicas + 1)

-- `for idx == 0 { idx = rand.Intn(n) }`
unfoldable draw_nonzero : {G : Type 0} → Runtime G → ℕ → ℕ → Random G ℕ
draw_nonzero rt n zero = λ g. out_of_fuel
draw_nonzero rt n (suc fuel) =
    let again = draw_nonzero rt n fuel in
    intn rt n >>= λ i. elim (i == 0) [ true ↦ again | false ↦ pure i ]

-- The requests are numbered from `i`, in the order in which their steps were sampled.
unfoldable pub place_requests : List ℕ → ℕ → List (ℕ × ℕ) → List (ℕ × ℕ)
place_requests [] i m = m
place_requests (step ∷ rest) i m = place_requests rest (i + 1) (insert step i m)

module _ {G : Type 0} (rt : Runtime G) (config : FuzzerConfig) (fuel : ℕ) where
  -- The choice of the links: one for each step.
  draw_link : ℕ → TraceCtx → Random G TraceCtx
  unfolding draw_nonzero push
  draw_link i t = do
    from_index ← draw_nonzero rt (length (fuzzer_nodes config)) fuel
    to_index ← draw_nonzero rt (length (fuzzer_nodes config)) fuel
    from ← or_panic (get_elem? (fuzzer_nodes config) from_index)
    to ← or_panic (get_elem? (fuzzer_nodes config) to_index)
    n ← intn rt config.max_messages
    let choice = record (zero_choice ChoiceType.node) { from = from; to = to; max_messages = n }
    pure (record t { node_choices = push t.node_choices choice })

  -- A node to crash at the step `c`, and a step from there on at which to start it.
  draw_crash : ℕ → TraceCtx → Random G TraceCtx
  unfolding draw_nonzero sample
  draw_crash c t = do
    index ← draw_nonzero rt (length (fuzzer_nodes config)) fuel
    starts ← sample rt fuel (int_range c config.steps) 1
    s ← or_panic (get_elem? starts 0)
    pure (record t {
      crash_points = insert c index t.crash_points;
      start_points = insert s index t.start_points;
    })

  unfoldable pub random_schedule : TraceCtx → Random G TraceCtx
  unfolding draw_link draw_crash sample
  random_schedule t = do
    let choices = int_range 0 config.steps
    t₁ ← each draw_link choices t
    crashes ← sample rt fuel choices config.crash_quota
    t₂ ← each draw_crash crashes t₁
    requests ← sample rt fuel choices config.number_requests
    pure (record t₂ { client_requests = place_requests requests 1 t₂.client_requests })
