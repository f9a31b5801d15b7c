-- ===== src/Fuzzer/Iteration/Requests.antt =====
-- What RunIteration's client requests lead to.
use model_guiding_fuzz.Common.{
  Ensures, Ensures-bind, Ensures-pure, IsRuntime, Runtime, refl, some, ℕ,
}
use model_guiding_fuzz.Types.Decimal.{atoi-itoa}
use model_guiding_fuzz.Fuzzer.Setup.{FuzzerConfig}
use model_guiding_fuzz.Fuzzer.Iteration.{
  IterationState, world, put_world, client_message, on_world, make_request,
}
use model_guiding_fuzz.Raft.Library.{RaftLibrary}
use model_guiding_fuzz.Raft.Requests.{Requested, step-Requested}

module _ {G : Type 0} {lib : RaftLibrary G} (rt : Runtime G) (config : FuzzerConfig) where
  -- If a client request of RunIteration returns, then, where no node that runs is a leader, it has
  -- recorded no event; otherwise it has recorded one event, last: the request, with the number
  -- that was asked for, to one of the nodes that lead. It is asked that range keeps to what Go
  -- promises.
  pub make_request-Requested :
      (n : ℕ) (s : IterationState lib)
      → IsRuntime rt
      → Ensures
          (make_request rt config (some n) s)
          λ s'. Requested {lib = lib} n (s.raft_environment, s.ctx.event_trace) s'.ctx.event_trace
  unfolding make_request on_world world put_world client_message
  make_request-Requested n s ok =
      Ensures-bind (step-Requested rt (client_message n) _ (world s) ok refl refl)
        λ w h. Ensures-pure _ (rw (← atoi-itoa n) h)
