-- ===== src/Tests/Messages.antt =====
-- A witness of the theorem on the message queues: three nodes, of which two send.
use model_guiding_fuzz.Common.{
  All, List, Option, [], arith, false, map, none, refl, some, ℕ, ◌++◌, ◌∷◌, ◌≡◌,
}
use model_guiding_fuzz.Types.Event.{Message}
use model_guiding_fuzz.Fuzzer.Messages.{MessageQueues, new_queues, send, schedule}
use model_guiding_fuzz.Fuzzer.Messages.Delivery.{pending, new_queues-IsOpen}
use model_guiding_fuzz.Fuzzer.Messages.Links.{
  Action, sent, scheduled, IsBetween, sent_on, run, run-ordered,
}

abbrev message : ℕ → ℕ → ℕ → Message
message from to index = record {
  type = 3;
  to = to;
  from = from;
  term = 1;
  log_term = 1;
  index = index;
  entries = [];
  commit = 0;
  vote = 0;
  snapshot = none;
  reject = false;
  reject_hint = 0;
  context = [];
}

abbrev traffic : List Action
traffic =
    sent (message 1 2 0)
    ∷ sent (message 2 1 5)
    ∷ sent (message 1 2 1)
    ∷ scheduled 1 2 1
    ∷ sent (message 1 2 2)
    ∷ scheduled 1 2 4
    ∷ []

traffic-IsBetween : All (IsBetween 2) traffic
unfolding IsBetween
traffic-IsBetween = ground arith

run-ordered_example :
    (ms : List Message) × (qs' : MessageQueues) × (run 1 2 traffic (new_queues 2) ≡ some (ms, qs'))
    × (ms ++ pending 1 2 qs' ≡ pending 1 2 (new_queues 2) ++ sent_on 1 2 traffic)
run-ordered_example =
    run-ordered 1 2 2 traffic (new_queues 2) (new_queues-IsOpen 2) traffic-IsBetween

-- The three messages of the link, in order.
indices : Option (List Message × MessageQueues) → List ℕ
indices none = []
indices (some (ms, qs)) = map (λ m. m.index) ms

traffic-delivered : indices (run 1 2 traffic (new_queues 2)) ≡ 0 ∷ 1 ∷ 2 ∷ []
unfolding indices run send schedule new_queues
traffic-delivered = refl
