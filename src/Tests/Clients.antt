-- ===== src/Tests/Clients.antt =====
-- Witnesses of the theorems on the pub/sub client.
use model_guiding_fuzz.Common.{List, [], false, refl, some, true, ℕ, ◌∷◌, ◌≡◌}
use model_guiding_fuzz.PubSub.{PubSubClient, ack_mode_ack, messages, errors, context}
use model_guiding_fuzz.PubSub.Operations.{
  Operation, buffers, receives, arrives, ends, closes, perform_all,
}
use model_guiding_fuzz.PubSub.Channel.{Ordered, perform_all-Ordered}
use model_guiding_fuzz.PubSub.Once.{HasEnded, perform_all-HasEnded}

abbrev client : PubSubClient ℕ
client = record {
  message_buffer = [];
  ack_mode = ack_mode_ack;
  cancelled = false;
  receiver_started = true;
  receiver_done_once = true;
  message_chan = 7 ∷ [];
  error_chan = [];
  acked = [];
  nacked = [];
}

abbrev operations : List (Operation ℕ)
operations =
    arrives 8 false false false
    ∷ receives messages
    ∷ buffers 1
    ∷ receives messages
    ∷ arrives 9 false false false
    ∷ receives messages
    ∷ ends (some 5) false
    ∷ receives errors
    ∷ receives context
    ∷ closes
    ∷ []

perform_all-Ordered_example :
    let r = perform_all operations client in Ordered client r.0.0 r.0.1 r.1
perform_all-Ordered_example = perform_all-Ordered operations client

abbrev ended : PubSubClient ℕ
ended = record client { receiver_started = false }

perform_all-HasEnded_example :
    ((perform_all operations ended).0.0 ≡ []) × HasEnded (perform_all operations ended).1
perform_all-HasEnded_example = perform_all-HasEnded operations ended (refl, refl)
