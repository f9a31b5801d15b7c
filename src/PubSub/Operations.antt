-- ===== src/PubSub/Operations.antt =====
-- What may happen to a client of pubsub/client.go, as a sequence of operations: the calls, and the
-- steps of the receiver in between.
use model_guiding_fuzz.Common.{Bool, List, Option, [], if◌then◌else◌, none, some, ℕ, ◌++◌, ◌∷◌}
use model_guiding_fuzz.PubSub.{
  PubSubClient, Received, message, Case, Fate, queued, abandoned, refused, buffer_message,
  start_continuous_receiver, on_message, end_receiver, receive_message, cancel,
}

-- What may happen to a client, in any order: a call, or a step of the receiver while it runs.
pub data Operation (M : Type 0) : Type 0 where
  buffers : M → Operation M
  receives : Case → Operation M
  arrives : M → Bool → Bool → Bool → Operation M
  ends : Option ℕ → Bool → Operation M
  closes : Operation M

module _ {M : Type 0} where
  unfoldable pub queued_by : M → Fate × PubSubClient M → List M × PubSubClient M
  queued_by m (queued, c) = (m ∷ [], c)
  queued_by m (abandoned, c) = ([], c)
  queued_by m (refused, c) = ([], c)

  -- What a call of ReceiveMessage takes out of the channel: its message, unless that was buffered.
  unfoldable pub drained_by : List M → Received M → List M
  drained_by [] (message m) = m ∷ []
  drained_by [] _ = []
  drained_by (b ∷ bs) _ = []

  unfoldable pub received_by :
      PubSubClient M → Option (Received M × PubSubClient M) → List M × PubSubClient M
  unfolding drained_by start_continuous_receiver
  received_by c none = ([], start_continuous_receiver c)
  received_by c (some (r, c')) = (drained_by c.message_buffer r, c')

  abbrev pub quiet : PubSubClient M → (List M × List M) × PubSubClient M
  quiet c = (([], []), c)

  abbrev pub putting : List M × PubSubClient M → (List M × List M) × PubSubClient M
  putting r = ((r.0, []), r.1)

  -- What an operation puts into the channel, what it takes out, and the client after it. Where a
  -- case is not ready, the call waits, with the receiver started.
  unfoldable pub perform : Operation M → PubSubClient M → (List M × List M) × PubSubClient M
  unfolding buffer_message received_by queued_by on_message end_receiver cancel receive_message
  perform (buffers m) c = quiet (buffer_message m c)
  perform (receives case) c =
      let (out, c') = received_by c (receive_message case c) in (([], out), c')
  perform (arrives m done_before done_now returns_first) c =
      if c.receiver_started
      then putting (queued_by m (on_message m done_before done_now returns_first c))
      else quiet c
  perform (ends err returns_first) c =
      if c.receiver_started then quiet (end_receiver err returns_first c) else quiet c
  perform closes c = quiet (cancel c)

  unfoldable pub perform_all :
      List (Operation M) → PubSubClient M → (List M × List M) × PubSubClient M
  unfolding perform
  perform_all [] c = quiet c
  perform_all (op ∷ ops) c =
      let ((put, out), c₁) = perform op c in
      let ((puts, outs), c₂) = perform_all ops c₁ in ((put ++ puts, out ++ outs), c₂)
