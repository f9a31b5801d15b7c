-- ===== src/PubSub.antt =====
-- pubsub/client.go: PubSubClient, which receives messages of the cloud library in the background
-- and hands them out one at a time. The library's calls are a parameter (Service); what it hands
-- to the receiver, and which ready case `select` takes, are arguments of the operations. The
-- channels are never closed, and the library passes no nil message.
pub mod Connect
pub mod Operations
pub mod Channel
pub mod Once
use model_guiding_fuzz.Common.{
  Bool, List, Option, [], false, if◌then◌else◌, length, ltb, none, not, some, suc, true, zero, ℕ,
  ◌&&◌, ◌++◌, ◌+◌, ◌∷◌,
}

-- AckMode
pub data AckMode : Type 0 where
  ack_mode_nack ack_mode_ack : AckMode

-- The capacities of the two channels.
abbrev pub message_capacity : ℕ
message_capacity = 100

abbrev pub error_capacity : ℕ
error_capacity = 10

-- `receiver_done_once` is the state of receiverOnce; `acked` and `nacked` are the calls of Ack and
-- Nack so far, in their order.
pub record PubSubClient (M : Type 0) : Type 0 where
  pub message_buffer : List M
  pub ack_mode : AckMode
  pub cancelled : Bool
  pub receiver_started : Bool
  pub receiver_done_once : Bool
  pub message_chan : List M
  pub error_chan : List ℕ
  pub acked : List M
  pub nacked : List M

-- What ReceiveMessage returns: a message or one of its errors.
pub data Received (M : Type 0) : Type 0 where
  message : M → Received M
  receiver_error : ℕ → Received M
  timed_out client_cancelled : Received M

-- The cases of its `select`.
pub data Case : Type 0 where
  messages errors context : Case

-- What becomes of a message that the library hands to the receiver.
pub data Fate : Type 0 where
  queued abandoned refused : Fate

-- The waiting loop of Close: `started` is what each round reads. It gives the rounds that it
-- sleeps in.
unfoldable pub wait_for_receiver : ℕ → (ℕ → Bool) → ℕ → ℕ
wait_for_receiver zero started i = i
wait_for_receiver (suc n) started i =
    let rest = wait_for_receiver n started (i + 1) in if started i then rest else i

module _ {M : Type 0} where
  unfoldable pub buffer_message : M → PubSubClient M → PubSubClient M
  buffer_message m c = record c { message_buffer = c.message_buffer ++ m ∷ [] }

  -- What receiverOnce does the first time; the goroutine itself is the later operations.
  unfoldable pub start_continuous_receiver : PubSubClient M → PubSubClient M
  start_continuous_receiver c =
      if c.receiver_done_once
      then c
      else record c { receiver_started = true; receiver_done_once = true }

  -- The callback's second `select`: it sends if there is room, and if a context is done too it may
  -- also return. If neither is ready, it refuses the message.
  unfoldable pub enqueue : M → Bool → Bool → PubSubClient M → Fate × PubSubClient M
  enqueue m done_now returns_first c =
      if ltb (length c.message_chan) message_capacity && not (done_now && returns_first)
      then (queued, record c { message_chan = c.message_chan ++ m ∷ [] })
      else if done_now
      then (abandoned, c)
      else (refused, record c { nacked = c.nacked ++ m ∷ [] })

  -- The callback on a message. `done_before` and `done_now` are whether one of the two contexts is
  -- done at the first and at the second `select`.
  unfoldable pub on_message : M → Bool → Bool → Bool → PubSubClient M → Fate × PubSubClient M
  unfolding enqueue
  on_message m done_before done_now returns_first c =
      if done_before then (abandoned, c) else enqueue m done_now returns_first c

  -- The goroutine's `select` on the error of Receive.
  enqueue_error : ℕ → Bool → PubSubClient M → PubSubClient M
  enqueue_error err returns_first c =
      if ltb (length c.error_chan) error_capacity && not (c.cancelled && returns_first)
      then record c { error_chan = c.error_chan ++ err ∷ [] }
      else c

  -- Receive returns, with an error that is not that of a cancelled context or with none.
  unfoldable pub end_receiver : Option ℕ → Bool → PubSubClient M → PubSubClient M
  unfolding enqueue_error
  end_receiver none returns_first c = record c { receiver_started = false }
  end_receiver (some err) returns_first c = record (enqueue_error err returns_first c) {
    receiver_started = false;
  }

  -- Ack or Nack, by the mode.
  unfoldable pub acknowledge : AckMode → M → PubSubClient M → PubSubClient M
  acknowledge ack_mode_ack m c = record c { acked = c.acked ++ m ∷ [] }
  acknowledge ack_mode_nack m c = record c { nacked = c.nacked ++ m ∷ [] }

  take_message : List M → PubSubClient M → Option (Received M × PubSubClient M)
  unfolding acknowledge
  take_message [] c = none
  take_message (m ∷ ms) c =
      some (message m, acknowledge c.ack_mode m (record c { message_chan = ms }))

  take_error : List ℕ → PubSubClient M → Option (Received M × PubSubClient M)
  take_error [] c = none
  take_error (e ∷ es) c = some (receiver_error e, record c { error_chan = es })

  -- A case of the `select`, nothing where it is not ready. The deadline may pass at any time.
  unfoldable pub select_case : Case → PubSubClient M → Option (Received M × PubSubClient M)
  unfolding take_message take_error
  select_case messages c = take_message c.message_chan c
  select_case errors c = take_error c.error_chan c
  select_case context c = some (if c.cancelled then client_cancelled else timed_out, c)

  receive_from : Case → List M → PubSubClient M → Option (Received M × PubSubClient M)
  unfolding select_case start_continuous_receiver
  receive_from case [] c = select_case case (start_continuous_receiver c)
  receive_from case (m ∷ ms) c = some (message m, record c { message_buffer = ms })

  -- ReceiveMessage: the buffer comes first, without an acknowledgement.
  unfoldable pub receive_message : Case → PubSubClient M → Option (Received M × PubSubClient M)
  unfolding receive_from
  receive_message case c = receive_from case c.message_buffer c

  unfoldable pub cancel : PubSubClient M → PubSubClient M
  cancel c = record c { cancelled = true }

  -- Close: whether the library's Close fails is an argument, and is what is returned.
  unfoldable pub close : (ℕ → Bool) → Bool → PubSubClient M → (ℕ × Bool) × PubSubClient M
  unfolding cancel wait_for_receiver
  close started fails c = ((wait_for_receiver 100 started 0, fails), cancel c)
