-- ===== src/PubSub/Once.antt =====
-- The receiver runs once: when it has ended, it is never started again.
use model_guiding_fuzz.Common.{List, Option, [], arith, false, none, refl, some, true, ℕ, ◌∷◌, ◌≡◌}
use model_guiding_fuzz.PubSub.{
  PubSubClient, AckMode, ack_mode_ack, ack_mode_nack, Received, Case, messages, errors, context,
  buffer_message, start_continuous_receiver, acknowledge, take_message, take_error, select_case,
  receive_from, receive_message, cancel,
}
use model_guiding_fuzz.PubSub.Operations.{
  Operation, buffers, receives, arrives, ends, closes, perform, perform_all, received_by,
}

module _ {M : Type 0} where
  -- The receiver was started once, and has ended.
  abbrev pub HasEnded : PubSubClient M → Type 0
  HasEnded c = (c.receiver_done_once ≡ true) × (c.receiver_started ≡ false)

  start-HasEnded : (c : PubSubClient M) → HasEnded c → HasEnded (start_continuous_receiver c)
  unfolding start_continuous_receiver
  start-HasEnded c h = ground (arith, h)

  acknowledge-HasEnded :
      (mode : AckMode) (m : M) (c : PubSubClient M) → HasEnded c → HasEnded (acknowledge mode m c)
  unfolding acknowledge
  acknowledge-HasEnded ack_mode_ack m c h = h
  acknowledge-HasEnded ack_mode_nack m c h = h

  -- The client that a case that is ready leaves.
  LeavesEnded : Option (Received M × PubSubClient M) → Type 0
  LeavesEnded none = Unit
  LeavesEnded (some (r, c)) = HasEnded c

  select_case-LeavesEnded :
      (case : Case) (c : PubSubClient M) → HasEnded c → LeavesEnded (select_case case c)
  unfolding select_case LeavesEnded
  select_case-LeavesEnded messages c h = by_queue c.message_chan
    where
      by_queue : (ms : List M) → LeavesEnded (take_message ms c)
      by_queue [] = tt
      by_queue (m ∷ ms) = acknowledge-HasEnded c.ack_mode m (record c { message_chan = ms }) h
  select_case-LeavesEnded errors c h = by_queue c.error_chan
    where
      by_queue : (es : List ℕ) → LeavesEnded (take_error es c)
      by_queue [] = tt
      by_queue (e ∷ es) = h
  select_case-LeavesEnded context c h = h

  received_by-HasEnded :
      (c : PubSubClient M) (o : Option (Received M × PubSubClient M))
      → HasEnded c
      → LeavesEnded o
      → HasEnded (received_by c o).1
  unfolding received_by LeavesEnded
  received_by-HasEnded c none h k = start-HasEnded c h
  received_by-HasEnded c (some (r, c')) h k = k

  receive-LeavesEnded :
      (case : Case) (buffer : List M) (c : PubSubClient M)
      → HasEnded c
      → LeavesEnded (receive_from case buffer c)
  unfolding receive_from LeavesEnded
  receive-LeavesEnded case [] c h =
      select_case-LeavesEnded case (start_continuous_receiver c) (start-HasEnded c h)
  receive-LeavesEnded case (m ∷ ms) c h = h

  perform-HasEnded :
      (op : Operation M) (c : PubSubClient M)
      → HasEnded c
      → ((perform op c).0.0 ≡ []) × HasEnded (perform op c).1
  unfolding perform buffer_message cancel receive_message
  perform-HasEnded (buffers m) c h = (refl, h)
  perform-HasEnded (receives case) c h = (
    refl,
    received_by-HasEnded c (receive_from case c.message_buffer c) h
        (receive-LeavesEnded case c.message_buffer c h),
  )
  perform-HasEnded (arrives m done_before done_now returns_first) c h = ground (arith, h)
  perform-HasEnded (ends err returns_first) c h = ground (arith, h)
  perform-HasEnded closes c h = (refl, h)

  -- Once the receiver has ended, be it by an error of the library, the client never queues a
  -- message again, whatever is called and in whatever order: no call starts it anew.
  pub perform_all-HasEnded :
      (ops : List (Operation M)) (c : PubSubClient M)
      → HasEnded c
      → ((perform_all ops c).0.0 ≡ []) × HasEnded (perform_all ops c).1
  unfolding perform_all
  perform_all-HasEnded [] c h = (refl, h)
  perform_all-HasEnded (op ∷ ops) c h =
      let (nothing, ended) = perform-HasEnded op c h in
      let (nothing', ended') = perform_all-HasEnded ops (perform op c).1 ended in
      (rw (nothing, nothing') refl, ended')
