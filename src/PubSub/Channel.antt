-- ===== src/PubSub/Channel.antt =====
-- The channel of messages: what the receiver queues is handed out in its order.
use model_guiding_fuzz.Common.{
  Bool, Bool-cases, List, Option, [], ap, append-nil, append_assoc, arith, false, if◌then◌else◌,
  inl, inr, length, length-append, ltb, ltb→lt, none, not, refl, some, subst, sym, true, ℕ, ◌&&◌,
  ◌++◌, ◌<◌, ◌∙◌, ◌∷◌, ◌≡◌, ◌≤◌,
}
use model_guiding_fuzz.PubSub.Operations.{
  Operation, buffers, receives, arrives, ends, closes, queued_by, drained_by, received_by, quiet,
  putting, perform, perform_all,
}
use model_guiding_fuzz.PubSub.{
  PubSubClient, AckMode, ack_mode_ack, ack_mode_nack, Received, message, timed_out,
  client_cancelled, Case, messages, errors, context, abandoned, refused, message_capacity,
  error_capacity, buffer_message, start_continuous_receiver, enqueue, on_message, enqueue_error,
  end_receiver, acknowledge, take_message, take_error, select_case, receive_from, receive_message,
  cancel,
}

module _ {M : Type 0} where
  -- How the channels and the acknowledgements of two states are related.
  pub record Ordered (c : PubSubClient M) (put out : List M) (c' : PubSubClient M) : Type 0 where
    pub order : c.message_chan ++ put ≡ out ++ c'.message_chan
    pub room : length c.message_chan ≤ 100 → length c'.message_chan ≤ 100
    pub error_room : length c.error_chan ≤ 10 → length c'.error_chan ≤ 10
    pub mode : c'.ack_mode ≡ c.ack_mode
    pub acks : c.ack_mode ≡ ack_mode_ack → c'.acked ≡ c.acked ++ out

  same-Ordered :
      (c c' : PubSubClient M)
      → c'.message_chan ≡ c.message_chan
      → c'.error_chan ≡ c.error_chan
      → c'.ack_mode ≡ c.ack_mode
      → c'.acked ≡ c.acked
      → Ordered c [] [] c'
  same-Ordered c c' chan errs same acked = record {
    order = append-nil c.message_chan ∙ sym chan;
    room = λ h. rw chan h;
    error_room = λ h. rw errs h;
    mode = same;
    acks = λ _. acked ∙ sym (append-nil c.acked);
  }

  enqueue-Ordered :
      (m : M) (done_now returns_first : Bool) (c : PubSubClient M)
      → let r = queued_by m (enqueue m done_now returns_first c) in Ordered c r.0 [] r.1
  unfolding enqueue queued_by
  enqueue-Ordered m done_now returns_first c =
      elim (Bool-cases
        (ltb (length c.message_chan) message_capacity && not (done_now && returns_first))) [
          | inl ready ↦
              (let room : length c.message_chan < 100 =
                  ltb→lt (length c.message_chan) 100 (ground (arith, ready)) in
                rw ready (record {
                  order = refl;
                  room = λ h. omega (arith, room, length-append c.message_chan (m ∷ []));
                  error_room = λ h. h;
                  mode = refl;
                  acks = λ _. sym (append-nil c.acked);
                }))
          | inr not_ready ↦ rw not_ready (by_context done_now)
        ]
    where
      by_context :
          (done_now : Bool)
          → let r = queued_by m (
              if done_now
              then (abandoned, c)
              else (refused, record c { nacked = c.nacked ++ m ∷ [] })) in
            Ordered c r.0 [] r.1
      by_context true = same-Ordered c c refl refl refl refl
      by_context false = same-Ordered c _ refl refl refl refl

  end_receiver-Ordered :
      (err : Option ℕ) (returns_first : Bool) (c : PubSubClient M)
      → Ordered c [] [] (end_receiver err returns_first c)
  unfolding end_receiver enqueue_error
  end_receiver-Ordered none returns_first c = same-Ordered c _ refl refl refl refl
  end_receiver-Ordered (some err) returns_first c =
      elim (Bool-cases
        (ltb (length c.error_chan) error_capacity && not (c.cancelled && returns_first))) [
          | inl ready ↦
              (let room : length c.error_chan < 10 =
                  ltb→lt (length c.error_chan) 10 (ground (arith, ready)) in
                rw ready (record {
                  order = append-nil c.message_chan;
                  room = λ h. h;
                  error_room = λ h. omega (arith, room, length-append c.error_chan (err ∷ []));
                  mode = refl;
                  acks = λ _. sym (append-nil c.acked);
                }))
          | inr not_ready ↦ rw not_ready (same-Ordered c _ refl refl refl refl)
        ]

  acknowledge-acked :
      (mode : AckMode) (m : M) (c : PubSubClient M)
      → mode ≡ ack_mode_ack
      → (acknowledge mode m c).acked ≡ c.acked ++ m ∷ []
  unfolding acknowledge
  acknowledge-acked ack_mode_ack m c h = refl
  acknowledge-acked ack_mode_nack m c h = absurd (cc)

  acknowledge-rest :
      (mode : AckMode) (m : M) (c : PubSubClient M)
      → let c' = acknowledge mode m c in
        (c'.message_chan ≡ c.message_chan)
        × (c'.error_chan ≡ c.error_chan)
        × (c'.ack_mode ≡ c.ack_mode)
  unfolding acknowledge
  acknowledge-rest ack_mode_ack m c = (refl, refl, refl)
  acknowledge-rest ack_mode_nack m c = (refl, refl, refl)

  start-Ordered : (c : PubSubClient M) → Ordered c [] [] (start_continuous_receiver c)
  unfolding start_continuous_receiver
  start-Ordered c = by_state c.receiver_done_once
    where
      by_state :
          (spent : Bool)
          → Ordered c [] []
              (if spent then c else record c { receiver_started = true; receiver_done_once = true })
      by_state true = same-Ordered c c refl refl refl refl
      by_state false = same-Ordered c _ refl refl refl refl

  -- What a case of the `select` that is ready does to the client, with nothing buffered.
  Selects : PubSubClient M → Option (Received M × PubSubClient M) → Type 0
  unfolding drained_by
  Selects c none = Unit
  Selects c (some (r, c')) = Ordered c [] (drained_by [] r) c'

  take_message-Selects :
      (ms : List M) (c : PubSubClient M) → c.message_chan ≡ ms → Selects c (take_message ms c)
  unfolding take_message Selects drained_by
  take_message-Selects [] c h = tt
  take_message-Selects (m ∷ ms) c h =
      let taken : PubSubClient M = record c { message_chan = ms } in
      let (chan, errs, same) = acknowledge-rest c.ack_mode m taken in
      record {
        order = append-nil c.message_chan ∙ h ∙ ap (λ l. m ∷ l) (sym chan);
        room = λ l. rw chan (omega (arith, l, ap (λ (xs : List M). length xs) h));
        error_room = λ l. rw errs l;
        mode = same;
        acks = acknowledge-acked c.ack_mode m taken;
      }

  take_error-Selects :
      (es : List ℕ) (c : PubSubClient M) → c.error_chan ≡ es → Selects c (take_error es c)
  unfolding take_error Selects drained_by
  take_error-Selects [] c h = tt
  take_error-Selects (e ∷ es) c h = record {
    order = append-nil c.message_chan;
    room = λ l. l;
    error_room = λ l. omega (arith, l, ap (λ (xs : List ℕ). length xs) h);
    mode = refl;
    acks = λ _. sym (append-nil c.acked);
  }

  select_case-Selects : (case : Case) (c : PubSubClient M) → Selects c (select_case case c)
  unfolding select_case Selects drained_by
  select_case-Selects messages c = take_message-Selects c.message_chan c refl
  select_case-Selects errors c = take_error-Selects c.error_chan c refl
  select_case-Selects context c = by_state c.cancelled
    where
      by_state :
          (cancelled : Bool)
          → Selects c (some (if cancelled then client_cancelled else timed_out, c))
      by_state true = same-Ordered c c refl refl refl refl
      by_state false = same-Ordered c c refl refl refl refl

  Ordered-trans :
      (c₀ c₁ c₂ : PubSubClient M) (put puts out outs : List M)
      → Ordered c₀ put out c₁
      → Ordered c₁ puts outs c₂
      → Ordered c₀ (put ++ puts) (out ++ outs) c₂
  Ordered-trans c₀ c₁ c₂ put puts out outs p q = record {
    order =
        sym (append_assoc c₀.message_chan put puts)
        ∙ ap (λ l. l ++ puts) p.order
        ∙ append_assoc out c₁.message_chan puts
        ∙ ap (λ l. out ++ l) q.order
        ∙ sym (append_assoc out outs c₂.message_chan);
    room = λ h. q.room (p.room h);
    error_room = λ h. q.error_room (p.error_room h);
    mode = q.mode ∙ p.mode;
    acks =
        λ h. q.acks (p.mode ∙ h) ∙ ap (λ l. l ++ outs) (p.acks h) ∙ append_assoc c₀.acked out outs;
  }

  receive-Ordered :
      (case : Case) (buffer : List M) (c : PubSubClient M)
      → c.message_buffer ≡ buffer
      → let r = received_by c (receive_from case buffer c) in Ordered c [] r.0 r.1
  unfolding receive_from received_by drained_by Selects
  receive-Ordered case [] c h =
      let c₁ = start_continuous_receiver c in
      by_result (select_case case c₁) (start-Ordered c) (select_case-Selects case c₁)
    where
      by_result :
          {c₁ : PubSubClient M} (o : Option (Received M × PubSubClient M))
          → Ordered c [] [] c₁
          → Selects c₁ o
          → Ordered c [] (received_by c o).0 (received_by c o).1
      by_result none p q = start-Ordered c
      by_result {c₁} (some (r, c')) p q =
          subst (λ b. Ordered c [] (drained_by b r) c') (sym h)
            (Ordered-trans c c₁ c' [] [] [] (drained_by [] r) p q)
  receive-Ordered case (m ∷ ms) c h =
      subst (λ b. Ordered c [] (drained_by b (message m)) (record c { message_buffer = ms }))
        (sym h) (same-Ordered c _ refl refl refl refl)

  perform-Ordered :
      (op : Operation M) (c : PubSubClient M) → let r = perform op c in Ordered c r.0.0 r.0.1 r.1
  unfolding perform buffer_message on_message cancel receive_message queued_by
  perform-Ordered (buffers m) c = same-Ordered c _ refl refl refl refl
  perform-Ordered (receives case) c = receive-Ordered case c.message_buffer c refl
  perform-Ordered (arrives m done_before done_now returns_first) c = arrives_if c.receiver_started
    where
      unless_done :
          (is_done : Bool)
          → let r =
              queued_by m
                (if is_done then (abandoned, c) else enqueue m done_now returns_first c) in
            Ordered c r.0 [] r.1
      unless_done true = same-Ordered c c refl refl refl refl
      unless_done false = enqueue-Ordered m done_now returns_first c

      arrives_if :
          (started : Bool)
          → let r =
              (if started
                then putting (
                    queued_by m
                      (if done_before then (abandoned, c) else enqueue m done_now returns_first c))
                else quiet c) in
            Ordered c r.0.0 r.0.1 r.1
      arrives_if true = unless_done done_before
      arrives_if false = same-Ordered c c refl refl refl refl
  perform-Ordered (ends err returns_first) c = ends_if c.receiver_started
    where
      ends_if :
          (started : Bool)
          → let r = (if started then quiet (end_receiver err returns_first c) else quiet c) in
            Ordered c r.0.0 r.0.1 r.1
      ends_if true = end_receiver-Ordered err returns_first c
      ends_if false = same-Ordered c c refl refl refl refl
  perform-Ordered closes c = same-Ordered c _ refl refl refl refl

  -- Whatever calls and steps of the receiver happen, in any order, the messages that
  -- ReceiveMessage took from the channel and then those still in it are the ones that were in it
  -- at first and then those that were queued: none is lost, doubled or overtaken. If the channels
  -- hold at most 100 messages and 10 errors, they still do, and in ack mode exactly the messages
  -- taken are acknowledged.
  pub perform_all-Ordered :
      (ops : List (Operation M)) (c : PubSubClient M)
      → let r = perform_all ops c in Ordered c r.0.0 r.0.1 r.1
  unfolding perform_all
  perform_all-Ordered [] c = same-Ordered c c refl refl refl refl
  perform_all-Ordered (op ∷ ops) c =
      let ((put, out), c₁) = perform op c in
      let ((puts, outs), c₂) = perform_all ops c₁ in
      Ordered-trans c c₁ c₂ put puts out outs (perform-Ordered op c) (perform_all-Ordered ops c₁)
