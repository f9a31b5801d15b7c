-- ===== src/Fuzzer/Messages/Contents.antt =====
-- What the queued messages are: schedules and sends keep what holds of all of them.
use model_guiding_fuzz.Common.{
  All, All-append, Bool-cases, List, Option, [], arith, inl, inr, le→leb, none, refl, some, subst,
  suc, zero, ℕ, ◌&&◌, ◌==◌, ◌∷◌, ◌≡◌, ◌≤◌,
}
use model_guiding_fuzz.Types.Event.{Message}
use model_guiding_fuzz.Types.Queue.{Queue, push, pop, size, reset, new_queue}
use model_guiding_fuzz.Fuzzer.Messages.{
  MessageQueues, new_queues, put_queue, pop_up_to, take_from, schedule, send, reset_queues,
}

-- There is a queue for each link between nodes.
abbrev pub HasQueues : ℕ → MessageQueues → Type 0
HasQueues replicas qs =
    (i j : ℕ) → i ≤ replicas → j ≤ replicas → (q : Queue Message) × (qs i j ≡ some q)

pub new_queues-HasQueues : (replicas : ℕ) → HasQueues replicas (new_queues replicas)
unfolding new_queues
new_queues-HasQueues replicas i j hi hj =
    (new_queue, rw (le→leb i replicas hi, le→leb j replicas hj) refl)

module _ (P : Message → Type 0) where
  pop_up_to-All :
      (n : ℕ) (q : Queue Message) → All P q.q → All P (pop_up_to n q).0 × All P (pop_up_to n q).1.q
  unfolding pop_up_to pop
  pop_up_to-All zero q h = (tt, h)
  pop_up_to-All (suc n) q h = by_elements (λ ms. pop_up_to-All n (record { q = ms })) q.q h
    where
      by_elements :
          ((ms : List Message)
            → All P ms
            → let r = pop_up_to n (record { q = ms }) in All P r.0 × All P r.1.q)
          → (ms : List Message) → All P ms
          → let r = pop_up_to (suc n) (record { q = ms }) in All P r.0 × All P r.1.q
      by_elements later [] h = (tt, tt)
      by_elements later (m ∷ ms) h = let (out, left) = later ms h.1 in ((h.0, out), left)

  module _ (replicas : ℕ) where
    -- All queued messages satisfy `P`, too.
    pub record Contains (qs : MessageQueues) : Type 0 where
      pub has_queue : HasQueues replicas qs
      pub all_queued : (i j : ℕ) (q : Queue Message) → qs i j ≡ some q → All P q.q

    put_queue-Contains :
        (from to : ℕ) (q : Queue Message) (qs : MessageQueues)
        → Contains qs
        → All P q.q
        → Contains (put_queue from to q qs)
    unfolding put_queue
    put_queue-Contains from to q qs h all = record {
      has_queue = λ i j hi hj. elim (Bool-cases (i == from && j == to)) [
        | inl here ↦ (q, rw here refl)
        | inr other ↦ (let (r, e) = h.has_queue i j hi hj in (r, rw other e))
      ];
      all_queued = λ i j r e. elim (Bool-cases (i == from && j == to)) [
        | inl here ↦
            (let same : q ≡ r = ground (arith, e, here) in
              subst (λ (x : Queue Message). All P x.q) same all)
        | inr other ↦ h.all_queued i j r (ground (arith, e, other))
      ];
    }

    -- What a schedule takes out satisfies `P`, and so does what is left.
    pub schedule-Contains :
        (from to n : ℕ) (qs : MessageQueues)
        → Contains qs
        → All P (schedule from to n qs).0 × Contains (schedule from to n qs).1
    unfolding schedule take_from
    schedule-Contains from to n qs h = by_queue (qs from to) refl
      where
        by_queue :
            (o : Option (Queue Message))
            → qs from to ≡ o
            → All P (take_from from to n qs o).0 × Contains (take_from from to n qs o).1
        by_queue none e = (tt, h)
        by_queue (some q) e = elim (Bool-cases (size q == 0)) [
          | inl empty ↦ rw empty (tt, h)
          | inr full ↦
              let (out, left) = pop_up_to-All n q (h.all_queued from to q e) in
              rw full (out, put_queue-Contains from to (pop_up_to n q).1 qs h left)
        ]

    -- A send between nodes finds its queue.
    pub send-Contains :
        (m : Message) (qs : MessageQueues)
        → Contains qs
        → m.from ≤ replicas
        → m.to ≤ replicas
        → P m
        → (qs' : MessageQueues) × (send m qs ≡ some qs') × Contains qs'
    unfolding send push
    send-Contains m qs h from_le to_le p =
        let (q, e) = h.has_queue m.from m.to from_le to_le in
        (
          put_queue m.from m.to (push q m) qs,
          rw (e, send) refl,
          put_queue-Contains m.from m.to (push q m) qs h
              (All-append P q.q (m ∷ []) (h.all_queued m.from m.to q e) (p, tt)),
        )

    pub reset_queues-Contains :
        (qs : MessageQueues) → HasQueues replicas qs → Contains (reset_queues qs)
    unfolding reset_queues reset
    reset_queues-Contains qs h = record {
      has_queue = λ i j hi hj. (let (q, e) = h i j hi hj in (reset q, rw (e, reset_queues) refl));
      all_queued = λ i j. by_queue (qs i j);
    }
      where
        by_queue :
            (o : Option (Queue Message)) (r : Queue Message)
            → elim o [ none ↦ none | some q ↦ some (reset q) ] ≡ some r
            → All P r.q
        by_queue none r e = absurd (cc)
        by_queue (some q) r e =
            let same : reset q ≡ r = cc in subst (λ (x : Queue Message). All P x.q) same tt
