-- ===== src/Fuzzer/Messages/Links.antt =====
-- Sends and schedules in any order: what each link delivers.
use model_guiding_fuzz.Common.{
  All, Bool, Bool-cases, List, Option, [], ap, append-nil, append_assoc, false, if◌then◌else◌, inl,
  inr, none, refl, some, sym, true, ℕ, ◌&&◌, ◌++◌, ◌==◌, ◌∙◌, ◌∷◌, ◌≡◌, ◌≤◌,
}
use model_guiding_fuzz.Types.Event.{Message}
use model_guiding_fuzz.Fuzzer.Messages.{MessageQueues, schedule, send}
use model_guiding_fuzz.Fuzzer.Messages.Delivery.{
  pending, IsOpen, schedule-take, pending-schedule, IsOpen-schedule, send-pending, take-drop,
  pending-link,
}

-- The two ways in which RunIteration uses the queues.
pub data Action : Type 0 where
  sent : Message → Action
  scheduled : ℕ → ℕ → ℕ → Action

unfoldable pub IsBetween : ℕ → Action → Type 0
IsBetween replicas (sent m) = (m.from ≤ replicas) × (m.to ≤ replicas)
IsBetween replicas (scheduled from to n) = Unit

-- The messages that the actions send on the link from `i` to `j`.
unfoldable pub sent_on : ℕ → ℕ → List Action → List Message
sent_on i j [] = []
sent_on i j (sent m ∷ actions) =
    let rest = sent_on i j actions in if i == m.from && j == m.to then m ∷ rest else rest
sent_on i j (scheduled from to n ∷ actions) = sent_on i j actions

-- After a send, which may fail, the other actions; after a schedule, whose messages come first.
unfoldable after_send :
    (MessageQueues → Option (List Message × MessageQueues))
    → Option MessageQueues
    → Option (List Message × MessageQueues)
after_send rest none = none
after_send rest (some qs) = rest qs

unfoldable deliver :
    List Message → Option (List Message × MessageQueues) → Option (List Message × MessageQueues)
deliver ms none = none
deliver ms (some (rest, qs)) = some (ms ++ rest, qs)

-- The actions in turn: the messages that Schedule returns for the link from `i` to `j`, and the
-- queues in the end, or nothing if a send fails.
unfoldable pub run : ℕ → ℕ → List Action → MessageQueues → Option (List Message × MessageQueues)
unfolding after_send deliver
run i j [] qs = some ([], qs)
run i j (sent m ∷ actions) qs = after_send (run i j actions) (send m qs)
run i j (scheduled from to n ∷ actions) qs =
    let (ms, qs') = schedule from to n qs in
    deliver (if i == from && j == to then ms else []) (run i j actions qs')

send-same :
    (b : Bool) (m : Message) (old new later : List Message)
    → new ≡ (if b then old ++ m ∷ [] else old)
    → new ++ later ≡ old ++ (if b then m ∷ later else later)
send-same true m old new later h = ap (λ l. l ++ later) h ∙ append_assoc old (m ∷ []) later
send-same false m old new later h = ap (λ l. l ++ later) h

schedule-same :
    (i j from to n : ℕ) (qs : MessageQueues)
    → (if i == from && j == to then (schedule from to n qs).0 else [])
        ++ pending i j (schedule from to n qs).1
      ≡ pending i j qs
schedule-same i j from to n qs = elim (Bool-cases (i == from && j == to)) [
  | inl here ↦
      rw (pending-schedule i j from to n qs, schedule-take from to n qs, here)
        (take-drop n (pending from to qs) ∙ sym (pending-link i j from to qs here))
  | inr other ↦ rw (pending-schedule i j from to n qs, other) refl
]

-- On queues for all pairs of nodes, sends between nodes and schedules, in any order, never fail.
-- On each link, the messages that were delivered and then those that still wait are the messages
-- that waited at first and then those sent: none is lost, doubled or overtaken.
pub run-ordered :
    (i j replicas : ℕ) (actions : List Action) (qs : MessageQueues)
    → IsOpen replicas qs
    → All (IsBetween replicas) actions
    → (ms : List Message) × (qs' : MessageQueues) × (run i j actions qs ≡ some (ms, qs'))
      × (ms ++ pending i j qs' ≡ pending i j qs ++ sent_on i j actions)
unfolding run sent_on IsBetween
run-ordered i j replicas [] qs all between = ([], qs, refl, sym (append-nil (pending i j qs)))
run-ordered i j replicas (sent m ∷ actions) qs all between =
    let (qs1, sends, all1, grown) = send-pending replicas m qs all between.0.0 between.0.1 in
    let (ms, qs', runs, same) = run-ordered i j replicas actions qs1 all1 between.1 in
    (
      ms,
      qs',
      rw (sends, runs) refl,
      same
          ∙ send-same (i == m.from && j == m.to) m (pending i j qs) (pending i j qs1)
              (sent_on i j actions) (grown i j),
    )
run-ordered i j replicas (scheduled from to n ∷ actions) qs all between =
    let qs1 = (schedule from to n qs).1 in
    let all1 = IsOpen-schedule replicas from to n qs all in
    let (ms, qs', runs, same) = run-ordered i j replicas actions qs1 all1 between.1 in
    let here = if i == from && j == to then (schedule from to n qs).0 else [] in
    (
      here ++ ms,
      qs',
      rw runs refl,
      append_assoc here ms (pending i j qs')
          ∙ ap (λ l. here ++ l) same
          ∙ sym (append_assoc here (pending i j qs1) (sent_on i j actions))
          ∙ ap (λ l. l ++ sent_on i j actions) (schedule-same i j from to n qs),
    )
