-- ===== src/Fuzzer/Messages/Delivery.antt =====
-- What the message queues promise: each link is first in, first out, and loses nothing.
use model_guiding_fuzz.Common.{
  ==→eq, Bool-cases, List, Option, [], ap, ap₂, arith, drop, if◌then◌else◌, inl, inr, le→leb, none,
  refl, some, suc, sym, take, true, zero, ℕ, ◌&&◌, ◌++◌, ◌==◌, ◌∷◌, ◌≡◌, ◌≤◌,
}
use model_guiding_fuzz.Types.Event.{Message}
use model_guiding_fuzz.Types.Queue.{Queue, new_queue, pop, push, size}
use model_guiding_fuzz.Fuzzer.Messages.{
  MessageQueues, new_queues, put_queue, take_from, pop_up_to, schedule, send,
}

-- The messages of a queue that may be missing.
unfoldable waiting : Option (Queue Message) → List Message
waiting none = []
waiting (some q) = q.q

-- The messages that wait on a link.
unfoldable pub pending : ℕ → ℕ → MessageQueues → List Message
unfolding waiting
pending i j qs = waiting (qs i j)

-- Whether there is a queue for each pair of nodes up to `replicas`.
unfoldable pub IsOpen : ℕ → MessageQueues → Type 0
IsOpen replicas qs =
    (i j : ℕ) → i ≤ replicas → j ≤ replicas → (q : Queue Message) × (qs i j ≡ some q)

pop_up_to_lem :
    (n : ℕ) (xs : List Message)
    → pop_up_to n (record { q = xs }) ≡ (take n xs, record { q = drop n xs })
unfolding pop_up_to pop
pop_up_to_lem zero xs = refl
pop_up_to_lem (suc n) [] = refl
pop_up_to_lem (suc n) (x ∷ xs) = rw (pop_up_to_lem n xs) refl

drop_nil : (n : ℕ) → drop {A = Message} n [] ≡ []
drop_nil zero = refl
drop_nil (suc n) = refl

take_nil : (n : ℕ) → take {A = Message} n [] ≡ []
take_nil zero = refl
take_nil (suc n) = refl

pub take-drop : (n : ℕ) (xs : List Message) → take n xs ++ drop n xs ≡ xs
take-drop zero xs = refl
take-drop (suc n) [] = refl
take-drop (suc n) (x ∷ xs) = ap (λ l. x ∷ l) (take-drop n xs)

pub new_queues-IsOpen : (replicas : ℕ) → IsOpen replicas (new_queues replicas)
unfolding IsOpen new_queues
new_queues-IsOpen replicas i j p q = (new_queue, rw (le→leb i replicas p, le→leb j replicas q) refl)

take_from-take :
    (from to n : ℕ) (qs : MessageQueues) (o : Option (Queue Message))
    → (take_from from to n qs o).0 ≡ take n (waiting o)
unfolding take_from waiting size
take_from-take from to n qs none = sym (take_nil n)
take_from-take from to n qs (some q) = some_queue q.q
  where
    some_queue :
        (xs : List Message) → (take_from from to n qs (some (record { q = xs }))).0 ≡ take n xs
    some_queue [] = sym (take_nil n)
    some_queue (x ∷ xs) = ground (arith, pop_up_to_lem n (x ∷ xs))

same_link :
    (i j from to : ℕ) (qs : MessageQueues) → (i == from && j == to) ≡ true → qs i j ≡ qs from to
same_link i j from to qs h =
    ap₂ qs (==→eq i from (ground (arith, h))) (==→eq j to (ground (arith, h)))

waiting-take_from :
    (i j from to n : ℕ) (qs : MessageQueues) (o : Option (Queue Message))
    → qs from to ≡ o
    → waiting ((take_from from to n qs o).1 i j)
      ≡ (if i == from && j == to then drop n (waiting o) else waiting (qs i j))
unfolding take_from waiting size put_queue
waiting-take_from i j from to n qs none h = ground (arith, same_link i j from to qs, drop_nil n)
waiting-take_from i j from to n qs (some q) h = some_queue q.q h
  where
    some_queue :
        (xs : List Message)
        → qs from to ≡ some (record { q = xs })
        → waiting ((take_from from to n qs (some (record { q = xs }))).1 i j)
          ≡ (if i == from && j == to then drop n xs else waiting (qs i j))
    some_queue [] h = ground (arith, same_link i j from to qs, drop_nil n)
    some_queue (x ∷ xs) h = ground (arith, pop_up_to_lem n (x ∷ xs))

-- Schedule returns the first messages of a link, at most as many as it is asked for, and leaves
-- the others there; the other links stay as they were.
pub schedule-take :
    (from to n : ℕ) (qs : MessageQueues) → (schedule from to n qs).0 ≡ take n (pending from to qs)
unfolding schedule pending
schedule-take from to n qs = take_from-take from to n qs (qs from to)

pub pending-schedule :
    (i j from to n : ℕ) (qs : MessageQueues)
    → pending i j (schedule from to n qs).1
      ≡ (if i == from && j == to then drop n (pending from to qs) else pending i j qs)
unfolding schedule pending
pending-schedule i j from to n qs = waiting-take_from i j from to n qs (qs from to) refl

IsOpen-put_queue :
    (replicas from to : ℕ) (q : Queue Message) (qs : MessageQueues)
    → IsOpen replicas qs
    → IsOpen replicas (put_queue from to q qs)
unfolding IsOpen put_queue
IsOpen-put_queue replicas from to q qs all i j i_le j_le =
    elim (Bool-cases (i == from && j == to)) [
      | inl here ↦ (q, rw here refl)
      | inr other ↦ let (p, h) = all i j i_le j_le in (p, rw other h)
    ]

IsOpen-take_from :
    (replicas from to n : ℕ) (qs : MessageQueues) (o : Option (Queue Message))
    → IsOpen replicas qs
    → IsOpen replicas (take_from from to n qs o).1
unfolding take_from
IsOpen-take_from replicas from to n qs none all = all
IsOpen-take_from replicas from to n qs (some q) all = elim (Bool-cases (size q == 0)) [
  | inl empty ↦ rw empty all
  | inr waits ↦ rw waits (IsOpen-put_queue replicas from to (pop_up_to n q).1 qs all)
]

pub IsOpen-schedule :
    (replicas from to n : ℕ) (qs : MessageQueues)
    → IsOpen replicas qs
    → IsOpen replicas (schedule from to n qs).1
unfolding schedule
IsOpen-schedule replicas from to n qs all = IsOpen-take_from replicas from to n qs (qs from to) all

-- A send to a link that is there.
pub send-pending :
    (replicas : ℕ) (m : Message) (qs : MessageQueues)
    → IsOpen replicas qs
    → m.from ≤ replicas
    → m.to ≤ replicas
    → (qs' : MessageQueues) × (send m qs ≡ some qs')
      × IsOpen replicas qs'
      × ((i j : ℕ)
          → pending i j qs'
            ≡ (if i == m.from && j == m.to then pending i j qs ++ m ∷ [] else pending i j qs))
unfolding IsOpen send pending waiting put_queue push
send-pending replicas m qs all p q =
    let (old, h) = all m.from m.to p q in
    let new = put_queue m.from m.to (push old m) qs in
    (
      new,
      rw (h, send) refl,
      IsOpen-put_queue replicas m.from m.to (push old m) qs all,
      λ i j. ground (arith, same_link i j m.from m.to qs, h),
    )

pub pending-link :
    (i j from to : ℕ) (qs : MessageQueues)
    → (i == from && j == to) ≡ true
    → pending i j qs ≡ pending from to qs
unfolding pending
pending-link i j from to qs h = ap waiting (same_link i j from to qs h)
