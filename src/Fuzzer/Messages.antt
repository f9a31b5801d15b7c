-- ===== src/Fuzzer/Messages.antt =====
-- fuzzer.go: the message queues of the fuzzer, one for each pair of nodes. The keys "i_j" of the
-- map are the pairs, and the map is a function of them.
pub mod Delivery
pub mod Links
pub mod Contents
use model_guiding_fuzz.Common.{
  List, Option, [], if◌then◌else◌, leb, none, some, suc, zero, ℕ, ◌&&◌, ◌==◌, ◌∷◌,
}
use model_guiding_fuzz.Types.Event.{Message}
use model_guiding_fuzz.Types.Queue.{Queue, new_queue, push, pop, size, reset}

abbrev pub MessageQueues : Type 0
MessageQueues = ℕ → ℕ → Option (Queue Message)

-- The queues that NewFuzzer makes: the nodes are the numbers from 0 to `replicas`.
unfoldable pub new_queues : ℕ → MessageQueues
unfolding new_queue
new_queues replicas i j = if leb i replicas && leb j replicas then some new_queue else none

-- What a call through the pointer in the map leaves behind.
put_queue : ℕ → ℕ → Queue Message → MessageQueues → MessageQueues
put_queue from to q qs i j = if i == from && j == to then some q else qs i j

-- The loop of Schedule: at most `n` calls of Pop.
unfoldable pub pop_up_to : ℕ → Queue Message → List Message × Queue Message
unfolding pop
pop_up_to zero q = ([], q)
pop_up_to (suc n) q = elim (pop q).0 [
  | none ↦ ([], (pop q).1)
  | some m ↦ let (ms, q') = pop_up_to n (pop q).1 in (m ∷ ms, q')
]

-- The body of Schedule, on what the map has for the link.
unfoldable take_from :
    ℕ → ℕ → ℕ → MessageQueues → Option (Queue Message) → List Message × MessageQueues
unfolding pop_up_to put_queue size
take_from from to max_messages qs none = ([], qs)
take_from from to max_messages qs (some q) =
    if size q == 0
    then ([], qs)
    else let (ms, q') = pop_up_to max_messages q in (ms, put_queue from to q' qs)

unfoldable pub schedule : ℕ → ℕ → ℕ → MessageQueues → List Message × MessageQueues
unfolding take_from
schedule from to max_messages qs = take_from from to max_messages qs (qs from to)

-- `f.messageQueues[key].Push(n)`: a missing queue is a nil pointer, which Push goes through.
unfoldable pub send : Message → MessageQueues → Option MessageQueues
unfolding put_queue push
send m qs = elim (qs m.from m.to) [
  | none ↦ none
  | some q ↦ some (put_queue m.from m.to (push q m) qs)
]

unfoldable pub reset_queues : MessageQueues → MessageQueues
unfolding reset
reset_queues qs i j = elim (qs i j) [ none ↦ none | some q ↦ some (reset q) ]
