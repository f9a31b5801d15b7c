-- ===== src/Strategy.antt =====
-- strategy.go: which node acts next. RandomStrategy draws; RoundRobinStrategy takes turns.
pub mod Turns
use model_guiding_fuzz.Common.{
  Bool, List, Option, Random, Runtime, contains, get_elem?, if◌then◌else◌, intn, length, none,
  or_panic, pure, some, suc, zero, ℕ, ◌%◌, ◌+◌, ◌==◌, ◌>>=◌,
}

-- RandomStrategy
module _ {G : Type 0} (rt : Runtime G) where
  unfoldable pub random_next_node : List ℕ → Random G ℕ
  random_next_node available = do i ← intn rt (length available); or_panic (get_elem? available i)

  unfoldable pub random_boolean : Random G Bool
  random_boolean = do n ← intn rt 2; pure (n == 0)

  unfoldable pub random_integer : ℕ → Random G ℕ
  random_integer max = intn rt max

-- RoundRobinStrategy. `num_nodes` is the number of nodes plus one.
pub record RoundRobin : Type 0 where
  pub num_nodes : ℕ
  pub cur_node : ℕ

unfoldable pub new_round_robin : ℕ → RoundRobin
new_round_robin num_nodes = record { num_nodes = num_nodes + 1; cur_node = 0 }

-- `for !exists { next = (next + 1) % NumNodes }`, on fuel.
unfoldable pub seek : ℕ → List ℕ → ℕ → ℕ → Option ℕ
seek zero available num_nodes next = none
seek (suc fuel) available num_nodes next =
    let rest = seek fuel available num_nodes ((next + 1) % num_nodes) in
    if contains next available then some next else rest

-- The node, and the strategy with its turn moved on; nothing if the fuel runs out.
unfoldable pub round_robin_next_node : ℕ → List ℕ → RoundRobin → Option (ℕ × RoundRobin)
unfolding seek
round_robin_next_node fuel available r = elim (seek fuel available r.num_nodes r.cur_node) [
  | none ↦ none
  | some next ↦ some (next, record r { cur_node = (next + 1) % r.num_nodes })
]
