-- ===== src/Strategy/Turns.antt =====
-- RoundRobinStrategy takes the first available node from its turn on, and its turn moves behind it.
use model_guiding_fuzz.Common.{
  ==→eq, ==→ne, Bool-cases, List, arith, contains, false, if◌then◌else◌, inl, inr, leb, refl, some,
  suc, true, zero, ℕ, ◌%◌, ◌+◌, ◌-◌, ◌<◌, ◌==◌, ◌≡◌, ◌≢◌, ◌≤◌, ◌⊎◌,
}
use native.Mathlib.Nat.{mod-lt, mod-eq_of_lt}
use model_guiding_fuzz.Strategy.{RoundRobin, seek, round_robin_next_node}

-- How far `k` lies ahead of `next`, going round.
unfoldable pub ahead : ℕ → ℕ → ℕ → ℕ
ahead num_nodes next k = if leb next k then k - next else k + num_nodes - next

turn_cases :
    (n num_nodes : ℕ)
    → n < num_nodes
    → ((n + 1 ≡ num_nodes) × ((n + 1) % num_nodes ≡ 0))
      ⊎ ((n + 1 < num_nodes) × ((n + 1) % num_nodes ≡ n + 1))
turn_cases n num_nodes h = elim (Bool-cases (n + 1 == num_nodes)) [
  | inl e ↦ inl (==→eq _ _ e, grind (arith, ==→eq _ _ e))
  | inr e ↦ inr (omega (arith, ==→ne _ _ e), mod-eq_of_lt (omega (arith, ==→ne _ _ e)))
]

ahead-turn :
    (num_nodes next k : ℕ)
    → next < num_nodes
    → k < num_nodes
    → next ≢ k
    → ahead num_nodes next k ≡ suc (ahead num_nodes ((next + 1) % num_nodes) k)
unfolding ahead
ahead-turn num_nodes next k h hk ne = elim (turn_cases next num_nodes h) [
  | inl (last, e) ↦ rw e (ground arith)
  | inr (inner, e) ↦ rw e (ground arith)
]

turn-lt : (next num_nodes : ℕ) → next < num_nodes → (next + 1) % num_nodes < num_nodes
turn-lt next num_nodes h = mod-lt (next + 1) (omega arith)

-- `n` is available, and no available node comes sooner.
pub record IsFirst (available : List ℕ) (num_nodes next n : ℕ) : Type 0 where
  pub present : contains n available ≡ true
  pub in_range : n < num_nodes
  pub soonest :
      (k : ℕ)
      → contains k available ≡ true
      → k < num_nodes
      → ahead num_nodes next n ≤ ahead num_nodes next k

module _ (available : List ℕ) (num_nodes : ℕ) where
  seek-IsFirst :
      (fuel next k : ℕ)
      → next < num_nodes
      → contains k available ≡ true
      → k < num_nodes
      → ahead num_nodes next k < fuel
      → (n : ℕ) × (seek fuel available num_nodes next ≡ some n) × IsFirst available num_nodes next n
  unfolding seek
  seek-IsFirst zero next k h present hk far = absurd (omega arith)
  seek-IsFirst (suc fuel) next k h present hk far = elim (Bool-cases (contains next available)) [
    | inl here ↦ (
      next,
      rw here,
      record { present = here; in_range = h; soonest = λ j _ _. omega (arith, zero_ahead next) },
    )
    | inr missing ↦
        let other = λ (j : ℕ) (p : contains j available ≡ true). differs j p missing in
        let step = λ (j : ℕ) (p : contains j available ≡ true) (hj : j < num_nodes).
          ahead-turn num_nodes next j h hj (other j p) in
        let (n, e, first) =
          seek-IsFirst fuel ((next + 1) % num_nodes) k (turn-lt next num_nodes h) present hk
            (omega (arith, step k present hk)) in
        (
          n,
          rw missing e,
          record {
            present = first.present;
            in_range = first.in_range;
            soonest = λ j p hj.
                omega
                  (arith, step j p hj, step n first.present first.in_range, first.soonest j p hj);
          },
        )
  ]
    where
      zero_ahead : (x : ℕ) → ahead num_nodes x x ≡ 0
      zero_ahead x = unfold ahead in ground arith

      differs : (j : ℕ) → contains j available ≡ true → contains next available ≡ false → next ≢ j
      differs j p q e = absurd (let c : contains next available ≡ true = rw e p in cc)

  ahead-lt : (next k : ℕ) → next < num_nodes → k < num_nodes → ahead num_nodes next k < num_nodes
  unfolding ahead
  ahead-lt next k h hk = ground arith

-- With a node of the program available, GetNextNode of RoundRobinStrategy returns: in at most as
-- many rounds as there are nodes it finds the first available node from its turn on, and the turn
-- moves to the number behind that node's.
pub round_robin_next_node-IsFirst :
    (available : List ℕ) (r : RoundRobin) (k : ℕ)
    → r.cur_node < r.num_nodes
    → contains k available ≡ true
    → k < r.num_nodes
    → (n : ℕ) × (r' : RoundRobin) × (round_robin_next_node r.num_nodes available r ≡ some (n, r'))
      × IsFirst available r.num_nodes r.cur_node n
      × (r'.num_nodes ≡ r.num_nodes)
      × (r'.cur_node ≡ (n + 1) % r.num_nodes)
      × (r'.cur_node < r.num_nodes)
unfolding round_robin_next_node
round_robin_next_node-IsFirst available r k h present hk =
    let (n, e, first) =
      seek-IsFirst available r.num_nodes r.num_nodes r.cur_node k h present hk
        (ahead-lt available r.num_nodes r.cur_node k h hk) in
    (
      n,
      record r { cur_node = (n + 1) % r.num_nodes },
      rw (e, round_robin_next_node),
      first,
      refl,
      refl,
      turn-lt n r.num_nodes first.in_range,
    )
