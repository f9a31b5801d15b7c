-- ===== src/Checker/Leaders.antt =====
-- What SingleLeader decides.
use model_guiding_fuzz.Common.{
  ==_refl, ==→eq, Bool-cases, Distinct, List, [], ap, arith, contains, inl, inr, keys, leb, lookup,
  some, true, ℕ, ◌==◌, ◌↔◌, ◌∙◌, ◌∷◌, ◌≡◌, ◌≢◌, ◌≤◌,
}
use model_guiding_fuzz.Raft.Library.{RaftLibrary, Status, state_leader}
use model_guiding_fuzz.Raft.{RaftEnvironment}
use model_guiding_fuzz.Checker.{count_leaders, single_leader}

some-leader :
    (id : ℕ) (m : List (ℕ × Status)) (s : Status)
    → lookup id m ≡ some s
    → s.raft_state ≡ 2
    → 1 ≤ count_leaders m
unfolding count_leaders
some-leader id [] s h l = absurd (cc)
some-leader id ((k, x) ∷ m) s h l = elim (Bool-cases (k == id)) [
  | inl here ↦
      (let same : x ≡ s = ground (arith, h, here) in
        let lead : x.raft_state ≡ 2 = ap (λ s. s.raft_state) same ∙ l in ground (arith, lead))
  | inr other ↦ ground (arith, some-leader id m s (ground (arith, h, other)) l)
]

unique :
    (i j : ℕ) (m : List (ℕ × Status)) (s t : Status)
    → count_leaders m ≤ 1
    → lookup i m ≡ some s
    → lookup j m ≡ some t
    → s.raft_state ≡ 2
    → t.raft_state ≡ 2
    → i ≡ j
unfolding count_leaders
unique i j [] s t c hi hj ls lt = absurd (cc)
unique i j ((k, x) ∷ m) s t c hi hj ls lt = elim (Bool-cases (k == i)) [
  | inl ki ↦ elim (Bool-cases (k == j)) [
    | inl kj ↦ ground (arith, ki, kj)
    | inr other ↦
        (let same : x ≡ s = ground (arith, hi, ki) in
          let lead : x.raft_state ≡ 2 = ap (λ s. s.raft_state) same ∙ ls in
          absurd (ground (arith, c, lead, some-leader j m t (ground (arith, hj, other)) lt)))
  ]
  | inr ki ↦ elim (Bool-cases (k == j)) [
    | inl kj ↦
        (let same : x ≡ t = ground (arith, hj, kj) in
          let lead : x.raft_state ≡ 2 = ap (λ s. s.raft_state) same ∙ lt in
          absurd (ground (arith, c, lead, some-leader i m s (ground (arith, hi, ki)) ls)))
    | inr kj ↦
        unique i j m s t (ground (arith, c)) (ground (arith, hi, ki)) (ground (arith, hj, kj)) ls lt
  ]
]

-- A list with a leader in it has one that can be looked up, if no key is there twice.
find :
    (m : List (ℕ × Status))
    → Distinct (keys m)
    → 1 ≤ count_leaders m
    → (id : ℕ) × (s : Status) × (lookup id m ≡ some s)
      × (s.raft_state ≡ 2)
      × (contains id (keys m) ≡ true)
unfolding count_leaders
find [] d c = absurd (ground arith)
find ((k, x) ∷ m) d c = elim (Bool-cases (x.raft_state == 2)) [
  | inl lead ↦ (k, x, ground arith, ==→eq x.raft_state 2 lead, ground arith)
  | inr other ↦
      (let (id, s, h, l, inside) = find m d.1 (ground (arith, c, other)) in
        (id, s, ground (arith, h, d.0, inside, ==→eq k id), l, ground (arith, inside)))
]

-- Among two leaders there are two nodes.
find_two :
    (m : List (ℕ × Status))
    → Distinct (keys m)
    → 2 ≤ count_leaders m
    → (i j : ℕ) × (s t : Status) × (lookup i m ≡ some s)
      × (lookup j m ≡ some t)
      × (s.raft_state ≡ 2)
      × (t.raft_state ≡ 2)
      × (i ≢ j)
      × (contains i (keys m) ≡ true)
      × (contains j (keys m) ≡ true)
unfolding count_leaders
find_two [] d c = absurd (ground arith)
find_two ((k, x) ∷ m) d c = elim (Bool-cases (x.raft_state == 2)) [
  | inl lead ↦
      (let (id, s, h, l, inside) = find m d.1 (ground (arith, c, lead)) in
        (
          k,
          id,
          x,
          s,
          ground arith,
          ground (arith, h, d.0, inside, ==→eq k id),
          ==→eq x.raft_state 2 lead,
          l,
          ground (arith, d.0, inside, ==_refl k),
          ground arith,
          ground (arith, inside),
        ))
  | inr other ↦
      (let (i, j, s, t, hi, hj, ls, lt, differ, in_i, in_j) =
          find_two m d.1 (ground (arith, c, other)) in
        (
          i,
          j,
          s,
          t,
          ground (arith, hi, d.0, in_i, ==→eq k i),
          ground (arith, hj, d.0, in_j, ==→eq k j),
          ls,
          lt,
          differ,
          ground (arith, in_i),
          ground (arith, in_j),
        ))
]

-- On states of which no node has two, SingleLeader returns true exactly if any two nodes that they
-- show as leaders are the same node.
pub single_leader_unique :
    {G : Type 0} (lib : RaftLibrary G) (re : RaftEnvironment lib)
    → Distinct (keys re.cur_states)
    → (single_leader lib re ≡ true) ↔ (
        (i j : ℕ) (s t : Status)
        → lookup i re.cur_states ≡ some s
        → lookup j re.cur_states ≡ some t
        → s.raft_state ≡ state_leader
        → t.raft_state ≡ state_leader
        → i ≡ j)
unfolding single_leader
single_leader_unique lib re d = (
  λ h i j s t. unique i j re.cur_states s t (ground (arith, h)),
  λ h. elim (Bool-cases (leb (count_leaders re.cur_states) 1)) [
    | inl few ↦ few
    | inr many ↦
        (let (i, j, s, t, hi, hj, ls, lt, differ, in_i, in_j) =
            find_two re.cur_states d (ground (arith, many)) in
          absurd (differ (h i j s t hi hj ls lt)))
  ],
)
