-- ===== src/VisitGraph/Lookups.antt =====
-- What the graph says about a state, and how each step of an update changes it.
use model_guiding_fuzz.Common.{
  Bool, Bool-cases, Option, Option-cases, [], arith, contains, contains-add_key, false,
  if◌then◌else◌, inl, inr, lookup, lookup-insert, none, not, some, ℕ, ◌&&◌, ◌+◌, ◌==◌, ◌||◌, ◌∷◌,
  ◌≡◌,
}
use model_guiding_fuzz.Types.State.{State}
use model_guiding_fuzz.VisitGraph.{
  VisitGraphNode, VisitGraph, add_next, add_prev, visit, new_node, ensure, modify,
}

-- Each node stands under its own key.
abbrev pub IsKeyed : VisitGraph → Type 0
IsKeyed g = (k : ℕ) (n : VisitGraphNode) → lookup k g ≡ some n → n.key ≡ k

abbrev pub HasKey : ℕ → VisitGraph → Type 0
HasKey k g = (n : VisitGraphNode) × (lookup k g ≡ some n)

abbrev visits_in : Option VisitGraphNode → ℕ
visits_in none = 0
visits_in (some n) = n.visits

abbrev next_in : ℕ → Option VisitGraphNode → Bool
next_in k none = false
next_in k (some n) = contains k n.next

abbrev prev_in : ℕ → Option VisitGraphNode → Bool
prev_in k none = false
prev_in k (some n) = contains k n.prev

-- How often the graph has counted the state `k`.
abbrev pub visits_of : VisitGraph → ℕ → ℕ
visits_of g k = visits_in (lookup k g)

-- Whether `k` is among the successors of `j`, and `j` among the predecessors of `k`.
abbrev pub edge : VisitGraph → ℕ → ℕ → Bool
edge g j k = next_in k (lookup j g)

abbrev pub back_edge : VisitGraph → ℕ → ℕ → Bool
back_edge g k j = prev_in j (lookup k g)

abbrev map_node : (VisitGraphNode → VisitGraphNode) → Option VisitGraphNode → Option VisitGraphNode
map_node f none = none
map_node f (some n) = some (f n)

pub lookup-modify :
    (k j : ℕ) (f : VisitGraphNode → VisitGraphNode) (g : VisitGraph)
    → lookup j (modify k f g) ≡ (if k == j then map_node f (lookup j g) else lookup j g)
unfolding modify
lookup-modify k j f [] = ground arith
lookup-modify k j f ((i, n) ∷ g) = ground (arith, lookup-modify k j f g)

pub lookup-ensure :
    (s : State) (j : ℕ) (g : VisitGraph)
    → lookup j (ensure s g) ≡ elim (lookup j g) [
      | none ↦ if s.key == j then some (new_node s) else none
      | some n ↦ some n
    ]
unfolding ensure
lookup-ensure s j g = elim (Option-cases (lookup s.key g)) [
  | inl e ↦ rw (e, ensure) (ground (arith, e, lookup-insert s.key j (new_node s) g))
  | inr (n, e) ↦ rw (e, ensure) (ground (arith, e))
]

-- A new node changes no count and no edge.
module _ (s : State) (g : VisitGraph) where
  pub visits_of-ensure : (j : ℕ) → visits_of (ensure s g) j ≡ visits_of g j
  unfolding new_node
  visits_of-ensure j = ground (arith, lookup-ensure s j g)

  pub edge-ensure : (j k : ℕ) → edge (ensure s g) j k ≡ edge g j k
  unfolding new_node
  edge-ensure j k = ground (arith, lookup-ensure s j g)

  pub back_edge-ensure : (j k : ℕ) → back_edge (ensure s g) k j ≡ back_edge g k j
  unfolding new_node
  back_edge-ensure j k = ground (arith, lookup-ensure s k g)

  pub ensure-IsKeyed : IsKeyed g → IsKeyed (ensure s g)
  unfolding new_node
  ensure-IsKeyed h k n e = ground (arith, lookup-ensure s k g, h k n)

  pub ensure-HasKey : HasKey s.key (ensure s g)
  ensure-HasKey = elim (Option-cases (lookup s.key g)) [
    | inl e ↦ (new_node s, ground (arith, e, lookup-ensure s s.key g))
    | inr (n, e) ↦ (n, ground (arith, e, lookup-ensure s s.key g))
  ]

  pub HasKey-ensure : (j : ℕ) → HasKey j g → HasKey j (ensure s g)
  HasKey-ensure j (n, e) = (n, ground (arith, e, lookup-ensure s j g))

module _ (k : ℕ) (f : VisitGraphNode → VisitGraphNode) (g : VisitGraph) where
  pub modify-IsKeyed :
      ((n : VisitGraphNode) → (f n).key ≡ n.key) → IsKeyed g → IsKeyed (modify k f g)
  modify-IsKeyed same h j n e = elim (Option-cases (lookup j g)) [
    | inl a ↦ absurd (ground (arith, a, e, lookup-modify k j f g))
    | inr (m, a) ↦ ground (arith, a, e, lookup-modify k j f g, h j m, same m)
  ]

  pub HasKey-modify : (j : ℕ) → HasKey j g → HasKey j (modify k f g)
  HasKey-modify j (n, e) = elim (Bool-cases (k == j)) [
    | inl here ↦ (f n, ground (arith, e, here, lookup-modify k j f g))
    | inr there ↦ (n, ground (arith, e, there, lookup-modify k j f g))
  ]

-- What the three writes of an update do at a node that is there.
module _ (k : ℕ) (g : VisitGraph) (n : VisitGraphNode) (e : lookup k g ≡ some n) where
  pub visits_of-visit :
      (j : ℕ) → visits_of (modify k visit g) j ≡ visits_of g j + (if k == j then 1 else 0)
  unfolding visit
  visits_of-visit j = ground (arith, e, lookup-modify k j visit g)

  module _ (to : ℕ) (keyed : n.key ≡ k) where
    pub edge-add_next :
        (i j : ℕ)
        → edge (modify k (add_next to) g) i j
          ≡ (edge g i j || (k == i && (to == j && not (k == to))))
    unfolding add_next
    edge-add_next i j =
        ground (arith, e, keyed, lookup-modify k i (add_next to) g, contains-add_key to j n.next)

    pub back_edge-add_prev :
        (i j : ℕ)
        → back_edge (modify k (add_prev to) g) j i
          ≡ (back_edge g j i || (k == j && (to == i && not (k == to))))
    unfolding add_prev
    back_edge-add_prev i j =
        ground (arith, e, keyed, lookup-modify k j (add_prev to) g, contains-add_key to i n.prev)

-- And what they leave alone.
module _ (k to : ℕ) (g : VisitGraph) where
  pub visits_of-add_next : (j : ℕ) → visits_of (modify k (add_next to) g) j ≡ visits_of g j
  unfolding add_next
  visits_of-add_next j = ground (arith, lookup-modify k j (add_next to) g)

  pub visits_of-add_prev : (j : ℕ) → visits_of (modify k (add_prev to) g) j ≡ visits_of g j
  unfolding add_prev
  visits_of-add_prev j = ground (arith, lookup-modify k j (add_prev to) g)

  pub edge-visit : (i j : ℕ) → edge (modify k visit g) i j ≡ edge g i j
  unfolding visit
  edge-visit i j = ground (arith, lookup-modify k i visit g)

  pub back_edge-visit : (i j : ℕ) → back_edge (modify k visit g) j i ≡ back_edge g j i
  unfolding visit
  back_edge-visit i j = ground (arith, lookup-modify k j visit g)

  pub edge-add_prev : (i j : ℕ) → edge (modify k (add_prev to) g) i j ≡ edge g i j
  unfolding add_prev
  edge-add_prev i j = ground (arith, lookup-modify k i (add_prev to) g)

  pub back_edge-add_next : (i j : ℕ) → back_edge (modify k (add_next to) g) j i ≡ back_edge g j i
  unfolding add_next
  back_edge-add_next i j = ground (arith, lookup-modify k j (add_next to) g)
