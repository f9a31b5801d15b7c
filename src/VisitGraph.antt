-- ===== src/VisitGraph.antt =====
-- visit_graph.go: how often each state was visited, and which states followed one another.
-- `record`, which writes the graph to a file, is not modelled.
pub mod Lookups
pub mod Update
use model_guiding_fuzz.Common.{
  Bool, List, Outcome, [], add_key, done, if◌then◌else◌, insert, length, lookup, none, panic, some,
  ℕ, ◌+◌, ◌==◌, ◌∷◌,
}
use Prim.Native.String.{String}
use model_guiding_fuzz.Types.State.{State}

pub record VisitGraphNode : Type 0 where
  pub key : ℕ
  pub state : String
  pub visits : ℕ
  pub next : List ℕ
  pub prev : List ℕ

-- The nodes by their keys. Go's map holds pointers; `modify` writes through one.
abbrev pub VisitGraph : Type 0
VisitGraph = List (ℕ × VisitGraphNode)

unfoldable pub new_visit_graph : VisitGraph
new_visit_graph = []

unfoldable pub is_empty : VisitGraph → Bool
is_empty g = length g == 0

unfoldable pub add_next : ℕ → VisitGraphNode → VisitGraphNode
add_next next n = if next == n.key then n else record n { next = add_key next n.next }

unfoldable pub add_prev : ℕ → VisitGraphNode → VisitGraphNode
add_prev prev n = if prev == n.key then n else record n { prev = add_key prev n.prev }

unfoldable pub visit : VisitGraphNode → VisitGraphNode
visit n = record n { visits = n.visits + 1 }

unfoldable pub new_node : State → VisitGraphNode
new_node s = record { key = s.key; state = s.repr; visits = 0; next = []; prev = [] }

-- A node for the state, if there is none.
unfoldable pub ensure : State → VisitGraph → VisitGraph
unfolding new_node
ensure s g = elim (lookup s.key g) [ none ↦ insert s.key (new_node s) g | some n ↦ g ]

unfoldable pub modify : ℕ → (VisitGraphNode → VisitGraphNode) → VisitGraph → VisitGraph
modify k f [] = []
modify k f ((j, n) ∷ g) = if j == k then (j, f n) ∷ g else (j, n) ∷ modify k f g

-- One round of the loop of `Update`.
unfoldable pub follow : State → State → VisitGraph → VisitGraph
follow cur next g =
    modify next.key (add_prev cur.key)
      (modify cur.key (add_next next.key) (modify cur.key visit (ensure next (ensure cur g))))

-- `trace[len(trace)-1]` panics on an empty trace.
unfoldable pub update : List State → VisitGraph → Outcome VisitGraph
update [] g = panic
update (last ∷ []) g = done (modify last.key visit (ensure last g))
update (cur ∷ next ∷ rest) g = update (next ∷ rest) (follow cur next g)
