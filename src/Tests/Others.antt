-- ===== src/Tests/Others.antt =====
-- The theorems on the visit graph and the strategies, at concrete inputs.
use model_guiding_fuzz.Common.{
  List, Outcome, [], arith, done, refl, some, ℕ, ◌%◌, ◌+◌, ◌<◌, ◌||◌, ◌∷◌, ◌≡◌,
}
use model_guiding_fuzz.Types.State.{State}
use model_guiding_fuzz.VisitGraph.{
  VisitGraph, new_visit_graph, update, follow, ensure, visit, modify, add_next, add_prev,
}
use model_guiding_fuzz.VisitGraph.Lookups.{IsKeyed, visits_of, edge, back_edge}
use model_guiding_fuzz.VisitGraph.Update.{
  count_visits, goes, new, updated, IsSymmetric, visits_of-update, edge-update, Built-IsSymmetric,
}
use model_guiding_fuzz.Strategy.{RoundRobin, round_robin_next_node}
use model_guiding_fuzz.Strategy.Turns.{IsFirst, round_robin_next_node-IsFirst}

abbrev visit_trace : List State
visit_trace =
    record { repr = "a"; key = 5 }
    ∷ record { repr = "b"; key = 6 }
    ∷ record { repr = "b"; key = 6 }
    ∷ record { repr = "a"; key = 5 }
    ∷ []

runs : Unit {0}
unfolding update follow ensure visit modify add_next add_prev new_visit_graph
runs = tt

graph_of : Outcome VisitGraph → VisitGraph
graph_of (done g) = g
graph_of _ = []

abbrev visited : VisitGraph
visited = graph_of (update visit_trace new_visit_graph)

update_done : update visit_trace new_visit_graph ≡ done visited
unfolding runs graph_of
update_done = refl

visits_of-update_example :
    visits_of visited 6 ≡ visits_of new_visit_graph 6 + count_visits 6 visit_trace
visits_of-update_example = visits_of-update visit_trace new_visit_graph visited 6 update_done

new-IsKeyed : IsKeyed new_visit_graph
unfolding new_visit_graph
new-IsKeyed k n e = absurd (cc)

edge-update_example :
    (edge visited 5 6 ≡ (edge new_visit_graph 5 6 || goes 5 6 visit_trace))
    × (back_edge visited 6 5 ≡ (back_edge new_visit_graph 6 5 || goes 5 6 visit_trace))
    × IsKeyed visited
edge-update_example = edge-update visit_trace new_visit_graph visited 5 6 new-IsKeyed update_done

Built-IsSymmetric_example : IsSymmetric visited
Built-IsSymmetric_example = Built-IsSymmetric (updated visit_trace visited new update_done)

abbrev turns : RoundRobin
turns = record { num_nodes = 4; cur_node = 3 }

round_robin_next_node-IsFirst_example :
    (n : ℕ) × (r' : RoundRobin) × (round_robin_next_node 4 (1 ∷ 2 ∷ []) turns ≡ some (n, r'))
    × IsFirst (1 ∷ 2 ∷ []) 4 3 n
    × (r'.num_nodes ≡ 4)
    × (r'.cur_node ≡ (n + 1) % 4)
    × (r'.cur_node < 4)
round_robin_next_node-IsFirst_example =
    round_robin_next_node-IsFirst (1 ∷ 2 ∷ []) turns 1 (omega arith) refl (omega arith)
