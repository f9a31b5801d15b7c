-- ===== src/VisitGraph/Update.antt =====
-- What `Update` adds to the graph for a whole trace.
use model_guiding_fuzz.Common.{
  Bool, List, [], ap, arith, done, false, if◌then◌else◌, inl, inr, not, panic, refl, sym, ℕ, ◌&&◌,
  ◌+◌, ◌==◌, ◌||◌, ◌∙◌, ◌∷◌, ◌≡◌, ◌⊎◌,
}
use model_guiding_fuzz.Types.State.{State}
use model_guiding_fuzz.VisitGraph.{
  VisitGraph, VisitGraphNode, new_visit_graph, add_next, add_prev, visit, ensure, modify, follow,
  update,
}
use model_guiding_fuzz.VisitGraph.Lookups.{
  IsKeyed, HasKey, visits_of, edge, back_edge, visits_of-ensure, edge-ensure, back_edge-ensure,
  ensure-IsKeyed, ensure-HasKey, HasKey-ensure, modify-IsKeyed, HasKey-modify, visits_of-visit,
  edge-add_next, back_edge-add_prev, visits_of-add_next, visits_of-add_prev, edge-visit,
  back_edge-visit, edge-add_prev, back_edge-add_next,
}

-- How often a trace visits a state.
unfoldable pub count_visits : ℕ → List State → ℕ
count_visits k [] = 0
count_visits k (s ∷ ss) = (if s.key == k then 1 else 0) + count_visits k ss

-- Whether a trace goes from one state straight to another.
unfoldable pub goes : ℕ → ℕ → List State → Bool
goes i j (s ∷ t ∷ ss) = (s.key == i && (t.key == j && not (s.key == t.key))) || goes i j (t ∷ ss)
goes i j _ = false

module _ (cur next : State) (g : VisitGraph) where
  abbrev both : VisitGraph
  both = ensure next (ensure cur g)

  abbrev visited : VisitGraph
  visited = modify cur.key visit both

  abbrev linked : VisitGraph
  linked = modify cur.key (add_next next.key) visited

  both-HasKey_cur : HasKey cur.key both
  both-HasKey_cur = HasKey-ensure next (ensure cur g) cur.key (ensure-HasKey cur g)

  visited-HasKey_cur : HasKey cur.key visited
  visited-HasKey_cur = HasKey-modify cur.key visit both cur.key both-HasKey_cur

  linked-HasKey_next : HasKey next.key linked
  linked-HasKey_next =
      HasKey-modify cur.key (add_next next.key) visited next.key
        (HasKey-modify cur.key visit both next.key (ensure-HasKey next (ensure cur g)))

  visits_of-follow :
      (k : ℕ) → visits_of (follow cur next g) k ≡ visits_of g k + (if cur.key == k then 1 else 0)
  unfolding follow
  visits_of-follow k =
      let (n, e) = both-HasKey_cur in
      visits_of-add_prev next.key cur.key linked k
      ∙ visits_of-add_next cur.key next.key visited k
      ∙ visits_of-visit cur.key both n e k
      ∙ ap (λ v. v + (if cur.key == k then 1 else 0))
          (visits_of-ensure next (ensure cur g) k ∙ visits_of-ensure cur g k)

  visited-IsKeyed : IsKeyed g → IsKeyed visited
  unfolding visit
  visited-IsKeyed h =
      modify-IsKeyed cur.key visit both (λ n. refl)
        (ensure-IsKeyed next (ensure cur g) (ensure-IsKeyed cur g h))

  linked-IsKeyed : IsKeyed g → IsKeyed linked
  unfolding add_next
  linked-IsKeyed h =
      modify-IsKeyed cur.key (add_next next.key) visited (λ n. ground arith) (visited-IsKeyed h)

  follow-IsKeyed : IsKeyed g → IsKeyed (follow cur next g)
  unfolding follow add_prev
  follow-IsKeyed h =
      modify-IsKeyed next.key (add_prev cur.key) linked (λ n. ground arith) (linked-IsKeyed h)

  edge-follow :
      (i j : ℕ)
      → IsKeyed g
      → edge (follow cur next g) i j
        ≡ (edge g i j || (cur.key == i && (next.key == j && not (cur.key == next.key))))
  unfolding follow
  edge-follow i j h =
      let (n, e) = visited-HasKey_cur in
      edge-add_prev next.key cur.key linked i j
      ∙ edge-add_next cur.key visited n e next.key (visited-IsKeyed h cur.key n e) i j
      ∙ ap (λ b. b || (cur.key == i && (next.key == j && not (cur.key == next.key))))
          (edge-visit cur.key next.key both i j
            ∙ edge-ensure next (ensure cur g) i j
            ∙ edge-ensure cur g i j)

  back_edge-follow :
      (i j : ℕ)
      → IsKeyed g
      → back_edge (follow cur next g) j i
        ≡ (back_edge g j i || (cur.key == i && (next.key == j && not (cur.key == next.key))))
  unfolding follow
  back_edge-follow i j h =
      let (n, e) = linked-HasKey_next in
      let old : back_edge linked j i ≡ back_edge g j i =
        back_edge-add_next cur.key next.key visited i j
        ∙ back_edge-visit cur.key next.key both i j
        ∙ back_edge-ensure next (ensure cur g) i j
        ∙ back_edge-ensure cur g i j in
      ground (
        arith,
        old,
        back_edge-add_prev next.key linked n e cur.key (linked-IsKeyed h next.key n e) i j,
      )

visit-key : (n : VisitGraphNode) → (visit n).key ≡ n.key
unfolding visit
visit-key n = refl

-- Update panics on an empty trace, and returns on every other.
update_total :
    (trace : List State) (g : VisitGraph)
    → ((trace ≡ []) × (update trace g ≡ panic)) ⊎ ((g' : VisitGraph) × (update trace g ≡ done g'))
unfolding update
update_total [] g = inl (refl, refl)
update_total (last ∷ []) g = inr (_, refl)
update_total (cur ∷ next ∷ rest) g = elim (update_total (next ∷ rest) (follow cur next g)) [
  | inl (e, _) ↦ absurd (cc)
  | inr r ↦ inr r
]

-- Where Update returns, it has counted each state as often as the trace visits it, and no other.
pub visits_of-update :
    (trace : List State) (g g' : VisitGraph) (k : ℕ)
    → update trace g ≡ done g'
    → visits_of g' k ≡ visits_of g k + count_visits k trace
unfolding update count_visits
visits_of-update [] g g' k e = absurd (cc)
visits_of-update (last ∷ []) g g' k e =
    let (n, found) = ensure-HasKey last g in
    let same : modify last.key visit (ensure last g) ≡ g' = cc in
    ap (λ h. visits_of h k) (sym same)
    ∙ visits_of-visit last.key (ensure last g) n found k
    ∙ omega (arith, visits_of-ensure last g k)
visits_of-update (cur ∷ next ∷ rest) g g' k e = omega (
  arith,
  visits_of-follow cur next g k,
  visits_of-update (next ∷ rest) (follow cur next g) g' k e,
)

-- Where Update returns on a graph whose nodes stand under their own keys, the successors of a
-- state are those that it had and the other states that the trace goes to from it, the
-- predecessors likewise, and nodes still stand under their own keys.
pub edge-update :
    (trace : List State) (g g' : VisitGraph) (i j : ℕ)
    → IsKeyed g
    → update trace g ≡ done g'
    → (edge g' i j ≡ (edge g i j || goes i j trace))
      × (back_edge g' j i ≡ (back_edge g j i || goes i j trace))
      × IsKeyed g'
unfolding update goes
edge-update [] g g' i j h e = absurd (cc)
edge-update (last ∷ []) g g' i j h e =
    let same : modify last.key visit (ensure last g) ≡ g' = cc in
    (
      rw (← same)
          (ground (arith, edge-visit last.key 0 (ensure last g) i j, edge-ensure last g i j)),
      rw (← same) (
          ground
            (arith, back_edge-visit last.key 0 (ensure last g) i j, back_edge-ensure last g i j)),
      rw (← same) (
          modify-IsKeyed last.key visit (ensure last g) (λ n. visit-key n)
            (ensure-IsKeyed last g h)),
    )
edge-update (cur ∷ next ∷ rest) g g' i j h e =
    let (a, b, keyed) =
      edge-update (next ∷ rest) (follow cur next g) g' i j (follow-IsKeyed cur next g h) e in
    (
      ground (arith, a, edge-follow cur next g i j h),
      ground (arith, b, back_edge-follow cur next g i j h),
      keyed,
    )

-- Any number of updates of a new graph keep it symmetric: `j` is a successor of `i` exactly if `i`
-- is a predecessor of `j`, and no state is its own successor.
pub data Built : VisitGraph → Type 0 where
  new : Built new_visit_graph
  updated :
      {g : VisitGraph} (trace : List State) (g' : VisitGraph)
      → Built g
      → update trace g ≡ done g'
      → Built g'

goes_self : (i : ℕ) (trace : List State) → goes i i trace ≡ false
unfolding goes
goes_self i [] = refl
goes_self i (s ∷ []) = refl
goes_self i (s ∷ t ∷ ss) = ground (arith, goes_self i (t ∷ ss))

pub record IsSymmetric (g : VisitGraph) : Type 0 where
  pub keyed : IsKeyed g
  pub mirrored : (i j : ℕ) → edge g i j ≡ back_edge g j i
  pub irreflexive : (i : ℕ) → edge g i i ≡ false

-- In a graph that is built from a new one by updates, j is a successor of i exactly if i is a
-- predecessor of j, no state is its own successor, and each node stands under its own key.
pub Built-IsSymmetric : {g : VisitGraph} → Built g → IsSymmetric g
unfolding new_visit_graph
Built-IsSymmetric new = record {
  keyed = λ k n e. absurd (cc);
  mirrored = λ i j. refl;
  irreflexive = λ i. refl;
}
Built-IsSymmetric (updated {g} trace g' b e) =
    let s = Built-IsSymmetric b in
    let at = λ (i j : ℕ). edge-update trace g g' i j s.keyed e in
    record {
      keyed = (at 0 0).2;
      mirrored =
          λ i j. (at i j).0 ∙ ap (λ x. x || goes i j trace) (s.mirrored i j) ∙ sym (at i j).1;
      irreflexive = λ i. ground (arith, (at i i).0, s.irreflexive i, goes_self i trace);
    }
