-- ===== src/Fuzzer/Context/Legal.antt =====
-- Contexts whose choices name nodes that there are, and keep to the limit on messages.
use model_guiding_fuzz.Common.{
  All, All-append, All-get_elem?, All-insert, Bool-cases, Ensures, Ensures-any, Ensures-bind,
  Ensures-intn, Ensures-or_panic, Ensures-pure, IsRuntime, List, Option, Runtime, [], arith,
  get_elem?, inl, inr, intn, length, lookup, none, refl, some, subst, ℕ, ◌++◌, ◌==◌, ◌∷◌, ◌≡◌, ◌≤◌,
}
use model_guiding_fuzz.Types.Choice.{
  SchedulingChoice, ChoiceType, random_boolean, random_integer, start_node, stop_node,
  client_request, Trace, copy, copy_lem,
}
use model_guiding_fuzz.Types.Queue.{push, pop}
use model_guiding_fuzz.Fuzzer.Context.{
  TraceCtx, can_crash, can_start, is_client_request, get_next_node_choice, add_choice, link_choice,
  link_of, random_link, take_or, record_point, new_ctx,
}
use model_guiding_fuzz.Fuzzer.Context.Load.{load, load_list, load_typed}

-- Nodes up to `replicas`, and at most `most` messages.
abbrev pub IsLegal : ℕ → ℕ → SchedulingChoice → Type 0
IsLegal replicas most c =
    (c.node ≤ replicas) × (c.from ≤ replicas) × (c.to ≤ replicas) × (c.max_messages ≤ most)

module _ (replicas most : ℕ) where
  -- The choices that are recorded, and those that are still to be made, are legal.
  pub record IsLegalCtx (t : TraceCtx) : Type 0 where
    pub recorded : All (IsLegal replicas most) t.trace.l
    pub links : All (IsLegal replicas most) t.node_choices.q
    pub crashes : All (λ p. p.1 ≤ replicas) t.crash_points
    pub starts : All (λ p. p.1 ≤ replicas) t.start_points

  record_legal :
      (t t' : TraceCtx) (c : SchedulingChoice)
      → IsLegalCtx t
      → IsLegal replicas most c
      → t'.trace.l ≡ t.trace.l ++ c ∷ []
      → All (IsLegal replicas most) t'.node_choices.q
      → t'.crash_points ≡ t.crash_points
      → t'.start_points ≡ t.start_points
      → IsLegalCtx t'
  record_legal t t' c h p e links e₁ e₂ = record {
    recorded = rw e (All-append _ t.trace.l (c ∷ []) h.recorded (p, tt));
    links = links;
    crashes = rw e₁ h.crashes;
    starts = rw e₂ h.starts;
  }

  lookup-le :
      (k : ℕ) (m : List (ℕ × ℕ)) (v : ℕ)
      → All (λ p. p.1 ≤ replicas) m
      → lookup k m ≡ some v
      → v ≤ replicas
  lookup-le k [] v h e = absurd (cc)
  lookup-le k ((j, w) ∷ m) v h e = elim (Bool-cases (j == k)) [
    | inl same ↦ let here : w ≡ v = ground (arith, e, same) in subst (λ x. x ≤ replicas) here h.0
    | inr other ↦ lookup-le k m v h.1 (ground (arith, e, other))
  ]

  legal_option :
      (o : Option ℕ) (f : ℕ → TraceCtx) (t : TraceCtx)
      → IsLegalCtx t
      → ((n : ℕ) → o ≡ some n → IsLegalCtx (f n))
      → IsLegalCtx
          (elim o as (λ _. Option ℕ × TraceCtx) [ none ↦ (none, t) | some n ↦ (some n, f n) ]).1
  legal_option none f t h k = h
  legal_option (some n) f t h k = k n refl

  pub can_crash-IsLegalCtx : (j : ℕ) (t : TraceCtx) → IsLegalCtx t → IsLegalCtx (can_crash j t).1
  unfolding can_crash record_point
  can_crash-IsLegalCtx j t h = legal_option (lookup j t.crash_points) _ t h λ n e.
      record_legal t _ _ h
        (lookup-le j t.crash_points n h.crashes e, omega arith, omega arith, omega arith) refl
        h.links refl refl

  pub can_start-IsLegalCtx : (j : ℕ) (t : TraceCtx) → IsLegalCtx t → IsLegalCtx (can_start j t).1
  unfolding can_start record_point
  can_start-IsLegalCtx j t h = legal_option (lookup j t.start_points) _ t h λ n e.
      record_legal t _ _ h
        (lookup-le j t.start_points n h.starts e, omega arith, omega arith, omega arith) refl
        h.links refl refl

  pub is_client_request-IsLegalCtx :
      (j : ℕ) (t : TraceCtx) → IsLegalCtx t → IsLegalCtx (is_client_request j t).1
  unfolding is_client_request add_choice
  is_client_request-IsLegalCtx j t h = legal_option (lookup j t.client_requests) _ t h λ n e.
      record_legal t _ _ h (omega arith, omega arith, omega arith, omega arith) refl h.links refl
        refl

  same :
      (t t' : TraceCtx)
      → IsLegalCtx t
      → t'.trace ≡ t.trace
      → t'.node_choices ≡ t.node_choices
      → t'.crash_points ≡ t.crash_points
      → t'.start_points ≡ t.start_points
      → IsLegalCtx t'
  same t t' h e₁ e₂ e₃ e₄ = record {
    recorded = rw e₁ h.recorded;
    links = rw e₂ h.links;
    crashes = rw e₃ h.crashes;
    starts = rw e₄ h.starts;
  }

  pub load-IsLegalCtx :
      (mimic : Trace) → All (IsLegal replicas most) mimic.l → IsLegalCtx (load mimic new_ctx)
  unfolding load load_list load_typed new_ctx push
  load-IsLegalCtx mimic h =
      list mimic.l _ h (record { recorded = tt; links = tt; crashes = tt; starts = tt })
    where
      one :
          (type : ChoiceType) (c : SchedulingChoice) (t : TraceCtx)
          → IsLegal replicas most c
          → IsLegalCtx t
          → IsLegalCtx (load_typed type c t)
      one ChoiceType.node c t p h = record {
        recorded = h.recorded;
        links = All-append _ t.node_choices.q (copy c ∷ []) h.links (rw (copy_lem c) p, tt);
        crashes = h.crashes;
        starts = h.starts;
      }
      one random_boolean c t p h = same t _ h refl refl refl refl
      one random_integer c t p h = same t _ h refl refl refl refl
      one start_node c t p h = record {
        recorded = h.recorded;
        links = h.links;
        crashes = h.crashes;
        starts = All-insert (λ q. q.1 ≤ replicas) c.step c.node t.start_points h.starts p.0;
      }
      one stop_node c t p h = record {
        recorded = h.recorded;
        links = h.links;
        crashes = All-insert (λ q. q.1 ≤ replicas) c.step c.node t.crash_points h.crashes p.0;
        starts = h.starts;
      }
      one client_request c t p h = same t _ h refl refl refl refl

      list :
          (cs : List SchedulingChoice) (t : TraceCtx)
          → All (IsLegal replicas most) cs
          → IsLegalCtx t
          → IsLegalCtx (load_list cs t)
      list [] t h k = k
      list (c ∷ cs) t h k = list cs (load_typed c.type c t) h.1 (one c.type c t h.0 k)

  module _ {G : Type 0} (rt : Runtime G) (ok : IsRuntime rt) where
    random_link-legal :
        (nodes : List ℕ)
        → All (λ x. x ≤ replicas) nodes
        → Ensures (random_link rt nodes most) (λ l. IsLegal replicas most (link_choice l))
    unfolding random_link link_choice
    random_link-legal nodes h =
        let found = λ (i x : ℕ) (e : get_elem? nodes i ≡ some x).
          All-get_elem? (λ x. x ≤ replicas) nodes i x h e in
        Ensures-bind (Ensures-any (intn rt (length nodes))) λ i _.
          Ensures-bind (Ensures-any (intn rt (length nodes))) λ j _.
            Ensures-bind (Ensures-or_panic (get_elem? nodes i) (found i)) λ from p.
              Ensures-bind (Ensures-or_panic (get_elem? nodes j) (found j)) λ to q.
                Ensures-bind (Ensures-intn rt ok most)
                  λ n lt. Ensures-pure _ (omega arith, p, q, omega (arith, lt))

    -- A link that comes from the queue is legal as its entries are, a random one as its draw is.
    pub get_next_node_choice-IsLegalCtx :
        (nodes : List ℕ) (t : TraceCtx)
        → All (λ x. x ≤ replicas) nodes
        → IsLegalCtx t
        → Ensures (get_next_node_choice rt nodes most t) (λ r. IsLegalCtx r.1)
    unfolding get_next_node_choice take_or pop link_of add_choice link_choice
    get_next_node_choice-IsLegalCtx nodes t ns h =
        Ensures-bind (taken t.node_choices.q h.links)
          λ (l, rest) (p, q). Ensures-pure _ (record_legal t _ _ h p refl q refl refl)
      where
        taken :
            (cs : List SchedulingChoice)
            → All (IsLegal replicas most) cs
            → Ensures
                (take_or rt link_of (pop (record { q = cs })) (random_link rt nodes most))
                (λ r. IsLegal replicas most (link_choice r.0) × All (IsLegal replicas most) r.1.q)
        taken [] k = Ensures-bind (random_link-legal nodes ns) λ l p. Ensures-pure _ (p, tt)
        taken (c ∷ cs) k = Ensures-pure _ ((omega arith, k.0.1, k.0.2, k.0.3), k.1)
