-- ===== src/Fuzzer/Setup/Bounds.antt =====
-- The random schedule stays within the configuration.
use model_guiding_fuzz.Common.{
  All, All-append, All-get_elem?, All-insert, All-map, Bool-cases, Ensures, Ensures-bind,
  Ensures-each_inv, Ensures-intn, Ensures-or_panic, Ensures-pure, Ensures-weaken, IsRuntime, List,
  Runtime, [], ap, arith, each, get_elem?, inl, inr, insert, length, length-append, refl, some, suc,
  zero, ℕ, ◌+◌, ◌-◌, ◌<◌, ◌==◌, ◌∙◌, ◌∷◌, ◌≡◌, ◌≤◌,
}
use model_guiding_fuzz.Types.Choice.{SchedulingChoice, ChoiceType}
use model_guiding_fuzz.Types.Queue.{Queue, push, new_queue}
use model_guiding_fuzz.Types.Sample.{count_up, int_range}
use model_guiding_fuzz.Types.Sample.Picks.{length-count_up, sample-All, int_range-All}
use model_guiding_fuzz.Fuzzer.Context.{TraceCtx, new_ctx}
use model_guiding_fuzz.Fuzzer.Setup.{
  FuzzerConfig, fuzzer_nodes, draw_nonzero, draw_link, draw_crash, place_requests, random_schedule,
}

-- A node other than 0, which is not part of the cluster.
abbrev pub IsReplica : FuzzerConfig → ℕ → Type 0
IsReplica config n = (1 ≤ n) × (n ≤ config.raft_environment_config.replicas)

abbrev pub IsLink : FuzzerConfig → SchedulingChoice → Type 0
IsLink config c =
    (c.type ≡ ChoiceType.node)
    × (c.node ≡ 0)
    × IsReplica config c.from
    × IsReplica config c.to
    × (c.max_messages < config.max_messages)

-- A node that stops or starts at a step.
abbrev pub IsPoint : FuzzerConfig → ℕ × ℕ → Type 0
IsPoint config (step, n) = (step < config.steps) × IsReplica config n

abbrev pub IsRequest : FuzzerConfig → ℕ × ℕ → Type 0
IsRequest config (step, i) = (step < config.steps) × (1 ≤ i)

pub record IsSchedule (config : FuzzerConfig) (t : TraceCtx) : Type 0 where
  pub links : All (IsLink config) t.node_choices.q
  pub count : length t.node_choices.q ≡ config.steps
  pub crashes : All (IsPoint config) t.crash_points
  pub starts : All (IsPoint config) t.start_points
  pub requests : All (IsRequest config) t.client_requests

get_elem?-count_up : (i n k x : ℕ) → get_elem? (count_up i n) k ≡ some x → x ≡ i + k
unfolding count_up
get_elem?-count_up i zero k x h = absurd (cc)
get_elem?-count_up i (suc n) zero x h = ground (arith, h)
get_elem?-count_up i (suc n) (suc k) x h = omega (arith, get_elem?-count_up (i + 1) n k x h)

node-IsReplica :
    (config : FuzzerConfig) (i x : ℕ)
    → get_elem? (fuzzer_nodes config) i ≡ some x
    → 0 < i
    → i < length (fuzzer_nodes config)
    → IsReplica config x
unfolding fuzzer_nodes int_range
node-IsReplica config i x h pos lt =
    let n = config.raft_environment_config.replicas in
    omega (arith, get_elem?-count_up 0 (n + 1 - 0) i x h, length-count_up 0 (n + 1 - 0))

index_IsReplica :
    (config : FuzzerConfig) (i : ℕ)
    → (0 < i) × (i < length (fuzzer_nodes config))
    → IsReplica config i
unfolding fuzzer_nodes int_range
index_IsReplica config i h =
    let n = config.raft_environment_config.replicas in
    omega (arith, length-count_up 0 (n + 1 - 0), h.0, h.1)

module _ {G : Type 0} (rt : Runtime G) (ok : IsRuntime rt) (config : FuzzerConfig) (fuel : ℕ) where
  pub draw_nonzero_bounds : (n k : ℕ) → Ensures (draw_nonzero rt n k) (λ i. (0 < i) × (i < n))
  unfolding draw_nonzero
  draw_nonzero_bounds n zero = record { returns = λ g a g' e. absurd (cc) }
  draw_nonzero_bounds n (suc k) = Ensures-bind (Ensures-intn rt ok n) λ i below.
      elim (Bool-cases (i == 0)) [
        | inl zero_drawn ↦ rw zero_drawn (draw_nonzero_bounds n k)
        | inr other ↦ rw other (Ensures-pure i (ground arith, below))
      ]

  index_bounds :
      (i x : ℕ)
      → (0 < i) × (i < length (fuzzer_nodes config))
      → get_elem? (fuzzer_nodes config) i ≡ some x
      → IsReplica config x
  index_bounds i x h e = node-IsReplica config i x e h.0 h.1

  -- What the loop over the steps has built so far.
  abbrev HasLinks : ℕ → TraceCtx → TraceCtx → Type 0
  HasLinks n t t' =
      All (IsLink config) t'.node_choices.q
      × (length t'.node_choices.q ≡ length t.node_choices.q + n)
      × (t'.crash_points ≡ t.crash_points)
      × (t'.start_points ≡ t.start_points)
      × (t'.client_requests ≡ t.client_requests)

  draw_link-HasLinks :
      (i : ℕ) (t : TraceCtx)
      → All (IsLink config) t.node_choices.q
      → Ensures (draw_link rt config fuel i t) (HasLinks 1 t)
  unfolding draw_link push
  draw_link-HasLinks i t h =
      let n = length (fuzzer_nodes config) in
      Ensures-bind (draw_nonzero_bounds n fuel) λ a p.
        Ensures-bind (draw_nonzero_bounds n fuel) λ b q.
          Ensures-bind
            (Ensures-or_panic (get_elem? (fuzzer_nodes config) a) (λ x e. index_bounds a x p e))
            λ from r.
              Ensures-bind
                (Ensures-or_panic (get_elem? (fuzzer_nodes config) b) (λ x e. index_bounds b x q e))
                λ to s. Ensures-bind (Ensures-intn rt ok config.max_messages) λ m lt.
                  Ensures-pure _ (
                    All-append (IsLink config) t.node_choices.q _ h ((refl, refl, r, s, lt), tt),
                    length-append t.node_choices.q _,
                    refl,
                    refl,
                    refl,
                  )

  draw_links-HasLinks :
      (xs : List ℕ) (t : TraceCtx)
      → All (IsLink config) t.node_choices.q
      → Ensures (each (draw_link rt config fuel) xs t) (HasLinks (length xs) t)
  draw_links-HasLinks [] t h = Ensures-pure t (h, omega arith, refl, refl, refl)
  draw_links-HasLinks (x ∷ xs) t h = Ensures-bind (draw_link-HasLinks x t h) λ t₁ p.
      Ensures-weaken (λ t₂ q. (q.0, omega (arith, p.1, q.1), q.2 ∙ p.2, q.3 ∙ p.3, q.4 ∙ p.4))
        (draw_links-HasLinks xs t₁ p.0)

  -- The crash and start points of a context, and the rest of it left alone.
  abbrev HasPoints : TraceCtx → TraceCtx → Type 0
  HasPoints t t' =
      All (IsPoint config) t'.crash_points
      × All (IsPoint config) t'.start_points
      × (t'.node_choices ≡ t.node_choices)
      × (t'.client_requests ≡ t.client_requests)

  draw_crash-HasPoints :
      (t : TraceCtx) (c : ℕ) (t₁ : TraceCtx)
      → c < config.steps
      → HasPoints t t₁
      → Ensures (draw_crash rt config fuel c t₁) (HasPoints t)
  unfolding draw_crash
  draw_crash-HasPoints t c t₁ lt h =
      Ensures-bind (draw_nonzero_bounds (length (fuzzer_nodes config)) fuel) λ index p.
        Ensures-bind
          (sample-All rt _ fuel (int_range c config.steps) 1 (int_range-All c config.steps))
          λ starts q.
            Ensures-bind
              (Ensures-or_panic (get_elem? starts 0) (λ s e. All-get_elem? _ starts 0 s q e))
              λ s r.
                let n = index_IsReplica config index p in
                Ensures-pure _ (
                  All-insert (IsPoint config) c index t₁.crash_points h.0 (lt, n),
                  All-insert (IsPoint config) s index t₁.start_points h.1 (r.1, n),
                  h.2,
                  h.3,
                )

  place_requests-All :
      (xs : List ℕ) (i : ℕ) (m : List (ℕ × ℕ))
      → All (λ s. s < config.steps) xs
      → 1 ≤ i
      → All (IsRequest config) m
      → All (IsRequest config) (place_requests xs i m)
  unfolding place_requests
  place_requests-All [] i m h pos k = k
  place_requests-All (x ∷ xs) i m h pos k =
      place_requests-All xs (i + 1) (insert x i m) h.1 (omega arith)
        (All-insert (IsRequest config) x i m k (h.0, pos))

  -- With a random source that keeps to its bounds, if the set-up of a random schedule returns, it
  -- has one link for each step, between nodes of the cluster, with a limit below MaxMessages; it
  -- crashes and starts nodes of the cluster only, at steps of the run, and makes its requests,
  -- numbered from 1, at steps of the run.
  pub random_schedule-IsSchedule :
      Ensures (random_schedule rt config fuel new_ctx) (IsSchedule config)
  unfolding random_schedule new_ctx new_queue int_range
  random_schedule-IsSchedule =
      let steps = int_range 0 config.steps in
      let below : All (λ s. s < config.steps) steps =
        All-map _ _ steps (λ k h. h.1) (int_range-All 0 config.steps) in
      Ensures-bind (draw_links-HasLinks steps new_ctx tt) λ t₁ p.
        Ensures-bind (sample-All rt _ fuel steps config.crash_quota below) λ crashes q.
          Ensures-bind
            (Ensures-each_inv (λ s. s < config.steps) (HasPoints t₁)
              (λ c t₂. draw_crash-HasPoints t₁ c t₂) crashes t₁ q
              (rw (p.2) tt, rw (p.3) tt, refl, refl))
            λ t₂ r. Ensures-bind (sample-All rt _ fuel steps config.number_requests below) λ rs s.
              Ensures-pure _ (record {
                links = rw (r.2) (p.0);
                count = omega (
                  arith,
                  ap (λ (c : Queue SchedulingChoice). length c.q) (r.2),
                  p.1,
                  length-count_up 0 (config.steps - 0),
                );
                crashes = r.0;
                starts = r.1;
                requests =
                    place_requests-All rs 1 t₂.client_requests s (omega arith) (rw (r.3, p.4) tt);
              })
