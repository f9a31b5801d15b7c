-- ===== src/Fuzzer/Setup/Ending.antt =====
-- When the set-up of a random schedule returns.
use model_guiding_fuzz.Common.{
  >>=-done, All-any, Bool-cases, IsRuntime, List, Random, Returns, Returns-Ensures, Returns-and,
  Returns-bind, Returns-each_inv, Returns-intn, Returns-or_panic, Returns-pure, Returns-weaken,
  Runtime, Total, ap, arith, contains, done, false, get_elem?, get_elem?-lt, inl, inr, intn,
  intn-done, length, pure, suc, true, zero, ℕ, ◌+◌, ◌-◌, ◌<◌, ◌==◌, ◌∙◌, ◌≡◌, ◌≤◌, ◌⊎◌,
}
use model_guiding_fuzz.Types.Sample.{sample, count_up, int_range}
use model_guiding_fuzz.Types.Sample.Picks.{
  sample-All, int_range-All, length-count_up, length-int_range,
}
use model_guiding_fuzz.Types.Sample.Ending.{drawn, Covers, sample-Returns}
use model_guiding_fuzz.Fuzzer.Context.{TraceCtx, new_ctx}
use model_guiding_fuzz.Fuzzer.Setup.{
  FuzzerConfig, fuzzer_nodes, draw_nonzero, draw_link, draw_crash, random_schedule,
}
use model_guiding_fuzz.Fuzzer.Setup.Bounds.{
  IsSchedule, draw_nonzero_bounds, random_schedule-IsSchedule,
}

-- The loops of the set-up end within `k` draws, from wherever they begin: as many draws return
-- every node, and for a sample of some steps every one of these.
pub record IsFair {G : Type 0} (rt : Runtime G) (config : FuzzerConfig) (k : ℕ) : Type 0 where
  pub nodes : (g : G) → Covers rt (config.raft_environment_config.replicas + 1) k g
  pub steps : (n : ℕ) → n ≤ config.steps → (g : G) → Covers rt n k g

-- A configuration that has a node, and allows messages to be delivered.
pub record IsUsable (config : FuzzerConfig) : Type 0 where
  pub some_nodes : 0 < config.raft_environment_config.replicas
  pub some_messages : 0 < config.max_messages

length-nodes :
    (config : FuzzerConfig)
    → length (fuzzer_nodes config) ≡ config.raft_environment_config.replicas + 1
unfolding fuzzer_nodes
length-nodes config = length-int_range (config.raft_environment_config.replicas + 1)

-- The number that was drawn, unless that was 0.
abbrev unless_zero : {G : Type 0} → Random G ℕ → ℕ → Random G ℕ
unless_zero again i = elim (i == 0) [ true ↦ again | false ↦ pure i ]

module _ {G : Type 0} (rt : Runtime G) (ok : IsRuntime rt) where
  draw_nonzero-suc :
      (n k : ℕ) (g : G)
      → 0 < n
      → draw_nonzero rt n (suc k) g
        ≡ unless_zero (draw_nonzero rt n k) (rt.draw n g).0 (rt.draw n g).1
  unfolding draw_nonzero
  draw_nonzero-suc n k g some_left = >>=-done (intn rt n) _ g (intn-done rt n g some_left)

  -- A number other than 0 ends the loop as soon as it is drawn.
  draw_nonzero-done :
      (n k i : ℕ) (g : G)
      → 0 < n
      → 0 < i
      → contains i (drawn rt n k g) ≡ true
      → (j : ℕ) × (g' : G) × (draw_nonzero rt n (suc k) g ≡ done (j, g'))
  unfolding drawn
  draw_nonzero-done n zero i g some_left pos h = absurd (cc)
  draw_nonzero-done n (suc k) i g some_left pos h = elim (Bool-cases ((rt.draw n g).0 == 0)) [
    | inl none_yet ↦
        let (j, g', e) =
          draw_nonzero-done n k i (rt.draw n g).1 some_left pos (ground (arith, h, none_yet)) in
        (j, g', rw (draw_nonzero-suc n (suc k) g some_left, none_yet, unless_zero) e)
    | inr other ↦ (
      (rt.draw n g).0,
      (rt.draw n g).1,
      draw_nonzero-suc n (suc k) g some_left ∙ rw (other, unless_zero),
    )
  ]

module _ {G : Type 0} (rt : Runtime G) (ok : IsRuntime rt) (config : FuzzerConfig) (k : ℕ)
    (fair : IsFair rt config k) (usable : IsUsable config) where
  draw_node-Returns :
      Returns
        (draw_nonzero rt (length (fuzzer_nodes config)) (suc k))
        (λ i. i < length (fuzzer_nodes config))
  draw_node-Returns =
      Returns-weaken (λ i p. p.1)
        (Returns-Ensures ends (draw_nonzero_bounds rt ok config (suc k) _ (suc k)))
    where
      ends : Total (draw_nonzero rt (length (fuzzer_nodes config)) (suc k))
      ends = record {
        result = λ g.
            (let n = length-nodes config in
              let (i, g', e) =
                draw_nonzero-done rt ok _ k 1 g (omega (arith, n)) (omega arith)
                  (rw n (fair.nodes g 1 (omega (arith, usable.some_nodes)))) in
              (i, g', e, tt));
      }

  draw_link-Returns : (i : ℕ) (t : TraceCtx) → Total (draw_link rt config (suc k) i t)
  unfolding draw_link
  draw_link-Returns i t = Returns-bind draw_node-Returns λ a p.
      Returns-bind draw_node-Returns λ b q.
        (let (from, e) = get_elem?-lt (fuzzer_nodes config) a p in
          let (to, e') = get_elem?-lt (fuzzer_nodes config) b q in
          Returns-bind (Returns-or_panic _ from e) λ x _.
            Returns-bind (Returns-or_panic _ to e') λ y _.
              Returns-bind (Returns-intn rt ok config.max_messages usable.some_messages)
                λ n _. Returns-pure _ tt)

  sample-steps :
      (c size : ℕ)
      → Returns
          (sample rt (suc k) (int_range c config.steps) size)
          (λ xs. (size ≤ length xs) ⊎ (xs ≡ int_range c config.steps))
  unfolding int_range
  sample-steps c size =
      let n = length-count_up c (config.steps - c) in
      sample-Returns rt ok (count_up c (config.steps - c)) size k
        (λ g. rw n (fair.steps (config.steps - c) (omega arith) g))

  draw_crash-Returns :
      (c : ℕ) (t : TraceCtx) → c < config.steps → Total (draw_crash rt config (suc k) c t)
  unfolding draw_crash int_range
  draw_crash-Returns c t lt = Returns-bind draw_node-Returns λ index _.
      Returns-bind (sample-steps c 1) λ starts h.
        (let (s, e) = get_elem?-lt starts 0 (some_start starts h) in
          Returns-bind (Returns-or_panic (get_elem? starts 0) s e) λ _ _. Returns-pure _ tt)
    where
      some_start :
          (starts : List ℕ)
          → (1 ≤ length starts) ⊎ (starts ≡ count_up c (config.steps - c))
          → 0 < length starts
      some_start starts (inl h) = h
      some_start starts (inr e) =
          omega (arith, ap (λ (l : List ℕ). length l) e, length-count_up c (config.steps - c))

  -- If the next k draws, from wherever they begin, return every node and every step that a sample
  -- is taken from, the set-up of a random schedule returns one that stays within the
  -- configuration, in at most k rounds of each of its loops. It is asked that the cluster has a
  -- node, and MaxMessages is positive.
  pub random_schedule-Returns :
      Returns (random_schedule rt config (suc k) new_ctx) (IsSchedule config)
  unfolding random_schedule
  random_schedule-Returns =
      Returns-Ensures
        (Returns-bind
          (Returns-each_inv (λ _. Unit) (λ _. Unit) (λ i t _ _. draw_link-Returns i t)
            (int_range 0 config.steps) new_ctx (All-any _) tt)
          λ t₁ _.
            Returns-bind
              (Returns-and (sample-steps 0 config.crash_quota) (
                sample-All rt _ (suc k) (int_range 0 config.steps) config.crash_quota
                  (int_range-All 0 config.steps)))
              λ crashes (below, _).
                Returns-bind
                  (Returns-each_inv _ (λ _. Unit) (λ c t h _. draw_crash-Returns c t h.1) crashes t₁
                    below tt)
                  λ t₂ _.
                    Returns-bind (sample-steps 0 config.number_requests)
                      λ requests _. Returns-pure _ tt)
        (random_schedule-IsSchedule rt ok config (suc k))
