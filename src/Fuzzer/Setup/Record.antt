-- ===== src/Fuzzer/Setup/Record.antt =====
-- Drawing a random schedule records nothing.
use model_guiding_fuzz.Common.{
  Ensures, Ensures-any, Ensures-bind, Ensures-each, Ensures-pure, Random, Runtime, get_elem?, intn,
  length, or_panic, refl, ℕ, ◌∙◌, ◌≡◌,
}
use model_guiding_fuzz.Types.Sample.{int_range, sample}
use model_guiding_fuzz.Fuzzer.Context.{TraceCtx}
use model_guiding_fuzz.Fuzzer.Setup.{
  FuzzerConfig, fuzzer_nodes, draw_nonzero, draw_link, draw_crash, random_schedule,
}

module _ {G : Type 0} (rt : Runtime G) (config : FuzzerConfig) (fuel : ℕ) where
  abbrev Same : TraceCtx → TraceCtx → Type 0
  Same t t' = t'.trace ≡ t.trace

  draw_link-Same : (i : ℕ) (t : TraceCtx) → Ensures (draw_link rt config fuel i t) (Same t)
  unfolding draw_link
  draw_link-Same i t =
      let index = draw_nonzero rt (length (fuzzer_nodes config)) fuel in
      Ensures-bind (Ensures-any index) λ a _. Ensures-bind (Ensures-any index) λ b _.
        Ensures-bind (Ensures-any (or_panic (get_elem? (fuzzer_nodes config) a))) λ from _.
          Ensures-bind (Ensures-any (or_panic (get_elem? (fuzzer_nodes config) b))) λ to _.
            Ensures-bind (Ensures-any (intn rt config.max_messages)) λ m _. Ensures-pure _ refl

  draw_crash-Same : (c : ℕ) (t : TraceCtx) → Ensures (draw_crash rt config fuel c t) (Same t)
  unfolding draw_crash
  draw_crash-Same c t =
      Ensures-bind (Ensures-any (draw_nonzero rt (length (fuzzer_nodes config)) fuel)) λ index _.
        Ensures-bind (Ensures-any (sample rt fuel (int_range c config.steps) 1)) λ starts _.
          Ensures-bind (Ensures-any (or_panic (get_elem? starts 0))) λ s _. Ensures-pure _ refl

  pub random_schedule-Same :
      (t : TraceCtx) → Ensures (random_schedule rt config fuel t) (λ t'. t'.trace ≡ t.trace)
  unfolding random_schedule
  random_schedule-Same t =
      let each_Same =
        λ (f : ℕ → TraceCtx → Random G TraceCtx)
            (h : (i : ℕ) (u : TraceCtx) → Ensures (f i u) (Same u)).
          Ensures-each Same (λ u. refl) (λ u v w p q. q ∙ p) h in
      let steps = int_range 0 config.steps in
      Ensures-bind (each_Same _ draw_link-Same steps t) λ t₁ p.
        Ensures-bind (Ensures-any (sample rt fuel steps config.crash_quota)) λ crashes _.
          Ensures-bind (each_Same _ draw_crash-Same crashes t₁) λ t₂ q.
            Ensures-bind (Ensures-any (sample rt fuel steps config.number_requests))
              λ rs _. Ensures-pure _ (q ∙ p)
