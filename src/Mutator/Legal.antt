-- ===== src/Mutator/Legal.antt =====
-- Mutators that keep schedules legal: those that reorder choices, or values of their fields.
use model_guiding_fuzz.Common.{
  All, All-Perm, Ensures, Ensures-bind, Ensures-pure, Given, List, Option, Random, Runtime, [],
  arith, done, map, none, some, ℕ, ◌∷◌, ◌≡◌, ◌≤◌,
}
use native.Mathlib.Bridge.{le_prop}
use model_guiding_fuzz.Types.Choice.{SchedulingChoice, Trace, copy_trace-default}
use model_guiding_fuzz.Types.Event.{EventTrace}
use model_guiding_fuzz.Mutator.Indices.{Mutator}
use model_guiding_fuzz.Mutator.Combined.{then_rest, mutate_all, combined_mutate}
use model_guiding_fuzz.Mutator.Swap.{swap_mutate}
use model_guiding_fuzz.Mutator.Swap.Order.{swap_mutate-perm}
use model_guiding_fuzz.Mutator.Exchange.{
  Field, crash_node, max_messages, swap_crash_mutate, swap_max_mutate,
}
use model_guiding_fuzz.Mutator.Exchange.Effect.{
  Exchanged, value, blank, swap_crash_mutate-Exchanged, swap_max_mutate-Exchanged,
}
use model_guiding_fuzz.Fuzzer.Context.Legal.{IsLegal}

module _ (replicas most : ℕ) where
  abbrev pub AllLegal : Trace → Type 0
  AllLegal t = All (IsLegal replicas most) t.l

  -- From a legal schedule the mutator makes legal ones only.
  pub record IsLawful {G : Type 0} (mutator : Mutator G) : Type 0 where
    pub keeps :
        (trace : Trace) (events : EventTrace)
        → AllLegal trace
        → Ensures (mutator trace events) (Given AllLegal)

  limit : Field → ℕ
  limit crash_node = replicas
  limit max_messages = most

  map-All :
      (P : SchedulingChoice → Type 0) (f : SchedulingChoice → SchedulingChoice)
      (cs : List SchedulingChoice)
      → ((c : SchedulingChoice) → P c → P (f c))
      → All P cs
      → All P (map f cs)
  map-All P f [] k h = tt
  map-All P f (c ∷ cs) k h = (k c h.0, map-All P f cs k h.1)

  legal-blank :
      (f : Field) (c : SchedulingChoice)
      → IsLegal replicas most c
      → IsLegal replicas most (blank f c)
  legal-blank crash_node c h = (omega arith, h.1, h.2, h.3)
  legal-blank max_messages c h = (h.0, h.1, h.2, omega arith)

  value-le : (f : Field) (c : SchedulingChoice) → IsLegal replicas most c → value f c ≤ limit f
  unfolding limit
  value-le crash_node c h = h.0
  value-le max_messages c h = h.3

  legal-value :
      (f : Field) (c : SchedulingChoice)
      → IsLegal replicas most (blank f c)
      → value f c ≤ limit f
      → IsLegal replicas most c
  unfolding limit
  legal-value crash_node c h le = (le, h.1, h.2, h.3)
  legal-value max_messages c h le = (h.0, h.1, h.2, le)

  values-le :
      (f : Field) (cs : List SchedulingChoice)
      → All (IsLegal replicas most) cs
      → All (λ v. v ≤ limit f) (map (value f) cs)
  values-le f [] h = tt
  values-le f (c ∷ cs) h = (value-le f c h.0, values-le f cs h.1)

  legal-values :
      (f : Field) (cs : List SchedulingChoice)
      → All (IsLegal replicas most) (map (blank f) cs)
      → All (λ v. v ≤ limit f) (map (value f) cs)
      → All (IsLegal replicas most) cs
  legal-values f [] h k = tt
  legal-values f (c ∷ cs) h k = (legal-value f c h.0 k.0, legal-values f cs h.1 k.1)

  legal-Exchanged :
      (f : Field) (cs ds : List SchedulingChoice)
      → Exchanged f cs ds
      → All (IsLegal replicas most) cs
      → All (IsLegal replicas most) ds
  legal-Exchanged f cs ds e h =
      legal-values f ds
        (rw e.others (map-All (IsLegal replicas most) (blank f) cs (legal-blank f) h))
        (All-Perm (λ v. v ≤ limit f) (map (value f) ds) (map (value f) cs) (λ v. le_prop) e.values
          (values-le f cs h))

  module _ {G : Type 0} (rt : Runtime G) where
    -- A result that is related to the argument by something that keeps schedules legal.
    done-IsLawful :
        (mutator : Mutator G)
        → ((trace : Trace) (events : EventTrace) (g : G) (t' : Trace) (g' : G)
            → mutator trace events g ≡ done (some t', g')
            → AllLegal trace
            → AllLegal t')
        → IsLawful mutator
    done-IsLawful mutator h = record {
      keeps = λ trace events legal. record {
        returns = λ g r g' e. by_result trace events legal g r g' e;
      };
    }
      where
        by_result :
            (trace : Trace) (events : EventTrace) (legal : AllLegal trace) (g : G)
            (r : Option Trace) (g' : G)
            → mutator trace events g ≡ done (r, g')
            → Given AllLegal r
        by_result trace events legal g none g' e = tt
        by_result trace events legal g (some t) g' e = h trace events g t g' e legal

    pub swap_mutate-IsLawful : (n fuel : ℕ) → IsLawful (swap_mutate rt n fuel)
    swap_mutate-IsLawful n fuel =
        done-IsLawful (swap_mutate rt n fuel) λ trace events g t' g' e legal.
          All-Perm _ t'.l trace.l (λ c. hlevel le_prop)
            (swap_mutate-perm rt trace n fuel events g t' g' e) legal

    pub swap_crash_mutate-IsLawful : (n fuel : ℕ) → IsLawful (swap_crash_mutate rt n fuel)
    swap_crash_mutate-IsLawful n fuel =
        done-IsLawful (swap_crash_mutate rt n fuel) λ trace events g t' g' e legal.
          legal-Exchanged crash_node trace.l t'.l
            (swap_crash_mutate-Exchanged rt trace n fuel events g t' g' e) legal

    pub swap_max_mutate-IsLawful : (n fuel : ℕ) → IsLawful (swap_max_mutate rt n fuel)
    swap_max_mutate-IsLawful n fuel =
        done-IsLawful (swap_max_mutate rt n fuel) λ trace events g t' g' e legal.
          legal-Exchanged max_messages trace.l t'.l
            (swap_max_mutate-Exchanged rt trace n fuel events g t' g' e) legal

    then_rest-legal :
        (f : Trace → Random G (Option Trace)) (r : Option Trace)
        → ((t : Trace) → AllLegal t → Ensures (f t) (Given AllLegal))
        → Given AllLegal r
        → Ensures (then_rest f r) (Given AllLegal)
    unfolding then_rest
    then_rest-legal f none h q = Ensures-pure none tt
    then_rest-legal f (some t) h q = h t q

    mutate_all-IsLawful : (ms : List (Mutator G)) → All IsLawful ms → IsLawful (mutate_all ms)
    unfolding mutate_all
    mutate_all-IsLawful [] h = record { keeps = λ t events p. Ensures-pure (some t) p }
    mutate_all-IsLawful (m ∷ ms) h = record {
      keeps = λ t events p.
          Ensures-bind (h.0.keeps t events p)
            λ r q. then_rest-legal _ r (λ u k. (mutate_all-IsLawful ms h.1).keeps u events k) q;
    }

    pub combined_mutate-IsLawful :
        (ms : List (Mutator G)) → All IsLawful ms → IsLawful (combined_mutate ms)
    unfolding combined_mutate
    combined_mutate-IsLawful ms h = record {
      keeps = λ t events p. rw (copy_trace-default t) ((mutate_all-IsLawful ms h).keeps t events p);
    }
