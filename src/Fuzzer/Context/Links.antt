-- ===== src/Fuzzer/Context/Links.antt =====
-- How many links a context has recorded: one more after each request for a link, and no more
-- after the other calls.
use model_guiding_fuzz.Common.{
  Ensures, Ensures-any, Ensures-bind, Ensures-pure, IsRuntime, List, Option, Returns-bind,
  Returns-intn, Returns-or_panic, Returns-pure, Runtime, Total, [], arith, false, get_elem?,
  get_elem?-lt, length, lookup, none, refl, some, suc, ℕ, ◌++◌, ◌+◌, ◌<◌, ◌∷◌, ◌≡◌,
}
use model_guiding_fuzz.Types.Choice.{SchedulingChoice, ChoiceType, same_type}
use model_guiding_fuzz.Types.Queue.{Queue, pop}
use model_guiding_fuzz.Mutator.Rounds.{count_type}
use model_guiding_fuzz.Fuzzer.Context.{
  TraceCtx, can_crash, can_start, is_client_request, get_next_node_choice, add_choice, link_choice,
  link_of, random_link, take_or,
}

abbrev pub links_in : TraceCtx → ℕ
links_in t = count_type ChoiceType.node t.trace.l

count_type-append :
    (t : ChoiceType) (xs ys : List SchedulingChoice)
    → count_type t (xs ++ ys) ≡ count_type t xs + count_type t ys
unfolding count_type
count_type-append t [] ys = omega arith
count_type-append t (x ∷ xs) ys = ground (arith, count_type-append t xs ys)

-- A choice of another type does not count.
count_type-other :
    (t : ChoiceType) (xs : List SchedulingChoice) (c : SchedulingChoice)
    → same_type c.type t ≡ false
    → count_type t (xs ++ c ∷ []) ≡ count_type t xs
unfolding count_type
count_type-other t xs c h = ground (arith, count_type-append t xs (c ∷ []))

-- A call that records at most a choice, where the context has something for the step.
links-option :
    (o : Option ℕ) (f : ℕ → TraceCtx) (t : TraceCtx)
    → ((n : ℕ) → links_in (f n) ≡ links_in t)
    → links_in
        (elim o as (λ _. Option ℕ × TraceCtx) [ none ↦ (none, t) | some n ↦ (some n, f n) ]).1
      ≡ links_in t
links-option none f t h = refl
links-option (some n) f t h = h n

pub links-can_crash : (j : ℕ) (t : TraceCtx) → links_in (can_crash j t).1 ≡ links_in t
unfolding can_crash same_type
links-can_crash j t =
    links-option (lookup j t.crash_points) _ t
      (λ n. count_type-other ChoiceType.node t.trace.l _ refl)

pub links-can_start : (j : ℕ) (t : TraceCtx) → links_in (can_start j t).1 ≡ links_in t
unfolding can_start same_type
links-can_start j t =
    links-option (lookup j t.start_points) _ t
      (λ n. count_type-other ChoiceType.node t.trace.l _ refl)

pub links-is_client_request :
    (j : ℕ) (t : TraceCtx) → links_in (is_client_request j t).1 ≡ links_in t
unfolding is_client_request same_type
links-is_client_request j t =
    links-option (lookup j t.client_requests) _ t
      (λ n. count_type-other ChoiceType.node t.trace.l _ refl)

pub links-get_next_node_choice :
    {G : Type 0} (rt : Runtime G) (nodes : List ℕ) (max : ℕ) (t : TraceCtx)
    → Ensures (get_next_node_choice rt nodes max t) (λ r. links_in r.1 ≡ suc (links_in t))
unfolding get_next_node_choice count_type same_type add_choice link_choice
links-get_next_node_choice rt nodes max t =
    Ensures-bind (Ensures-any (take_or rt link_of (pop t.node_choices) (random_link rt nodes max)))
      λ (l, rest) _.
        Ensures-pure _
          (ground (arith, count_type-append ChoiceType.node t.trace.l (link_choice l ∷ [])))

-- It returns where there is a node and a positive limit, with a random source that keeps to its
-- bounds.
pub get_next_node_choice-Returns :
    {G : Type 0} (rt : Runtime G) (nodes : List ℕ) (max_messages : ℕ) (t : TraceCtx)
    → IsRuntime rt
    → 0 < length nodes
    → 0 < max_messages
    → Total (get_next_node_choice rt nodes max_messages t)
unfolding get_next_node_choice random_link take_or
get_next_node_choice-Returns rt nodes max_messages t ok some_node some_messages =
    Returns-bind (taken (pop t.node_choices)) λ r _. Returns-pure _ tt
  where
    drawn : Total (random_link rt nodes max_messages)
    drawn = Returns-bind (Returns-intn rt ok (length nodes) some_node) λ i lt.
        Returns-bind (Returns-intn rt ok (length nodes) some_node) λ j lt'.
          (let (from, e) = get_elem?-lt nodes i lt in
            let (to, e') = get_elem?-lt nodes j lt' in
            Returns-bind (Returns-or_panic (get_elem? nodes i) from e) λ from' _.
              Returns-bind (Returns-or_panic (get_elem? nodes j) to e') λ to' _.
                Returns-bind (Returns-intn rt ok max_messages some_messages)
                  λ n _. Returns-pure _ tt)

    taken :
        (o : Option SchedulingChoice × Queue SchedulingChoice)
        → Total (take_or rt link_of o (random_link rt nodes max_messages))
    taken (some c, rest) = Returns-pure _ tt
    taken (none, rest) = Returns-bind drawn λ l _. Returns-pure _ tt
