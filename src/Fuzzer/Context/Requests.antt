-- ===== src/Fuzzer/Context/Requests.antt =====
-- Client requests do not replay: `IsClientRequest` records no step, and RunIteration loads a
-- request at the step that it was recorded with.
use model_guiding_fuzz.Common.{
  All, List, Runtime, [], ap, arith, done, false, lookup, lookup-insert, none, refl, some, ℕ, ◌++◌,
  ◌<◌, ◌==◌, ◌∙◌, ◌∷◌, ◌≡◌,
}
use model_guiding_fuzz.Types.Choice.{SchedulingChoice, ChoiceType, client_request}
use model_guiding_fuzz.Fuzzer.Context.{TraceCtx, new_ctx, link_choice}
use model_guiding_fuzz.Fuzzer.Context.Load.{load, load_list, load_typed}
use model_guiding_fuzz.Fuzzer.Context.Ask
use model_guiding_fuzz.Fuzzer.Context.Ask.{
  PointKind, crash_point, begin_point, Answer, ask_link, ask_boolean, ask_integer, ask_point,
  ask_request, linked, tossed, counted, pointed, requested, answer_all, record_of, records_of, Fits,
  FitsAll, point_type, answer_all-Recorded,
}

-- A client request of the list stands at step 0.
abbrev AtZero : SchedulingChoice → Type 0
AtZero c = c.type ≡ client_request → c.step ≡ 0

record-AtZero : (q : Ask.Ask) (a : Answer) → All AtZero (record_of q a)
unfolding record_of link_choice point_type
record-AtZero q (linked l) = (λ e. refl, tt)
record-AtZero q (tossed b) = (λ e. refl, tt)
record-AtZero q (counted n) = (λ e. refl, tt)
record-AtZero (ask_point crash_point step) (pointed none) = tt
record-AtZero (ask_point crash_point step) (pointed (some n)) = (λ e. absurd (cc), tt)
record-AtZero (ask_point begin_point step) (pointed none) = tt
record-AtZero (ask_point begin_point step) (pointed (some n)) = (λ e. absurd (cc), tt)
record-AtZero q (requested none) = tt
record-AtZero q (requested (some n)) = (λ e. refl, tt)
record-AtZero _ _ = tt

All-append {ℓ κ} :
    {A : Type ℓ} (P : A → Type κ) (xs ys : List A) → All P xs → All P ys → All P (xs ++ ys)
All-append P [] ys h k = k
All-append P (x ∷ xs) ys h k = (h.0, All-append P xs ys h.1 k)

records-AtZero : (qs : List Ask.Ask) (ans : List Answer) → All AtZero (records_of qs ans)
unfolding records_of
records-AtZero [] ans = tt
records-AtZero (q ∷ qs) [] = tt
records-AtZero (q ∷ qs) (a ∷ ans) =
    All-append AtZero (record_of q a) _ (record-AtZero q a) (records-AtZero qs ans)

load_typed-request :
    (ty : ChoiceType) (c : SchedulingChoice) (t : TraceCtx) (step : ℕ)
    → (ty ≡ client_request → c.step ≡ 0)
    → 0 < step
    → lookup step t.client_requests ≡ none
    → lookup step (load_typed ty c t).client_requests ≡ none
unfolding load_typed
load_typed-request client_request c t step h pos e =
    lookup-insert c.step step c.request t.client_requests
    ∙ (let ne : (c.step == step) ≡ false = ground (arith, h refl) in rw ne e)
load_typed-request _ c t step h pos e = e

load_list-request :
    (l : List SchedulingChoice) (t : TraceCtx) (step : ℕ)
    → All AtZero l
    → 0 < step
    → lookup step t.client_requests ≡ none
    → lookup step (load_list l t).client_requests ≡ none
unfolding load_list
load_list-request [] t step h pos e = e
load_list-request (c ∷ l) t step h pos e =
    load_list-request l (load_typed c.type c t) step h.1 pos
      (load_typed-request c.type c t step h.0 pos e)

module _ {G : Type 0} (rt : Runtime G) (nodes : List ℕ) (max_messages : ℕ) where
  -- Whatever requests a run makes, and at whatever steps, a new context with its trace loaded has
  -- no request at any step but 0: the record of a request has no step.
  pub requests_lost :
      (start : TraceCtx) (qs : List Ask.Ask) (ans : List Answer) (g : G) (t : TraceCtx) (g' : G)
      → start.trace.l ≡ []
      → answer_all rt nodes max_messages qs start g ≡ done ((ans, t), g')
      → (step : ℕ) → 0 < step
      → lookup step (load t.trace new_ctx).client_requests ≡ none
  unfolding load new_ctx
  requests_lost start qs ans g t g' empty e step pos =
      load_list-request t.trace.l new_ctx step (rw grown (records-AtZero qs ans)) pos refl
    where
      grown : t.trace.l ≡ records_of qs ans
      grown =
          ((answer_all-Recorded rt nodes max_messages qs start).returns g (ans, t) g' e).1
          ∙ ap (λ l. l ++ records_of qs ans) empty
