-- ===== src/Tests/Contexts.antt =====
-- The theorems on the context of an iteration, at a concrete run.
use model_guiding_fuzz.Common.{
  List, Outcome, [], arith, done, false, lookup, none, refl, some, ℕ, ◌∷◌, ◌≡◌,
}
use model_guiding_fuzz.Fuzzer.Context.{
  TraceCtx, new_ctx, get_next_node_choice, get_random_boolean, get_random_integer, can_crash,
  can_start, is_client_request,
}
use model_guiding_fuzz.Fuzzer.Context.Ask
use model_guiding_fuzz.Fuzzer.Context.Ask.{
  Answer, crash_point, begin_point, ask_link, ask_boolean, ask_integer, ask_point, ask_request,
  linked, tossed, counted, pointed, requested, answer, answer_all,
}
use model_guiding_fuzz.Fuzzer.Context.Load.{load}
use model_guiding_fuzz.Fuzzer.Context.Replay.{replay_lem}
use model_guiding_fuzz.Fuzzer.Context.Requests.{requests_lost}
use model_guiding_fuzz.Tests.{counter}

runs : Unit {0}
unfolding answer_all answer get_next_node_choice get_random_boolean get_random_integer can_crash
    can_start is_client_request new_ctx load
runs = tt

-- A context with a crash of node 2 at step 0, its restart at step 1, and a request at step 1.
start : TraceCtx
unfolding new_ctx
start = record new_ctx {
  crash_points = (0, 2) ∷ [];
  start_points = (1, 2) ∷ [];
  client_requests = (1, 9) ∷ [];
}

abbrev questions : List Ask.Ask
questions =
    ask_point crash_point 0
    ∷ ask_point begin_point 0
    ∷ ask_link
    ∷ ask_boolean
    ∷ ask_point crash_point 1
    ∷ ask_point begin_point 1
    ∷ ask_integer 5
    ∷ []

abbrev answers : List Answer
answers =
    pointed (some 2)
    ∷ pointed none
    ∷ linked (record { from = 0; to = 1; max_messages = 2 })
    ∷ tossed false
    ∷ pointed none
    ∷ pointed (some 2)
    ∷ counted 4
    ∷ []

-- The context at the end of a run.
after : Outcome ((List Answer × TraceCtx) × ℕ) → TraceCtx
after (done ((ans, t), g)) = t
after _ = start

replay_lem_example :
    (t' : TraceCtx) × (answer_all counter
        (0 ∷ 1 ∷ 2 ∷ [])
        5
        questions
        (load (after (answer_all counter (0 ∷ 1 ∷ 2 ∷ []) 5 questions start 0)).trace new_ctx)
        77
      ≡ done ((answers, t'), 77))
    × (t'.trace ≡ (after (answer_all counter (0 ∷ 1 ∷ 2 ∷ []) 5 questions start 0)).trace)
unfolding runs start after
replay_lem_example =
    replay_lem counter (0 ∷ 1 ∷ 2 ∷ []) 5 start questions answers 0
      (after (answer_all counter (0 ∷ 1 ∷ 2 ∷ []) 5 questions start 0)) 5 refl
      (refl, (refl, (refl, (refl, tt)))) refl 77

-- The request at step 1 is made, and is gone from the replay.
requests_lost_example :
    lookup 1
      (load
        (after
          (answer_all counter (0 ∷ 1 ∷ []) 5 (ask_request 0 ∷ ask_request 1 ∷ []) start 0)).trace
        new_ctx).client_requests
    ≡ none
unfolding runs start after
requests_lost_example =
    requests_lost counter (0 ∷ 1 ∷ []) 5 start (ask_request 0 ∷ ask_request 1 ∷ [])
      (requested none ∷ requested (some 9) ∷ []) 0
      (after (answer_all counter (0 ∷ 1 ∷ []) 5 (ask_request 0 ∷ ask_request 1 ∷ []) start 0)) 0
      refl refl 1 (omega arith)
