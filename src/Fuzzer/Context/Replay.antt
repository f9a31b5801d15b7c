-- ===== src/Fuzzer/Context/Replay.antt =====
-- A recorded trace, loaded into a new context, replays.
use model_guiding_fuzz.Common.{
  >>=-done, Bool, List, Option, Runtime, [], ap, append-nil, append_assoc, done, lookup, none, refl,
  some, sym, ℕ, ◌++◌, ◌∙◌, ◌∷◌, ◌≡◌,
}
use model_guiding_fuzz.Types.Choice.{SchedulingChoice, ChoiceType, start_node, stop_node, same_type}
use model_guiding_fuzz.Types.Queue.{pop-cons}
use model_guiding_fuzz.Fuzzer.Context.{
  TraceCtx, new_ctx, Link, link_choice, get_next_node_choice, get_random_boolean,
  get_random_integer, can_crash, can_start, add_choice, record_boolean, record_integer,
  record_point,
}
use model_guiding_fuzz.Fuzzer.Context.Load.{load}
use model_guiding_fuzz.Fuzzer.Context.Ask
use model_guiding_fuzz.Fuzzer.Context.Ask.{
  PointKind, crash_point, begin_point, Answer, ask_link, ask_boolean, ask_integer, ask_point,
  ask_request, linked, tossed, counted, pointed, requested, answer, answer_all, record_of,
  records_of, Fits, FitsAll, point_type, can_point, answer_all-Recorded,
}
use model_guiding_fuzz.Fuzzer.Context.Points.{
  IsReplayable, Agrees, Agrees-cong, AgreesAll, recorded, answers-Agree,
}
use model_guiding_fuzz.Fuzzer.Context.Feeds.{
  of_type, booleans_of, integers_of, point_at, points, load-Loaded,
}

-- The queues of the context hold the choices of the list, and nothing more.
pub record Feeds (l : List SchedulingChoice) (t : TraceCtx) : Type 0 where
  pub nodes : t.node_choices.q ≡ of_type ChoiceType.node l
  pub booleans : t.boolean_choices.q ≡ booleans_of l
  pub integers : t.integer_choices.q ≡ integers_of l

module _ {G : Type 0} (rt : Runtime G) (nodes : List ℕ) (max_messages : ℕ) where
  -- The question is answered with no random draw, and the context has the rest left.
  abbrev Replays : Ask.Ask → Answer → List SchedulingChoice → TraceCtx → G → Type 0
  Replays q a rest t h =
      (t' : TraceCtx) × (answer rt nodes max_messages q t h ≡ done ((a, t'), h))
      × Feeds rest t'
      × (t'.trace.l ≡ t.trace.l ++ record_of q a)
      × ((p : PointKind) → points p t' ≡ points p t)

  link-Replays :
      (l : Link) (rest : List SchedulingChoice) (t : TraceCtx) (h : G)
      → Feeds (record_of ask_link (linked l) ++ rest) t
      → Replays ask_link (linked l) rest t h
  unfolding answer get_next_node_choice record_of of_type booleans_of integers_of same_type
      link_choice
  link-Replays l rest t h f = (
    add_choice (record t { node_choices = record { q = of_type ChoiceType.node rest } })
        (link_choice l),
    rw (pop-cons t.node_choices (link_choice l) (of_type ChoiceType.node rest) f.nodes),
    record { nodes = refl; booleans = f.booleans; integers = f.integers },
    refl,
    elim [ crash_point ↦ refl | begin_point ↦ refl ],
  )

  boolean-Replays :
      (b : Bool) (rest : List SchedulingChoice) (t : TraceCtx) (h : G)
      → Feeds (record_of ask_boolean (tossed b) ++ rest) t
      → Replays ask_boolean (tossed b) rest t h
  unfolding answer get_random_boolean record_of of_type booleans_of integers_of same_type
  boolean-Replays b rest t h f = (
    record_boolean b (record t { boolean_choices = record { q = booleans_of rest } }),
    rw (pop-cons t.boolean_choices b (booleans_of rest) f.booleans),
    record { nodes = f.nodes; booleans = refl; integers = f.integers },
    refl,
    elim [ crash_point ↦ refl | begin_point ↦ refl ],
  )

  integer-Replays :
      (max n : ℕ) (rest : List SchedulingChoice) (t : TraceCtx) (h : G)
      → Feeds (record_of (ask_integer max) (counted n) ++ rest) t
      → Replays (ask_integer max) (counted n) rest t h
  unfolding answer get_random_integer record_of of_type booleans_of integers_of same_type
  integer-Replays max n rest t h f = (
    record_integer n (record t { integer_choices = record { q = integers_of rest } }),
    rw (pop-cons t.integer_choices n (integers_of rest) f.integers),
    record { nodes = f.nodes; booleans = f.booleans; integers = refl },
    refl,
    elim [ crash_point ↦ refl | begin_point ↦ refl ],
  )

  point-Replays :
      (p : PointKind) (step : ℕ) (o : Option ℕ) (rest : List SchedulingChoice) (t : TraceCtx)
      (h : G)
      → Feeds (record_of (ask_point p step) (pointed o) ++ rest) t
      → lookup step (points p t) ≡ o
      → Replays (ask_point p step) (pointed o) rest t h
  unfolding answer can_crash can_start record_of point_type of_type booleans_of integers_of
      same_type
  point-Replays crash_point step none rest t h f e =
      (t, rw (e, can_crash), f, sym (append-nil t.trace.l), λ p. refl)
  point-Replays begin_point step none rest t h f e =
      (t, rw (e, can_start), f, sym (append-nil t.trace.l), λ p. refl)
  point-Replays crash_point step (some n) rest t h f e = (
    record_point "Remove" stop_node n step t,
    rw (e, can_crash),
    record { nodes = f.nodes; booleans = f.booleans; integers = f.integers },
    refl,
    elim [ crash_point ↦ refl | begin_point ↦ refl ],
  )
  point-Replays begin_point step (some n) rest t h f e = (
    record_point "Add" start_node n step t,
    rw (e, can_start),
    record { nodes = f.nodes; booleans = f.booleans; integers = f.integers },
    refl,
    elim [ crash_point ↦ refl | begin_point ↦ refl ],
  )

  answer-Replays :
      (q : Ask.Ask) (a : Answer) (rest : List SchedulingChoice) (t : TraceCtx) (h : G)
      → Fits q a
      → Agrees (λ p step. lookup step (points p t)) q a
      → Feeds (record_of q a ++ rest) t
      → Replays q a rest t h
  answer-Replays ask_link (linked l) rest t h fits look f = link-Replays l rest t h f
  answer-Replays ask_boolean (tossed b) rest t h fits look f = boolean-Replays b rest t h f
  answer-Replays (ask_integer max) (counted n) rest t h fits look f =
      integer-Replays max n rest t h f
  answer-Replays (ask_point p step) (pointed o) rest t h fits look f =
      point-Replays p step o rest t h f look
  answer-Replays (ask_request step) a rest t h fits look f = absurd look
  answer-Replays q a rest t h fits look f = elim fits [ ]

  answer_all-Replays :
      (look : PointKind → ℕ → Option ℕ) (qs : List Ask.Ask) (ans : List Answer) (t : TraceCtx)
      (h : G)
      → FitsAll qs ans
      → AgreesAll look qs ans
      → Feeds (records_of qs ans) t
      → ((p : PointKind) (step : ℕ) → lookup step (points p t) ≡ look p step)
      → (t' : TraceCtx) × (answer_all rt nodes max_messages qs t h ≡ done ((ans, t'), h))
        × (t'.trace.l ≡ t.trace.l ++ records_of qs ans)
  unfolding answer_all records_of
  answer_all-Replays look [] [] t h fits agrees f at = (t, refl, sym (append-nil t.trace.l))
  answer_all-Replays look [] (a ∷ ans) t h fits agrees f at = elim fits [ ]
  answer_all-Replays look (q ∷ qs) [] t h fits agrees f at = elim fits [ ]
  answer_all-Replays look (q ∷ qs) (a ∷ ans) t h fits agrees f at =
      let (t₁, e₁, f₁, grown, same) =
        answer-Replays q a (records_of qs ans) t h fits.0
          (Agrees-cong look (λ p step. lookup step (points p t)) q a at agrees.0) f in
      let (t₂, e₂, grown') =
        answer_all-Replays look qs ans t₁ h fits.1 agrees.1 f₁
          (λ p step. ap (lookup step) (same p) ∙ at p step) in
      (
        t₂,
        >>=-done (answer rt nodes max_messages q t) _ h e₁
            ∙ >>=-done (answer_all rt nodes max_messages qs t₁) _ h e₂,
        grown'
            ∙ ap (λ l. l ++ records_of qs ans) grown
            ∙ append_assoc t.trace.l (record_of q a) (records_of qs ans),
      )

  -- Record and replay: take any run, of a context whose trace is empty, that asks at most once
  -- about each step and makes no client requests. A new context with the trace of that run loaded,
  -- asked the same questions, gives the same answers, records the same trace, and draws nothing at
  -- random.
  pub replay_lem :
      (start : TraceCtx) (qs : List Ask.Ask) (ans : List Answer) (g : G) (t : TraceCtx) (g' : G)
      → start.trace.l ≡ []
      → IsReplayable qs
      → answer_all rt nodes max_messages qs start g ≡ done ((ans, t), g')
      → (h : G)
      → (t' : TraceCtx) × (answer_all rt nodes max_messages qs (load t.trace new_ctx) h
          ≡ done ((ans, t'), h))
        × (t'.trace ≡ t.trace)
  unfolding new_ctx
  replay_lem start qs ans g t g' empty r e h =
      let (fits, appended) =
        (answer_all-Recorded rt nodes max_messages qs start).returns g (ans, t) g' e in
      let grown : t.trace.l ≡ records_of qs ans =
        appended ∙ ap (λ l. l ++ records_of qs ans) empty in
      let loaded = load-Loaded t.trace new_ctx in
      let feeds : Feeds (records_of qs ans) (load t.trace new_ctx) = record {
        nodes = loaded.nodes ∙ ap (of_type ChoiceType.node) grown;
        booleans = loaded.booleans ∙ ap booleans_of grown;
        integers = loaded.integers ∙ ap integers_of grown;
      } in
      let (t', replays, grown') =
        answer_all-Replays (recorded qs ans) qs ans (load t.trace new_ctx) h fits
          (answers-Agree qs ans fits r) feeds
          (λ p step.
            loaded.points_at p step
            ∙ no_points p step
            ∙ ap (λ l. point_at (point_type p) step l none) grown) in
      (
        t',
        replays,
        ap (λ (l : List SchedulingChoice). record { l = l })
            (grown' ∙ ap (λ l. l ++ records_of qs ans) loaded.trace ∙ sym grown),
      )
    where
      no_points :
          (p : PointKind) (step : ℕ)
          → point_at (point_type p) step t.trace.l (lookup step (points p new_ctx))
            ≡ point_at (point_type p) step t.trace.l none
      no_points crash_point step = refl
      no_points begin_point step = refl
