-- ===== src/Fuzzer/Context/Ask.antt =====
-- A run of an iteration, seen as the choices that it asks its context for, one after the other, and
-- what each of them records.
use model_guiding_fuzz.Common.{
  Bool, Ensures, Ensures-any, Ensures-bind, Ensures-pure, List, Option, Random, Runtime, [], ap,
  append-nil, append_assoc, arith, intn, none, pure, refl, some, sym, ℕ, ◌++◌, ◌>>=◌, ◌∙◌, ◌∷◌, ◌≡◌,
}
use model_guiding_fuzz.Types.Choice.{
  SchedulingChoice, ChoiceType, random_boolean, random_integer, start_node, stop_node,
  client_request, zero_choice,
}
use model_guiding_fuzz.Types.Queue.{pop}
use model_guiding_fuzz.Fuzzer.Context.{
  TraceCtx, Link, link_choice, get_next_node_choice, get_random_boolean, get_random_integer,
  can_crash, can_start, is_client_request, take_or, random_link, random_boolean_of, link_of,
}

pub data PointKind : Type 0 where
  crash_point begin_point : PointKind

pub data Ask : Type 0 where
  ask_link ask_boolean : Ask
  ask_integer : ℕ → Ask
  ask_point : PointKind → ℕ → Ask
  ask_request : ℕ → Ask

pub data Answer : Type 0 where
  linked : Link → Answer
  tossed : Bool → Answer
  counted : ℕ → Answer
  pointed : Option ℕ → Answer
  requested : Option ℕ → Answer

unfoldable pub can_point : PointKind → ℕ → TraceCtx → Option ℕ × TraceCtx
can_point crash_point = can_crash
can_point begin_point = can_start

unfoldable pub point_type : PointKind → ChoiceType
point_type crash_point = stop_node
point_type begin_point = start_node

module _ {G : Type 0} (rt : Runtime G) (nodes : List ℕ) (max_messages : ℕ) where
  -- One call of the context.
  unfoldable pub answer : Ask → TraceCtx → Random G (Answer × TraceCtx)
  unfolding can_point
  answer ask_link t = do (l, t') ← get_next_node_choice rt nodes max_messages t; pure (linked l, t')
  answer ask_boolean t = do (b, t') ← get_random_boolean rt t; pure (tossed b, t')
  answer (ask_integer max) t = do (n, t') ← get_random_integer rt max t; pure (counted n, t')
  answer (ask_point p step) t = let (o, t') = can_point p step t in pure (pointed o, t')
  answer (ask_request step) t = let (o, t') = is_client_request step t in pure (requested o, t')

  unfoldable pub answer_all : List Ask → TraceCtx → Random G (List Answer × TraceCtx)
  answer_all [] t = pure ([], t)
  answer_all (q ∷ qs) t = do (a, t₁) ← answer q t; (ans, t₂) ← answer_all qs t₁; pure (a ∷ ans, t₂)

-- What a point or a request records, if there is one.
abbrev pub when_some : (ℕ → SchedulingChoice) → Option ℕ → List SchedulingChoice
when_some f none = []
when_some f (some n) = f n ∷ []

-- The choices that an answer adds to the trace. A request is recorded without its step.
unfoldable pub record_of : Ask → Answer → List SchedulingChoice
record_of q (linked l) = link_choice l ∷ []
record_of q (tossed b) = record (zero_choice random_boolean) { boolean_choice = b } ∷ []
record_of q (counted n) = record (zero_choice random_integer) { integer_choice = n } ∷ []
record_of (ask_point p step) (pointed o) =
    when_some (λ n. record (zero_choice (point_type p)) { node = n; step = step }) o
record_of q (pointed o) = []
record_of q (requested o) = when_some (λ n. record (zero_choice client_request) { request = n }) o

-- The answer is of the kind that was asked for.
abbrev pub Fits : Ask → Answer → Type 0
Fits ask_link (linked l) = Unit
Fits ask_boolean (tossed b) = Unit
Fits (ask_integer max) (counted n) = Unit
Fits (ask_point p step) (pointed o) = Unit
Fits (ask_request step) (requested o) = Unit
Fits _ _ = ⊥

unfoldable pub records_of : List Ask → List Answer → List SchedulingChoice
records_of (q ∷ qs) (a ∷ ans) = record_of q a ++ records_of qs ans
records_of _ _ = []

abbrev pub FitsAll : List Ask → List Answer → Type 0
FitsAll [] [] = Unit
FitsAll (q ∷ qs) (a ∷ ans) = Fits q a × FitsAll qs ans
FitsAll _ _ = ⊥

module _ {G : Type 0} (rt : Runtime G) (nodes : List ℕ) (max_messages : ℕ) where
  link-Recorded :
      (t : TraceCtx)
      → Ensures
          (get_next_node_choice rt nodes max_messages t)
          (λ r. r.1.trace.l ≡ t.trace.l ++ link_choice r.0 ∷ [])
  unfolding get_next_node_choice
  link-Recorded t =
      Ensures-bind
        (Ensures-any (take_or rt link_of (pop t.node_choices) (random_link rt nodes max_messages)))
        λ r _. Ensures-pure _ refl

  boolean-Recorded :
      (t : TraceCtx)
      → Ensures
          (get_random_boolean rt t)
          (λ r. r.1.trace.l ≡ t.trace.l ++ record_of ask_boolean (tossed r.0))
  unfolding get_random_boolean record_of
  boolean-Recorded t =
      Ensures-bind
        (Ensures-any (take_or rt (λ b. b) (pop t.boolean_choices) (random_boolean_of rt)))
        λ r _. Ensures-pure _ refl

  integer-Recorded :
      (max : ℕ) (t : TraceCtx)
      → Ensures
          (get_random_integer rt max t)
          (λ r. r.1.trace.l ≡ t.trace.l ++ record_of (ask_integer max) (counted r.0))
  unfolding get_random_integer record_of
  integer-Recorded max t =
      Ensures-bind (Ensures-any (take_or rt (λ n. n) (pop t.integer_choices) (intn rt max)))
        λ r _. Ensures-pure _ refl

  abbrev Recorded : Ask → TraceCtx → Answer × TraceCtx → Type 0
  Recorded q t r = Fits q r.0 × (r.1.trace.l ≡ t.trace.l ++ record_of q r.0)

  -- An answer fits its question, and the trace grows by its record.
  pub answer-Recorded :
      (q : Ask) (t : TraceCtx) → Ensures (answer rt nodes max_messages q t) (Recorded q t)
  unfolding answer record_of point_type can_crash can_start is_client_request
  answer-Recorded ask_link t = Ensures-bind (link-Recorded t) λ r e. Ensures-pure _ (tt, e)
  answer-Recorded ask_boolean t = Ensures-bind (boolean-Recorded t) λ r e. Ensures-pure _ (tt, e)
  answer-Recorded (ask_integer max) t =
      Ensures-bind (integer-Recorded max t) λ r e. Ensures-pure _ (tt, e)
  answer-Recorded (ask_point crash_point step) t =
      Ensures-pure _ (ground (arith, append-nil t.trace.l))
  answer-Recorded (ask_point begin_point step) t =
      Ensures-pure _ (ground (arith, append-nil t.trace.l))
  answer-Recorded (ask_request step) t = Ensures-pure _ (ground (arith, append-nil t.trace.l))

  abbrev AllRecorded : List Ask → TraceCtx → List Answer × TraceCtx → Type 0
  AllRecorded qs t r = FitsAll qs r.0 × (r.1.trace.l ≡ t.trace.l ++ records_of qs r.0)

  pub answer_all-Recorded :
      (qs : List Ask) (t : TraceCtx)
      → Ensures (answer_all rt nodes max_messages qs t) (AllRecorded qs t)
  unfolding answer_all records_of
  answer_all-Recorded [] t = Ensures-pure ([], t) (tt, sym (append-nil t.trace.l))
  answer_all-Recorded (q ∷ qs) t = Ensures-bind (answer-Recorded q t) λ r e.
      Ensures-bind (answer_all-Recorded qs r.1) λ r' e'. Ensures-pure _ (
        (e.0, e'.0),
        e'.1
            ∙ ap (λ l. l ++ records_of qs r'.0) e.1
            ∙ append_assoc t.trace.l (record_of q r.0) (records_of qs r'.0),
      )
