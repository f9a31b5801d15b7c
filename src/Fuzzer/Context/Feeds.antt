-- ===== src/Fuzzer/Context/Feeds.antt =====
-- What a recorded trace leaves in the context that it is loaded into.
use model_guiding_fuzz.Common.{
  Bool, Bool-cases, List, Option, [], ap, append-nil, append_assoc, arith, if◌then◌else◌, inl, inr,
  keep, lookup, lookup-insert, map, refl, some, sym, ℕ, ◌&&◌, ◌++◌, ◌==◌, ◌∙◌, ◌∷◌, ◌≡◌,
}
use mathlib.Core.List.{map-append}
use model_guiding_fuzz.Types.Choice.{
  SchedulingChoice, ChoiceType, random_boolean, random_integer, start_node, stop_node,
  client_request, Trace, same_type,
}
use model_guiding_fuzz.Fuzzer.Context.{TraceCtx}
use model_guiding_fuzz.Fuzzer.Context.Load.{load, load_list, load_typed}
use model_guiding_fuzz.Fuzzer.Context.Ask.{PointKind, crash_point, begin_point, point_type}

unfoldable pub of_type : ChoiceType → List SchedulingChoice → List SchedulingChoice
of_type ty = keep (λ c. same_type c.type ty)

unfoldable pub booleans_of : List SchedulingChoice → List Bool
booleans_of l = map (λ c. c.boolean_choice) (of_type random_boolean l)

unfoldable pub integers_of : List SchedulingChoice → List ℕ
integers_of l = map (λ c. c.integer_choice) (of_type random_integer l)

-- The node of the last choice of a type that has the step, if there is one.
unfoldable pub point_at : ChoiceType → ℕ → List SchedulingChoice → Option ℕ → Option ℕ
point_at ty step [] otherwise = otherwise
point_at ty step (c ∷ cs) otherwise =
    point_at ty step cs (if same_type c.type ty && c.step == step then some c.node else otherwise)

abbrev pub points : PointKind → TraceCtx → List (ℕ × ℕ)
points crash_point t = t.crash_points
points begin_point t = t.start_points

-- `t'` is `t` with the choices of a list loaded.
pub record Loaded (l : List SchedulingChoice) (t t' : TraceCtx) : Type 0 where
  pub nodes : t'.node_choices.q ≡ t.node_choices.q ++ of_type ChoiceType.node l
  pub booleans : t'.boolean_choices.q ≡ t.boolean_choices.q ++ booleans_of l
  pub integers : t'.integer_choices.q ≡ t.integer_choices.q ++ integers_of l
  pub points_at :
      (p : PointKind) (step : ℕ)
      → lookup step (points p t') ≡ point_at (point_type p) step l (lookup step (points p t))
  pub trace : t'.trace.l ≡ t.trace.l

load_typed-Loaded :
    (ty : ChoiceType) (ch : SchedulingChoice) (t : TraceCtx)
    → ch.type ≡ ty
    → Loaded (ch ∷ []) t (load_typed ty ch t)
unfolding load_typed of_type booleans_of integers_of point_at same_type point_type
load_typed-Loaded ChoiceType.node ch t e = record {
  nodes = rw e;
  booleans = ground (arith, append-nil t.boolean_choices.q);
  integers = ground (arith, append-nil t.integer_choices.q);
  points_at = elim [ crash_point ↦ λ step. rw e | begin_point ↦ λ step. rw e ];
  trace = refl;
}
load_typed-Loaded random_boolean ch t e = record {
  nodes = ground (arith, append-nil t.node_choices.q);
  booleans = rw e;
  integers = ground (arith, append-nil t.integer_choices.q);
  points_at = elim [ crash_point ↦ λ step. rw e | begin_point ↦ λ step. rw e ];
  trace = refl;
}
load_typed-Loaded random_integer ch t e = record {
  nodes = ground (arith, append-nil t.node_choices.q);
  booleans = ground (arith, append-nil t.boolean_choices.q);
  integers = rw e;
  points_at = elim [ crash_point ↦ λ step. rw e | begin_point ↦ λ step. rw e ];
  trace = refl;
}
load_typed-Loaded start_node ch t e = record {
  nodes = ground (arith, append-nil t.node_choices.q);
  booleans = ground (arith, append-nil t.boolean_choices.q);
  integers = ground (arith, append-nil t.integer_choices.q);
  points_at = elim [
    | crash_point ↦ λ step. rw e
    | begin_point ↦ λ step. rw e (lookup-insert ch.step step ch.node t.start_points)
  ];
  trace = refl;
}
load_typed-Loaded stop_node ch t e = record {
  nodes = ground (arith, append-nil t.node_choices.q);
  booleans = ground (arith, append-nil t.boolean_choices.q);
  integers = ground (arith, append-nil t.integer_choices.q);
  points_at = elim [
    | crash_point ↦ λ step. rw e (lookup-insert ch.step step ch.node t.crash_points)
    | begin_point ↦ λ step. rw e
  ];
  trace = refl;
}
load_typed-Loaded client_request ch t e = record {
  nodes = ground (arith, append-nil t.node_choices.q);
  booleans = ground (arith, append-nil t.boolean_choices.q);
  integers = ground (arith, append-nil t.integer_choices.q);
  points_at = elim [ crash_point ↦ λ step. rw e | begin_point ↦ λ step. rw e ];
  trace = refl;
}

Loaded-nil : (t : TraceCtx) → Loaded [] t t
unfolding of_type booleans_of integers_of point_at
Loaded-nil t = record {
  nodes = sym (append-nil t.node_choices.q);
  booleans = sym (append-nil t.boolean_choices.q);
  integers = sym (append-nil t.integer_choices.q);
  points_at = λ p step. refl;
  trace = refl;
}

of_type-cons :
    (ty : ChoiceType) (ch : SchedulingChoice) (l : List SchedulingChoice)
    → of_type ty (ch ∷ l) ≡ of_type ty (ch ∷ []) ++ of_type ty l
unfolding of_type
of_type-cons ty ch l = elim (Bool-cases (same_type ch.type ty)) [ inl e ↦ rw e | inr e ↦ rw e ]

booleans_of-cons :
    (ch : SchedulingChoice) (l : List SchedulingChoice)
    → booleans_of (ch ∷ l) ≡ booleans_of (ch ∷ []) ++ booleans_of l
unfolding booleans_of
booleans_of-cons ch l = rw of_type-cons (map-append _ (of_type random_boolean (ch ∷ [])) _)

integers_of-cons :
    (ch : SchedulingChoice) (l : List SchedulingChoice)
    → integers_of (ch ∷ l) ≡ integers_of (ch ∷ []) ++ integers_of l
unfolding integers_of
integers_of-cons ch l = rw of_type-cons (map-append _ (of_type random_integer (ch ∷ [])) _)

-- Two appends in a row.
append_twice {ℓ} :
    {A : Type ℓ} (a b c d e f : List A) → b ≡ a ++ d → c ≡ b ++ e → f ≡ d ++ e → c ≡ a ++ f
append_twice a b c d e f p q r = rw (q, p, r) (append_assoc a d e)

Loaded-cons :
    (ch : SchedulingChoice) (l : List SchedulingChoice) (t u v : TraceCtx)
    → Loaded (ch ∷ []) t u
    → Loaded l u v
    → Loaded (ch ∷ l) t v
unfolding point_at
Loaded-cons ch l t u v h k = record {
  nodes = append_twice _ _ _ _ _ _ h.nodes k.nodes (of_type-cons ChoiceType.node ch l);
  booleans = append_twice _ _ _ _ _ _ h.booleans k.booleans (booleans_of-cons ch l);
  integers = append_twice _ _ _ _ _ _ h.integers k.integers (integers_of-cons ch l);
  points_at =
      λ p step. k.points_at p step ∙ ap (point_at (point_type p) step l) (h.points_at p step);
  trace = k.trace ∙ h.trace;
}

load_list-Loaded : (l : List SchedulingChoice) (t : TraceCtx) → Loaded l t (load_list l t)
unfolding load_list
load_list-Loaded [] t = Loaded-nil t
load_list-Loaded (ch ∷ l) t =
    Loaded-cons ch l t (load_typed ch.type ch t) _ (load_typed-Loaded ch.type ch t refl)
      (load_list-Loaded l (load_typed ch.type ch t))

-- Loading a trace appends its node, Boolean and integer choices to the queues, and sets the crash
-- and start points of its steps; the trace of the context stays.
pub load-Loaded : (mimic : Trace) (t : TraceCtx) → Loaded mimic.l t (load mimic t)
unfolding load
load-Loaded mimic t = load_list-Loaded mimic.l t
