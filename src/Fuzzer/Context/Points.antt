-- ===== src/Fuzzer/Context/Points.antt =====
-- The crash and start points that a run has recorded, found again by their steps.
use model_guiding_fuzz.Common.{
  ==_refl, List, Option, [], ap, arith, contains, contains-append, false, none, refl, some, sym,
  true, ℕ, ◌++◌, ◌||◌, ◌∙◌, ◌∷◌, ◌≡◌,
}
use model_guiding_fuzz.Types.Choice.{SchedulingChoice, ChoiceType, same_type}
use model_guiding_fuzz.Fuzzer.Context.{link_choice}
use model_guiding_fuzz.Fuzzer.Context.Ask
use model_guiding_fuzz.Fuzzer.Context.Ask.{
  PointKind, crash_point, begin_point, Answer, ask_link, ask_boolean, ask_integer, ask_point,
  ask_request, linked, tossed, counted, pointed, requested, record_of, records_of, Fits, FitsAll,
  point_type,
}
use model_guiding_fuzz.Fuzzer.Context.Feeds.{point_at}

-- The steps at which a run asks for a point of one kind.
abbrev step_of : PointKind → Ask.Ask → List ℕ
step_of crash_point (ask_point crash_point step) = step ∷ []
step_of begin_point (ask_point begin_point step) = step ∷ []
step_of _ _ = []

abbrev pub steps : PointKind → List Ask.Ask → List ℕ
steps p [] = []
steps p (q ∷ qs) = step_of p q ++ steps p qs

-- The run asks at most once about each step, as an iteration does, and makes no requests.
abbrev pub IsReplayable : List Ask.Ask → Type 0
IsReplayable [] = Unit
IsReplayable (ask_point p step ∷ qs) = (contains step (steps p qs) ≡ false) × IsReplayable qs
IsReplayable (ask_request step ∷ qs) = ⊥
IsReplayable (_ ∷ qs) = IsReplayable qs

-- Each answer about a point is what `look` says.
abbrev pub Agrees : (PointKind → ℕ → Option ℕ) → Ask.Ask → Answer → Type 0
Agrees look (ask_point p step) (pointed o) = look p step ≡ o
Agrees look (ask_request step) a = ⊥
Agrees look q a = Unit

abbrev pub AgreesAll : (PointKind → ℕ → Option ℕ) → List Ask.Ask → List Answer → Type 0
AgreesAll look (q ∷ qs) (a ∷ ans) = Agrees look q a × AgreesAll look qs ans
AgreesAll look _ _ = Unit

-- The point of a kind and a step in what a run records.
abbrev pub recorded : List Ask.Ask → List Answer → PointKind → ℕ → Option ℕ
recorded qs ans p step = point_at (point_type p) step (records_of qs ans) none

point_at-append :
    (ty : ChoiceType) (step : ℕ) (xs ys : List SchedulingChoice) (o : Option ℕ)
    → point_at ty step (xs ++ ys) o ≡ point_at ty step ys (point_at ty step xs o)
unfolding point_at
point_at-append ty step [] ys o = refl
point_at-append ty step (x ∷ xs) ys o = point_at-append ty step xs ys _

-- A record says nothing about other steps, or about the other kind of point.
record-absent :
    (p : PointKind) (step : ℕ) (q : Ask.Ask) (a : Answer) (o : Option ℕ)
    → Fits q a
    → contains step (step_of p q) ≡ false
    → point_at (point_type p) step (record_of q a) o ≡ o
unfolding point_at record_of point_type same_type link_choice
record-absent crash_point step ask_link (linked l) o f e = refl
record-absent begin_point step ask_link (linked l) o f e = refl
record-absent crash_point step ask_boolean (tossed b) o f e = refl
record-absent begin_point step ask_boolean (tossed b) o f e = refl
record-absent crash_point step (ask_integer max) (counted n) o f e = refl
record-absent begin_point step (ask_integer max) (counted n) o f e = refl
record-absent p step (ask_point q at) (pointed none) o f e = refl
record-absent crash_point step (ask_point crash_point at) (pointed (some n)) o f e = ground arith
record-absent crash_point step (ask_point begin_point at) (pointed (some n)) o f e = refl
record-absent begin_point step (ask_point crash_point at) (pointed (some n)) o f e = refl
record-absent begin_point step (ask_point begin_point at) (pointed (some n)) o f e = ground arith
record-absent p step (ask_request at) (requested none) o f e = refl
record-absent crash_point step (ask_request at) (requested (some n)) o f e = refl
record-absent begin_point step (ask_request at) (requested (some n)) o f e = refl
record-absent p step q a o f e = elim f [ ]

record-present :
    (p : PointKind) (step : ℕ) (o : Option ℕ)
    → point_at (point_type p) step (record_of (ask_point p step) (pointed o)) none ≡ o
unfolding point_at record_of point_type same_type
record-present crash_point step none = refl
record-present begin_point step none = refl
record-present crash_point step (some n) = rw ==_refl
record-present begin_point step (some n) = rw ==_refl

records-absent :
    (p : PointKind) (step : ℕ) (qs : List Ask.Ask) (ans : List Answer) (o : Option ℕ)
    → FitsAll qs ans
    → contains step (steps p qs) ≡ false
    → point_at (point_type p) step (records_of qs ans) o ≡ o
unfolding records_of point_at
records-absent p step [] [] o f e = refl
records-absent p step (q ∷ qs) (a ∷ ans) o f e =
    point_at-append (point_type p) step (record_of q a) (records_of qs ans) o
    ∙ records-absent p step qs ans _ f.1 (ground (arith, split))
    ∙ record-absent p step q a o f.0 (ground (arith, split))
  where
    split :
        contains step (steps p (q ∷ qs))
        ≡ (contains step (step_of p q) || contains step (steps p qs))
    split = contains-append step (step_of p q) (steps p qs)
records-absent p step [] (a ∷ ans) o f e = elim f [ ]
records-absent p step (q ∷ qs) [] o f e = elim f [ ]

AgreesAll-cong :
    (look look' : PointKind → ℕ → Option ℕ) (qs : List Ask.Ask) (ans : List Answer)
    → ((p : PointKind) (step : ℕ) → contains step (steps p qs) ≡ true → look p step ≡ look' p step)
    → AgreesAll look qs ans
    → AgreesAll look' qs ans
AgreesAll-cong look look' [] ans same h = tt
AgreesAll-cong look look' (q ∷ qs) [] same h = tt
AgreesAll-cong look look' (q ∷ qs) (a ∷ ans) same h = (
  first q a h.0 same,
  AgreesAll-cong look look' qs ans
      (λ p step e. same p step (ground (arith, contains-append step (step_of p q) (steps p qs), e)))
      h.1,
)
  where
    first :
        (q : Ask.Ask) (a : Answer)
        → Agrees look q a
        → ((p : PointKind) (step : ℕ)
            → contains step (steps p (q ∷ qs)) ≡ true
            → look p step ≡ look' p step)
        → Agrees look' q a
    first (ask_point crash_point step) (pointed o) h same =
        sym (same crash_point step (ground arith)) ∙ h
    first (ask_point begin_point step) (pointed o) h same =
        sym (same begin_point step (ground arith)) ∙ h
    first q a h same = h

pub Agrees-cong :
    (look look' : PointKind → ℕ → Option ℕ) (q : Ask.Ask) (a : Answer)
    → ((p : PointKind) (step : ℕ) → look' p step ≡ look p step)
    → Agrees look q a
    → Agrees look' q a
Agrees-cong look look' (ask_point p step) (pointed o) same h = same p step ∙ h
Agrees-cong look look' q a same h = h

tail_absent :
    (q : Ask.Ask) (qs : List Ask.Ask) (p : PointKind) (step : ℕ)
    → IsReplayable (q ∷ qs)
    → contains step (steps p qs) ≡ true
    → contains step (step_of p q) ≡ false
tail_absent (ask_point crash_point at) qs crash_point step r e = ground arith
tail_absent (ask_point begin_point at) qs begin_point step r e = ground arith
tail_absent (ask_request at) qs p step r e = absurd r
tail_absent (ask_point crash_point at) qs begin_point step r e = refl
tail_absent (ask_point begin_point at) qs crash_point step r e = refl
tail_absent ask_link qs crash_point step r e = refl
tail_absent ask_link qs begin_point step r e = refl
tail_absent ask_boolean qs crash_point step r e = refl
tail_absent ask_boolean qs begin_point step r e = refl
tail_absent (ask_integer max) qs crash_point step r e = refl
tail_absent (ask_integer max) qs begin_point step r e = refl

IsReplayable-tail : (q : Ask.Ask) (qs : List Ask.Ask) → IsReplayable (q ∷ qs) → IsReplayable qs
IsReplayable-tail (ask_point p step) qs r = r.1
IsReplayable-tail (ask_request step) qs r = absurd r
IsReplayable-tail ask_link qs r = r
IsReplayable-tail ask_boolean qs r = r
IsReplayable-tail (ask_integer max) qs r = r

head-Agrees :
    (q : Ask.Ask) (qs : List Ask.Ask) (a : Answer) (ans : List Answer)
    → Fits q a
    → FitsAll qs ans
    → IsReplayable (q ∷ qs)
    → Agrees (recorded (q ∷ qs) (a ∷ ans)) q a
unfolding records_of
head-Agrees (ask_point p step) qs (pointed o) ans f fs r =
    point_at-append (point_type p) step (record_of (ask_point p step) (pointed o))
      (records_of qs ans) none
    ∙ records-absent p step qs ans _ fs r.0
    ∙ record-present p step o
head-Agrees (ask_request step) qs a ans f fs r = absurd r
head-Agrees ask_link qs a ans f fs r = tt
head-Agrees ask_boolean qs a ans f fs r = tt
head-Agrees (ask_integer max) qs a ans f fs r = tt
head-Agrees q qs a ans f fs r = elim f [ ]

-- A run that asks once about each step finds its answers about crashes and starts again among what
-- it recorded.
pub answers-Agree :
    (qs : List Ask.Ask) (ans : List Answer)
    → FitsAll qs ans
    → IsReplayable qs
    → AgreesAll (recorded qs ans) qs ans
unfolding records_of
answers-Agree [] ans f r = tt
answers-Agree (q ∷ qs) [] f r = tt
answers-Agree (q ∷ qs) (a ∷ ans) f r = (
  head-Agrees q qs a ans f.0 f.1 r,
  AgreesAll-cong (recorded qs ans) (recorded (q ∷ qs) (a ∷ ans)) qs ans
      (λ p step e. sym (
        point_at-append (point_type p) step (record_of q a) (records_of qs ans) none
        ∙ ap (point_at (point_type p) step (records_of qs ans))
            (record-absent p step q a none f.0 (tail_absent q qs p step r e))))
      (answers-Agree qs ans f.1 (IsReplayable-tail q qs r)),
)
