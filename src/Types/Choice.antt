-- ===== src/Types/Choice.antt =====
-- types.go, SchedulingChoice: one step of a schedule, and mutator.go, copyTrace.
use model_guiding_fuzz.Common.{
  Bool, List, [], ap, arith, false, if◌then◌else◌, keep, refl, true, ℕ, ◌∙◌, ◌∷◌, ◌≡◌,
}
use model_guiding_fuzz.Types.Sequence.{Sequence, iter}

pub data ChoiceType : Type 0 where
  node random_boolean random_integer start_node stop_node client_request : ChoiceType

unfoldable pub same_type : ChoiceType → ChoiceType → Bool
same_type node node = true
same_type random_boolean random_boolean = true
same_type random_integer random_integer = true
same_type start_node start_node = true
same_type stop_node stop_node = true
same_type client_request client_request = true
same_type _ _ = false

pub same_type→eq : (s t : ChoiceType) → same_type s t ≡ true → s ≡ t
unfolding same_type
same_type→eq s t h = ground arith

pub record SchedulingChoice : Type 0 where
  pub type : ChoiceType
  pub node : ℕ
  pub from : ℕ
  pub to : ℕ
  pub max_messages : ℕ
  pub boolean_choice : Bool
  pub integer_choice : ℕ
  pub step : ℕ
  pub request : ℕ

-- A choice with the fields that Go leaves out at their zero values.
abbrev pub zero_choice : ChoiceType → SchedulingChoice
zero_choice t = record {
  type = t;
  node = 0;
  from = 0;
  to = 0;
  max_messages = 0;
  boolean_choice = false;
  integer_choice = 0;
  step = 0;
  request = 0;
}

unfoldable pub copy : SchedulingChoice → SchedulingChoice
copy s = record {
  type = s.type;
  node = s.node;
  from = s.from;
  to = s.to;
  max_messages = s.max_messages;
  boolean_choice = s.boolean_choice;
  integer_choice = s.integer_choice;
  step = s.step;
  request = s.request;
}

abbrev pub Trace : Type 0
Trace = Sequence SchedulingChoice

unfoldable pub default_copy_filter : SchedulingChoice → Bool
default_copy_filter sc = true

copy_list : (SchedulingChoice → Bool) → List SchedulingChoice → List SchedulingChoice
copy_list filter [] = []
copy_list filter (e ∷ es) = if filter e then copy e ∷ copy_list filter es else copy_list filter es

unfoldable pub copy_trace : Trace → (SchedulingChoice → Bool) → Trace
unfolding copy_list
copy_trace t filter = record { l = copy_list filter (iter t) }

pub copy_lem : (c : SchedulingChoice) → copy c ≡ c
unfolding copy
copy_lem c = refl

copy_list_lem :
    (filter : SchedulingChoice → Bool) (l : List SchedulingChoice)
    → copy_list filter l ≡ keep filter l
unfolding copy_list
copy_list_lem filter [] = refl
copy_list_lem filter (e ∷ es) = rw (copy_lem e, copy_list_lem filter es)

-- A filtered copy holds the choices that pass the filter, in order.
pub copy_trace_lem :
    (t : Trace) (filter : SchedulingChoice → Bool) → (copy_trace t filter).l ≡ keep filter t.l
unfolding copy_trace iter
copy_trace_lem t filter = copy_list_lem filter t.l

keep_all : (l : List SchedulingChoice) → keep default_copy_filter l ≡ l
unfolding default_copy_filter
keep_all [] = refl
keep_all (e ∷ es) = ap (◌∷◌ e) (keep_all es)

-- The copy that the fuzzer makes of a trace is that trace.
pub copy_trace-default : (t : Trace) → copy_trace t default_copy_filter ≡ t
copy_trace-default t =
    ap (λ (l : List SchedulingChoice). record { l = l })
      (copy_trace_lem t default_copy_filter ∙ keep_all t.l)
