-- ===== src/Mutator/Scale/Effect.antt =====
-- What ScaleDownIntChoiceMutator and ScaleUpIntChoiceMutator do to a trace.
use model_guiding_fuzz.Common.{
  IsRuntime, List, Returns, Returns-bind, Returns-if, Returns-intn, Returns-pure, Runtime, ap,
  arith, if◌then◌else◌, inl, inr, length, ltb, refl, set_same, some, suc, sym, ℕ, ◌%◌, ◌*◌, ◌<◌,
  ◌==◌, ◌^◌, ◌≡◌, ◌≤◌, ◌⊎◌,
}
use Prim.Native.Nat.{min}
use model_guiding_fuzz.Types.Choice.{SchedulingChoice, random_integer, Trace, zero_choice}
use model_guiding_fuzz.Types.Event.{EventTrace}
use model_guiding_fuzz.Types.Sample.Ending.{Covers}
use model_guiding_fuzz.Types.Sequence.{get_lem, put_lem}
use model_guiding_fuzz.Mutator.Indices.{type_indices}
use model_guiding_fuzz.Mutator.Rounds.{count_type, length-type_indices}
use model_guiding_fuzz.Mutator.Scale.{
  int_ltb, int_min, integer_of, scale_down_choice, scale_down_step, scale_down_mutate,
  scale_up_step, scale_up_mutate,
}
use model_guiding_fuzz.Mutator.Scale.Points.{ScalesAt, Writes, scale_drawn-Returns}

-- A smaller integer in place of the one that is there, if that is positive: a word from 2 ^ 63 on is
-- a negative int.
abbrev pub IsLower : SchedulingChoice → SchedulingChoice → Type 0
IsLower c d =
    (((c.integer_choice ≡ 0) ⊎ (2 ^ 63 ≤ c.integer_choice)) × (d ≡ c))
    ⊎ ((n : ℕ) × (n < c.integer_choice)
        × (c.integer_choice % 2 ^ 64 < 2 ^ 63)
        × (d ≡ record (zero_choice random_integer) { integer_choice = n }))

-- Twice the integer, as a word of 64 bits, or the limit where that is less. A word from 2 ^ 63 on
-- is a negative int, and so less than any limit that is not negative.
abbrev pub IsDoubled : ℕ → SchedulingChoice → SchedulingChoice → Type 0
IsDoubled most c d =
    ((c.integer_choice * 2 % 2 ^ 64 < 2 ^ 63)
      × (d ≡ record (zero_choice random_integer) {
        integer_choice = min most (c.integer_choice * 2 % 2 ^ 64);
      }))
    ⊎ ((2 ^ 63 ≤ c.integer_choice * 2 % 2 ^ 64)
        × (d ≡ record (zero_choice random_integer) {
          integer_choice = c.integer_choice * 2 % 2 ^ 64;
        }))

-- The smaller of two ints, of which the first is not negative.
int_min_lem :
    (most twice : ℕ)
    → most < 2 ^ 63
    → twice < 2 ^ 64
    → ((twice < 2 ^ 63) × (int_min most twice ≡ min most twice))
      ⊎ ((2 ^ 63 ≤ twice) × (int_min most twice ≡ twice))
unfolding int_min int_ltb
int_min_lem most twice h k = ground arith

module _ {G : Type 0} (rt : Runtime G) (ok : IsRuntime rt) (trace : Trace)
    (events : EventTrace) where
  scale_down_step-Writes : Writes IsLower (scale_down_step rt) trace
  unfolding scale_down_step scale_down_choice integer_of int_ltb
  scale_down_step-Writes i t c e =
      rw (scale_down_step, get_lem t i, e)
        (Returns-if (int_ltb 0 c.integer_choice)
          (λ more. Returns-bind (Returns-intn rt ok c.integer_choice (ground (arith, more))) λ n lt.
            Returns-pure _
              (integer_of n, inr (n, lt, ground (arith, more), refl), put_lem t i (integer_of n)))
          (λ none_left.
            Returns-pure t (c, inl (ground (arith, none_left), refl), sym (set_same t.l i c e))))

  scale_up_step-Writes :
      (most : ℕ) → most < 2 ^ 63 → Writes (IsDoubled most) (scale_up_step rt most) trace
  unfolding scale_up_step integer_of
  scale_up_step-Writes most small i t c e =
      rw (scale_up_step, get_lem t i, e)
        (Returns-pure _ (
          _,
          elim (int_min_lem most (c.integer_choice * 2 % 2 ^ 64) small (omega arith)) [
            | inl (lt, same) ↦
                inl (lt, ap (λ n. record (zero_choice random_integer) { integer_choice = n }) same)
            | inr (le, same) ↦
                inr (le, ap (λ n. record (zero_choice random_integer) { integer_choice = n }) same)
          ],
          put_lem t i _,
        ))

  abbrev positions : List ℕ
  positions = type_indices random_integer trace

  -- If NumPoints is at most the number of integer choices, and there is one, the mutator that
  -- scales down returns a trace in which NumPoints integer choices, no two of them at one
  -- position, are replaced by ones with a smaller number, or kept where the number is 0 or stands
  -- for a negative int; all else is as it was. Its loop ends within k rounds, where k draws, from
  -- wherever they begin, reach every integer choice.
  pub scale_down_mutate-Scales :
      (num_points k : ℕ)
      → 0 < count_type random_integer trace.l
      → num_points ≤ count_type random_integer trace.l
      → ((g : G) → Covers rt (count_type random_integer trace.l) k g)
      → Returns
          (scale_down_mutate rt num_points (suc k) trace events)
          (λ r. (t : Trace) × (r ≡ some t) × ScalesAt IsLower trace num_points t)
  unfolding scale_down_mutate
  scale_down_mutate-Scales num_points k some_left enough covers =
      let n = length-type_indices random_integer trace in
      Returns-if (length positions == 0) (λ e. absurd (ground (arith, n)))
        λ _.
          scale_drawn-Returns IsLower (scale_down_step rt) trace rt ok num_points k
            scale_down_step-Writes (omega (arith, n)) (omega (arith, n)) (rw n covers)

  -- If there is an integer choice, the mutator that scales up returns a trace in which NumPoints
  -- of them, or all if there are fewer, no two of them at one position, have twice their number,
  -- or Max where that is less. Twice the number is a word of 64 bits, which wraps around as Go's
  -- int does, and is kept where it stands for a negative int. All else is as it was. The loop ends
  -- within k rounds, where k draws, from wherever they begin, reach every integer choice. It is
  -- asked that Max is an int and not negative.
  pub scale_up_mutate-Scales :
      (num_points most k : ℕ)
      → most < 2 ^ 63
      → 0 < count_type random_integer trace.l
      → ((g : G) → Covers rt (count_type random_integer trace.l) k g)
      → Returns (scale_up_mutate rt num_points most (suc k) trace events) (λ r.
        (t : Trace) × (r ≡ some t)
        × ScalesAt (IsDoubled most) trace (min num_points (count_type random_integer trace.l)) t)
  unfolding scale_up_mutate
  scale_up_mutate-Scales num_points most k small some_left covers =
      let n = length-type_indices random_integer trace in
      Returns-if (length positions == 0) (λ e. absurd (ground (arith, n)))
        λ _.
          (let choices : ℕ =
              if ltb num_points (length positions) then num_points else length positions in
            let same : choices ≡ min num_points (count_type random_integer trace.l) =
              ground (arith, n) in
            rw (← same) (
              scale_drawn-Returns (IsDoubled most) (scale_up_step rt most) trace rt ok choices k
                (scale_up_step-Writes most small) (omega (arith, n)) (ground (arith, n))
                (rw n covers)))
