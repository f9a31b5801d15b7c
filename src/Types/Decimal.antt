-- ===== src/Types/Decimal.antt =====
-- strconv.Itoa and strconv.Atoi, on the bytes of a text: how a client request carries its number.
-- Numbers are not negative here, and texts have no sign. Atoi's error is dropped by the code,
-- which then has 0.
use model_guiding_fuzz.Common.{
  Bool-cases, List, Option, [], ap, arith, if◌then◌else◌, inl, inr, length, length-append, ltb,
  ltb→ge, ltb→lt, none, refl, some, suc, zero, ℕ, ◌%◌, ◌*◌, ◌++◌, ◌+◌, ◌-◌, ◌/◌, ◌<◌, ◌∷◌, ◌≡◌,
}

-- The digits of `n`, with as much fuel as there are digits.
itoa_on : ℕ → ℕ → List ℕ
itoa_on zero n = []
itoa_on (suc fuel) n =
    let rest = itoa_on fuel (n / 10) in
    if ltb n 10 then (48 + n) ∷ [] else rest ++ (48 + n % 10) ∷ []

unfoldable pub itoa : ℕ → List ℕ
unfolding itoa_on
itoa n = itoa_on (suc n) n

digit : ℕ → Option ℕ
digit c = if ltb c 48 then none else if ltb c 58 then some (c - 48) else none

add_digit : Option ℕ → Option ℕ → Option ℕ
add_digit none d = none
add_digit (some n) none = none
add_digit (some n) (some d) = some (n * 10 + d)

atoi_on : Option ℕ → List ℕ → Option ℕ
unfolding digit add_digit
atoi_on n [] = n
atoi_on n (c ∷ cs) = atoi_on (add_digit n (digit c)) cs

number_or_zero : Option ℕ → ℕ
number_or_zero none = 0
number_or_zero (some n) = n

unfoldable pub atoi : List ℕ → ℕ
unfolding atoi_on number_or_zero
atoi [] = 0
atoi (c ∷ cs) = number_or_zero (atoi_on (some 0) (c ∷ cs))

atoi_on-append :
    (n : Option ℕ) (xs : List ℕ) (c : ℕ)
    → atoi_on n (xs ++ c ∷ []) ≡ add_digit (atoi_on n xs) (digit c)
unfolding atoi_on
atoi_on-append n [] c = refl
atoi_on-append n (x ∷ xs) c = atoi_on-append (add_digit n (digit x)) xs c

digit-add : (k : ℕ) → k < 10 → digit (48 + k) ≡ some k
unfolding digit
digit-add k h = ground arith

atoi_on-itoa_on : (fuel n : ℕ) → n < fuel → atoi_on (some 0) (itoa_on fuel n) ≡ some n
unfolding itoa_on atoi_on add_digit
atoi_on-itoa_on zero n h = elim h [ ]
atoi_on-itoa_on (suc fuel) n h = elim (Bool-cases (ltb n 10)) [
  | inl one ↦ rw (one, digit-add n (ltb→lt n 10 one)) (ap some (omega arith))
  | inr more ↦
      let enough : n / 10 < fuel = omega (arith, ltb→ge n 10 more) in
      rw
        (
          more,
          atoi_on-append (some 0) (itoa_on fuel (n / 10)) (48 + n % 10),
          atoi_on-itoa_on fuel (n / 10) enough,
          digit-add (n % 10) (omega arith),
        )
        (ap some (omega arith))
]

atoi_cons : (xs : List ℕ) (n : ℕ) → atoi_on (some 0) xs ≡ some n → 0 < length xs → atoi xs ≡ n
unfolding atoi number_or_zero
atoi_cons [] n h pos = elim pos [ ]
atoi_cons (c ∷ cs) n h pos = rw h

itoa_on-nonempty : (fuel n : ℕ) → 0 < length (itoa_on (suc fuel) n)
unfolding itoa_on
itoa_on-nonempty fuel n = ground (arith, length-append (itoa_on fuel (n / 10)) ((48 + n % 10) ∷ []))

-- The number of a client request, which RunIteration writes in decimal digits into the entry, is
-- the number that Step reads back from it, for every number.
pub atoi-itoa : (n : ℕ) → atoi (itoa n) ≡ n
unfolding itoa
atoi-itoa n =
    atoi_cons (itoa_on (suc n) n) n (atoi_on-itoa_on (suc n) n (omega arith)) (itoa_on-nonempty n n)
