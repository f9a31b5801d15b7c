-- ===== src/Common/Effects.antt =====
-- What a run of Go code comes to, and code that draws random numbers.
-- `panic` is a panic of the program's own code, `library_panic` one that the raft library raises
-- itself; nothing recovers from either. `out_of_fuel` says that a loop did not end within its rounds.
use Prim.Native.Nat.{ℕ, ◌<◌}
use mathlib.Core.List.{List, [], ◌∷◌, Perm}
use mathlib.Core.Option.{Option, none, some}
use mathlib.Core.Bool.{Bool, true, false}
use native.Mathlib.Omega.{arith}
use mathlib.Core.Path.{◌≡◌, refl}
use model_guiding_fuzz.Common.Tests.{◌==◌, if◌then◌else◌}

pub data Outcome {ℓ} (A : Type ℓ) : Type ℓ where
  done : A → Outcome A
  panic : Outcome A
  library_panic : Outcome A
  out_of_fuel : Outcome A

-- Code that reads and advances the random source.
abbrev pub Random : Type 0 → Type 0 → Type 0
Random G A = G → Outcome (A × G)

abbrev pub pure : {G A : Type 0} → A → Random G A
pure a g = done (a, g)

infixl 5 ◌>>=◌
abbrev pub ◌>>=◌ : {G A B : Type 0} → Random G A → (A → Random G B) → Random G B
◌>>=◌ m f g = elim (m g) [
  | done (a, g') ↦ f a g'
  | panic ↦ panic
  | library_panic ↦ library_panic
  | out_of_fuel ↦ out_of_fuel
]

-- `for _, x := range xs`, with a step for each.
abbrev pub each : {G A S : Type 0} → (A → S → Random G S) → List A → S → Random G S
each f [] s = pure s
each f (x ∷ xs) s = f x s >>= each f xs

-- A value that Go would read out of range.
abbrev pub or_panic : {G A : Type 0} → Option A → Random G A
or_panic none g = panic
or_panic (some a) g = done (a, g)

-- The parts of the Go runtime that the program leaves its choices to: `draw n` is what
-- `rand.Intn(n)` returns for `n > 0`, `range_order` the order in which `range` visits a map.
pub record Runtime (G : Type 0) : Type 1 where
  pub draw : ℕ → G → ℕ × G
  pub range_order : (A : Type 0) → List A → G → List A × G

-- What the documentation of Go promises: `Intn(n)` lies in [0, n), and `range` visits every entry
-- of a map once.
pub record IsRuntime {G : Type 0} (rt : Runtime G) : Type 1 where
  pub draw_lt : (n : ℕ) (g : G) → 0 < n → (rt.draw n g).0 < n
  pub range_perm : (A : Type 0) (xs : List A) (g : G) → Perm (rt.range_order A xs g).0 xs

-- `rand.Intn` panics unless its argument is positive.
abbrev pub intn : {G : Type 0} → Runtime G → ℕ → Random G ℕ
intn rt n g = if n == 0 then panic else done (rt.draw n g)

abbrev pub range : {G A : Type 0} → Runtime G → List A → Random G (List A)
range {A} rt xs g = done (rt.range_order A xs g)

-- Inversion of a sequence that returned.
pub >>=-eq-done :
    {G A B : Type 0} (m : Random G A) (f : A → Random G B) (g : G) {r : B × G}
    → (m >>= f) g ≡ done r
    → (a : A) × (g' : G) × (m g ≡ done (a, g')) × (f a g' ≡ done r)
>>=-eq-done m f g {r} h = go (m g) refl h
  where
    go :
        (o : Outcome _)
        → m g ≡ o
        → (elim o [
          | done (a, g') ↦ f a g'
          | panic ↦ panic
          | library_panic ↦ library_panic
          | out_of_fuel ↦ out_of_fuel
        ])
          ≡ done r
        → (a : _) × (g' : _) × (m g ≡ done (a, g')) × (f a g' ≡ done r)
    go (done (a, g')) e h = (a, g', e, h)
    go panic e h = cc
    go library_panic e h = cc
    go out_of_fuel e h = cc

-- A sequence whose first part returns goes on with the second.
pub >>=-done :
    {G A B : Type 0} (m : Random G A) (f : A → Random G B) (g : G) {a : A} {g' : G}
    → m g ≡ done (a, g')
    → (m >>= f) g ≡ f a g'
>>=-done m f g e = rw (e, ◌>>=◌)

-- A sequence whose first part panics goes no further.
pub >>=-panic :
    {G A B : Type 0} (m : Random G A) (f : A → Random G B) (g : G)
    → m g ≡ panic
    → (m >>= f) g ≡ panic
>>=-panic m f g e = rw (e, ◌>>=◌)

pub intn-done :
    {G : Type 0} (rt : Runtime G) (n : ℕ) (g : G) → 0 < n → intn rt n g ≡ done (rt.draw n g)
intn-done rt n g h = let e : (n == 0) ≡ false = ground arith in rw e

pub or_panic-done :
    {G A : Type 0} (o : Option A) (g : G) {a : A} → o ≡ some a → or_panic o g ≡ done (a, g)
or_panic-done o g e = rw e

pub or_panic-inv :
    {G A : Type 0} (o : Option A) (g : G) {a : A} {g' : G}
    → or_panic o g ≡ done (a, g')
    → o ≡ some a
or_panic-inv none g e = absurd (cc)
or_panic-inv (some b) g e = cc

-- Code that returned something has passed the guard that returns nothing.
pub guard-some :
    {G A : Type 0} (b : Bool) (m : Random G (Option A)) (g : G) {a : A} {g' : G}
    → (if b then pure none else m) g ≡ done (some a, g')
    → m g ≡ done (some a, g')
guard-some true m g e = absurd (cc)
guard-some false m g e = e
