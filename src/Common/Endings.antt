-- ===== src/Common/Endings.antt =====
-- Total correctness of code that calls the raft library, which may panic itself.
use mathlib.Core.Bool.{Bool, true, false}
use mathlib.Core.List.{List, [], ◌∷◌, Perm}
use mathlib.Core.Logic.{◌⊎◌, inl, inr}
use mathlib.Core.Option.{Option, some}
use mathlib.Core.Path.{◌≡◌, refl}
use model_guiding_fuzz.Common.Tests.{if◌then◌else◌}
use model_guiding_fuzz.Common.Lists.{All}
use model_guiding_fuzz.Common.Effects.{
  done, library_panic, Random, pure, each, ◌>>=◌, or_panic, Runtime, IsRuntime, range, >>=-done,
}
use model_guiding_fuzz.Common.Postconditions.{Ensures}
use model_guiding_fuzz.Common.Totality.{Returns, Returns-pure, Returns-or_panic, Returns-range}

-- From every state of the run time, the code returns a result that satisfies `P`, or the raft
-- library panics in it: the code itself neither panics nor goes on for ever.
pub record Ends {G A : Type 0} (m : Random G A) (P : A → Type 0) : Type 0 where
  pub ending : (g : G) → ((a : A) × (g' : G) × (m g ≡ done (a, g')) × P a) ⊎ (m g ≡ library_panic)

abbrev pub Halts : {G A : Type 0} → Random G A → Type 0
Halts m = Ends m (λ _. Unit)

module _ {G : Type 0} {A : Type 0} where
  pub Ends-Returns : {m : Random G A} {P : A → Type 0} → Returns m P → Ends m P
  Ends-Returns h = record { ending = λ g. inl (h.result g) }

  pub Ends-pure : {P : A → Type 0} (a : A) → P a → Ends {G = G} (pure a) P
  Ends-pure a p = Ends-Returns (Returns-pure a p)

  -- A panic of the library.
  pub Ends-library_panic :
      {m : Random G A} {P : A → Type 0} → ((g : G) → m g ≡ library_panic) → Ends m P
  Ends-library_panic h = record { ending = λ g. inr (h g) }

  pub Ends-and :
      {m : Random G A} {P Q : A → Type 0} → Ends m Q → Ensures m P → Ends m (λ a. P a × Q a)
  Ends-and h k = record {
    ending = λ g. elim (h.ending g) [
      | inl (a, g', e, q) ↦ inl (a, g', e, (k.returns g a g' e, q))
      | inr e ↦ inr e
    ];
  }

  pub Ends-weaken :
      {m : Random G A} {P Q : A → Type 0} → ((a : A) → P a → Q a) → Ends m P → Ends m Q
  Ends-weaken f h = record {
    ending = λ g. elim (h.ending g) [ inl (a, g', e, p) ↦ inl (a, g', e, f a p) | inr e ↦ inr e ];
  }

  -- Code that ends satisfies its postconditions.
  pub Ends-Ensures : {m : Random G A} {P : A → Type 0} → Halts m → Ensures m P → Ends m P
  Ends-Ensures h k = Ends-weaken (λ a p. p.0) (Ends-and h k)

  pub Ends-if :
      {m n : Random G A} {P : A → Type 0} (b : Bool)
      → (b ≡ true → Ends m P)
      → (b ≡ false → Ends n P)
      → Ends (if b then m else n) P
  Ends-if true h k = h refl
  Ends-if false h k = k refl

  pub Ends-or_panic :
      (o : Option A) (a : A) → o ≡ some a → Ends {G = G} (or_panic o) (λ b. o ≡ some b)
  Ends-or_panic o a e = Ends-Returns (Returns-or_panic o a e)

  pub Ends-bind :
      {B : Type 0} {m : Random G A} {f : A → Random G B} {P : A → Type 0} {Q : B → Type 0}
      → Ends m P
      → ((a : A) → P a → Ends (f a) Q)
      → Ends (m >>= f) Q
  Ends-bind {B} {m} {f} {P} {Q} h k = record {
    ending = λ g. elim (h.ending g) [
      | inl (a, g', e, p) ↦ elim ((k a p).ending g') as (λ _. Result g) [
        | inl (b, g'', e', q) ↦ inl (b, g'', rw (>>=-done m f g e) e', q)
        | inr e' ↦ inr (rw (>>=-done m f g e) e')
      ]
      | inr e ↦ inr (rw (e, ◌>>=◌))
    ];
  }
    where
      Result : G → Type 0
      Result g =
          ((b : B) × (g' : G) × ((m >>= f) g ≡ done (b, g')) × Q b) ⊎ ((m >>= f) g ≡ library_panic)

pub Ends-range :
    {G A : Type 0} (rt : Runtime G)
    → IsRuntime rt
    → (xs : List A) → Ends (range rt xs) (λ ys. Perm ys xs)
Ends-range rt ok xs = Ends-Returns (Returns-range rt ok xs)

-- A loop over elements with `Q` ends, and keeps an invariant, if each of its rounds does.
pub Ends-each_inv :
    {G A S : Type 0} {f : A → S → Random G S} (Q : A → Type 0) (P : S → Type 0)
    → ((x : A) (s : S) → Q x → P s → Ends (f x s) P)
    → (xs : List A) (s : S) → All Q xs
    → P s
    → Ends (each f xs s) P
Ends-each_inv Q P round [] s q p = Ends-pure s p
Ends-each_inv Q P round (x ∷ xs) s q p =
    Ends-bind (round x s q.0 p) λ s' p'. Ends-each_inv Q P round xs s' q.1 p'

-- A loop ends, keeps a relation that each of its rounds keeps, and leaves every element with `E`,
-- which the relation keeps, too.
pub Ends-each_all :
    {G A S : Type 0} {f : A → S → Random G S} (Q : A → Type 0) (R : S → S → Type 0)
    (E : A → S → Type 0)
    → ((s : S) → R s s)
    → ((s t u : S) → R s t → R t u → R s u)
    → ((x : A) (s t : S) → R s t → E x s → E x t)
    → ((x : A) (s : S) → Q x → Ends (f x s) (λ t. R s t × E x t))
    → (xs : List A) (s : S) → All Q xs
    → Ends (each f xs s) (λ t. R s t × All (λ x. E x t) xs)
Ends-each_all Q R E r t keeps round [] s q = Ends-pure s (r s, tt)
Ends-each_all Q R E r t keeps round (x ∷ xs) s q = Ends-bind (round x s q.0) λ s' (p, e).
    Ends-weaken (λ u (p', es). (t s s' u p p', (keeps x s' u p' e, es)))
      (Ends-each_all Q R E r t keeps round xs s' q.1)
