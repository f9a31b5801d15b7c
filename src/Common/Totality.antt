-- ===== src/Common/Totality.antt =====
-- Total correctness of code that draws random numbers: that it returns, and what.
use Prim.Native.Nat.{ℕ, ◌<◌}
use mathlib.Core.Bool.{Bool, true, false}
use mathlib.Core.List.{List, [], ◌∷◌, Perm}
use mathlib.Core.Option.{Option, some}
use mathlib.Core.Path.{◌≡◌, refl}
use model_guiding_fuzz.Common.Tests.{if◌then◌else◌}
use model_guiding_fuzz.Common.Lists.{All}
use model_guiding_fuzz.Common.Effects.{
  done, Random, pure, each, intn, ◌>>=◌, or_panic, Runtime, IsRuntime, range, >>=-done, intn-done,
  or_panic-done,
}
use model_guiding_fuzz.Common.Postconditions.{Ensures}

-- The code returns, from every state of the run time, and its result satisfies `P`.
pub record Returns {G A : Type 0} (m : Random G A) (P : A → Type 0) : Type 0 where
  pub result : (g : G) → (a : A) × (g' : G) × (m g ≡ done (a, g')) × P a

-- The code returns.
abbrev pub Total : {G A : Type 0} → Random G A → Type 0
Total m = Returns m (λ _. Unit)

module _ {G : Type 0} {A : Type 0} where
  pub Returns-pure : {P : A → Type 0} (a : A) → P a → Returns {G = G} (pure a) P
  Returns-pure a p = record { result = λ g. (a, g, refl, p) }

  pub Returns-weaken :
      {m : Random G A} {P Q : A → Type 0} → ((a : A) → P a → Q a) → Returns m P → Returns m Q
  Returns-weaken f h = record {
    result = λ g. (let (a, g', e, p) = h.result g in (a, g', e, f a p));
  }

  -- Code that returns satisfies its postconditions.
  pub Returns-Ensures : {m : Random G A} {P : A → Type 0} → Total m → Ensures m P → Returns m P
  Returns-Ensures h k = record {
    result = λ g. (let (a, g', e, _) = h.result g in (a, g', e, k.returns g a g' e));
  }

  pub Returns-and :
      {m : Random G A} {P Q : A → Type 0} → Returns m Q → Ensures m P → Returns m (λ a. P a × Q a)
  Returns-and h k = record {
    result = λ g. (let (a, g', e, q) = h.result g in (a, g', e, (k.returns g a g' e, q)));
  }

  pub Returns-if :
      {m n : Random G A} {P : A → Type 0} (b : Bool)
      → (b ≡ true → Returns m P)
      → (b ≡ false → Returns n P)
      → Returns (if b then m else n) P
  Returns-if true h k = h refl
  Returns-if false h k = k refl

  pub Returns-or_panic :
      (o : Option A) (a : A) → o ≡ some a → Returns {G = G} (or_panic o) (λ b. o ≡ some b)
  Returns-or_panic o a e = record { result = λ g. (a, g, or_panic-done o g e, e) }

  pub Returns-bind :
      {B : Type 0} {m : Random G A} {f : A → Random G B} {P : A → Type 0} {Q : B → Type 0}
      → Returns m P
      → ((a : A) → P a → Returns (f a) Q)
      → Returns (m >>= f) Q
  Returns-bind {m} {f} h k = record {
    result = λ g.
        (let (a, g', e, p) = h.result g in
          let (b, g'', e', q) = (k a p).result g' in (b, g'', rw (>>=-done m f g e) e', q));
  }

  pub Returns-range :
      (rt : Runtime G) → IsRuntime rt → (xs : List A) → Returns (range rt xs) (λ ys. Perm ys xs)
  Returns-range rt ok xs = record {
    result = λ g. (let (ys, g') = rt.range_order A xs g in (ys, g', refl, ok.range_perm A xs g));
  }

pub Returns-intn :
    {G : Type 0} (rt : Runtime G)
    → IsRuntime rt
    → (n : ℕ) → 0 < n
    → Returns (intn rt n) (λ i. i < n)
Returns-intn rt ok n pos = record {
  result = λ g. ((rt.draw n g).0, (rt.draw n g).1, intn-done rt n g pos, ok.draw_lt n g pos);
}

-- A loop over elements with `Q` returns, and keeps an invariant, if each of its rounds does.
pub Returns-each_inv :
    {G A S : Type 0} {f : A → S → Random G S} (Q : A → Type 0) (P : S → Type 0)
    → ((x : A) (s : S) → Q x → P s → Returns (f x s) P)
    → (xs : List A) (s : S) → All Q xs
    → P s
    → Returns (each f xs s) P
Returns-each_inv Q P round [] s q p = Returns-pure s p
Returns-each_inv Q P round (x ∷ xs) s q p =
    Returns-bind (round x s q.0 p) λ s' p'. Returns-each_inv Q P round xs s' q.1 p'

-- A loop returns, keeps a relation that each of its rounds keeps, and leaves every element with
-- `E`, which the relation keeps, too.
pub Returns-each_all :
    {G A S : Type 0} {f : A → S → Random G S} (Q : A → Type 0) (R : S → S → Type 0)
    (E : A → S → Type 0)
    → ((s : S) → R s s)
    → ((s t u : S) → R s t → R t u → R s u)
    → ((x : A) (s t : S) → R s t → E x s → E x t)
    → ((x : A) (s : S) → Q x → Returns (f x s) (λ t. R s t × E x t))
    → (xs : List A) (s : S) → All Q xs
    → Returns (each f xs s) (λ t. R s t × All (λ x. E x t) xs)
Returns-each_all Q R E r t keeps round [] s q = Returns-pure s (r s, tt)
Returns-each_all Q R E r t keeps round (x ∷ xs) s q = Returns-bind (round x s q.0) λ s' (p, e).
    Returns-weaken (λ u (p', es). (t s s' u p p', (keeps x s' u p' e, es)))
      (Returns-each_all Q R E r t keeps round xs s' q.1)
