-- ===== src/Common/Postconditions.antt =====
-- Postconditions of code that draws random numbers, and their rules.
use Prim.Native.Nat.{ℕ, ◌<◌}
use mathlib.Core.Bool.{Bool, true, false}
use mathlib.Core.List.{List, [], ◌∷◌, Perm}
use mathlib.Core.Option.{Option, none, some}
use mathlib.Core.Path.{◌≡◌, refl, subst}
use native.Mathlib.Omega.{arith}
use model_guiding_fuzz.Common.Tests.{if◌then◌else◌}
use model_guiding_fuzz.Common.Lists.{All}
use model_guiding_fuzz.Common.Effects.{
  done, Random, pure, each, intn, ◌>>=◌, or_panic, Runtime, IsRuntime, range, >>=-eq-done,
  or_panic-inv,
}

-- If the code returns, then its result satisfies `P`.
pub record Ensures {G A : Type 0} (m : Random G A) (P : A → Type 0) : Type 0 where
  pub returns : (g : G) (a : A) (g' : G) → m g ≡ done (a, g') → P a

-- If the code returns something, and not nothing, then `P` holds of that.
abbrev pub Given : {A : Type 0} → (A → Type 0) → Option A → Type 0
Given P none = Unit
Given P (some a) = P a

module _ {G : Type 0} {A : Type 0} where
  pub Ensures-pure : {P : A → Type 0} (a : A) → P a → Ensures {G = G} (pure a) P
  Ensures-pure {P} a p = record {
    returns = λ g b g' e. (let same : a ≡ b = ground arith in subst P same p);
  }

  pub Ensures-any : (m : Random G A) → Ensures m (λ _. Unit)
  Ensures-any m = record { returns = λ g a g' e. tt }

  pub Ensures-weaken :
      {m : Random G A} {P Q : A → Type 0} → ((a : A) → P a → Q a) → Ensures m P → Ensures m Q
  Ensures-weaken f h = record { returns = λ g a g' e. f a (h.returns g a g' e) }

  pub Ensures-and :
      {m : Random G A} {P Q : A → Type 0} → Ensures m P → Ensures m Q → Ensures m (λ a. P a × Q a)
  Ensures-and h k = record { returns = λ g a g' e. (h.returns g a g' e, k.returns g a g' e) }

  pub Ensures-if :
      {m n : Random G A} {P : A → Type 0} (b : Bool)
      → (b ≡ true → Ensures m P)
      → (b ≡ false → Ensures n P)
      → Ensures (if b then m else n) P
  Ensures-if true h k = h refl
  Ensures-if false h k = k refl

  pub Ensures-or_panic :
      {P : A → Type 0} (o : Option A)
      → ((a : A) → o ≡ some a → P a)
      → Ensures {G = G} (or_panic o) P
  Ensures-or_panic o h = record { returns = λ g a g' e. h a (or_panic-inv o g e) }

  pub Ensures-bind :
      {B : Type 0} {m : Random G A} {f : A → Random G B} {P : A → Type 0} {Q : B → Type 0}
      → Ensures m P
      → ((a : A) → P a → Ensures (f a) Q)
      → Ensures (m >>= f) Q
  Ensures-bind {m} {f} h k = record {
    returns = λ g b g'' e.
        (let (a, g', e₁, e₂) = >>=-eq-done m f g e in
          (k a (h.returns g a g' e₁)).returns g' b g'' e₂);
  }

  pub Ensures-range :
      (rt : Runtime G) → IsRuntime rt → (xs : List A) → Ensures (range rt xs) (λ ys. Perm ys xs)
  Ensures-range rt ok xs = record {
    returns = λ g ys g' e.
        (let same : (rt.range_order A xs g).0 ≡ ys = cc in
          subst (λ zs. Perm zs xs) same (ok.range_perm A xs g));
  }

pub Ensures-intn :
    {G : Type 0} (rt : Runtime G) → IsRuntime rt → (n : ℕ) → Ensures (intn rt n) (λ i. i < n)
Ensures-intn rt ok n = record {
  returns = λ g i g' e.
      (let same : (rt.draw n g).0 ≡ i = ground (arith, e) in
        let pos : 0 < n = ground (arith, e) in subst (λ k. k < n) same (ok.draw_lt n g pos));
}

-- A loop keeps a relation that is reflexive, transitive and kept by each of its rounds.
pub Ensures-each :
    {G A S : Type 0} {f : A → S → Random G S} (R : S → S → Type 0)
    → ((s : S) → R s s)
    → ((s t u : S) → R s t → R t u → R s u)
    → ((x : A) (s : S) → Ensures (f x s) (R s))
    → (xs : List A) (s : S) → Ensures (each f xs s) (R s)
Ensures-each R r t h [] s = Ensures-pure s (r s)
Ensures-each R r t h (x ∷ xs) s =
    Ensures-bind (h x s) λ s' p. Ensures-weaken (λ u q. t s s' u p q) (Ensures-each R r t h xs s')

-- A loop over elements with `Q` keeps an invariant that each of its rounds keeps.
pub Ensures-each_inv :
    {G A S : Type 0} {f : A → S → Random G S} (Q : A → Type 0) (P : S → Type 0)
    → ((x : A) (s : S) → Q x → P s → Ensures (f x s) P)
    → (xs : List A) (s : S) → All Q xs
    → P s
    → Ensures (each f xs s) P
Ensures-each_inv Q P round [] s q p = Ensures-pure s p
Ensures-each_inv Q P round (x ∷ xs) s q p =
    Ensures-bind (round x s q.0 p) λ s' p'. Ensures-each_inv Q P round xs s' q.1 p'
