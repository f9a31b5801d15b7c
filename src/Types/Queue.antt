-- ===== src/Types/Queue.antt =====
-- types.go, Queue: a first-in first-out queue over a slice.
use model_guiding_fuzz.Common.{
  List, Option, [], append-nil, length, length-append, map, none, refl, some, subst, suc, zero, ℕ,
  ◌++◌, ◌+◌, ◌∷◌, ◌≡◌,
}

pub record Queue {ℓ} (A : Type ℓ) : Type ℓ where
  pub q : List A

module _ {ℓ} {A : Type ℓ} where
  unfoldable pub new_queue : Queue A
  new_queue = record { q = [] }

  unfoldable pub push : Queue A → A → Queue A
  push s elem = record s { q = s.q ++ elem ∷ [] }

  unfoldable pub push_all : Queue A → List A → Queue A
  push_all s elems = record s { q = s.q ++ elems }

  pop_list : List A → Option A × Queue A
  pop_list [] = (none, record { q = [] })
  pop_list (x ∷ xs) = (some x, record { q = xs })

  -- The element, if there is one, and the queue that is left.
  unfoldable pub pop : Queue A → Option A × Queue A
  unfolding pop_list
  pop s = pop_list s.q

  unfoldable pub size : Queue A → ℕ
  size s = length s.q

  unfoldable pub reset : Queue A → Queue A
  reset s = record s { q = [] }

  -- `n` calls of `Pop`: what they return, oldest first, and the queue that is left.
  pops : ℕ → Queue A → List (Option A) × Queue A
  pops zero s = ([], s)
  pops (suc n) s = let (x, s') = pop s in let (xs, s'') = pops n s' in (x ∷ xs, s'')

  -- What a queue promises, on the list of its elements: `PushAll` adds behind, in order, and as
  -- many calls of `Pop` as the queue has elements return those elements, oldest first.
  pops_lem :
      (xs ys : List A)
      → pops (length xs) (record { q = xs ++ ys }) ≡ (map some xs, record { q = ys })
  unfolding pops pop
  pops_lem [] ys = refl
  pops_lem (x ∷ xs) ys = rw (pops_lem xs ys)

  -- First in, first out: elements pushed onto a queue come back behind those that it held, in the
  -- order in which they were pushed, and leave it empty.
  pops-push_all :
      (s : Queue A) (xs : List A)
      → pops (length s.q + length xs) (push_all s xs) ≡ (map some (s.q ++ xs), record { q = [] })
  unfolding push_all
  pops-push_all s xs = rw (← length-append s.q xs) (
      subst
        (λ l.
          pops (length (s.q ++ xs)) (record { q = l }) ≡ (map some (s.q ++ xs), record { q = [] }))
        (append-nil (s.q ++ xs)) (pops_lem (s.q ++ xs) []))

  pub pop-cons :
      (s : Queue A) (x : A) (xs : List A) → s.q ≡ x ∷ xs → pop s ≡ (some x, record { q = xs })
  unfolding pop
  pop-cons s x xs e = rw e
