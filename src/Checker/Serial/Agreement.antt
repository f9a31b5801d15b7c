-- ===== src/Checker/Serial/Agreement.antt =====
-- What SerializabilityChecker decides.
use model_guiding_fuzz.Common.{
  Bool, List, Option, Perm, Random, done, get_elem?, length, map, none, some, true, ℕ, ◌+◌, ◌<◌,
  ◌↔◌, ◌≡◌, ◌≤◌,
}
use mathlib.Core.List.{Mem}
use mathlib.Core.List.Perm
use model_guiding_fuzz.Types.Event.{Entry}
use model_guiding_fuzz.Raft.Library.{RaftLibrary}

-- What the checker compares of an entry: all but its type.
abbrev pub compared : Entry → ℕ × ℕ × List ℕ
compared e = (e.term, e.index, e.payload)

abbrev compared_of : Option Entry → Option (ℕ × ℕ × List ℕ)
compared_of none = none
compared_of (some e) = some (compared e)

-- What the checker compares of the entry at a position, if there is one.
abbrev pub compared_at : List Entry → ℕ → Option (ℕ × ℕ × List ℕ)
compared_at log i = compared_of (get_elem? log i)

-- Both logs have entries with the same terms, indices and data before the position `n`.
abbrev pub AgreeOn : ℕ → List Entry → List Entry → Type 0
AgreeOn n xs ys = (k : ℕ) → k < n → compared_at xs k ≡ compared_at ys k

module _ {G : Type 0} where
  -- A run that returns a decision of `P`.
  abbrev pub Decides : Random G Bool → G → Type 0 → Type 0
  Decides m g P = (b : Bool) × (m g ≡ done (b, g)) × ((b ≡ true) ↔ P)

AgreeOn-IsProp : (n : ℕ) (xs ys : List Entry) → IsProp (AgreeOn n xs ys)
AgreeOn-IsProp n xs ys = hlevel

module _ {G : Type 0} (lib : RaftLibrary G) (log : lib.MemoryStorage → List Entry) where
  -- The storage of a node gives its log, which has the entries up to `least`.
  abbrev pub Reads : ℕ → ℕ × lib.MemoryStorage → Type 0
  Reads least p =
      ((g : G) → lib.storage_entries 1 (least + 1) 100 p.1 g ≡ done (some (log p.1), g))
      × (least ≤ length (log p.1))

  abbrev logs_of : List (ℕ × lib.MemoryStorage) → List (List Entry)
  logs_of ps = map (λ p. log p.1) ps

  -- Any two of the storages agree.
  abbrev pub AllAgree : ℕ → List (ℕ × lib.MemoryStorage) → Type 0
  AllAgree least ps =
      (p q : ℕ × lib.MemoryStorage) → Mem p ps → Mem q ps → AgreeOn least (log p.1) (log q.1)
