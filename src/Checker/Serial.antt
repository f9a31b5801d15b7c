-- ===== src/Checker/Serial.antt =====
-- checker.go, SerializabilityChecker: whether the logs of the storages agree on the entries that
-- all nodes have committed. The indices of the slices are checked, as Go does.
pub mod Agreement
use model_guiding_fuzz.Common.{
  Bool, List, Option, Random, Runtime, [], drop, false, get_elem?, if◌then◌else◌, ltb, none,
  or_panic, pure, range, some, suc, true, zero, ℕ, ◌&&◌, ◌+◌, ◌==◌, ◌>>=◌, ◌∷◌,
}
use model_guiding_fuzz.Types.Event.{Entry}
use model_guiding_fuzz.Raft.Library.{RaftLibrary, Status}
use model_guiding_fuzz.Raft.{RaftEnvironment}
use model_guiding_fuzz.Checker.{Checker}

-- The loop over the states, whose order does not matter to a minimum.
unfoldable pub min_commit : List (ℕ × Status) → ℕ → ℕ
min_commit [] least = least
min_commit ((id, state) ∷ rest) least =
    min_commit rest (if ltb state.commit least then state.commit else least)

unfoldable pub bytes_equal : List ℕ → List ℕ → Bool
bytes_equal [] [] = true
bytes_equal [] (y ∷ ys) = false
bytes_equal (x ∷ xs) [] = false
bytes_equal (x ∷ xs) (y ∷ ys) = x == y && bytes_equal xs ys

unfoldable pub same_entry : Entry → Entry → Bool
unfolding bytes_equal
same_entry cur l = cur.term == l.term && (cur.index == l.index && bytes_equal cur.payload l.payload)

module _ {G : Type 0} where
  -- The inner loop: the entry at `i` of each of the other logs, up to the first that differs.
  unfoldable pub agree_at : ℕ → Entry → List (List Entry) → Random G Bool
  unfolding same_entry
  agree_at i l [] = pure true
  agree_at i l (log ∷ rest) =
      let more = agree_at i l rest in
      or_panic (get_elem? log i) >>= λ cur. if same_entry cur l then more else pure false

  -- The outer loop, from `i` on, with `n` rounds left.
  unfoldable pub agree : ℕ → ℕ → List (List Entry) → Random G Bool
  unfolding agree_at
  agree zero i logs = pure true
  agree (suc n) i logs =
      let more = agree n (i + 1) logs in
      or_panic (get_elem? logs 0) >>= λ first. or_panic (get_elem? first i) >>= λ l.
      agree_at i l (drop 1 logs) >>= λ same. if same then more else pure false

  module _ (lib : RaftLibrary G) where
    -- Nothing where a storage returns an error.
    unfoldable pub read_logs :
        ℕ → List (ℕ × lib.MemoryStorage) → Random G (Option (List (List Entry)))
    read_logs least [] = pure (some [])
    read_logs least ((id, storage) ∷ rest) =
        let more = read_logs least rest in
        lib.storage_entries 1 (least + 1) 100 storage >>= λ read. elim read [
          | none ↦ pure none
          | some l ↦ more >>= λ logs. pure (elim logs [ none ↦ none | some ls ↦ some (l ∷ ls) ])
        ]

    unfoldable judge : ℕ → Option (List (List Entry)) → Random G Bool
    unfolding agree
    judge least none = pure false
    judge least (some logs) = agree least 0 logs

    unfoldable pub serializability_checker : Runtime G → Checker lib
    unfolding min_commit read_logs judge
    serializability_checker rt re =
        let least = min_commit re.cur_states 100 in
        if least == 0
        then pure true
        else (range rt re.storages >>= λ order. read_logs least order >>= judge least)
