-- ===== src/Guider/Coverage.antt =====
-- The score of a run counts exactly the states that are new.
use model_guiding_fuzz.Common.{
  Bool, List, Option, [], ap, arith, contains, contains-append, done, false, if◌then◌else◌, length,
  length-append, refl, suc, ℕ, ◌++◌, ◌+◌, ◌==◌, ◌||◌, ◌∷◌, ◌≡◌,
}
use Prim.Native.String.{String}
use model_guiding_fuzz.Types.Choice.{Trace}
use model_guiding_fuzz.Types.Event.{EventTrace}
use model_guiding_fuzz.Types.State.{State}
use model_guiding_fuzz.Guider.{
  TlcStateGuider, Score, coverage, add_states, record_trace, send_trace, note_states, check,
  score_states,
}

-- The different keys of a list of states that are not in a set, each counted once.
unfoldable pub fresh : List ℕ → List State → ℕ
fresh known [] = 0
fresh known (s ∷ ss) =
    let rest = fresh (s.key ∷ known) ss in
    let same = fresh known ss in if contains s.key known then same else suc rest

-- Whether a run visits a state.
abbrev pub visits : ℕ → List State → Bool
visits k [] = false
visits k (s ∷ ss) = (s.key == k) || visits k ss

add_states-contains :
    (ss : List State) (m : List ℕ) (n k : ℕ)
    → contains k (add_states ss m n).0 ≡ (contains k m || visits k ss)
unfolding add_states
add_states-contains [] m n k = ground arith
add_states-contains (s ∷ ss) m n k = ground (
  arith,
  add_states-contains ss m n k,
  add_states-contains ss (m ++ s.key ∷ []) (n + 1) k,
  contains-append k m (s.key ∷ []),
)

add_states-length :
    (ss : List State) (m : List ℕ) (n : ℕ)
    → length (add_states ss m n).0 + n ≡ length m + (add_states ss m n).1
unfolding add_states
add_states-length [] m n = refl
add_states-length (s ∷ ss) m n = ground (
  arith,
  add_states-length ss m n,
  add_states-length ss (m ++ s.key ∷ []) (n + 1),
  length-append m (s.key ∷ []),
)

fresh-same :
    (ss : List State) (m m' : List ℕ)
    → ((k : ℕ) → contains k m ≡ contains k m')
    → fresh m ss ≡ fresh m' ss
unfolding fresh
fresh-same [] m m' h = refl
fresh-same (s ∷ ss) m m' h = ground (
  arith,
  h s.key,
  fresh-same ss m m' h,
  fresh-same ss (s.key ∷ m) (s.key ∷ m') (λ k. ap (λ b. (s.key == k) || b) (h k)),
)

add_states-fresh : (ss : List State) (m : List ℕ) (n : ℕ) → (add_states ss m n).1 ≡ n + fresh m ss
unfolding add_states fresh
add_states-fresh [] m n = omega arith
add_states-fresh (s ∷ ss) m n = ground (
  arith,
  add_states-fresh ss m n,
  add_states-fresh ss (m ++ s.key ∷ []) (n + 1),
  fresh-same ss (m ++ s.key ∷ []) (s.key ∷ m)
      (λ k. ground (arith, contains-append k m (s.key ∷ []))),
)

-- What a check of a run does with the guider, where the TLC server answers.
module _ (execute : EventTrace → Option (List String × List ℕ)) (hash_trace : Trace → ℕ)
    (hash_states : List State → ℕ) where
  pub note_states-coverage :
      (trace : Trace) (states : List State) (t : TlcStateGuider)
      → let (score, t') = note_states execute hash_trace hash_states trace states t in
        (score.new_count ≡ fresh t.states_map states)
        × ((coverage t').unique_states ≡ (coverage t).unique_states + score.new_count)
        × ((k : ℕ) → contains k t'.states_map ≡ (contains k t.states_map || visits k states))
  unfolding note_states record_trace coverage
  note_states-coverage trace states t = (
    ground (arith, add_states-fresh states t.states_map 0),
    ground (arith, add_states-length states t.states_map 0),
    λ k. add_states-contains states t.states_map 0 k,
  )

  -- Where the server answers with states, Check of TLCStateGuider returns. Its score is the number
  -- of different states among them that were unknown; the count of the covered states grows by the
  -- score; and the known states are then the old ones and these.
  pub check-coverage :
      (trace : Trace) (events events' : EventTrace) (states : List State) (t : TlcStateGuider)
      → send_trace execute hash_trace hash_states events ≡ (events', done states)
      → (score : Score) × (t' : TlcStateGuider) × (check execute hash_trace hash_states trace events
            t
          ≡ done (score, t', events'))
        × (score.new_count ≡ fresh t.states_map states)
        × ((coverage t').unique_states ≡ (coverage t).unique_states + score.new_count)
        × ((k : ℕ) → contains k t'.states_map ≡ (contains k t.states_map || visits k states))
  unfolding check score_states
  check-coverage trace events events' states t h =
      let noted = note_states execute hash_trace hash_states trace states t in
      let (counted, grown, known) = note_states-coverage trace states t in
      (
        noted.0,
        noted.1,
        ap (score_states execute hash_trace hash_states trace t) h,
        counted,
        grown,
        known,
      )
