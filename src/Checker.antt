-- ===== src/Checker.antt =====
-- checker.go: SingleLeader, and SerializabilityChecker (Serial).
pub mod Leaders
pub mod Serial
use model_guiding_fuzz.Common.{Bool, List, Random, [], if◌then◌else◌, leb, suc, ℕ, ◌==◌, ◌∷◌}
use model_guiding_fuzz.Raft.Library.{RaftLibrary, Status, state_leader}
use model_guiding_fuzz.Raft.{RaftEnvironment}

-- A checker may panic.
abbrev pub Checker : {G : Type 0} → RaftLibrary G → Type 0
Checker {G} lib = RaftEnvironment lib → Random G Bool

-- The loop over the states, whose order does not matter to a count.
unfoldable pub count_leaders : List (ℕ × Status) → ℕ
count_leaders [] = 0
count_leaders ((id, s) ∷ rest) =
    let more = count_leaders rest in if s.raft_state == state_leader then suc more else more

unfoldable pub single_leader : {G : Type 0} (lib : RaftLibrary G) → RaftEnvironment lib → Bool
unfolding count_leaders
single_leader lib re = leb (count_leaders re.cur_states) 1
