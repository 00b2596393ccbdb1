-- ===== src/Raft/Majority.antt =====
-- `getMajorityIndexLocked` of src/raft/raft_replication.go. `sort.Ints` of Go's library is an
-- insertion sort here: both give the one list in order with the same elements.
pub mod Exact
use logic_raft.Base.{ℕ, ◌-◌, ◌/◌, List, [], ◌∷◌, Result, leb, if◌then◌else◌, length, index}
use logic_raft.Raft.{Raft}

unfoldable pub insert : ℕ → List ℕ → List ℕ
insert x [] = x ∷ []
insert x (y ∷ ys) = if leb x y then x ∷ y ∷ ys else y ∷ insert x ys

unfoldable pub sort_ints : List ℕ → List ℕ
unfolding insert
sort_ints [] = []
sort_ints (x ∷ xs) = insert x (sort_ints xs)

-- `(len - 1) / 2` is 0 for an empty slice, whose index 0 is a panic, as in Go.
unfoldable pub get_majority_index_locked : {C : Type 0} → Raft C → Result ℕ
unfolding sort_ints
get_majority_index_locked rf =
    let tmp_indexes = sort_ints rf.match_index in
    let majority_idx = (length tmp_indexes - 1) / 2 in index tmp_indexes majority_idx
