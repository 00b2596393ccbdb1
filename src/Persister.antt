-- ===== src/Persister.antt =====
-- src/raft/persister.go: stable storage. A slice of bytes is a list of numbers; the mutex makes
-- each method atomic. The clone of a slice is its value; `clone` of nil is empty and not nil.
use logic_raft.Base.{ℕ, List, [], length}

abbrev pub Bytes : Type 0
Bytes = List ℕ

pub record Persister : Type 0 where
  pub raftstate : Bytes
  pub snapshot : Bytes

unfoldable pub make_persister : Persister
make_persister = record { raftstate = []; snapshot = [] }

unfoldable pub copy : Persister → Persister
unfolding make_persister
copy ps = let np = make_persister in record np { raftstate = ps.raftstate; snapshot = ps.snapshot }

unfoldable pub read_raft_state : Persister → Bytes
read_raft_state ps = ps.raftstate

unfoldable pub raft_state_size : Persister → ℕ
raft_state_size ps = length ps.raftstate

unfoldable pub save : Bytes → Bytes → Persister → Persister
save raftstate snapshot ps = record ps { raftstate = raftstate; snapshot = snapshot }

unfoldable pub read_snapshot : Persister → Bytes
read_snapshot ps = ps.snapshot

unfoldable pub snapshot_size : Persister → ℕ
snapshot_size ps = length ps.snapshot
