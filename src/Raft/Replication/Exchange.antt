-- ===== src/Raft/Replication/Exchange.antt =====
-- Rounds of replication with one peer: what the leader sends, the peer's handler, and the reply.
use logic_raft.Base.{ℕ, zero, suc, some, Result, ok, ◌>>=◌}
use logic_raft.Gob.{Gob}
use logic_raft.Raft.{Raft, Value, Clock}
use logic_raft.Raft.Messages.{Outgoing, append_entries_rpc, install_snapshot_rpc}
use logic_raft.Raft.Replication.{message_for, append_entries, handle_append_reply}
use logic_raft.Raft.Snapshot.{install_snapshot, handle_snapshot_reply}

module _ {C : Type 0} (g : Gob (Value C)) (clock : Clock) (peer : ℕ) where
  unfoldable pub deliver : Outgoing C → Raft C → Raft C → Result (Raft C × Raft C)
  deliver (append_entries_rpc args) leader follower = do
    answered ← append_entries g clock args follower
    leader' ← handle_append_reply g peer args leader.current_term (some answered.0) leader
    ok (leader', answered.1)
  deliver (install_snapshot_rpc args) leader follower = do
    answered ← install_snapshot g args follower
    leader' ← handle_snapshot_reply g peer args (some answered.0) leader
    ok (leader', answered.2)

  -- One round, in which neither the request nor the reply is lost.
  unfoldable pub exchange : Raft C → Raft C → Result (Raft C × Raft C)
  unfolding deliver
  exchange leader follower = do sent ← message_for peer leader; deliver sent leader follower

  unfoldable pub exchanges : ℕ → Raft C → Raft C → Result (Raft C × Raft C)
  exchanges zero leader follower = ok (leader, follower)
  exchanges (suc n) leader follower = do
    after ← exchange leader follower
    exchanges n after.0 after.1
