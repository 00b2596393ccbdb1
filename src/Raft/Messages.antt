-- ===== src/Raft/Messages.antt =====
-- The requests and replies of raft_replication.go and raft_snapshot.go. An index in a request is
-- never negative; the bytes of a snapshot are `none` for a nil slice.
use logic_raft.Base.{ℕ, Bool, Option, List}
use logic_raft.Log.{LogRecord}
use logic_raft.Persister.{Bytes}

pub record AppendEntriesArgs (C : Type 0) : Type 0 where
  pub term : ℕ
  pub leader_id : ℕ
  pub prev_log_index : ℕ
  pub prev_log_term : ℕ
  pub entries : List (LogRecord C)
  pub leader_commit : ℕ

pub record AppendEntriesReply : Type 0 where
  pub term : ℕ
  pub success : Bool
  pub conflict_index : ℕ
  pub conflict_term : ℕ

pub record InstallSnapshotArgs : Type 0 where
  pub term : ℕ
  pub leader_id : ℕ
  pub last_included_index : ℕ
  pub last_included_term : ℕ
  pub offset : ℕ
  pub bytes : Option Bytes
  pub done : Bool

pub record InstallSnapshotReply : Type 0 where
  pub term : ℕ

-- What the replication loop sends to a peer.
pub data Outgoing (C : Type 0) : Type 0 where
  append_entries_rpc : AppendEntriesArgs C → Outgoing C
  install_snapshot_rpc : InstallSnapshotArgs → Outgoing C
