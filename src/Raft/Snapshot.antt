-- ===== src/Raft/Snapshot.antt =====
-- src/raft/raft_snapshot.go: trimming the log behind a snapshot, and the InstallSnapshot handler.
pub mod Trim
pub mod Install
use logic_raft.Base.{
  ℕ, zero, suc, ◌+◌, ◌-◌, true, false, ◌||◌, Option, none, some, [], Result, ok, ◌>>=◌, ltb, leb,
  if◌then◌else◌, put,
}
use logic_raft.Log.{Log, dummy, copy, append, get, size}
use logic_raft.Gob.{Gob}
use logic_raft.Persister.{Bytes}
use logic_raft.Raft.{Raft, Value, ApplyMsg}
use logic_raft.Raft.Persistence.{persist_locked}
use logic_raft.Raft.Roles.{become_follower_locked}
use logic_raft.Raft.Messages.{InstallSnapshotArgs, InstallSnapshotReply}

module _ {C : Type 0} where
  -- The loop of both methods: copies the records of `log` from `i` on to `new_log`.
  unfoldable pub copy_records : ℕ → ℕ → Log C → Log C → Result (Log C)
  unfolding get copy append
  copy_records zero i log new_log = ok new_log
  copy_records (suc left) i log new_log = do
    r ← get log i
    copy_records left (suc i) log (append new_log (copy r))

  -- The new log, with the dummy record for `index`; the loop has no round if `index` is not below
  -- the last record.
  unfoldable pub trim : ℕ → ℕ → Log C → Result (Log C)
  unfolding copy_records size append
  trim index term log =
      copy_records (size log - (index + 1)) (index + 1) log
        (append (record { records = []; base = index }) (dummy term))

  unfoldable pub take_snapshot : Gob (Value C) → ℕ → Option Bytes → Raft C → Result (Raft C)
  unfolding trim persist_locked get
  take_snapshot g index snapshot rf =
      if ltb rf.commit_index index || ltb index rf.log.base then ok rf else (do
        last ← get rf.log index
        new_log ← trim index last.term rf.log
        ok (persist_locked g snapshot (record rf { log = new_log })))

  -- The body of the method is empty.
  unfoldable pub cond_install_snap : Raft C → Raft C
  cond_install_snap rf = rf

  -- The second half of `snapshotToPeer`.
  unfoldable pub handle_snapshot_reply :
      Gob (Value C)
      → ℕ
      → InstallSnapshotArgs
      → Option InstallSnapshotReply
      → Raft C
      → Result (Raft C)
  unfolding become_follower_locked put
  handle_snapshot_reply g peer args none rf = ok rf
  handle_snapshot_reply g peer args (some reply) rf =
      if ltb rf.current_term reply.term then ok (become_follower_locked g reply.term rf) else (do
        next ← put rf.next_index peer (args.last_included_index + 1)
        matched ← put rf.match_index peer args.last_included_index
        ok (record rf { next_index = next; match_index = matched }))

  unfoldable pub snapshot_msg : InstallSnapshotArgs → ApplyMsg C
  snapshot_msg args = record {
    command_valid = false;
    command = none;
    command_index = 0;
    snapshot_valid = true;
    snapshot = args.bytes;
    snapshot_term = args.last_included_term;
    snapshot_index = args.last_included_index;
  }

  -- The part of `InstallSnapshot` that replaces the log.
  unfoldable pub install : Gob (Value C) → InstallSnapshotArgs → Raft C → Result (Raft C)
  unfolding trim persist_locked
  install g args rf = do
    new_log ← trim args.last_included_index args.last_included_term rf.log
    let committed : ℕ =
        if ltb rf.commit_index args.last_included_index
        then args.last_included_index
        else rf.commit_index
    let applied : ℕ =
        if ltb rf.last_applied args.last_included_index
        then args.last_included_index
        else rf.last_applied
    ok (
        persist_locked g args.bytes
          (record rf { log = new_log; commit_index = committed; last_applied = applied }))

  -- The reply, what is sent to the service under the lock, and the new state. That the method holds
  -- the lock until the service takes the message is in Kv/Step/Locks.antt.
  unfoldable pub install_snapshot :
      Gob (Value C)
      → InstallSnapshotArgs
      → Raft C
      → Result (InstallSnapshotReply × Option (ApplyMsg C) × Raft C)
  unfolding become_follower_locked install snapshot_msg
  install_snapshot g args rf =
      let reply : InstallSnapshotReply = record { term = rf.current_term } in
      let rf' = become_follower_locked g args.term rf in
      if ltb args.term rf.current_term
      then ok (reply, none, rf)
      else if leb args.last_included_index rf'.log.base
      then ok (reply, none, rf')
      else (do installed ← install g args rf'; ok (reply, some (snapshot_msg args), installed))
