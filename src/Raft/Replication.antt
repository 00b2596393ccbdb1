-- ===== src/Raft/Replication.antt =====
-- src/raft/raft_replication.go: the replication loop, the AppendEntries handler and the commit
-- index.
pub mod Accept
pub mod Outcomes
pub mod Transfer
pub mod Commit
pub mod Backtrack
pub mod Exchange
pub mod Convergence
use logic_raft.Base.{
  ℕ, zero, suc, ◌+◌, ◌-◌, true, false, not, Option, none, some, List, [], ◌∷◌, ◌++◌, Result, ok,
  ◌>>=◌, ltb, leb, ◌==◌, if◌then◌else◌, length, index, put, slice_from, slice_to,
}
use logic_raft.Log.{get, size, first_log_for, log_string, invalid_term, invalid_index}
use logic_raft.Gob.{Gob}
use logic_raft.Persister.{read_snapshot}
use logic_raft.Raft.{Raft, Value, Clock, leader, signal, killed}
use logic_raft.Raft.Persistence.{persist_locked}
use logic_raft.Raft.Roles.{become_follower_locked}
use logic_raft.Raft.Election.{context_lost_locked, reset_election_timer_locked}
use logic_raft.Raft.Messages.{
  AppendEntriesArgs, AppendEntriesReply, Outgoing, append_entries_rpc, install_snapshot_rpc,
}
use logic_raft.Raft.Majority.{get_majority_index_locked}

module _ {C : Type 0} where
  -- What `startReplication` sends to one other peer. A `nextIndex` of 0 makes `prevIdx` -1, which
  -- is below the base like every one for which `nextIndex <= Base`.
  unfoldable pub message_for : ℕ → Raft C → Result (Outgoing C)
  unfolding get read_snapshot slice_from
  message_for peer rf = do
    next ← index rf.next_index peer
    let prev_idx = next - 1
    if leb next rf.log.base
        then (do
          first ← index rf.log.records 0
          ok (
              install_snapshot_rpc (record {
                term = rf.current_term;
                leader_id = rf.me;
                last_included_index = rf.log.base;
                last_included_term = first.term;
                offset = 0;
                bytes = some (read_snapshot rf.persister);
                done = false;
              })))
        else (do
          prev ← get rf.log prev_idx
          rest ← slice_from rf.log.records (prev_idx + 1 - rf.log.base)
          ok (
              append_entries_rpc (record {
                term = rf.current_term;
                leader_id = rf.me;
                prev_log_index = prev_idx;
                prev_log_term = prev.term;
                entries = rest;
                leader_commit = rf.commit_index;
              })))

  -- The loop of `startReplication` from `peer` on.
  unfoldable pub replicate_from : ℕ → ℕ → Raft C → Result (List (ℕ × Outgoing C) × Raft C)
  unfolding put size message_for
  replicate_from zero peer rf = ok ([], rf)
  replicate_from (suc left) peer rf =
      let own : Result (List (ℕ × Outgoing C) × Raft C) = (do
        matched ← put rf.match_index peer (size rf.log - 1)
        next ← put rf.next_index peer (size rf.log)
        replicate_from left (suc peer) (record rf { match_index = matched; next_index = next })) in
      let other : Result (List (ℕ × Outgoing C) × Raft C) = (do
        m ← message_for peer rf
        sent ← replicate_from left (suc peer) rf
        ok ((peer, m) ∷ sent.0, sent.1)) in
      if peer == rf.me then own else other

  -- What is sent, or `none` for the `false` that ends the replication loop of `term`.
  unfoldable pub start_replication : ℕ → Raft C → Result (Option (List (ℕ × Outgoing C)) × Raft C)
  unfolding context_lost_locked replicate_from
  start_replication term rf =
      if context_lost_locked leader term rf
      then ok (none, rf)
      else (do sent ← replicate_from rf.peers 0 rf; ok (some sent.0, sent.1))

  -- One round of `replicationTicker`: whether the loop goes on is whether something is returned.
  unfoldable pub replication_tick : ℕ → Raft C → Result (Option (List (ℕ × Outgoing C)) × Raft C)
  unfolding start_replication killed
  replication_tick term rf = if killed rf then ok (none, rf) else start_replication term rf

  -- Where a failed check moves `nextIndex` of a peer to; never forward.
  unfoldable pub next_after_conflict : AppendEntriesReply → ℕ → Raft C → ℕ
  unfolding first_log_for
  next_after_conflict reply prev_next rf =
      let first_term_index = first_log_for rf.log reply.conflict_term in
      let next : ℕ =
        if reply.conflict_term == invalid_term
        then reply.conflict_index
        else if not (first_term_index == invalid_index)
        then first_term_index
        else reply.conflict_index in
      if ltb prev_next next then prev_next else next

  -- The last part of `replicateToPeer`: the commit index moves to what a majority has, if that is
  -- a record of the current term. `&&` reads the record only if the index has grown.
  unfoldable pub advance_commit : Raft C → Result (Raft C)
  unfolding get_majority_index_locked get signal
  advance_commit rf = do
    majority_matched ← get_majority_index_locked rf
    if ltb rf.commit_index majority_matched
        then (do
          r ← get rf.log majority_matched
          ok (
              if r.term == rf.current_term
              then signal (record rf { commit_index = majority_matched })
              else rf))
        else ok rf

  -- The second half of `replicateToPeer`: the reply to `args`, sent to `peer` in `term`.
  unfoldable pub handle_append_reply :
      Gob (Value C)
      → ℕ
      → AppendEntriesArgs C
      → ℕ
      → Option AppendEntriesReply
      → Raft C
      → Result (Raft C)
  unfolding become_follower_locked context_lost_locked next_after_conflict advance_commit put
  handle_append_reply g peer args term none rf = ok rf
  handle_append_reply g peer args term (some reply) rf =
      if ltb rf.current_term reply.term
      then ok (become_follower_locked g reply.term rf)
      else if context_lost_locked leader term rf
      then ok rf
      else if not reply.success
      then (do
        prev_next ← index rf.next_index peer
        next ← put rf.next_index peer (next_after_conflict reply prev_next rf)
        ok (record rf { next_index = next }))
      else (do
        matched ← put rf.match_index peer (args.prev_log_index + length args.entries)
        next ← put rf.next_index peer (args.prev_log_index + length args.entries + 1)
        advance_commit (record rf { match_index = matched; next_index = next }))

  -- The reply to a request that is not accepted. The deferred function makes the log's text.
  unfoldable pub reject_entries :
      Clock → AppendEntriesReply → Raft C → Result (AppendEntriesReply × Raft C)
  unfolding reset_election_timer_locked log_string
  reject_entries clock reply rf = do
    text ← log_string rf.log
    ok (reply, reset_election_timer_locked clock rf)

  -- The end of `AppendEntries`, where the record before the entries is the one of the leader.
  unfoldable pub accept_entries :
      Gob (Value C)
      → Clock
      → AppendEntriesArgs C
      → AppendEntriesReply
      → Raft C
      → Result (AppendEntriesReply × Raft C)
  unfolding reset_election_timer_locked persist_locked slice_to signal
  accept_entries g clock args reply rf = do
    kept ← slice_to rf.log.records (args.prev_log_index + 1 - rf.log.base)
    let stored =
        persist_locked g none (record rf { log = record rf.log { records = kept ++ args.entries } })
    let committed =
        if ltb stored.commit_index args.leader_commit
        then signal (record stored { commit_index = args.leader_commit })
        else stored
    ok (record reply { success = true }, reset_election_timer_locked clock committed)

  unfoldable pub append_entries :
      Gob (Value C) → Clock → AppendEntriesArgs C → Raft C → Result (AppendEntriesReply × Raft C)
  unfolding become_follower_locked reject_entries accept_entries get size first_log_for
  append_entries g clock args rf =
      let reply : AppendEntriesReply = record {
        term = rf.current_term;
        success = false;
        conflict_index = 0;
        conflict_term = 0;
      } in
      let rf' = become_follower_locked g args.term rf in
      let too_short : AppendEntriesReply = record reply {
        conflict_term = invalid_term;
        conflict_index = size rf'.log;
      } in
      if ltb args.term rf.current_term
      then ok (reply, rf)
      else if leb (size rf'.log) args.prev_log_index
      then reject_entries clock too_short rf'
      else (do
        prev ← get rf'.log args.prev_log_index
        let mismatch : AppendEntriesReply = record reply {
          conflict_term = prev.term;
          conflict_index = first_log_for rf'.log prev.term;
        }
        if not (prev.term == args.prev_log_term)
            then reject_entries clock mismatch rf'
            else accept_entries g clock args reply rf')
