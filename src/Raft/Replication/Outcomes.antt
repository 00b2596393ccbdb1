-- ===== src/Raft/Replication/Outcomes.antt =====
-- The AppendEntries handler on every branch, and what goes from a leader to a follower.
use logic_raft.Base.{◌<◌, ◌≤◌, ◌≡◌, ◌≢◌, ◌↔◌, true, false, ok, panic, arith, length}
use logic_raft.Log.{LogRecord, get, size, first_log_for}
use logic_raft.Log.Records.{get_in_range, get_panic, first_record}
use logic_raft.Gob.{Gob}
use logic_raft.Raft.{Raft, Value, Clock}
use logic_raft.Raft.Messages.{AppendEntriesArgs, AppendEntriesReply}
use logic_raft.Raft.Replication.{append_entries}

module _ {C : Type 0} (g : Gob (Value C)) where
  -- A request that is not of an older term and whose index is below the base of the log, which is
  -- the last index of the snapshot, makes a peer with a record panic; no other request does.
  pub append_entries_panic :
      (clock : Clock) (args : AppendEntriesArgs C) (rf : Raft C)
      → 0 < length rf.log.records
      → (append_entries g clock args rf ≡ panic)
        ↔ ((rf.current_term ≤ args.term) × (args.prev_log_index < rf.log.base))
  unfolding append_entries
  append_entries_panic clock args rf h =
      let (first, e₀) = first_record rf.log h in
      (λ e. ground (arith, e₀, get_panic rf.log args.prev_log_index), λ e. ground (arith, e₀))

  -- A request of an older term is refused, and changes nothing.
  pub append_entries_stale :
      (clock : Clock) (args : AppendEntriesArgs C) (rf : Raft C)
      → args.term < rf.current_term
      → append_entries g clock args rf
        ≡ ok (
          record { term = rf.current_term; success = false; conflict_index = 0; conflict_term = 0 },
          rf,
        )
  unfolding append_entries
  append_entries_stale clock args rf h = ground arith

  -- What the handler promises of a request that it answers.
  pub record Checked (args : AppendEntriesArgs C) (rf : Raft C) (reply : AppendEntriesReply)
      (rf' : Raft C) : Type 0 where
    pub agreed :
        reply.success ≡ true
        → (rf.current_term ≤ args.term)
          × ((r : LogRecord C)
              → get rf.log args.prev_log_index ≡ ok r
              → r.term ≡ args.prev_log_term)
          × (args.prev_log_index < size rf.log)
    pub stale :
        args.term < rf.current_term
        → (reply.success ≡ false)
          × (reply.conflict_term ≡ 0)
          × (reply.conflict_index ≡ 0)
          × (rf' ≡ rf)
    pub too_short :
        rf.current_term ≤ args.term
        → size rf.log ≤ args.prev_log_index
        → (reply.success ≡ false) × (reply.conflict_term ≡ 0) × (reply.conflict_index ≡ size rf.log)
    pub mismatch :
        rf.current_term ≤ args.term
        → (r : LogRecord C) → get rf.log args.prev_log_index ≡ ok r
        → r.term ≢ args.prev_log_term
        → (reply.success ≡ false)
          × (reply.conflict_term ≡ r.term)
          × (reply.conflict_index ≡ first_log_for rf.log r.term)
    pub matched :
        rf.current_term ≤ args.term
        → (r : LogRecord C) → get rf.log args.prev_log_index ≡ ok r
        → r.term ≡ args.prev_log_term
        → reply.success ≡ true
    pub reads :
        rf.current_term ≤ args.term
        → args.prev_log_index < size rf.log
        → get rf.log args.prev_log_index ≢ panic
    pub refused : reply.success ≡ false → (rf'.log ≡ rf.log) × (rf'.commit_index ≡ rf.commit_index)
    pub old_term : reply.term ≡ rf.current_term

  -- Every reply of the handler. A request of an older term is refused with no conflict, and changes
  -- nothing. To another request the handler agrees exactly where its own record at the request's
  -- index has the term that the request names for it; the conflict that it reports otherwise is the
  -- size of a log that is too short, or the term of its record with the position that `firstLogFor`
  -- finds. Every reply carries the term that the peer had before, and a refusal leaves the log and
  -- the commit index as they are.
  pub append_entries-Checked :
      (clock : Clock) (args : AppendEntriesArgs C) (rf : Raft C) (reply : AppendEntriesReply)
      (rf' : Raft C)
      → append_entries g clock args rf ≡ ok (reply, rf')
      → Checked args rf reply rf'
  unfolding append_entries
  append_entries-Checked clock args rf reply rf' h = record {
    agreed = λ s. (ground arith, λ r e. ground arith, ground arith);
    stale = λ c. ground arith;
    too_short = λ c b. ground arith;
    mismatch = λ c r e d. ground (arith, get_in_range rf.log args.prev_log_index r e);
    matched = λ c r e s. ground (arith, get_in_range rf.log args.prev_log_index r e);
    reads = λ c b e. ground arith;
    refused = λ s. ground arith;
    old_term = ground arith;
  }
