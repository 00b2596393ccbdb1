-- ===== src/Raft/Replication/Accept.antt =====
-- An accepted AppendEntries: the follower's log becomes what the leader sent.
use logic_raft.Base.{
  ◌≢◌, Result-cases, inl, inr, panic, ℕ, ◌+◌, ◌≤◌, ◌≡◌, true, ok, arith, length, index, ltb,
  if◌then◌else◌,
}
use logic_raft.Log.{LogRecord, get, size}
use logic_raft.Log.Records.{get_in_range}
use logic_raft.Log.Splice.{splice, size-splice, get-splice_kept, get-splice_new}
use logic_raft.Gob.{Gob}
use logic_raft.Raft.{Raft, Value, Clock, follower}
use logic_raft.Raft.Messages.{AppendEntriesArgs, AppendEntriesReply}
use logic_raft.Raft.Replication.{append_entries}

module _ {C : Type 0} (g : Gob (Value C)) where
  -- What an accepted request makes of a peer.
  pub record Accepted (args : AppendEntriesArgs C) (rf rf' : Raft C) : Type 0 where
    pub current : rf.current_term ≤ args.term
    pub spliced : rf'.log ≡ splice rf.log args.prev_log_index args.entries
    pub term : rf'.current_term ≡ args.term
    pub role : rf'.role ≡ follower
    pub committed :
        rf'.commit_index
        ≡ (if ltb rf.commit_index args.leader_commit then args.leader_commit else rf.commit_index)

  append_entries-Accepted_at :
      (clock : Clock) (args : AppendEntriesArgs C) (rf : Raft C) (r : LogRecord C)
      (reply : AppendEntriesReply) (rf' : Raft C)
      → append_entries g clock args rf ≡ ok (reply, rf')
      → reply.success ≡ true
      → get rf.log args.prev_log_index ≡ ok r
      → Accepted args rf rf' × (r.term ≡ args.prev_log_term)
  unfolding append_entries
  append_entries-Accepted_at clock args rf r reply rf' h s e = ground arith

  append_entries-reads :
      (clock : Clock) (args : AppendEntriesArgs C) (rf : Raft C) (reply : AppendEntriesReply)
      (rf' : Raft C)
      → append_entries g clock args rf ≡ ok (reply, rf')
      → reply.success ≡ true
      → get rf.log args.prev_log_index ≢ panic
  unfolding append_entries
  append_entries-reads clock args rf reply rf' h s e = ground arith

  pub append_entries-Accepted :
      (clock : Clock) (args : AppendEntriesArgs C) (rf : Raft C) (reply : AppendEntriesReply)
      (rf' : Raft C)
      → append_entries g clock args rf ≡ ok (reply, rf')
      → reply.success ≡ true
      → (r : LogRecord C) × (get rf.log args.prev_log_index ≡ ok r)
        × (r.term ≡ args.prev_log_term)
        × Accepted args rf rf'
  append_entries-Accepted clock args rf reply rf' h s =
      elim (Result-cases (get rf.log args.prev_log_index)) [
        | inl (r, e) ↦
            let (accepted, same) = append_entries-Accepted_at clock args rf r reply rf' h s e in
            (r, e, same, accepted)
        | inr e ↦ absurd (append_entries-reads clock args rf reply rf' h s e)
      ]

  -- What the log of a peer is after an accepted request: as it was up to the index before the
  -- entries, and then the entries, with nothing after them. The request's record before the
  -- entries is there, of the request's term; the peer is a follower in the term of the request,
  -- which was not older; its commit index is the greater of its own and the leader's.
  pub append_entries_copies :
      (clock : Clock) (args : AppendEntriesArgs C) (rf : Raft C) (reply : AppendEntriesReply)
      (rf' : Raft C)
      → append_entries g clock args rf ≡ ok (reply, rf')
      → reply.success ≡ true
      → ((r : LogRecord C) × (get rf.log args.prev_log_index ≡ ok r)
          × (r.term ≡ args.prev_log_term))
        × ((i : ℕ) → i ≤ args.prev_log_index → get rf'.log i ≡ get rf.log i)
        × ((j : ℕ) → get rf'.log (args.prev_log_index + 1 + j) ≡ index args.entries j)
        × (size rf'.log ≡ args.prev_log_index + 1 + length args.entries)
        × Accepted args rf rf'
  append_entries_copies clock args rf reply rf' h s =
      let (r, at, same, accepted) = append_entries-Accepted clock args rf reply rf' h s in
      let (above, below) = get_in_range rf.log args.prev_log_index r at in
      let prev = args.prev_log_index in
      (
        (r, at, same),
        λ i le. rw accepted.spliced (get-splice_kept rf.log prev args.entries above below i le),
        λ j. rw accepted.spliced (get-splice_new rf.log prev args.entries above below j),
        rw accepted.spliced (size-splice rf.log prev args.entries above below),
        accepted,
      )
