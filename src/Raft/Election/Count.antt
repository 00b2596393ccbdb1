-- ===== src/Raft/Election/Count.antt =====
-- The count of votes of an election.
use mathlib.Core.Path.{◌∙◌}
use logic_raft.Base.{
  ℕ, ◌+◌, ◌/◌, ◌<◌, ◌≤◌, ◌≡◌, refl, true, Option, none, some, ok, arith, length, replicate, ltb,
  if◌then◌else◌,
}
use logic_raft.Log.{size}
use logic_raft.Gob.{Gob}
use logic_raft.Raft.{Raft, Value, candidate, leader}
use logic_raft.Raft.Roles.Leader.{become_leader_exact}
use logic_raft.Raft.Replication.{replication_tick}
use logic_raft.Raft.Election.{RequestVoteReply, handle_vote_reply}

module _ {C : Type 0} (g : Gob (Value C)) where
  abbrev elected : Raft C → Raft C
  elected rf = record rf {
    role = leader;
    next_index = replicate rf.peers (size rf.log);
    match_index = replicate rf.peers rf.log.base;
  }

  -- What a reply of the election of `term` does.
  abbrev counted : ℕ → RequestVoteReply → ℕ → Raft C → ℕ × Raft C × Option ℕ
  counted term reply votes rf =
      if ltb (rf.peers / 2) (if reply.vote_granted then votes + 1 else votes)
      then ((if reply.vote_granted then votes + 1 else votes), elected rf, some term)
      else ((if reply.vote_granted then votes + 1 else votes), rf, none)

  vote_reply_exact :
      (term votes : ℕ) (reply : RequestVoteReply) (rf : Raft C)
      → length rf.next_index ≡ rf.peers
      → length rf.match_index ≡ rf.peers
      → rf.role ≡ candidate
      → reply.term ≤ rf.current_term
      → handle_vote_reply g term (some reply) votes rf ≡ ok (counted term reply votes rf)
  unfolding handle_vote_reply
  vote_reply_exact term votes reply rf h k c e = ground (arith, become_leader_exact rf h k)

  -- The context test of the reply compares the current term with itself, so votes of an election of
  -- an earlier term count: a candidate that has moved on to a later term, with one index of each
  -- kind for every peer, becomes the leader of that later term if they are more than half of the
  -- peers. The replication loop that it starts is one of the earlier term, and ends in its first
  -- round.
  pub stale_votes_elect :
      (term votes : ℕ) (reply : RequestVoteReply) (rf : Raft C)
      → length rf.next_index ≡ rf.peers
      → length rf.match_index ≡ rf.peers
      → rf.role ≡ candidate
      → term < rf.current_term
      → reply.term ≤ rf.current_term
      → reply.vote_granted ≡ true
      → rf.peers / 2 < votes + 1
      → (rf' : Raft C) × (handle_vote_reply g term (some reply) votes rf
          ≡ ok (votes + 1, rf', some term))
        × (rf'.role ≡ leader)
        × (rf'.current_term ≡ rf.current_term)
        × (replication_tick term rf' ≡ ok (none, rf'))
  unfolding replication_tick
  stale_votes_elect term votes reply rf h k c old e v more = (
    elected rf,
    vote_reply_exact term votes reply rf h k c e ∙ ground (arith, v),
    refl,
    refl,
    ground arith,
  )
