-- ===== src/Raft/Election/Grant.antt =====
-- When a vote is granted: the RequestVote handler and the rule of the Raft paper, from which it
-- differs where a candidate asks again.
use logic_raft.Base.{
  ℕ, ◌-◌, ◌<◌, ◌≤◌, ◌≡◌, ◌↔◌, ◌⊎◌, inl, inr, true, none, some, ok, panic, arith, Result-cases, ltb,
  if◌then◌else◌,
}
use logic_raft.Log.{last_log_term, size}
use logic_raft.Gob.{Gob}
use logic_raft.Raft.{Raft, Value, Clock, follower}
use logic_raft.Raft.Election.{RequestVoteArgs, RequestVoteReply, request_vote}

-- The candidate's log ends later than a log of that last term and last index: in a later term, or
-- in the same term and not before it.
abbrev pub UpToDate : RequestVoteArgs → ℕ → ℕ → Type 0
UpToDate args last_term last_index =
    (last_term < args.last_log_term)
    ⊎ ((last_term ≡ args.last_log_term) × (last_index ≤ args.last_log_index))

module _ {C : Type 0} (g : Gob (Value C)) where
  -- The rule of the paper, which also allows the vote where it was given to the same candidate.
  abbrev pub MayVote : RequestVoteArgs → ℕ → Raft C → Type 0
  MayVote args last_term rf =
      (rf.current_term ≤ args.term)
      × ((rf.current_term < args.term)
          ⊎ ((rf.voted_for ≡ none) ⊎ (rf.voted_for ≡ some args.candidate_id)))
      × UpToDate args last_term (size rf.log - 1)

  -- The peer has voted for this candidate in this term already.
  abbrev pub HasVotedFor : RequestVoteArgs → Raft C → Type 0
  HasVotedFor args rf = (rf.current_term ≡ args.term) × (rf.voted_for ≡ some args.candidate_id)

  abbrev pub Unmoved : Raft C → Raft C → Type 0
  Unmoved rf rf' =
      (rf'.log ≡ rf.log)
      × (rf'.commit_index ≡ rf.commit_index)
      × (rf'.last_applied ≡ rf.last_applied)

  -- What the handler promises of its reply and of the state after it.
  abbrev pub VoteOutcome : RequestVoteArgs → ℕ → Raft C → RequestVoteReply → Raft C → Type 0
  VoteOutcome args last_term rf reply rf' =
      ((reply.vote_granted ≡ true) ↔ (MayVote args last_term rf × (HasVotedFor args rf → ⊥)))
      × (reply.vote_granted ≡ true
          → (rf'.voted_for ≡ some args.candidate_id) × (rf'.current_term ≡ args.term))
      × (rf'.current_term ≡ (if ltb rf.current_term args.term then args.term else rf.current_term))
      × (rf.current_term < args.term → rf'.role ≡ follower)
      × (reply.term ≡ rf.current_term)
      × Unmoved rf rf'

  request_vote-ne-panic :
      (clock : Clock) (args : RequestVoteArgs) (last_term : ℕ) (rf : Raft C)
      → last_log_term rf.log ≡ ok last_term
      → request_vote g clock args rf ≡ panic
      → ⊥
  unfolding request_vote
  request_vote-ne-panic clock args last_term rf h e = ground arith

  request_vote-VoteOutcome :
      (clock : Clock) (args : RequestVoteArgs) (last_term : ℕ) (rf : Raft C)
      (reply : RequestVoteReply) (rf' : Raft C)
      → last_log_term rf.log ≡ ok last_term
      → request_vote g clock args rf ≡ ok (reply, rf')
      → VoteOutcome args last_term rf reply rf'
  unfolding request_vote
  request_vote-VoteOutcome clock args last_term rf reply rf' h e = ground arith

  -- On a log with a last record the handler replies. It grants the vote exactly when the rule of
  -- the paper allows it and it has not voted for the same candidate in that term before: a
  -- candidate that asks again is refused, where the paper allows the vote. With the vote it has
  -- voted for the candidate in the candidate's term. In every case its term is the greater of the
  -- two, a newer term makes it a follower, the reply carries the term that it had before, and the
  -- log, the commit index and the applied index are as before.
  pub request_vote_exact :
      (clock : Clock) (args : RequestVoteArgs) (last_term : ℕ) (rf : Raft C)
      → last_log_term rf.log ≡ ok last_term
      → (reply : RequestVoteReply) × (rf' : Raft C) × (request_vote g clock args rf
          ≡ ok (reply, rf'))
        × VoteOutcome args last_term rf reply rf'
  request_vote_exact clock args last_term rf h =
      elim (Result-cases (request_vote g clock args rf)) [
        | inl ((reply, rf'), e) ↦
            (reply, rf', e, request_vote-VoteOutcome clock args last_term rf reply rf' h e)
        | inr e ↦ absurd (request_vote-ne-panic clock args last_term rf h e)
      ]
