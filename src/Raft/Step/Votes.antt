-- ===== src/Raft/Step/Votes.antt =====
-- The votes of one peer over its whole life.
use logic_raft.Base.{ℕ, ◌<◌, ◌≡◌, true, ◌⊎◌, none, some, ok, arith}
use logic_raft.Gob.{Gob}
use logic_raft.Raft.{Raft, Value, Clock}
use logic_raft.Raft.Election.{RequestVoteArgs, RequestVoteReply, request_vote}
use logic_raft.Raft.Step.{Steps, Reach, next, vote_requested}
use logic_raft.Raft.Step.Evolves.{Evolves}
use logic_raft.Raft.Step.Durable.{Steps-Evolves, Reach-IsDurable}

module _ {C : Type 0} (g : Gob (Value C)) where
  -- A granted vote: the peer had none in that term, and now has this one.
  pub request_vote-granted :
      (clock : Clock) (args : RequestVoteArgs) (rf : Raft C) {reply : RequestVoteReply}
      {rf' : Raft C}
      → request_vote g clock args rf ≡ ok (reply, rf')
      → reply.vote_granted ≡ true
      → ((rf.current_term < args.term) ⊎ ((rf.current_term ≡ args.term) × (rf.voted_for ≡ none)))
        × (rf'.current_term ≡ args.term)
        × (rf'.voted_for ≡ some args.candidate_id)
  unfolding request_vote
  request_vote-granted clock args rf h v = ground arith

  -- A peer that has granted a vote grants no other in the same term or an earlier one, whatever
  -- happens in between, crashes and restarts included.
  pub one_vote_per_term :
      (peers me : ℕ) (clock clock' : Clock) (args args' : RequestVoteArgs)
      (reply reply' : RequestVoteReply) {a b c d : Raft C}
      → Reach g peers me a
      → request_vote g clock args a ≡ ok (reply, b)
      → reply.vote_granted ≡ true
      → Steps g b c
      → request_vote g clock' args' c ≡ ok (reply', d)
      → reply'.vote_granted ≡ true
      → args.term < args'.term
  one_vote_per_term peers me clock clock' args args' reply reply' {a} {b} {c} r first v between
        second v' =
      let evolved : Evolves g b c =
        Steps-Evolves g
          (Reach-IsDurable g peers me (next r (vote_requested clock args reply first))) between in
      ground (
        arith,
        request_vote-granted clock args a first v,
        request_vote-granted clock' args' c second v',
        evolved.term_grows,
        λ (e : b.current_term ≡ c.current_term). evolved.vote_kept e args.candidate_id,
      )
