-- ===== src/Tests/Election.antt =====
-- Elections, votes and restarts.
use logic_raft.Base.{
  ◌≢◌, panic, ℕ, ◌+◌, ◌≡◌, ◌<◌, refl, true, false, none, some, [], ◌∷◌, ok, arith,
}
use logic_raft.Log.{last_log_term}
use logic_raft.Persister.{make_persister}
use logic_raft.Raft.{Raft, leader}
use logic_raft.Raft.Peer.{make}
use logic_raft.Raft.Roles.{become_leader_locked}
use logic_raft.Raft.Roles.Leader.{become_leader_exact}
use logic_raft.Raft.Election.{RequestVoteArgs, RequestVoteReply, request_vote, handle_vote_reply}
use logic_raft.Raft.Election.Grant.{VoteOutcome, request_vote_exact}
use logic_raft.Raft.Election.Count.{stale_votes_elect}
use logic_raft.Raft.Replication.{replication_tick}
use logic_raft.Raft.Step.{Reach, here, next, vote_requested}
use logic_raft.Raft.Step.Shape.{HasShape}
use logic_raft.Raft.Step.Reachable.{Reach-HasShape, handlers_total}
use logic_raft.Raft.Step.Durable.{restart_recovers}
use logic_raft.Raft.Step.Votes.{one_vote_per_term}
use logic_raft.Tests.Codec.{codec}
use logic_raft.Tests.States.{clock, state_of, new_peer, standing, trailing}

abbrev ask : ℕ → ℕ → RequestVoteArgs
ask term candidate_id = record {
  term = term;
  candidate_id = candidate_id;
  last_log_index = 0;
  last_log_term = 0;
}

abbrev yes_in : ℕ → RequestVoteReply
yes_in term = record { term = term; vote_granted = true }

abbrev voted_once : Raft ℕ
voted_once = state_of new_peer (request_vote codec clock (ask 2 1) new_peer)

abbrev voted_twice : Raft ℕ
voted_twice = state_of new_peer (request_vote codec clock (ask 3 2) voted_once)

first_vote : request_vote codec clock (ask 2 1) new_peer ≡ ok (yes_in 1, voted_once)
unfolding request_vote make last_log_term make_persister codec
first_vote = refl

second_vote : request_vote codec clock (ask 3 2) voted_once ≡ ok (yes_in 2, voted_twice)
unfolding request_vote make last_log_term make_persister codec
second_vote = refl

one_vote_per_term_example : (ask 2 1).term < (ask 3 2).term
one_vote_per_term_example =
    one_vote_per_term codec 3 0 clock clock (ask 2 1) (ask 3 2) (yes_in 1) (yes_in 2) here
      first_vote refl here second_vote refl

restart_recovers_example :
    (make codec voted_once.peers voted_once.me voted_once.persister).voted_for
    ≡ voted_once.voted_for
restart_recovers_example =
    (restart_recovers codec 3 0 voted_once
      (next here (vote_requested clock (ask 2 1) (yes_in 1) first_vote))).1

-- A peer that has a longer log does not vote for a shorter one.
request_vote_exact_example :
    (reply : RequestVoteReply) × (rf' : Raft ℕ) × (request_vote codec clock (ask 4 1) trailing
      ≡ ok (reply, rf'))
    × VoteOutcome codec (ask 4 1) 2 trailing reply rf'
unfolding last_log_term
request_vote_exact_example = request_vote_exact codec clock (ask 4 1) 2 trailing refl

refused_vote :
    request_vote codec clock (ask 4 1) trailing
    ≡ ok (
      record { term = 2; vote_granted = false },
      state_of trailing (request_vote codec clock (ask 4 1) trailing),
    )
unfolding request_vote last_log_term codec
refused_vote = refl

become_leader_exact_example :
    become_leader_locked standing
    ≡ ok (record standing {
      role = leader;
      next_index = 2 ∷ 2 ∷ 2 ∷ [];
      match_index = 0 ∷ 0 ∷ 0 ∷ [];
    })
unfolding become_leader_locked
become_leader_exact_example = become_leader_exact standing refl refl

stale_votes_elect_example :
    (rf' : Raft ℕ) × (handle_vote_reply codec 2 (some (yes_in 2)) 1 standing
      ≡ ok (1 + 1, rf', some 2))
    × (rf'.role ≡ leader)
    × (rf'.current_term ≡ standing.current_term)
    × (replication_tick 2 rf' ≡ ok (none, rf'))
stale_votes_elect_example =
    stale_votes_elect codec 2 1 (yes_in 2) standing refl refl refl (omega arith) (omega arith) refl
      (omega arith)

voted_reached : Reach codec 3 0 voted_once
voted_reached = next here (vote_requested clock (ask 2 1) (yes_in 1) first_vote)

Reach-HasShape_example : HasShape codec voted_once
Reach-HasShape_example = Reach-HasShape codec 3 0 voted_once voted_reached

handlers_total_example : request_vote codec clock (ask 4 1) voted_once ≢ panic
handlers_total_example = (handlers_total codec 3 0 voted_once voted_reached).0 clock (ask 4 1)
