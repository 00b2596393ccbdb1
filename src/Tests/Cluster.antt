-- ===== src/Tests/Cluster.antt =====
-- Three peers, of which the first stands, gets the vote of the second and becomes the leader.
use logic_raft.Base.{ℕ, ◌≡◌, refl, true, some, [], ◌∷◌, Memᴰ, Option, Result, ok, panic, arith}
use logic_raft.Log.{last_log_term}
use logic_raft.Persister.{make_persister}
use logic_raft.Raft.{Raft, leader}
use logic_raft.Raft.Peer.{make}
use logic_raft.Raft.Election.{
  RequestVoteArgs, RequestVoteReply, election_tick, request_vote, handle_vote_reply,
}
use logic_raft.Raft.Cluster.{
  Vote, Ballot, Cluster, update, ClusterReach, stood, voted, counted, begun, next,
}
use logic_raft.Raft.Cluster.Safety.{one_leader_per_term}
use logic_raft.Tests.Codec.{codec}
use logic_raft.Tests.States.{clock, state_of}

-- The replies of an election are taken in in its term.
abbrev InTerm : ℕ → Raft ℕ → Type 0
InTerm term rf = rf.current_term ≡ term

abbrev first_peer : Raft ℕ
first_peer = make codec 3 0 make_persister

abbrev second_peer : Raft ℕ
second_peer = make codec 3 1 make_persister

abbrev standing : Raft ℕ
standing = (election_tick codec clock first_peer).0

abbrev request : RequestVoteArgs
request = record { term = 2; candidate_id = 0; last_log_index = 0; last_log_term = 0 }

abbrev granting : RequestVoteReply
granting = record { term = 1; vote_granted = true }

abbrev voter : Raft ℕ
voter = state_of second_peer (request_vote codec clock request second_peer)

abbrev leader_of : Raft ℕ → Result (ℕ × Raft ℕ × Option ℕ) → Raft ℕ
leader_of rf panic = rf
leader_of rf (ok (_, rf', _)) = rf'

abbrev winner : Raft ℕ
winner = leader_of standing (handle_vote_reply codec 2 (some granting) 1 standing)

stands : election_tick codec clock first_peer ≡ (standing, some 2)
unfolding election_tick make make_persister
stands = refl

votes_for_it : request_vote codec clock request second_peer ≡ ok (granting, voter)
unfolding request_vote make last_log_term make_persister codec
votes_for_it = refl

wins : handle_vote_reply codec 2 (some granting) 1 standing ≡ ok (2, winner, some 2)
unfolding handle_vote_reply election_tick make make_persister
wins = refl

leads : winner.role ≡ leader
unfolding handle_vote_reply election_tick make make_persister
leads = refl

in_term : standing.current_term ≡ 2
unfolding election_tick make make_persister
in_term = refl

abbrev vote_of : ℕ → Vote
vote_of v = record { voter = v; candidate = 0; term = 2 }

abbrev own_ballot : Ballot
own_ballot = record { candidate = 0; term = 2; votes = 1; voters = 0 ∷ [] }

abbrev group : Cluster ℕ
group = record {
  peer = update 0 winner (update 1 voter (update 0 standing (λ i. make codec 3 i make_persister)));
  votes = vote_of 1 ∷ vote_of 0 ∷ [];
  ballots = record { candidate = 0; term = 2; votes = 2; voters = 1 ∷ 0 ∷ [] } ∷ own_ballot ∷ [];
}

reached : ClusterReach codec 3 InTerm group
reached =
    next
      (next (next begun (stood 0 clock standing 2 (omega arith) stands))
        (voted 1 clock request granting voter (omega arith) votes_for_it refl))
      (counted own_ballot 1 2 granting winner (some 2) (Memᴰ.head refl) (omega arith)
        ((λ e. omega arith), tt) (Memᴰ.head refl) refl in_term wins)

one_leader_per_term_example : let i : ℕ = 0 in i ≡ 0
one_leader_per_term_example =
    one_leader_per_term codec 3 InTerm (λ term rf same. same) group 0 0 reached (omega arith)
      (omega arith) leads leads refl
