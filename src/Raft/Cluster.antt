-- ===== src/Raft/Cluster.antt =====
-- A group of peers, with what there is to say of its elections: the votes that were granted, and
-- for each election the votes that its candidate has counted. A request may come from anywhere and
-- say anything; a reply that grants a vote is counted only if the vote was granted, and once.
pub mod Roles
pub mod Invariant
pub mod Steps
pub mod Safety
use logic_raft.Base.{
  ℕ, ◌<◌, ◌≡◌, ◌==◌, if◌then◌else◌, true, false, Option, none, some, List, [], ◌∷◌, ◌≢◌, Result, ok,
  length, All, Memᴰ,
}
use logic_raft.Gob.{Gob}
use logic_raft.Persister.{make_persister}
use logic_raft.Raft.{Raft, Value, Clock}
use logic_raft.Raft.Peer.{make}
use logic_raft.Raft.Election.{
  RequestVoteArgs, RequestVoteReply, election_tick, request_vote, handle_vote_reply,
}
use logic_raft.Raft.Step.{
  Step, started, killed, election_ticked, vote_replied, vote_requested, replication_ticked,
  append_replied, entries_received, snapshot_taken, snapshot_replied, snapshot_received, applied,
  restarted,
}

pub record Vote : Type 0 where
  pub voter : ℕ
  pub candidate : ℕ
  pub term : ℕ

-- An election: what `startElection` counts, and whose votes they are.
pub record Ballot : Type 0 where
  pub candidate : ℕ
  pub term : ℕ
  pub votes : ℕ
  pub voters : List ℕ

pub record Cluster (C : Type 0) : Type 0 where
  pub peer : ℕ → Raft C
  pub votes : List Vote
  pub ballots : List Ballot

module _ {C : Type 0} where
  abbrev pub update : ℕ → Raft C → (ℕ → Raft C) → ℕ → Raft C
  update i rf peers j = if i == j then rf else peers j

  -- A step that neither grants a vote nor counts one.
  abbrev pub IsQuiet : {g : Gob (Value C)} {a b : Raft C} → Step g a b → Type 0
  IsQuiet {g} {a} (election_ticked clock e) = (election_tick g clock a).1 ≡ none
  IsQuiet (vote_replied term none votes votes' loop e) = Unit
  IsQuiet (vote_replied term (some reply) votes votes' loop e) = ⊥
  IsQuiet (vote_requested clock args reply e) = reply.vote_granted ≡ false
  IsQuiet _ = Unit

  module _ (g : Gob (Value C)) (n : ℕ) (Counted : ℕ → Raft C → Type 0) where
    -- `Counted` says in which states of the candidate a reply of a term's election is taken in.
    pub data ClusterStep (cl : Cluster C) : Cluster C → Type 0 where
      quiet :
          (i : ℕ) (rf : Raft C) (step : Step g (cl.peer i) rf)
          → i < n
          → IsQuiet step
          → ClusterStep cl (record cl { peer = update i rf cl.peer })
      stood :
          (i : ℕ) (clock : Clock) (rf : Raft C) (term : ℕ)
          → i < n
          → election_tick g clock (cl.peer i) ≡ (rf, some term)
          → ClusterStep cl (record {
            peer = update i rf cl.peer;
            votes = record { voter = i; candidate = i; term = term } ∷ cl.votes;
            ballots =
                record { candidate = i; term = term; votes = 1; voters = i ∷ [] } ∷ cl.ballots;
          })
      voted :
          (i : ℕ) (clock : Clock) (args : RequestVoteArgs) (reply : RequestVoteReply) (rf : Raft C)
          → i < n
          → request_vote g clock args (cl.peer i) ≡ ok (reply, rf)
          → reply.vote_granted ≡ true
          → ClusterStep cl (record cl {
            peer = update i rf cl.peer;
            votes =
                record { voter = i; candidate = args.candidate_id; term = args.term } ∷ cl.votes;
          })
      refused :
          (b : Ballot) (votes : ℕ) (reply : RequestVoteReply) (rf : Raft C) (loop : Option ℕ)
          → Memᴰ b cl.ballots
          → reply.vote_granted ≡ false
          → Counted b.term (cl.peer b.candidate)
          → handle_vote_reply g b.term (some reply) b.votes (cl.peer b.candidate)
            ≡ ok (votes, rf, loop)
          → ClusterStep cl (record cl { peer = update b.candidate rf cl.peer })
      counted :
          (b : Ballot) (v votes : ℕ) (reply : RequestVoteReply) (rf : Raft C) (loop : Option ℕ)
          → Memᴰ b cl.ballots
          → v < n
          → All (λ w. v ≢ w) b.voters
          → Memᴰ (record { voter = v; candidate = b.candidate; term = b.term }) cl.votes
          → reply.vote_granted ≡ true
          → Counted b.term (cl.peer b.candidate)
          → handle_vote_reply g b.term (some reply) b.votes (cl.peer b.candidate)
            ≡ ok (votes, rf, loop)
          → ClusterStep cl (record cl {
            peer = update b.candidate rf cl.peer;
            ballots = record b { votes = votes; voters = v ∷ b.voters } ∷ cl.ballots;
          })

    pub data ClusterReach : Cluster C → Type 0 where
      begun :
          ClusterReach (record { peer = λ i. make g n i make_persister; votes = []; ballots = [] })
      next : {cl cl' : Cluster C} → ClusterReach cl → ClusterStep cl cl' → ClusterReach cl'
