-- ===== src/Raft/Election.antt =====
-- src/raft/raft_election.go: the election loop, the RequestVote handler and the count of votes.
--
-- A goroutine that waits for an RPC's reply is split where it takes the lock again: what is sent
-- is returned, and the reply comes as an argument, `none` for a call that failed.
pub mod Grant
pub mod Count
pub mod Timer
use logic_raft.Base.{
  ℕ, zero, suc, ◌+◌, ◌-◌, ◌/◌, ◌%◌, Bool, true, false, not, ◌&&◌, Option, none, some, List, [], ◌∷◌,
  Result, ok, ◌>>=◌, ltb, ◌==◌, if◌then◌else◌,
}
use logic_raft.Log.{last_log_term, size}
use logic_raft.Gob.{Gob}
use logic_raft.Raft.{Raft, Value, Clock, Role, candidate, leader, role_eq, killed}
use logic_raft.Raft.Persistence.{persist_locked}
use logic_raft.Raft.Roles.{become_follower_locked, become_candidate_locked, become_leader_locked}

abbrev pub election_timeout_min : ℕ
election_timeout_min = 250_000_000

abbrev pub election_timeout_max : ℕ
election_timeout_max = 400_000_000

pub record RequestVoteArgs : Type 0 where
  pub term : ℕ
  pub candidate_id : ℕ
  pub last_log_index : ℕ
  pub last_log_term : ℕ

pub record RequestVoteReply : Type 0 where
  pub term : ℕ
  pub vote_granted : Bool

-- rf.votedFor != -1
abbrev pub has_voted : Option ℕ → Bool
has_voted none = false
has_voted (some _) = true

module _ {C : Type 0} where
  -- time.Since saturates and the clock is monotonic, so the truncated difference is exact.
  unfoldable pub is_election_timeout_locked : Clock → Raft C → Bool
  is_election_timeout_locked clock rf = ltb rf.election_timeout (clock.now - rf.election_start)

  unfoldable pub reset_election_timer_locked : Clock → Raft C → Raft C
  reset_election_timer_locked clock rf =
      let rand_range : ℕ = election_timeout_max - election_timeout_min in
      record rf {
        election_start = clock.now;
        election_timeout = election_timeout_min + clock.rand % rand_range;
      }

  unfoldable pub context_lost_locked : Role → ℕ → Raft C → Bool
  unfolding role_eq
  context_lost_locked role term rf = not (rf.current_term == term && role_eq rf.role role)

  unfoldable pub is_more_up_to_date_locked : ℕ → ℕ → Raft C → Result Bool
  unfolding size
  is_more_up_to_date_locked candidate_term candidate_index rf = do
    last_term ← last_log_term rf.log
    let last_index = size rf.log - 1
    ok (
        if not (last_term == candidate_term)
        then ltb candidate_term last_term
        else ltb candidate_index last_index)

  -- One round of the loop of `electionTicker`: the term of the election that it starts, if any.
  unfoldable pub election_tick : Gob (Value C) → Clock → Raft C → Raft C × Option ℕ
  unfolding become_candidate_locked is_election_timeout_locked role_eq killed
  election_tick g clock rf =
      let rf' = become_candidate_locked g rf in
      if killed rf
      then (rf, none)
      else if not (role_eq rf.role leader) && is_election_timeout_locked clock rf
      then (rf', some rf'.current_term)
      else (rf, none)

  -- What a candidate asks the peers for.
  unfoldable pub vote_args : Raft C → Result RequestVoteArgs
  unfolding size
  vote_args rf = do
    last_term ← last_log_term rf.log
    ok (record {
      term = rf.current_term;
      candidate_id = rf.me;
      last_log_index = size rf.log - 1;
      last_log_term = last_term;
    })

  -- The loop of `startElection` over the peers from `peer` on: the requests, and the votes.
  unfoldable pub ask_peers : ℕ → ℕ → ℕ → Raft C → Result (List (ℕ × RequestVoteArgs) × ℕ)
  unfolding vote_args
  ask_peers zero peer votes rf = ok ([], votes)
  ask_peers (suc left) peer votes rf =
      let own = ask_peers left (suc peer) (suc votes) rf in
      let other : Result (List (ℕ × RequestVoteArgs) × ℕ) = (do
        args ← vote_args rf
        rest ← ask_peers left (suc peer) votes rf
        ok ((peer, args) ∷ rest.0, rest.1)) in
      if peer == rf.me then own else other

  -- What is sent to each peer, and the votes counted so far; `none` if the context is lost.
  unfoldable pub start_election : ℕ → Raft C → Result (Option (List (ℕ × RequestVoteArgs) × ℕ))
  unfolding context_lost_locked ask_peers
  start_election term rf =
      if context_lost_locked candidate term rf
      then ok none
      else (do asked ← ask_peers rf.peers 0 0 rf; ok (some asked))

  -- The second half of `askVoteFromPeer`, in the election of `term`: the votes counted, the peer,
  -- and the term of the replication loop that it starts, if any.
  unfoldable pub handle_vote_reply :
      Gob (Value C) → ℕ → Option RequestVoteReply → ℕ → Raft C → Result (ℕ × Raft C × Option ℕ)
  unfolding context_lost_locked become_follower_locked become_leader_locked
  handle_vote_reply g term none votes rf = ok (votes, rf, none)
  handle_vote_reply g term (some reply) votes rf =
      let votes' : ℕ = if reply.vote_granted then votes + 1 else votes in
      if ltb rf.current_term reply.term
      then ok (votes, become_follower_locked g reply.term rf, none)
      else if context_lost_locked candidate rf.current_term rf
      then ok (votes, rf, none)
      else if ltb (rf.peers / 2) votes'
      then (do rf' ← become_leader_locked rf; ok (votes', rf', some term))
      else ok (votes', rf, none)

  unfoldable pub request_vote :
      Gob (Value C) → Clock → RequestVoteArgs → Raft C → Result (RequestVoteReply × Raft C)
  unfolding become_follower_locked is_more_up_to_date_locked reset_election_timer_locked
      persist_locked
  request_vote g clock args rf =
      let reply : RequestVoteReply = record { term = rf.current_term; vote_granted = false } in
      let rf' =
        if ltb rf.current_term args.term then become_follower_locked g args.term rf else rf in
      let voted = persist_locked g none (record rf' { voted_for = some args.candidate_id }) in
      if ltb args.term rf.current_term
      then ok (reply, rf)
      else if has_voted rf'.voted_for
      then ok (reply, rf')
      else (do
        more ← is_more_up_to_date_locked args.last_log_term args.last_log_index rf'
        ok (
            if more
            then (reply, rf')
            else (record reply { vote_granted = true }, reset_election_timer_locked clock voted)))
