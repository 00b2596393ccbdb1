-- ===== src/Raft/Roles.antt =====
-- src/raft/raft_roleTrans.go: the three changes of role.
pub mod Leader
use logic_raft.Base.{
  ℕ, zero, suc, ◌+◌, not, none, some, Result, ok, ◌>>=◌, ltb, ◌==◌, if◌then◌else◌, put,
}
use logic_raft.Log.{size}
use logic_raft.Gob.{Gob}
use logic_raft.Raft.{Raft, Value, follower, candidate, leader, role_eq}
use logic_raft.Raft.Persistence.{persist_locked}

module _ {C : Type 0} where
  unfoldable pub become_follower_locked : Gob (Value C) → ℕ → Raft C → Raft C
  unfolding persist_locked
  become_follower_locked g term rf =
      let should_persist = not (term == rf.current_term) in
      let voted = if ltb rf.current_term term then none else rf.voted_for in
      let rf' = record rf { role = follower; current_term = term; voted_for = voted } in
      if ltb term rf.current_term
      then rf
      else if should_persist
      then persist_locked g none rf'
      else rf'

  unfoldable pub become_candidate_locked : Gob (Value C) → Raft C → Raft C
  unfolding persist_locked role_eq
  become_candidate_locked g rf =
      if role_eq rf.role leader
      then rf
      else persist_locked g none (record rf {
        role = candidate;
        current_term = rf.current_term + 1;
        voted_for = some rf.me;
      })

  -- The loop of `becomeLeaderLocked` over the peers from `peer` on.
  unfoldable pub reset_indexes : ℕ → ℕ → Raft C → Result (Raft C)
  unfolding put size
  reset_indexes zero peer rf = ok rf
  reset_indexes (suc left) peer rf = do
    next ← put rf.next_index peer (size rf.log)
    matched ← put rf.match_index peer rf.log.base
    reset_indexes left (suc peer) (record rf { next_index = next; match_index = matched })

  unfoldable pub become_leader_locked : Raft C → Result (Raft C)
  unfolding reset_indexes role_eq
  become_leader_locked rf =
      if role_eq rf.role candidate
      then reset_indexes rf.peers 0 (record rf { role = leader })
      else ok rf
