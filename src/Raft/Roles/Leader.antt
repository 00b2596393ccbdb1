-- ===== src/Raft/Roles/Leader.antt =====
-- A new leader's view of the peers.
use mathlib.Core.List.{append-nil, append_assoc}
use logic_raft.Base.{
  ℕ, zero, suc, ◌+◌, ◌<◌, ◌≡◌, List, [], ◌∷◌, ◌++◌, ok, arith, length, take, set, replicate,
  take-set, length-set, put_ok, take_all, if◌then◌else◌,
}
use logic_raft.Log.{size}
use logic_raft.Raft.{Raft, candidate, leader, role_eq}
use logic_raft.Raft.Roles.{reset_indexes, become_leader_locked}

take-set-replicate :
    (xs : List ℕ) (i left v : ℕ)
    → i < length xs
    → take (suc i) (set xs i v) ++ replicate left v ≡ take i xs ++ replicate (suc left) v
take-set-replicate xs i left v h =
    rw (take-set xs i v h) (append_assoc (take i xs) (v ∷ []) (replicate left v))

module _ {C : Type 0} where
  pub reset_indexes_exact :
      (left peer : ℕ) (rf : Raft C)
      → length rf.next_index ≡ peer + left
      → length rf.match_index ≡ peer + left
      → reset_indexes left peer rf
        ≡ ok (record rf {
          next_index = take peer rf.next_index ++ replicate left (size rf.log);
          match_index = take peer rf.match_index ++ replicate left rf.log.base;
        })
  unfolding reset_indexes
  reset_indexes_exact zero peer rf h k = rw (
    append-nil (take peer rf.next_index),
    append-nil (take peer rf.match_index),
    take_all peer rf.next_index (omega arith),
    take_all peer rf.match_index (omega arith),
  )
  reset_indexes_exact (suc left) peer rf h k =
      let next = set rf.next_index peer (size rf.log) in
      let matched = set rf.match_index peer rf.log.base in
      let rf₁ : Raft C = record rf { next_index = next; match_index = matched } in
      let rest =
        reset_indexes_exact left (suc peer) rf₁
          (omega (arith, length-set rf.next_index peer (size rf.log)))
          (omega (arith, length-set rf.match_index peer rf.log.base)) in
      rw
        (
          put_ok rf.next_index peer (size rf.log) (omega arith),
          put_ok rf.match_index peer rf.log.base (omega arith),
        )
        (cc (
          rest,
          take-set-replicate rf.next_index peer left (size rf.log) (omega arith),
          take-set-replicate rf.match_index peer left rf.log.base (omega arith),
        ))

  -- On a peer with one index of each kind for every peer: a candidate becomes a leader that
  -- supposes that every peer has its whole log, and knows of each only that it has what the
  -- snapshot covers; a peer in another role stays as it is.
  pub become_leader_exact :
      (rf : Raft C)
      → length rf.next_index ≡ rf.peers
      → length rf.match_index ≡ rf.peers
      → become_leader_locked rf ≡ (
          if role_eq rf.role candidate
          then ok (record rf {
            role = leader;
            next_index = replicate rf.peers (size rf.log);
            match_index = replicate rf.peers rf.log.base;
          })
          else ok rf)
  unfolding become_leader_locked
  become_leader_exact rf h k =
      rw (reset_indexes_exact rf.peers 0 (record rf { role = leader }) (omega arith) (omega arith))
