-- ===== src/Raft/Step/Handlers.antt =====
-- Each method of a peer evolves its durable part as `Evolves` says.
use logic_raft.Base.{
  ℕ, zero, suc, ◌-◌, ◌≡◌, inl, inr, Option, none, some, List, ok, arith, >>=-eq-ok, put, Bool-cases,
  Result-cases, ◌==◌,
}
use logic_raft.Log.{size}
use logic_raft.Gob.{Gob}
use logic_raft.Persister.{Bytes}
use logic_raft.Raft.{Raft, Value, leader, Clock, ApplyMsg}
use logic_raft.Raft.Peer.{start}
use logic_raft.Raft.Roles.{reset_indexes}
use logic_raft.Raft.Messages.{
  AppendEntriesArgs, AppendEntriesReply, InstallSnapshotArgs, InstallSnapshotReply, Outgoing,
}
use logic_raft.Raft.Election.{
  RequestVoteArgs, RequestVoteReply, election_tick, handle_vote_reply, request_vote,
}
use logic_raft.Raft.Replication.{
  message_for, replication_tick, handle_append_reply, append_entries, replicate_from,
}
use logic_raft.Raft.Snapshot.{take_snapshot, handle_snapshot_reply, install_snapshot}
use logic_raft.Raft.Application.{apply_step}
use logic_raft.Raft.Step.Evolves.{Evolves, become_follower-Evolves, become_candidate-Evolves}

module _ {C : Type 0} (g : Gob (Value C)) where
  -- The fields that are stored, and stable storage itself, are as before.
  pub record SameCore (a b : Raft C) : Type 0 where
    pub persister : b.persister ≡ a.persister
    pub term : b.current_term ≡ a.current_term
    pub vote : b.voted_for ≡ a.voted_for
    pub log : b.log ≡ a.log

  SameCore-Evolves : {a b : Raft C} → SameCore a b → Evolves g a b
  SameCore-Evolves s = ground arith

  pub start-Evolves : (command : C) (rf : Raft C) → Evolves g rf (start g command rf).1
  unfolding start
  start-Evolves command rf = ground arith

  pub election_tick-Evolves :
      (clock : Clock) (rf : Raft C) → Evolves g rf (election_tick g clock rf).0
  unfolding election_tick
  election_tick-Evolves clock rf = ground (arith, become_candidate-Evolves g rf)

  reset_indexes-SameCore :
      (left peer : ℕ) (rf : Raft C) {rf' : Raft C}
      → reset_indexes left peer rf ≡ ok rf'
      → SameCore rf rf'
  unfolding reset_indexes
  reset_indexes-SameCore zero peer rf h = ground arith
  reset_indexes-SameCore (suc left) peer rf h =
      let (next, _, h₁) = >>=-eq-ok (put rf.next_index peer (size rf.log)) _ h in
      let (matched, _, h₂) = >>=-eq-ok (put rf.match_index peer rf.log.base) _ h₁ in
      let rf₁ : Raft C = record rf { next_index = next; match_index = matched } in
      ground (arith, reset_indexes-SameCore left (suc peer) rf₁ h₂)

  replicate_from-SameCore :
      (left peer : ℕ) (rf : Raft C) {sent : List (ℕ × Outgoing C)} {rf' : Raft C}
      → replicate_from left peer rf ≡ ok (sent, rf')
      → SameCore rf rf'
  unfolding replicate_from
  replicate_from-SameCore zero peer rf h = ground arith
  replicate_from-SameCore (suc left) peer rf h = elim (Bool-cases (peer == rf.me)) [
    | inl own ↦
        let h₀ = rw own at h in
        let (matched, _, h₁) = >>=-eq-ok (put rf.match_index peer (size rf.log - 1)) _ h₀ in
        let (next, _, h₂) = >>=-eq-ok (put rf.next_index peer (size rf.log)) _ h₁ in
        let rf₁ : Raft C = record rf { match_index = matched; next_index = next } in
        ground (arith, replicate_from-SameCore left (suc peer) rf₁ h₂)
    | inr other ↦
        let h₀ = rw other at h in
        let (m, _, h₁) = >>=-eq-ok (message_for peer rf) _ h₀ in
        let ((rest, rf₁), h₂, h₃) = >>=-eq-ok (replicate_from left (suc peer) rf) _ h₁ in
        ground (arith, replicate_from-SameCore left (suc peer) rf h₂)
  ]

  pub request_vote-Evolves :
      (clock : Clock) (args : RequestVoteArgs) (rf : Raft C) {reply : RequestVoteReply}
      {rf' : Raft C}
      → request_vote g clock args rf ≡ ok (reply, rf')
      → Evolves g rf rf'
  unfolding request_vote
  request_vote-Evolves clock args rf h = ground (arith, become_follower-Evolves g args.term rf)

  pub handle_vote_reply-Evolves :
      (term : ℕ) (reply : Option RequestVoteReply) (votes : ℕ) (rf : Raft C) {votes' : ℕ}
      {loop : Option ℕ} {rf' : Raft C}
      → handle_vote_reply g term reply votes rf ≡ ok (votes', rf', loop)
      → Evolves g rf rf'
  unfolding handle_vote_reply
  handle_vote_reply-Evolves term none votes rf h = ground arith
  handle_vote_reply-Evolves term (some reply) votes rf h =
      elim (Result-cases (reset_indexes rf.peers 0 (record rf { role = leader }))) [
        | inl (rf₁, e) ↦ ground (
          arith,
          become_follower-Evolves g reply.term rf,
          reset_indexes-SameCore rf.peers 0 (record rf { role = leader }) e,
        )
        | inr e ↦ ground (arith, become_follower-Evolves g reply.term rf)
      ]

  pub replication_tick-Evolves :
      (term : ℕ) (rf : Raft C) {sent : Option (List (ℕ × Outgoing C))} {rf' : Raft C}
      → replication_tick term rf ≡ ok (sent, rf')
      → Evolves g rf rf'
  unfolding replication_tick
  replication_tick-Evolves term rf h = elim (Result-cases (replicate_from rf.peers 0 rf)) [
    | inl (sent, e) ↦
        ground (arith, replicate_from-SameCore rf.peers 0 rf {sent = sent.0} {rf' = sent.1} e)
    | inr e ↦ ground arith
  ]

  pub handle_append_reply-Evolves :
      (peer : ℕ) (args : AppendEntriesArgs C) (term : ℕ) (reply : Option AppendEntriesReply)
      (rf : Raft C) {rf' : Raft C}
      → handle_append_reply g peer args term reply rf ≡ ok rf'
      → Evolves g rf rf'
  unfolding handle_append_reply
  handle_append_reply-Evolves peer args term none rf h = ground arith
  handle_append_reply-Evolves peer args term (some reply) rf h =
      ground (arith, become_follower-Evolves g reply.term rf)

  pub append_entries-Evolves :
      (clock : Clock) (args : AppendEntriesArgs C) (rf : Raft C) {reply : AppendEntriesReply}
      {rf' : Raft C}
      → append_entries g clock args rf ≡ ok (reply, rf')
      → Evolves g rf rf'
  unfolding append_entries
  append_entries-Evolves clock args rf h = ground (arith, become_follower-Evolves g args.term rf)

  pub take_snapshot-Evolves :
      (index : ℕ) (snapshot : Option Bytes) (rf : Raft C) {rf' : Raft C}
      → take_snapshot g index snapshot rf ≡ ok rf'
      → Evolves g rf rf'
  unfolding take_snapshot
  take_snapshot-Evolves index snapshot rf h = ground arith

  pub handle_snapshot_reply-Evolves :
      (peer : ℕ) (args : InstallSnapshotArgs) (reply : Option InstallSnapshotReply) (rf : Raft C)
      {rf' : Raft C}
      → handle_snapshot_reply g peer args reply rf ≡ ok rf'
      → Evolves g rf rf'
  unfolding handle_snapshot_reply
  handle_snapshot_reply-Evolves peer args none rf h = ground arith
  handle_snapshot_reply-Evolves peer args (some reply) rf h =
      ground (arith, become_follower-Evolves g reply.term rf)

  pub install_snapshot-Evolves :
      (args : InstallSnapshotArgs) (rf : Raft C) {reply : InstallSnapshotReply}
      {msg : Option (ApplyMsg C)} {rf' : Raft C}
      → install_snapshot g args rf ≡ ok (reply, msg, rf')
      → Evolves g rf rf'
  unfolding install_snapshot
  install_snapshot-Evolves args rf h = ground (arith, become_follower-Evolves g args.term rf)

  pub apply_step-Evolves :
      (rf : Raft C) {msg : Option (ApplyMsg C)} {rf' : Raft C}
      → apply_step rf ≡ ok (msg, rf')
      → Evolves g rf rf'
  unfolding apply_step
  apply_step-Evolves rf h = ground arith
