-- ===== src/Raft/Step/Shape.antt =====
-- The shape of a peer: an index of each kind for every peer, and a log that is never empty.
pub mod Replication
use logic_raft.Base.{
  true, ltb, index, ℕ, zero, suc, ◌+◌, ◌-◌, ◌≡◌, ◌<◌, inl, inr, Option, none, some, List, [], ◌∷◌,
  ok, arith, >>=-eq-ok, put, put-set, Bool-cases, Result-cases, ◌==◌, length, length-append,
  length-set, length-take_of_le, take,
}
use logic_raft.Log.{get, size}
use logic_raft.Gob.{Gob}
use logic_raft.Raft.{Raft, Value, leader, Clock, ApplyMsg}
use logic_raft.Raft.Peer.{start}
use logic_raft.Raft.Roles.{reset_indexes, become_follower_locked}
use logic_raft.Raft.Messages.{
  AppendEntriesArgs, AppendEntriesReply, InstallSnapshotArgs, InstallSnapshotReply, Outgoing,
}
use logic_raft.Raft.Election.{
  context_lost_locked, RequestVoteArgs, RequestVoteReply, election_tick, handle_vote_reply,
  request_vote,
}
use logic_raft.Raft.Replication.{
  next_after_conflict, message_for, replication_tick, handle_append_reply, append_entries,
  replicate_from, advance_commit,
}
use logic_raft.Raft.Snapshot.{take_snapshot, handle_snapshot_reply, install_snapshot}
use logic_raft.Raft.Application.{apply_step}
use logic_raft.Log.Records.{get_in_range}
use logic_raft.Raft.Replication.Accept.{append_entries-Accepted}
use logic_raft.Raft.Replication.Outcomes.{append_entries-Checked}
use logic_raft.Raft.Snapshot.Trim.{trim_exact}
use logic_raft.Persister.{Bytes}

module _ {C : Type 0} (g : Gob (Value C)) where
  pub record HasShape (rf : Raft C) : Type 0 where
    pub next : length rf.next_index ≡ rf.peers
    pub matched : length rf.match_index ≡ rf.peers
    pub records : 0 < length rf.log.records

  -- The new state has the shape if the old one has, and is a peer of the same group.
  pub record Keeps (a b : Raft C) : Type 0 where
    pub peers : b.peers ≡ a.peers
    pub me : b.me ≡ a.me
    pub next : length b.next_index ≡ length a.next_index
    pub matched : length b.match_index ≡ length a.match_index
    pub records : 0 < length a.log.records → 0 < length b.log.records

  pub start-Keeps : (command : C) (rf : Raft C) → Keeps rf (start g command rf).1
  unfolding start
  start-Keeps command rf = ground (
    arith,
    length-append rf.log.records
        (record { term = rf.current_term; command_valid = true; command = some command } ∷ []),
  )

  pub become_follower-Keeps : (term : ℕ) (rf : Raft C) → Keeps rf (become_follower_locked g term rf)
  unfolding become_follower_locked
  become_follower-Keeps term rf = ground arith

  pub election_tick-Keeps : (clock : Clock) (rf : Raft C) → Keeps rf (election_tick g clock rf).0
  unfolding election_tick
  election_tick-Keeps clock rf = ground arith

  reset_indexes-Keeps :
      (left peer : ℕ) (rf : Raft C) {rf' : Raft C}
      → reset_indexes left peer rf ≡ ok rf'
      → Keeps rf rf'
  unfolding reset_indexes
  reset_indexes-Keeps zero peer rf h = ground arith
  reset_indexes-Keeps (suc left) peer rf h =
      let (next, e, h₁) = >>=-eq-ok (put rf.next_index peer (size rf.log)) _ h in
      let (matched, e', h₂) = >>=-eq-ok (put rf.match_index peer rf.log.base) _ h₁ in
      let rf₁ : Raft C = record rf { next_index = next; match_index = matched } in
      let (_, _, n) = put-set rf.next_index peer (size rf.log) e in
      let (_, _, n') = put-set rf.match_index peer rf.log.base e' in
      ground (arith, reset_indexes-Keeps left (suc peer) rf₁ h₂, n, n')

  pub request_vote-Keeps :
      (clock : Clock) (args : RequestVoteArgs) (rf : Raft C) {reply : RequestVoteReply}
      {rf' : Raft C}
      → request_vote g clock args rf ≡ ok (reply, rf')
      → Keeps rf rf'
  unfolding request_vote
  request_vote-Keeps clock args rf h = ground (arith, become_follower-Keeps args.term rf)

  pub handle_vote_reply-Keeps :
      (term : ℕ) (reply : Option RequestVoteReply) (votes : ℕ) (rf : Raft C) {votes' : ℕ}
      {loop : Option ℕ} {rf' : Raft C}
      → handle_vote_reply g term reply votes rf ≡ ok (votes', rf', loop)
      → Keeps rf rf'
  unfolding handle_vote_reply
  handle_vote_reply-Keeps term none votes rf h = ground arith
  handle_vote_reply-Keeps term (some reply) votes rf h =
      elim (Result-cases (reset_indexes rf.peers 0 (record rf { role = leader }))) [
        | inl (rf₁, e) ↦ ground (
          arith,
          become_follower-Keeps reply.term rf,
          reset_indexes-Keeps rf.peers 0 (record rf { role = leader }) e,
        )
        | inr e ↦ ground (arith, become_follower-Keeps reply.term rf)
      ]

  pub take_snapshot-Keeps :
      (index : ℕ) (snapshot : Option Bytes) (rf : Raft C) {rf' : Raft C}
      → take_snapshot g index snapshot rf ≡ ok rf'
      → Keeps rf rf'
  unfolding take_snapshot
  take_snapshot-Keeps index snapshot rf h = elim (Result-cases (get rf.log index)) [
    | inl (r, at) ↦ ground (arith, at, trim_exact index r.term rf.log)
    | inr out ↦ ground (arith, out)
  ]

  pub handle_snapshot_reply-Keeps :
      (peer : ℕ) (args : InstallSnapshotArgs) (reply : Option InstallSnapshotReply) (rf : Raft C)
      {rf' : Raft C}
      → handle_snapshot_reply g peer args reply rf ≡ ok rf'
      → Keeps rf rf'
  unfolding handle_snapshot_reply put
  handle_snapshot_reply-Keeps peer args none rf h = ground arith
  handle_snapshot_reply-Keeps peer args (some reply) rf h = ground (
    arith,
    become_follower-Keeps reply.term rf,
    length-set rf.next_index peer (args.last_included_index + 1),
    length-set rf.match_index peer args.last_included_index,
  )

  pub install_snapshot-Keeps :
      (args : InstallSnapshotArgs) (rf : Raft C) {reply : InstallSnapshotReply}
      {msg : Option (ApplyMsg C)} {rf' : Raft C}
      → install_snapshot g args rf ≡ ok (reply, msg, rf')
      → Keeps rf rf'
  unfolding install_snapshot
  install_snapshot-Keeps args rf h = ground (
    arith,
    trim_exact args.last_included_index args.last_included_term rf.log,
    become_follower-Keeps args.term rf,
  )

  pub apply_step-Keeps :
      (rf : Raft C) {msg : Option (ApplyMsg C)} {rf' : Raft C}
      → apply_step rf ≡ ok (msg, rf')
      → Keeps rf rf'
  unfolding apply_step
  apply_step-Keeps rf h = ground arith
