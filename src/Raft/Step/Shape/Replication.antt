-- ===== src/Raft/Step/Shape/Replication.antt =====
-- The methods of replication keep the shape of a peer.
use logic_raft.Base.{
  ltb, index, ℕ, zero, suc, ◌+◌, ◌-◌, ◌≡◌, inl, inr, Option, none, some, List, ok, arith, >>=-eq-ok,
  put, put-set, Bool-cases, Result-cases, ◌==◌, length, length-append, length-take_of_le, take,
}
use logic_raft.Log.{size}
use logic_raft.Gob.{Gob}
use logic_raft.Raft.{Raft, Value, leader, Clock}
use logic_raft.Raft.Messages.{AppendEntriesArgs, AppendEntriesReply, Outgoing}
use logic_raft.Raft.Election.{context_lost_locked}
use logic_raft.Raft.Replication.{
  next_after_conflict, message_for, replication_tick, handle_append_reply, append_entries,
  replicate_from, advance_commit,
}
use logic_raft.Log.Records.{get_in_range}
use logic_raft.Raft.Replication.Accept.{append_entries-Accepted}
use logic_raft.Raft.Replication.Outcomes.{append_entries-Checked}
use logic_raft.Raft.Step.Shape.{Keeps, become_follower-Keeps}

module _ {C : Type 0} (g : Gob (Value C)) where
  replicate_from-Keeps :
      (left peer : ℕ) (rf : Raft C) {sent : List (ℕ × Outgoing C)} {rf' : Raft C}
      → replicate_from left peer rf ≡ ok (sent, rf')
      → Keeps g rf rf'
  unfolding replicate_from
  replicate_from-Keeps zero peer rf h = ground arith
  replicate_from-Keeps (suc left) peer rf h = elim (Bool-cases (peer == rf.me)) [
    | inl own ↦
        let h₀ = rw own at h in
        let (matched, e, h₁) = >>=-eq-ok (put rf.match_index peer (size rf.log - 1)) _ h₀ in
        let (next, e', h₂) = >>=-eq-ok (put rf.next_index peer (size rf.log)) _ h₁ in
        let (_, _, n) = put-set rf.match_index peer (size rf.log - 1) e in
        let (_, _, n') = put-set rf.next_index peer (size rf.log) e' in
        let rf₁ : Raft C = record rf { match_index = matched; next_index = next } in
        ground (arith, replicate_from-Keeps left (suc peer) rf₁ h₂, n, n')
    | inr other ↦
        let h₀ = rw other at h in
        let (m, _, h₁) = >>=-eq-ok (message_for peer rf) _ h₀ in
        let ((rest, rf₁), h₂, h₃) = >>=-eq-ok (replicate_from left (suc peer) rf) _ h₁ in
        ground (arith, replicate_from-Keeps left (suc peer) rf h₂)
  ]

  pub replication_tick-Keeps :
      (term : ℕ) (rf : Raft C) {sent : Option (List (ℕ × Outgoing C))} {rf' : Raft C}
      → replication_tick term rf ≡ ok (sent, rf')
      → Keeps g rf rf'
  unfolding replication_tick
  replication_tick-Keeps term rf h = elim (Result-cases (replicate_from rf.peers 0 rf)) [
    | inl (sent, e) ↦
        ground (arith, replicate_from-Keeps rf.peers 0 rf {sent = sent.0} {rf' = sent.1} e)
    | inr e ↦ ground arith
  ]

  advance_commit-Keeps : (rf : Raft C) {rf' : Raft C} → advance_commit rf ≡ ok rf' → Keeps g rf rf'
  unfolding advance_commit
  advance_commit-Keeps rf h = ground arith

  pub handle_append_reply-Keeps :
      (peer : ℕ) (args : AppendEntriesArgs C) (term : ℕ) (reply : Option AppendEntriesReply)
      (rf : Raft C) {rf' : Raft C}
      → handle_append_reply g peer args term reply rf ≡ ok rf'
      → Keeps g rf rf'
  unfolding handle_append_reply
  handle_append_reply-Keeps peer args term none rf h = ground arith
  handle_append_reply-Keeps peer args term (some reply) rf h =
      elim (Bool-cases (ltb rf.current_term reply.term)) [
        | inl newer ↦ ground (arith, newer, become_follower-Keeps g reply.term rf)
        | inr current ↦ elim (Bool-cases (context_lost_locked leader term rf)) [
          | inl lost ↦ ground (arith, current, lost)
          | inr kept ↦ elim (Bool-cases reply.success) [
            | inr failed ↦
                let h₀ = rw (current, kept, failed) at h in
                let (prev, _, h₁) = >>=-eq-ok (index rf.next_index peer) _ h₀ in
                let (next, e, h₂) =
                  >>=-eq-ok (put rf.next_index peer (next_after_conflict reply prev rf)) _ h₁ in
                let (_, _, n) = put-set rf.next_index peer (next_after_conflict reply prev rf) e in
                ground (arith, n)
            | inl good ↦
                let i = args.prev_log_index + length args.entries in
                let h₀ = rw (current, kept, good) at h in
                let (matched, e, h₁) = >>=-eq-ok (put rf.match_index peer i) _ h₀ in
                let (next, e', h₂) = >>=-eq-ok (put rf.next_index peer (i + 1)) _ h₁ in
                let (_, _, n) = put-set rf.match_index peer i e in
                let (_, _, n') = put-set rf.next_index peer (i + 1) e' in
                let rf₁ : Raft C = record rf { match_index = matched; next_index = next } in
                ground (arith, advance_commit-Keeps rf₁ h₂, n, n')
          ]
        ]
      ]

  append_entries-SameIndexes :
      (clock : Clock) (args : AppendEntriesArgs C) (rf : Raft C) {reply : AppendEntriesReply}
      {rf' : Raft C}
      → append_entries g clock args rf ≡ ok (reply, rf')
      → (rf'.peers ≡ rf.peers)
        × (rf'.me ≡ rf.me)
        × (length rf'.next_index ≡ length rf.next_index)
        × (length rf'.match_index ≡ length rf.match_index)
  unfolding append_entries
  append_entries-SameIndexes clock args rf h =
      (ground arith, ground arith, ground arith, ground arith)

  pub append_entries-Keeps :
      (clock : Clock) (args : AppendEntriesArgs C) (rf : Raft C) {reply : AppendEntriesReply}
      {rf' : Raft C}
      → append_entries g clock args rf ≡ ok (reply, rf')
      → Keeps g rf rf'
  unfolding size
  append_entries-Keeps clock args rf {reply} {rf'} h =
      let (same_peers, same_me, same_next, same_matched) =
        append_entries-SameIndexes clock args rf h in
      record {
        peers = same_peers;
        me = same_me;
        next = same_next;
        matched = same_matched;
        records = λ some_records. elim (Bool-cases reply.success) [
          | inr failed ↦
              let (same, _) = (append_entries-Checked g clock args rf reply rf' h).refused failed in
              rw same some_records
          | inl good ↦
              let (r, at, _, accepted) = append_entries-Accepted g clock args rf reply rf' h good in
              let prev = args.prev_log_index in
              let (above, below) = get_in_range rf.log prev r at in
              rw accepted.spliced (
                omega (
                  arith,
                  above,
                  below,
                  length-take_of_le (prev + 1 - rf.log.base) rf.log.records
                      (omega (arith, above, below)),
                  length-append (take (prev + 1 - rf.log.base) rf.log.records) args.entries,
                ))
        ];
      }
