-- ===== src/Raft/Replication/Transfer.antt =====
-- One request from a leader to a follower: after an accepted one the logs are the same.
use mathlib.Core.Path.{◌∙◌}
use native.Mathlib.Decide.{dec_lt}
use logic_raft.Base.{
  ℕ, ◌+◌, ◌-◌, ◌<◌, ◌≤◌, ◌≡◌, refl, sym, ap, true, ok, arith, length, drop, index, >>=-eq-ok,
  slice_from, slice_from_ok, subst, inl, inr, Bool-cases, leb, get_elem?-drop, length-drop,
  from_option,
}
use logic_raft.Log.{LogRecord, Log, get, size}
use logic_raft.Log.Records.{get_in_range, get_at}
use logic_raft.Gob.{Gob}
use logic_raft.Raft.{Raft, Value, Clock}
use logic_raft.Raft.Messages.{AppendEntriesArgs, AppendEntriesReply, append_entries_rpc}
use logic_raft.Raft.Replication.{message_for, append_entries}
use logic_raft.Raft.Replication.Accept.{append_entries_copies}

module _ {C : Type 0} where
  -- What a leader sends: all its records after an index that it has, and that index's term.
  pub record Sent (leader : Raft C) (args : AppendEntriesArgs C) : Type 0 where
    pub term : args.term ≡ leader.current_term
    pub above : leader.log.base ≤ args.prev_log_index
    pub below : args.prev_log_index < size leader.log
    pub entries : args.entries ≡ drop (args.prev_log_index + 1 - leader.log.base) leader.log.records
    pub prev : LogRecord C
    pub prev_at : get leader.log args.prev_log_index ≡ ok prev
    pub prev_term : prev.term ≡ args.prev_log_term
    pub commit : args.leader_commit ≡ leader.commit_index

  slice_bound :
      (log : Log C) (i : ℕ) → log.base ≤ i → i < size log → i + 1 - log.base ≤ length log.records
  unfolding size
  slice_bound log i h k = omega arith

  pub message_for-Sent :
      (peer : ℕ) (leader : Raft C) (args : AppendEntriesArgs C)
      → message_for peer leader ≡ ok (append_entries_rpc args)
      → Sent leader args
  unfolding message_for
  message_for-Sent peer leader args h =
      let (next, _, h₁) = >>=-eq-ok (index leader.next_index peer) _ h in
      elim (Bool-cases (leb next leader.log.base)) [
        | inl low ↦
            let h₂ = rw low at h₁ in
            let (first, _, h₃) = >>=-eq-ok (index leader.log.records 0) _ h₂ in cc
        | inr high ↦
            let h₂ = rw high at h₁ in
            let (prev, at, h₃) = >>=-eq-ok (get leader.log (next - 1)) _ h₂ in
            let (above, below) = get_in_range leader.log (next - 1) prev at in
            let n = next - 1 + 1 - leader.log.base in
            let whole =
              slice_from_ok leader.log.records n (slice_bound leader.log (next - 1) above below) in
            let (rest, e, h₄) = >>=-eq-ok (slice_from leader.log.records n) _ h₃ in
            let made : AppendEntriesArgs C = record {
              term = leader.current_term;
              leader_id = leader.me;
              prev_log_index = next - 1;
              prev_log_term = prev.term;
              entries = rest;
              leader_commit = leader.commit_index;
            } in
            let same : made ≡ args = cc in
            subst (Sent leader) same (record {
              term = refl;
              above = above;
              below = below;
              entries = cc;
              prev = prev;
              prev_at = at;
              prev_term = refl;
              commit = refl;
            })
      ]

  -- The entries are the leader's records after the index.
  Sent-index :
      (leader : Raft C) (args : AppendEntriesArgs C)
      → Sent leader args
      → (j : ℕ) → index args.entries j ≡ get leader.log (args.prev_log_index + 1 + j)
  Sent-index leader args s j =
      let n = args.prev_log_index + 1 - leader.log.base in
      rw s.entries (
        ap from_option (get_elem?-drop n j (n + j) leader.log.records refl)
        ∙ sym (get_at leader.log (args.prev_log_index + 1 + j) (n + j) (omega (arith, s.above))))

  pub Sent-length :
      (leader : Raft C) (args : AppendEntriesArgs C)
      → Sent leader args
      → args.prev_log_index + 1 + length args.entries ≡ size leader.log
  unfolding size
  Sent-length leader args s =
      let n = args.prev_log_index + 1 - leader.log.base in
      rw s.entries (omega (arith, s.above, s.below, length-drop n leader.log.records))

  -- A follower that accepts what a leader has sent has, from the index before the entries on, the
  -- terms of the leader's log there and its very records after it, and its log has the leader's
  -- size. If the logs were the same up to that index, they are now the same at every index.
  pub accepted_log_is_leaders :
      (g : Gob (Value C)) (clock : Clock) (peer : ℕ) (leader follower follower' : Raft C)
      (args : AppendEntriesArgs C) (reply : AppendEntriesReply)
      → message_for peer leader ≡ ok (append_entries_rpc args)
      → append_entries g clock args follower ≡ ok (reply, follower')
      → reply.success ≡ true
      → ((i : ℕ) → args.prev_log_index < i → get follower'.log i ≡ get leader.log i)
        × (size follower'.log ≡ size leader.log)
        × ((r r' : LogRecord C)
            → get follower'.log args.prev_log_index ≡ ok r
            → get leader.log args.prev_log_index ≡ ok r'
            → r.term ≡ r'.term)
        × (((i : ℕ) → i ≤ args.prev_log_index → get follower.log i ≡ get leader.log i)
            → (i : ℕ) → get follower'.log i ≡ get leader.log i)
  accepted_log_is_leaders g clock peer leader follower follower' args reply m h s =
      let sent = message_for-Sent peer leader args m in
      let (found, kept, new, sized, _) =
        append_entries_copies g clock args follower reply follower' h s in
      let prev = args.prev_log_index in
      let after : (i : ℕ) → prev < i → get follower'.log i ≡ get leader.log i = λ i lt.
        let j = i - prev - 1 in
        let e : i ≡ prev + 1 + j = omega arith in rw e (new j ∙ Sent-index leader args sent j) in
      (
        after,
        sized ∙ Sent-length leader args sent,
        λ r r' e e'. ground (arith, kept prev, found.1, found.2, sent.prev_at, sent.prev_term),
        λ same i. elim (dec_lt prev i) [
          | yes p ↦ after i p
          | no p ↦ kept i (omega arith) ∙ same i (omega arith)
        ],
      )
