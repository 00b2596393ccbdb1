-- ===== src/Raft/Replication/Convergence/Round.antt =====
-- What one request of the leader does to the leader and to a peer that answers it.
use mathlib.Core.Path.{◌∙◌}
use native.Mathlib.Decide.{dec_lt, ℕ_discrete}
use logic_raft.Base.{
  ℕ, suc, ◌+◌, ◌-◌, ◌<◌, ◌≤◌, ◌≡◌, sym, ap, true, false, some, List, ok, arith, length, index, inl,
  inr, Result-cases, from_option, put_ok, set, length-set, index-lt, get_elem?-set_self,
  get_elem?-set_ne,
}
use logic_raft.Log.{LogRecord, get, size}
use logic_raft.Log.Records.{get_in_range, get_ok}
use logic_raft.Gob.{Gob}
use logic_raft.Raft.{Raft, Value, Clock, leader}
use logic_raft.Raft.Messages.{AppendEntriesArgs, AppendEntriesReply}
use logic_raft.Raft.Replication.{
  append_entries, handle_append_reply, next_after_conflict, advance_commit,
}
use logic_raft.Raft.Replication.Outcomes.{append_entries-Checked, append_entries_panic}
use logic_raft.Raft.Replication.Transfer.{accepted_log_is_leaders, message_for-Sent, Sent-length}
use logic_raft.Raft.Replication.Convergence.{
  Ready, args_for, message_for-args, advance_commit_total,
}
use logic_raft.Raft.Replication.Convergence.Refusal.{short_log_next, refused_next}

module _ {C : Type 0} (g : Gob (Value C)) (clock : Clock) (peer : ℕ) where
  -- The peer has the leader's log, and the leader knows it.
  pub record Brought (lead lead' other' : Raft C) : Type 0 where
    pub same : (i : ℕ) → get other'.log i ≡ get lead.log i
    pub sized : size other'.log ≡ size lead.log
    pub kept : lead'.log ≡ lead.log
    pub matched : index lead'.match_index peer ≡ ok (size lead.log - 1)

  pub answers :
      (prev : ℕ) (lead other : Raft C) (args : AppendEntriesArgs C)
      → other.log.base ≡ 0
      → 0 < length other.log.records
      → (reply : AppendEntriesReply) × (other' : Raft C) × (append_entries g clock args other
          ≡ ok (reply, other'))
  answers prev lead other args b pos = elim (Result-cases (append_entries g clock args other)) [
    | inl ((reply, other'), e) ↦ (reply, other', e)
    | inr e ↦ absurd (omega (arith, b, ((append_entries_panic g clock args other pos).0 e).1))
  ]

  pub moved_back :
      (next next' : ℕ) (args : AppendEntriesArgs C) (reply : AppendEntriesReply) (rf : Raft C)
      → rf.role ≡ leader
      → reply.term ≤ rf.current_term
      → reply.success ≡ false
      → index rf.next_index peer ≡ ok next
      → next_after_conflict reply next rf ≡ next'
      → handle_append_reply g peer args rf.current_term (some reply) rf
        ≡ ok (record rf { next_index = set rf.next_index peer next' })
  unfolding handle_append_reply
  moved_back next next' args reply rf role t failed at e =
      let written = put_ok rf.next_index peer next' (index-lt rf.next_index peer next at) in
      ground (arith, e, written)

  moved_on :
      (args : AppendEntriesArgs C) (reply : AppendEntriesReply) (rf : Raft C)
      → rf.role ≡ leader
      → reply.term ≤ rf.current_term
      → reply.success ≡ true
      → peer < length rf.next_index
      → peer < length rf.match_index
      → handle_append_reply g peer args rf.current_term (some reply) rf
        ≡ advance_commit (record rf {
          match_index = set rf.match_index peer (args.prev_log_index + length args.entries);
          next_index = set rf.next_index peer (args.prev_log_index + length args.entries + 1);
        })
  unfolding handle_append_reply
  moved_on args reply rf role t done n m =
      let v = args.prev_log_index + length args.entries in
      let matched = put_ok rf.match_index peer v m in
      let next = put_ok rf.next_index peer (v + 1) n in ground (arith, matched, next)

  pub adopts_term :
      (args : AppendEntriesArgs C) (rf rf' : Raft C) (reply : AppendEntriesReply)
      → append_entries g clock args rf ≡ ok (reply, rf')
      → rf.current_term ≤ args.term
      → rf'.current_term ≡ args.term
  unfolding append_entries
  adopts_term args rf rf' reply e t = ground arith

  -- Where a refused request moves the leader's next index.
  pub goes_back :
      (prev : ℕ) (lead other other' : Raft C) (r : LogRecord C) (reply : AppendEntriesReply)
      → Ready peer (suc prev) lead other
      → get lead.log prev ≡ ok r
      → append_entries g clock (args_for peer prev r lead) other ≡ ok (reply, other')
      → reply.success ≡ false
      → (0 < next_after_conflict reply (suc prev) lead)
        × (next_after_conflict reply (suc prev) lead < suc prev)
  goes_back prev lead other other' r reply ready at e failed =
      let args = args_for peer prev r lead in
      let checked = append_entries-Checked g clock args other reply other' e in
      let w = ready.other_whole in
      let (_, nonempty) = get_in_range other.log 0 w.first w.first_at in
      elim (dec_lt prev (size other.log)) [
        | no short ↦
            let (_, invalid, index_is) = checked.too_short ready.terms (omega arith) in
            short_log_next reply (suc prev) (size other.log) lead invalid index_is nonempty
              (omega arith)
        | yes long ↦
            let (r', at') = get_ok other.log prev (omega (arith, w.base)) long in
            elim (ℕ_discrete r'.term r.term) [
              | yes same ↦ cc (checked.matched ready.terms r' at' same)
              | no differs ↦
                  let (_, t_is, i_is) = checked.mismatch ready.terms r' at' differs in
                  refused_next peer prev lead other r r' reply ready at at' differs t_is i_is
            ]
      ]

  bounded_after :
      (bound i x v : ℕ) (xs : List ℕ)
      → ((j y : ℕ) → index xs j ≡ ok y → y < bound)
      → v < bound
      → peer < length xs
      → index (set xs peer v) i ≡ ok x
      → x < bound
  bounded_after bound i x v xs h k known e = elim (ℕ_discrete peer i) [
    | yes same ↦ ground (arith, get_elem?-set_self xs peer v known)
    | no other ↦ h i x (sym (ap from_option (get_elem?-set_ne xs peer i v other)) ∙ e)
  ]

  pub brings :
      (prev : ℕ) (lead other other' : Raft C) (r : LogRecord C) (reply : AppendEntriesReply)
      → Ready peer (suc prev) lead other
      → get lead.log prev ≡ ok r
      → append_entries g clock (args_for peer prev r lead) other ≡ ok (reply, other')
      → reply.success ≡ true
      → (lead' : Raft C) × (handle_append_reply g peer
            (args_for peer prev r lead)
            lead.current_term
            (some reply)
            lead
          ≡ ok lead')
        × Brought lead lead' other'
  brings prev lead other other' r reply ready at e done =
      let args = args_for peer prev r lead in
      let m = message_for-args peer prev r lead ready.whole.base ready.next_at at in
      let checked = append_entries-Checked g clock args other reply other' e in
      let (_, at_prev, below) = checked.agreed done in
      let (r', at') = get_ok other.log prev (omega (arith, ready.other_whole.base)) below in
      let (_, sized, _, whole) =
        accepted_log_is_leaders g clock peer lead other other' args reply m e done in
      let sent = message_for-Sent peer lead args m in
      let ends = Sent-length lead args sent in
      let v = prev + length args.entries in
      let n_known = index-lt lead.next_index peer (suc prev) ready.next_at in
      let on =
        moved_on args reply lead ready.role (omega (arith, checked.old_term, ready.terms)) done
          n_known ready.known in
      let written : Raft C = record lead {
        match_index = set lead.match_index peer v;
        next_index = set lead.next_index peer (v + 1);
      } in
      let (lead', is, log_is, match_is) =
        advance_commit_total written ready.whole.base
          (omega (arith, length-set lead.match_index peer v, ready.known))
          (λ i x h.
            bounded_after (size lead.log) i x v lead.match_index ready.bounded (omega (arith, ends))
              ready.known h) in
      (
        lead',
        on ∙ is,
        record {
          same = whole (ready.matching prev prev r' r (omega arith) at' at (at_prev r' at'));
          sized = sized;
          kept = log_is;
          matched =
              ap (λ ms. index ms peer) match_is
              ∙ ap from_option (get_elem?-set_self lead.match_index peer v ready.known)
              ∙ ap ok (omega (arith, ends));
        },
      )
