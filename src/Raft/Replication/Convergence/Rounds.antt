-- ===== src/Raft/Replication/Convergence/Rounds.antt =====
-- How many rounds with a peer that answers bring its log to the leader's.
use mathlib.Core.Path.{◌∙◌}
use logic_raft.Base.{
  ℕ, zero, suc, ◌-◌, ◌<◌, ◌≤◌, ◌≡◌, ◌⊎◌, refl, sym, ap, false, some, ok, arith, inl, inr,
  Bool-cases, from_option, set, index-lt, get_elem?-set_self, subst,
}
use logic_raft.Log.{LogRecord, get, size}
use logic_raft.Log.Records.{get_ok}
use logic_raft.Gob.{Gob}
use logic_raft.Raft.{Raft, Value, Clock}
use logic_raft.Raft.Messages.{AppendEntriesArgs, AppendEntriesReply, append_entries_rpc}
use logic_raft.Raft.Replication.{
  message_for, append_entries, handle_append_reply, next_after_conflict,
}
use logic_raft.Raft.Replication.Outcomes.{append_entries-Checked}
use logic_raft.Raft.Replication.Exchange.{exchange, exchanges}
use logic_raft.Raft.Replication.Convergence.{
  IsWhole, IsWhole-nonempty, Matching, Ready, args_for, message_for-args,
}
use logic_raft.Raft.Replication.Convergence.Round.{
  Brought, answers, moved_back, adopts_term, goes_back, brings,
}

module _ {C : Type 0} (g : Gob (Value C)) (clock : Clock) (peer : ℕ) where
  exchange_is :
      (args : AppendEntriesArgs C) (reply : AppendEntriesReply) (lead other lead' other' : Raft C)
      → message_for peer lead ≡ ok (append_entries_rpc args)
      → append_entries g clock args other ≡ ok (reply, other')
      → handle_append_reply g peer args lead.current_term (some reply) lead ≡ ok lead'
      → exchange g clock peer lead other ≡ ok (lead', other')
  unfolding exchange
  exchange_is args reply lead other lead' other' m e h = rw m (rw e (rw h refl))

  refused_round :
      (prev : ℕ) (lead other other' : Raft C) (r : LogRecord C) (reply : AppendEntriesReply)
      → Ready peer (suc prev) lead other
      → get lead.log prev ≡ ok r
      → append_entries g clock (args_for peer prev r lead) other ≡ ok (reply, other')
      → reply.success ≡ false
      → (next : ℕ) × (next < suc prev)
        × Ready peer next (record lead { next_index = set lead.next_index peer next }) other'
        × (exchange g clock peer lead other
            ≡ ok (record lead { next_index = set lead.next_index peer next }, other'))
  refused_round prev lead other other' r reply ready at e failed =
      let args = args_for peer prev r lead in
      let m = message_for-args peer prev r lead ready.whole.base ready.next_at at in
      let checked = append_entries-Checked g clock args other reply other' e in
      let (same_log, _) = checked.refused failed in
      let same_term = adopts_term g clock peer args other other' reply e ready.terms in
      let next = next_after_conflict reply (suc prev) lead in
      let (pos, lt) = goes_back g clock peer prev lead other other' r reply ready at e failed in
      let back =
        moved_back g clock peer (suc prev) next args reply lead ready.role
          (omega (arith, checked.old_term, ready.terms)) failed ready.next_at refl in
      let known = index-lt lead.next_index peer (suc prev) ready.next_at in
      (
        next,
        lt,
        record {
          role = ready.role;
          whole = ready.whole;
          other_whole = subst IsWhole (sym same_log) ready.other_whole;
          terms = omega (arith, same_term);
          matching = subst (Matching lead.log) (sym same_log) ready.matching;
          next_at = ap from_option (get_elem?-set_self lead.next_index peer next known);
          next_pos = pos;
          next_le = omega (arith, ready.next_le);
          known = ready.known;
          bounded = ready.bounded;
        },
        exchange_is args reply lead other _ other' m e back,
      )

  round :
      (prev : ℕ) (lead other : Raft C)
      → Ready peer (suc prev) lead other
      → ((lead' other' : Raft C) × (exchange g clock peer lead other ≡ ok (lead', other'))
          × Brought g clock peer lead lead' other')
        ⊎ ((next : ℕ) × (lead' other' : Raft C) × (next < suc prev)
            × Ready peer next lead' other'
            × (lead'.log ≡ lead.log)
            × (exchange g clock peer lead other ≡ ok (lead', other')))
  round prev lead other ready =
      let w = ready.other_whole in
      let (r, at) =
        get_ok lead.log prev (omega (arith, ready.whole.base)) (omega (arith, ready.next_le)) in
      let args = args_for peer prev r lead in
      let m = message_for-args peer prev r lead ready.whole.base ready.next_at at in
      let (reply, other', e) =
        answers g clock peer prev lead other args w.base (IsWhole-nonempty other.log w) in
      elim (Bool-cases reply.success) [
        | inl done ↦
            let (lead', h, brought) =
              brings g clock peer prev lead other other' r reply ready at e done in
            inl (lead', other', exchange_is args reply lead other lead' other' m e h, brought)
        | inr failed ↦
            let (next, lt, again, is) =
              refused_round prev lead other other' r reply ready at e failed in
            inr (next, _, other', lt, again, refl, is)
      ]

  Brought-after :
      (lead lead₁ lead' other' : Raft C)
      → lead₁.log ≡ lead.log
      → Brought g clock peer lead₁ lead' other'
      → Brought g clock peer lead lead' other'
  Brought-after lead lead₁ lead' other' e b = record {
    same = λ i. b.same i ∙ ap (λ l. get l i) e;
    sized = b.sized ∙ ap size e;
    kept = b.kept ∙ e;
    matched = b.matched ∙ ap (λ l. ok (size l - 1)) e;
  }

  converges_within :
      (bound next : ℕ) (lead other : Raft C)
      → next ≤ bound
      → Ready peer next lead other
      → (n : ℕ) × (lead' other' : Raft C) × (n ≤ next)
        × (exchanges g clock peer n lead other ≡ ok (lead', other'))
        × Brought g clock peer lead lead' other'
  unfolding exchanges
  converges_within bound zero lead other le ready = absurd (omega (arith, ready.next_pos))
  converges_within zero (suc prev) lead other le ready = absurd (omega arith)
  converges_within (suc bound) (suc prev) lead other le ready = elim (round prev lead other ready) [
    | inl (lead', other', e, brought) ↦ (1, lead', other', omega arith, rw e refl, brought)
    | inr (next, lead₁, other₁, lt, again, kept, e) ↦
        let (n, lead', other', fits, run, brought) =
          converges_within bound next lead₁ other₁ (omega arith) again in
        (
          suc n,
          lead',
          other',
          omega arith,
          rw e run,
          Brought-after lead lead₁ lead' other' kept brought,
        )
  ]

  -- Rounds of replication in which neither a request nor a reply is lost bring a peer's log to the
  -- leader's, and need no more of them than the leader's next index of the peer: after them the
  -- logs have the same record at every index and the same size, the leader has not changed its log
  -- and knows that the peer matches it to its last record. This is so where the peer is not in a
  -- newer term, neither has trimmed its log, the terms do not fall along either log and only the
  -- first record's is 0, the records of one term come from one leader, the leader's next index of
  -- the peer is neither 0 nor beyond its log, and its match indexes are all in its log.
  pub replication_converges :
      (next : ℕ) (lead other : Raft C)
      → Ready peer next lead other
      → (n : ℕ) × (lead' other' : Raft C) × (n ≤ next)
        × (exchanges g clock peer n lead other ≡ ok (lead', other'))
        × Brought g clock peer lead lead' other'
  replication_converges next lead other ready =
      converges_within next next lead other (omega arith) ready
