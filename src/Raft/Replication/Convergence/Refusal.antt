-- ===== src/Raft/Replication/Convergence/Refusal.antt =====
-- Where a leader goes on from when a peer refuses a request: further back, but not to the start.
use mathlib.Core.Path.{◌∙◌}
use native.Mathlib.Decide.{dec_lt}
use logic_raft.Base.{ℕ, suc, ◌<◌, ◌≤◌, ◌≡◌, ◌≢◌, refl, sym, ap, ok, arith, inl, inr}
use logic_raft.Log.{LogRecord, Log, get, first_log_for}
use logic_raft.Log.Terms.{first_log_for_exact}
use logic_raft.Raft.{Raft}
use logic_raft.Raft.Messages.{AppendEntriesReply}
use logic_raft.Raft.Replication.{next_after_conflict}
use logic_raft.Raft.Replication.Backtrack.{first_log_for-le}
use logic_raft.Raft.Replication.Convergence.{IsWhole, Matching, Ready}

module _ {C : Type 0} where
  pub short_log_next :
      (reply : AppendEntriesReply) (next size_is : ℕ) (rf : Raft C)
      → reply.conflict_term ≡ 0
      → reply.conflict_index ≡ size_is
      → 0 < size_is
      → size_is < next
      → (0 < next_after_conflict reply next rf) × (next_after_conflict reply next rf < next)
  unfolding next_after_conflict
  short_log_next reply next size_is rf t i pos lt = ground arith

  conflict_next :
      (reply : AppendEntriesReply) (next : ℕ) (rf : Raft C)
      → 0 < reply.conflict_term
      → 0 < reply.conflict_index
      → reply.conflict_index < next
      → first_log_for rf.log reply.conflict_term < next
      → (0 < next_after_conflict reply next rf) × (next_after_conflict reply next rf < next)
  unfolding next_after_conflict
  conflict_next reply next rf t pos lt first = ground arith

  begin_alike :
      (own other : Log C) (r r' : LogRecord C)
      → IsWhole own
      → IsWhole other
      → get own 0 ≡ ok r
      → get other 0 ≡ ok r'
      → r'.term ≡ r.term
  begin_alike own other r r' w w' at at' =
      let same : w.first ≡ r = cc (w.first_at, at) in
      let same' : w'.first ≡ r' = cc (w'.first_at, at') in
      cc (w.first_term, w'.first_term, same, same')

  -- In a whole log the position that `firstLogFor` finds for a record that is there is not 0.
  first_log_for-pos :
      (log : Log C) (i : ℕ) (r : LogRecord C)
      → IsWhole log
      → 0 < i
      → get log i ≡ ok r
      → 0 < first_log_for log r.term
  first_log_for-pos log i r w later at =
      let (_, known) = first_log_for_exact log r.term w.sorted in
      elim (known i r (omega (arith, w.base)) at refl) [
        | inl (pos, _) ↦ pos
        | inr (first, at_base, same, _) ↦
            let at₀ : get log 0 ≡ ok first = ap (get log) (sym w.base) ∙ at_base in
            let e : w.first ≡ first = cc (w.first_at, at₀) in
            let zero_term : r.term ≡ 0 = cc (w.first_term, e, same) in
            absurd (omega (arith, w.real i r later at, zero_term))
      ]

  -- The leader's own records of the term of a record that differs from its own come before it.
  first_log_for-before :
      (own other : Log C) (prev : ℕ) (r r' : LogRecord C)
      → IsWhole own
      → Matching own other
      → get own prev ≡ ok r
      → get other prev ≡ ok r'
      → r'.term ≢ r.term
      → first_log_for own r'.term ≤ prev
  first_log_for-before own other prev r r' w matching at at' differs =
      elim (dec_lt prev (first_log_for own r'.term)) [
        | no p ↦ omega arith
        | yes p ↦
            let k = first_log_for own r'.term in
            let (found, _) = first_log_for_exact own r'.term w.sorted in
            let (r'', at'', same) = found (omega arith) in
            let here : get own k ≡ ok r'' = ap (get own) (omega (arith, w.base)) ∙ at'' in
            let agree =
              matching prev k r' r'' (omega arith) at' here (sym same) prev (omega arith) in
            absurd (differs (let e : r' ≡ r = cc in ap LogRecord.term e))
      ]

  -- Where a refused request leaves the leader: further back, but not before the first record.
  pub refused_next :
      (peer prev : ℕ) (lead other : Raft C) (r r' : LogRecord C) (reply : AppendEntriesReply)
      → Ready peer (suc prev) lead other
      → get lead.log prev ≡ ok r
      → get other.log prev ≡ ok r'
      → r'.term ≢ r.term
      → reply.conflict_term ≡ r'.term
      → reply.conflict_index ≡ first_log_for other.log r'.term
      → (0 < next_after_conflict reply (suc prev) lead)
        × (next_after_conflict reply (suc prev) lead < suc prev)
  refused_next peer prev lead other r r' reply ready at at' differs t_is i_is =
      let w' = ready.other_whole in
      elim (dec_lt 0 prev) [
        | no p ↦
            let e : prev ≡ 0 = omega arith in
            absurd (
              differs
                (begin_alike lead.log other.log r r' ready.whole w' (rw e at at) (rw e at at')))
        | yes later ↦
            let real = w'.real prev r' later at' in
            let pos = first_log_for-pos other.log prev r' w' later at' in
            let le = first_log_for-le other.log prev r' at' in
            let before =
              first_log_for-before lead.log other.log prev r r' ready.whole ready.matching at at'
                differs in
            conflict_next reply (suc prev) lead (omega (arith, t_is, real))
              (omega (arith, i_is, pos)) (omega (arith, i_is, le)) (rw t_is (omega (arith, before)))
      ]
