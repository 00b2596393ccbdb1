-- ===== src/Raft/Replication/Backtrack.antt =====
-- Where a leader goes on after a failed consistency check.
use mathlib.Core.Path.{◌∙◌}
use logic_raft.Base.{ℕ, ◌-◌, ◌≤◌, ◌≡◌, refl, sym, ok, arith, index}
use logic_raft.Log.{LogRecord, Log, get, first_log_for}
use logic_raft.Log.Records.{get_at, get_in_range}
use logic_raft.Log.Terms.{first_log_from-le}
use logic_raft.Gob.{Gob}
use logic_raft.Raft.{Raft}
use logic_raft.Raft.Messages.{AppendEntriesReply}
use logic_raft.Raft.Replication.{next_after_conflict}

module _ {C : Type 0} where
  -- `nextIndex` never moves forward on a failed check.
  pub next_after_conflict-le :
      (reply : AppendEntriesReply) (next : ℕ) (rf : Raft C)
      → next_after_conflict reply next rf ≤ next
  unfolding next_after_conflict
  next_after_conflict-le reply next rf = ground arith

  pub first_log_for-le :
      (log : Log C) (prev : ℕ) (r : LogRecord C)
      → get log prev ≡ ok r
      → first_log_for log r.term ≤ prev
  unfolding first_log_for
  first_log_for-le log prev r at =
      let (above, _) = get_in_range log prev r at in
      let q = prev - log.base in
      let at_q : index log.records q ≡ ok r = sym (get_at log prev q (omega arith)) ∙ at in
      omega (arith, first_log_from-le r.term 0 q log.records r at_q refl)
