-- ===== src/Raft/Application.antt =====
-- src/raft/raft_application.go: the loop that hands committed records to the service. It is cut
-- where it waits, releases the lock or sends, so that the other methods may run in between.
pub mod Round
pub mod Race
use logic_raft.Base.{
  ℕ, zero, suc, ◌+◌, ◌-◌, false, Option, none, some, List, [], ◌∷◌, Result, ok, ◌>>=◌,
  if◌then◌else◌,
}
use logic_raft.Log.{LogRecord, Log, get}
use logic_raft.Raft.{Raft, ApplyMsg, Applier, looping, waiting, woken, sending, stopped, killed}

module _ {C : Type 0} where
  -- The records from `i` on, `left` of them.
  unfoldable pub collect : ℕ → ℕ → Log C → Result (List (LogRecord C))
  unfolding get
  collect zero i log = ok []
  collect (suc left) i log = do r ← get log i; rest ← collect left (suc i) log; ok (r ∷ rest)

  unfoldable pub command_msg : LogRecord C → ℕ → ApplyMsg C
  command_msg entry index = record {
    command_valid = entry.command_valid;
    command = entry.command;
    command_index = index;
    snapshot_valid = false;
    snapshot = none;
    snapshot_term = 0;
    snapshot_index = 0;
  }

  -- `for i := lastApplied + 1; i <= commitIndex` has `commitIndex - lastApplied` rounds, or none.
  apply_from : Applier C → Raft C → Result (Option (ApplyMsg C) × Raft C)
  unfolding collect command_msg killed
  apply_from looping rf = ok (none, record rf { applier = if killed rf then stopped else waiting })
  apply_from waiting rf = ok (none, rf)
  apply_from woken rf = do
    entries ← collect (rf.commit_index - rf.last_applied) (rf.last_applied + 1) rf.log
    ok (none, record rf { applier = sending 0 entries })
  apply_from (sending n (entry ∷ rest)) rf = ok (
    some (command_msg entry (rf.last_applied + 1 + n)),
    record rf { applier = sending (suc n) rest },
  )
  apply_from (sending n []) rf =
      ok (none, record rf { last_applied = rf.last_applied + n; applier = looping })
  apply_from stopped rf = ok (none, rf)

  -- One step of the loop: what is sent to the service, if anything, and the state.
  unfoldable pub apply_step : Raft C → Result (Option (ApplyMsg C) × Raft C)
  unfolding apply_from
  apply_step rf = apply_from rf.applier rf
