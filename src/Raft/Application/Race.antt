-- ===== src/Raft/Application/Race.antt =====
-- The loop releases the lock while it sends: a snapshot that is installed meanwhile changes what
-- the records that are still to be sent are called.
use mathlib.Core.Path.{◌∙◌}
use logic_raft.Base.{
  sym, ◌+◌, ◌-◌, ◌<◌, ◌≤◌, ◌≡◌, refl, ap, none, some, List, [], ◌∷◌, ok, arith, length, index,
}
use logic_raft.Log.{LogRecord, get, size}
use logic_raft.Gob.{Gob}
use logic_raft.Raft.{Raft, Value, woken, sending}
use logic_raft.Raft.Roles.{become_follower_locked}
use logic_raft.Raft.Persistence.{persist_locked}
use logic_raft.Raft.Messages.{InstallSnapshotArgs}
use logic_raft.Raft.Snapshot.{install_snapshot, snapshot_msg}
use logic_raft.Raft.Snapshot.Install.{installed, install_snapshot-installed}
use logic_raft.Raft.Application.{command_msg, apply_step}
use logic_raft.Raft.Application.Round.{collect_exact, apply_step-woken}

head_of {ℓ} :
    {A : Type ℓ} (xs : List A) → 0 < length xs → (x : A) × (rest : List A) × (xs ≡ x ∷ rest)
head_of [] h = elim h [ ]
head_of (x ∷ xs) h = (x, xs, refl)

module _ {C : Type 0} (g : Gob (Value C)) where
  sends_renamed :
      (args : InstallSnapshotArgs) (rf : Raft C) (r : LogRecord C) (rest : List (LogRecord C))
      → rf.last_applied < args.last_included_index
      → let cut : Raft C = installed g args (record rf { applier = sending 0 (r ∷ rest) }) in
        apply_step cut
        ≡ ok (
          some (command_msg r (args.last_included_index + 1)),
          record cut { applier = sending 1 rest },
        )
  unfolding apply_step persist_locked become_follower_locked
  sends_renamed args rf r rest h = ground arith

  -- On a peer whose log has the records after the applied index up to the commit index, and at
  -- least one such: if a snapshot of a term that is not older, of an index beyond the commit index
  -- is installed after the loop has copied the committed records and before it sends the first,
  -- that record, which stands right after the old applied index, is handed to the service as the
  -- command right after the snapshot's index.
  pub snapshot_renames_command :
      (args : InstallSnapshotArgs) (rf : Raft C)
      → rf.applier ≡ woken
      → rf.log.base ≤ rf.last_applied + 1
      → rf.last_applied < rf.commit_index
      → rf.commit_index < size rf.log
      → rf.current_term ≤ args.term
      → rf.log.base < args.last_included_index
      → rf.commit_index < args.last_included_index
      → (r : LogRecord C) × (woke : Raft C) × (cut : Raft C) × (later : Raft C) × (get rf.log
            (rf.last_applied + 1)
          ≡ ok r)
        × (apply_step rf ≡ ok (none, woke))
        × (install_snapshot g args woke
            ≡ ok (record { term = rf.current_term }, some (snapshot_msg {C = C} args), cut))
        × (apply_step cut ≡ ok (some (command_msg r (args.last_included_index + 1)), later))
  snapshot_renames_command args rf h above pending below current newer ahead =
      let k = rf.commit_index - rf.last_applied in
      let (es, e, n, same) = collect_exact k (rf.last_applied + 1) rf.log above (omega arith) in
      let (r, rest, split) = head_of es (omega arith) in
      let woke : Raft C = record rf { applier = sending 0 (r ∷ rest) } in
      let cut = installed g args woke in
      let at : get rf.log (rf.last_applied + 1) ≡ ok r =
        ap (get rf.log) (omega arith)
        ∙ sym (same 0 (omega arith))
        ∙ ap (λ (xs : List (LogRecord C)). index xs 0) split in
      (
        r,
        woke,
        cut,
        record cut { applier = sending 1 rest },
        at,
        apply_step-woken rf (r ∷ rest) h (e ∙ ap ok split),
        install_snapshot-installed g args woke current newer,
        sends_renamed args rf r rest (omega arith),
      )
