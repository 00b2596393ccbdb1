-- ===== src/Kv/Apply/Rollback.antt =====
-- A snapshot that is older than what the server has applied: the peer takes it if it is newer than
-- the base of its log, and the server goes back to it.
use logic_raft.Base.{ℕ, ◌≡◌, ◌<◌, ◌≤◌, refl, some, [], ◌∷◌, ok, arith}
use logic_raft.Base.Dict.{Dict}
use logic_raft.Gob.{Gob}
use logic_raft.Raft.{Raft, Value, ApplyMsg}
use logic_raft.Raft.Messages.{InstallSnapshotArgs}
use logic_raft.Raft.Roles.{become_follower_locked}
use logic_raft.Raft.Persistence.{persist_locked}
use logic_raft.Raft.Snapshot.{install_snapshot, snapshot_msg}
use logic_raft.Raft.Snapshot.Install.{installed, install_snapshot-installed}
use logic_raft.Kv.{Op, LastOperationInfo, KvStateMachine}
use logic_raft.Kv.Server.{KvServer, KvValue, saved_machine, saved_table}
use logic_raft.Kv.Apply.{apply_message}
use logic_raft.Kv.Apply.Recovery.{restore_saved}

module _ (g : Gob (Value Op)) (gk : Gob KvValue) where
  -- A snapshot message with a state that a server has written: the server takes the state and the
  -- index, whatever it has applied.
  apply_message-snapshot :
      (args : InstallSnapshotArgs) (machine : KvStateMachine) (table : Dict ℕ LastOperationInfo)
      (kv : KvServer)
      → args.bytes ≡ some (gk.write (saved_machine machine ∷ saved_table table ∷ []))
      → apply_message g gk (snapshot_msg args) kv
        ≡ ok (
            some (record kv {
              state_machine = machine;
              duplicate_table = table;
              last_applied = args.last_included_index;
            }))
  unfolding apply_message snapshot_msg
  apply_message-snapshot args machine table kv e =
      ground (arith, e, restore_saved g gk machine table kv)

  -- If a current leader's snapshot is newer than the base of the log and older than what the peer
  -- has applied, the peer takes it, and the server, once it gets it, has the state and the index of
  -- the snapshot; but the peer still counts as applied what it had applied, which is more.
  pub old_snapshot_rolls_back :
      (args : InstallSnapshotArgs) (machine : KvStateMachine) (table : Dict ℕ LastOperationInfo)
      (kv : KvServer)
      → args.bytes ≡ some (gk.write (saved_machine machine ∷ saved_table table ∷ []))
      → kv.rf.current_term ≤ args.term
      → kv.rf.log.base < args.last_included_index
      → args.last_included_index < kv.rf.last_applied
      → (msg : ApplyMsg Op) × (rf' : Raft Op) × (kv' : KvServer) × (install_snapshot g args kv.rf
          ≡ ok (record { term = kv.rf.current_term }, some msg, rf'))
        × (apply_message g gk msg (record kv { rf = rf' }) ≡ ok (some kv'))
        × (kv'.state_machine ≡ machine)
        × (kv'.last_applied ≡ args.last_included_index)
        × (kv'.rf.last_applied ≡ kv.rf.last_applied)
        × (kv'.last_applied < kv'.rf.last_applied)
  unfolding persist_locked become_follower_locked
  old_snapshot_rolls_back args machine table kv e current newer older =
      let rf' = installed g args kv.rf in
      (
        snapshot_msg args,
        rf',
        record kv {
          rf = rf';
          state_machine = machine;
          duplicate_table = table;
          last_applied = args.last_included_index;
        },
        install_snapshot-installed g args kv.rf current newer,
        apply_message-snapshot args machine table (record kv { rf = rf' }) e,
        refl,
        refl,
        ground arith,
        ground arith,
      )
