-- ===== src/Kv/Step/Locks/Deadlock.antt =====
-- A snapshot that arrives while the loop applies a command stops the server for ever.
use logic_raft.Base.{◌≡◌, ◌≢◌, ◌<◌, ◌≤◌, refl, sym, none, some, ◌∙◌}
use logic_raft.Gob.{Gob}
use logic_raft.Raft.{Value, ApplyMsg}
use logic_raft.Raft.Messages.{InstallSnapshotArgs}
use logic_raft.Raft.Snapshot.{snapshot_msg}
use logic_raft.Raft.Snapshot.Install.{install_snapshot-installed}
use logic_raft.Kv.{Op}
use logic_raft.Kv.Server.{KvServer, KvValue, kill}
use logic_raft.Kv.Step.Channels.Handlers.{get_finish-Received, put_append_finish-Received}
use logic_raft.Kv.Step.Replica.{replica_of}
use logic_raft.Kv.Step.Replica.Kept.{Received-kept}
use logic_raft.Kv.Step.Locks.{
  Loop, receiving, Locked, Move, Moves, peer_moved, installed, snapshot_sent, command_sent,
  advanced, get_begun, put_append_begun, removed, get_ended, put_append_ended, stopped, here, next,
}

module _ (g : Gob (Value Op)) (gk : Gob KvValue) where
  -- The lock is held for a send, and the loop does not receive.
  record IsStuck (msg : ApplyMsg Op) (loop : Loop) (kv : KvServer) (s : Locked) : Type 0 where
    held : s.holder ≡ some msg
    at : s.loop ≡ loop
    same : replica_of s.kv ≡ replica_of kv

  Move-IsStuck :
      {s t : Locked} (msg : ApplyMsg Op) (loop : Loop) (kv : KvServer)
      → loop ≢ receiving
      → Move g gk s t
      → IsStuck msg loop kv s
      → IsStuck msg loop kv t
  Move-IsStuck msg loop kv busy (peer_moved rf free) w = cc (w.held, free)
  Move-IsStuck msg loop kv busy (installed args reply sends rf free e) w = cc (w.held, free)
  Move-IsStuck msg loop kv busy (snapshot_sent m l kv' h r e) w = absurd (busy (sym w.at ∙ r))
  Move-IsStuck msg loop kv busy (command_sent m rf l kv' a r e) w = absurd (busy (sym w.at ∙ r))
  Move-IsStuck msg loop kv busy (advanced l kv' free e) w = cc (w.held, free)
  Move-IsStuck msg loop kv busy (get_begun args free r) w = absurd (busy (sym w.at ∙ r))
  Move-IsStuck msg loop kv busy (put_append_begun args call kv' f r e) w =
      absurd (busy (sym w.at ∙ r))
  Move-IsStuck msg loop kv busy (removed index r) w = absurd (busy (sym w.at ∙ r))
  Move-IsStuck msg loop kv busy (get_ended {s} ch late reply kv' e) w = record {
    held = w.held;
    at = w.at;
    same = Received-kept ch s.kv kv' (get_finish-Received g gk ch late reply s.kv kv' e) ∙ w.same;
  }
  Move-IsStuck msg loop kv busy (put_append_ended {s} ch late reply kv' e) w = record {
    held = w.held;
    at = w.at;
    same =
        Received-kept ch s.kv kv' (put_append_finish-Received g gk ch late reply s.kv kv' e)
        ∙ w.same;
  }
  Move-IsStuck msg loop kv busy stopped w =
      unfold kill in record { held = w.held; at = w.at; same = w.same }

  Moves-IsStuck :
      {s t : Locked} (msg : ApplyMsg Op) (loop : Loop) (kv : KvServer)
      → loop ≢ receiving
      → Moves g gk s t
      → IsStuck msg loop kv s
      → IsStuck msg loop kv t
  Moves-IsStuck msg loop kv busy here w = w
  Moves-IsStuck msg loop kv busy (next r m) w =
      Move-IsStuck msg loop kv busy m (Moves-IsStuck msg loop kv busy r w)

  -- While the loop is in the round of a command and has yet to take the lock of the peer once more,
  -- a current leader's snapshot that is newer than the base of the log may arrive. The peer then
  -- holds its lock and sends the snapshot to the loop, which wants the lock: whatever happens from
  -- there, short of the end of the process, the lock is never released, the loop stays where it is,
  -- and the server's map of keys, its table of duplicates and the index that it has applied never
  -- change.
  pub snapshot_deadlocks :
      (args : InstallSnapshotArgs) (s : Locked)
      → s.holder ≡ none
      → s.loop ≢ receiving
      → s.kv.rf.current_term ≤ args.term
      → s.kv.rf.log.base < args.last_included_index
      → (t : Locked) × Move g gk s t
        × ((u : Locked)
            → Moves g gk t u
            → (u.holder ≡ some (snapshot_msg args))
              × (u.loop ≡ s.loop)
              × (replica_of u.kv ≡ replica_of s.kv))
  snapshot_deadlocks args s free busy current newer =
      let arrives = install_snapshot-installed g args s.kv.rf current newer in
      (
        _,
        installed args _ _ _ free arrives,
        λ u moves.
            let w =
              Moves-IsStuck (snapshot_msg args) s.loop s.kv busy moves
                (record { held = refl; at = refl; same = refl }) in
            (w.held, w.at, w.same),
      )
