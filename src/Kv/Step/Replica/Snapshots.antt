-- ===== src/Kv/Step/Replica/Snapshots.antt =====
-- A snapshot in place of the messages that it was made of.
use logic_raft.Base.{
  ap, ℕ, ◌≡◌, refl, true, false, some, List, [], ◌∷◌, ok, >>=-eq-ok, ◌∙◌, ◌++◌, ◌≢◌,
}
use logic_raft.Base.Dict.{Dict, nat_key}
use logic_raft.Gob.{Gob}
use logic_raft.Persister.{Bytes}
use logic_raft.Raft.{Value, ApplyMsg}
use logic_raft.Kv.{Op, KvStateMachine, LastOperationInfo}
use logic_raft.Kv.Server.{KvServer, KvValue, saved_machine, saved_table}
use logic_raft.Kv.Step.Replica.{Replica, replica_of, load, replace, take, take_all}
use logic_raft.Kv.Step.Replica.Replay.{KvRun, server_is_replica}

module _ (g : Gob (Value Op)) (gk : Gob KvValue) where
  load-nonempty :
      (bytes : Bytes) (r : Replica)
      → bytes ≢ []
      → load gk bytes r ≡ replace gk (gk.read bytes 0) bytes r
  unfolding load
  load-nonempty [] r h = absurd (h refl)
  load-nonempty (b ∷ bytes) r h = refl

  load-saved :
      (machine : KvStateMachine) (table : Dict ℕ LastOperationInfo) (r : Replica)
      → load gk (gk.write (saved_machine machine ∷ saved_table table ∷ [])) r
        ≡ ok (record r { machine = machine; table = table })
  unfolding load
  load-saved machine table r =
      let vs : List KvValue = saved_machine machine ∷ saved_table table ∷ [] in
      rw
        (
          load-nonempty (gk.write vs) r (gk.write_nonempty _ _),
          gk.read_write vs 0,
          gk.read_write vs 1,
        )
        refl

  take-saved :
      (msg : ApplyMsg Op) (r other : Replica)
      → msg.command_valid ≡ false
      → msg.snapshot_valid ≡ true
      → msg.snapshot ≡ some (gk.write (saved_machine r.machine ∷ saved_table r.table ∷ []))
      → msg.snapshot_index ≡ r.last
      → take gk msg other ≡ ok r
  unfolding take
  take-saved msg r other neither valid holds at =
      rw (neither, valid, holds, load-saved r.machine r.table other, at) refl

  take_all-append :
      (earlier later : List (ApplyMsg Op)) (r between : Replica)
      → take_all gk earlier r ≡ ok between
      → take_all gk (earlier ++ later) r ≡ take_all gk later between
  unfolding take_all
  take_all-append [] later r between e = let same : r ≡ between = cc in ap (take_all gk later) same
  take_all-append (msg ∷ earlier) later r between e =
      let (r', first, rest) = >>=-eq-ok (take gk msg r) _ e in
      rw first (take_all-append earlier later r' between rest)

  -- A snapshot stands for the messages before it: where a server was given messages, and another
  -- one, in whatever state, is given the snapshot of what the first has after them and then later
  -- messages, the other has in the end what a replica has that begins as the first did and takes
  -- all the messages, the earlier and the later ones, whatever the handlers and the peers of both
  -- have done.
  pub snapshot_stands_for_messages :
      (kv between other new : KvServer) (earlier later : List (ApplyMsg Op)) (msg : ApplyMsg Op)
      → KvRun g gk kv earlier between
      → msg.command_valid ≡ false
      → msg.snapshot_valid ≡ true
      → msg.snapshot
        ≡ some (
            gk.write
              (saved_machine between.state_machine ∷ saved_table between.duplicate_table ∷ []))
      → msg.snapshot_index ≡ between.last_applied
      → KvRun g gk other (msg ∷ later) new
      → take_all gk (earlier ++ later) (replica_of kv) ≡ ok (replica_of new)
  unfolding take_all
  snapshot_stands_for_messages kv between other new earlier later msg run neither valid holds at
        run' =
      let restored =
        take-saved msg (replica_of between) (replica_of other) neither valid holds at in
      take_all-append earlier later (replica_of kv) (replica_of between)
        (server_is_replica g gk kv between earlier run)
      ∙ (rw restored at (server_is_replica g gk other new (msg ∷ later) run'))
