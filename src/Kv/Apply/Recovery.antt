-- ===== src/Kv/Apply/Recovery.antt =====
-- A server that starts from a snapshot has what the snapshot was made of.
use logic_raft.Base.{
  ap, ℕ, ◌≤◌, ◌<◌, ◌≡◌, ◌≢◌, refl, true, Option, List, [], ◌∷◌, ok, arith, length, ltb,
}
use logic_raft.Base.Dict.{Dict}
use logic_raft.Log.{size}
use logic_raft.Gob.{Gob}
use logic_raft.Persister.{Bytes, Persister}
use logic_raft.Raft.{Value}
use logic_raft.Raft.Snapshot.Install.{take_snapshot_exact}
use logic_raft.Kv.{Op, KvStateMachine, LastOperationInfo}
use logic_raft.Kv.Server.{KvServer, KvValue, saved_machine, saved_table}
use logic_raft.Kv.Apply.{make_snapshot, restore_from_snapshot, start_kv_server, blank}

module _ (g : Gob (Value Op)) (gk : Gob KvValue) where
  length-pos : (xs : Bytes) → xs ≢ [] → ltb 0 (length xs) ≡ true
  length-pos [] h = absurd (h refl)
  length-pos (x ∷ xs) h = ground arith

  pub restore_saved :
      (machine : KvStateMachine) (table : Dict ℕ LastOperationInfo) (kv : KvServer)
      → restore_from_snapshot g gk (gk.write (saved_machine machine ∷ saved_table table ∷ [])) kv
        ≡ ok (record kv { state_machine = machine; duplicate_table = table })
  unfolding restore_from_snapshot
  restore_saved machine table kv =
      let vs : List KvValue = saved_machine machine ∷ saved_table table ∷ [] in
      rw (length-pos (gk.write vs) (gk.write_nonempty _ _), gk.read_write vs 0, gk.read_write vs 1)

  start_from :
      (peers me : ℕ) (persister : Persister) (max_raft_state : Option ℕ) (bytes : Bytes)
      → persister.snapshot ≡ bytes
      → start_kv_server g gk peers me persister max_raft_state
        ≡ restore_from_snapshot g gk bytes (blank g gk peers me persister max_raft_state)
  unfolding start_kv_server
  start_from peers me persister max_raft_state bytes e =
      ap (λ b. restore_from_snapshot g gk b (blank g gk peers me persister max_raft_state)) e

  -- After a server has made a snapshot at a committed index of its log, a server that starts from
  -- the storage of its peer has the same key/value state and the same table of duplicates.
  pub snapshot_recovers :
      (index : ℕ) (kv : KvServer) (peers me : ℕ) (max_raft_state : Option ℕ)
      → kv.rf.log.base ≤ index
      → index ≤ kv.rf.commit_index
      → index < size kv.rf.log
      → (kv' : KvServer) × (new : KvServer) × (make_snapshot g gk index kv ≡ ok kv')
        × (start_kv_server g gk peers me kv'.rf.persister max_raft_state ≡ ok new)
        × (new.state_machine ≡ kv.state_machine)
        × (new.duplicate_table ≡ kv.duplicate_table)
  snapshot_recovers index kv peers me max_raft_state above committed below =
      let bytes = gk.write (saved_machine kv.state_machine ∷ saved_table kv.duplicate_table ∷ []) in
      let (_, rf, _, runs, _, _, _, _, stored, _, _, _) =
        take_snapshot_exact g index bytes kv.rf above committed below in
      let empty : KvServer = blank g gk peers me rf.persister max_raft_state in
      (
        record kv { rf = rf },
        record empty { state_machine = kv.state_machine; duplicate_table = kv.duplicate_table },
        unfold make_snapshot in rw runs,
        unfold start_kv_server in
            rw stored (restore_saved kv.state_machine kv.duplicate_table empty),
        refl,
        refl,
      )
