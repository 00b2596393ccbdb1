-- ===== src/Kv/Step/Replica/Replay.antt =====
-- A server is a replica of the messages that it was given, whatever else happens to it.
use logic_raft.Base.{
  ap, ℕ, ◌≡◌, refl, sym, Option, none, some, List, [], ◌∷◌, ok, arith, from_option, leb, Bool-cases,
  >>=-eq-ok, inl, inr, ◌∙◌,
}
use logic_raft.Base.Dict.{nat_key}
use logic_raft.Gob.{Gob}
use logic_raft.Persister.{Bytes}
use logic_raft.Raft.{Value, ApplyMsg}
use logic_raft.Kv.{Op, OpReply}
use logic_raft.Kv.Server.{KvServer, KvValue, remove_notify_channel, kill}
use logic_raft.Kv.Apply.{
  apply_op, notify, finish_apply, make_snapshot, wants_snapshot, apply_message,
  restore_from_snapshot,
}
use logic_raft.Kv.Step.{
  KvStep, get_begun, get_ended, put_append_begun, put_append_ended, removed, applied, peer_moved,
  stopped,
}
use logic_raft.Kv.Step.Channels.Handlers.{get_finish-Received, put_append_finish-Received}
use logic_raft.Kv.Step.Replica.{replica_of, perform, load, take, take_all}
use logic_raft.Kv.Step.Replica.Kept.{
  get_begin-kept, put_append_begin-kept, Received-kept, notify-kept,
}

apply_op-performs :
    (op : Op) (kv kv' : KvServer) (reply : OpReply)
    → apply_op op kv ≡ ok (reply, kv')
    → replica_of kv' ≡ perform op (replica_of kv)
unfolding apply_op perform
apply_op-performs op kv kv' reply e = ground arith

module _ (g : Gob (Value Op)) (gk : Gob KvValue) where
  restore_from_snapshot-loads :
      (bytes : Bytes) (kv kv' : KvServer)
      → restore_from_snapshot g gk bytes kv ≡ ok kv'
      → load gk bytes (replica_of kv) ≡ ok (replica_of kv')
  unfolding restore_from_snapshot load
  restore_from_snapshot-loads [] kv kv' e = ground arith
  restore_from_snapshot-loads (b ∷ bytes) kv kv' e = ground arith

  make_snapshot-kept :
      (index : ℕ) (kv kv' : KvServer)
      → make_snapshot g gk index kv ≡ ok kv'
      → replica_of kv' ≡ replica_of kv
  unfolding make_snapshot
  make_snapshot-kept index kv kv' e = ground arith

  finish_apply-kept :
      (index : ℕ) (r : Option KvServer) (kv' : KvServer)
      → finish_apply g gk index r ≡ ok (some kv')
      → (kv : KvServer) × (r ≡ some kv) × (replica_of kv' ≡ replica_of kv)
  unfolding finish_apply
  finish_apply-kept index none kv' e = absurd cc
  finish_apply-kept index (some kv) kv' e = elim (Bool-cases (wants_snapshot g gk kv)) [
    | inl wanted ↦
        let e' = rw wanted at e in
        let (kv₁, made, e'') = >>=-eq-ok (make_snapshot g gk index kv) _ e' in
        let same : kv₁ ≡ kv' = cc in
        (kv, refl, ap replica_of (sym same) ∙ make_snapshot-kept index kv kv₁ made)
    | inr not_wanted ↦
        let e' = rw not_wanted at e in
        let same : kv ≡ kv' = cc in (kv, refl, ap replica_of (sym same))
  ]

  apply_message-takes :
      (msg : ApplyMsg Op) (kv kv' : KvServer)
      → apply_message g gk msg kv ≡ ok (some kv')
      → take gk msg (replica_of kv) ≡ ok (replica_of kv')
  unfolding apply_message take
  apply_message-takes msg kv kv' e = elim (Bool-cases msg.command_valid) [
    | inl valid ↦ elim (Bool-cases (leb msg.command_index kv.last_applied)) [
      | inl old ↦
          let e' = rw (valid, old) at e in
          let same : kv ≡ kv' = cc in rw (valid, old) (ap (λ s. ok (replica_of s)) same)
      | inr new ↦
          let e₁ = rw (valid, new) at e in
          let i = msg.command_index in
          let (op, has, e₂) = >>=-eq-ok (from_option msg.command) _ e₁ in
          let moved : KvServer = record kv { last_applied = i } in
          let ((reply, kv₁), ran, e₃) = >>=-eq-ok (apply_op op moved) _ e₂ in
          let (kv₂, told, done) = finish_apply-kept i (notify i reply kv₁) kv' e₃ in
          let same : replica_of kv' ≡ perform op (replica_of moved) =
            done ∙ notify-kept i reply kv₁ kv₂ told ∙ apply_op-performs op moved kv₁ reply ran in
          rw (valid, new, has) (ap ok (sym same))
    ]
    | inr other ↦ elim (Bool-cases msg.snapshot_valid) [
      | inl snapshot ↦
          let e₁ = rw (other, snapshot) at e in
          let bytes : Bytes = elim msg.snapshot [ none ↦ [] | some b ↦ b ] in
          let (kv₁, restored, e₂) = >>=-eq-ok (restore_from_snapshot g gk bytes kv) _ e₁ in
          let loaded = restore_from_snapshot-loads bytes kv kv₁ restored in
          let same : record kv₁ { last_applied = msg.snapshot_index } ≡ kv' = cc in
          rw (other, snapshot, loaded) (ap (λ s. ok (replica_of s)) same)
      | inr neither ↦
          let e' = rw (other, neither) at e in
          let same : kv ≡ kv' = cc in rw (other, neither) (ap (λ s. ok (replica_of s)) same)
    ]
  ]

  -- What happens to a server, with the messages that it was given, in order.
  pub data KvRun : KvServer → List (ApplyMsg Op) → KvServer → Type 0 where
    done : (kv : KvServer) → KvRun kv [] kv
    besides :
        {kv kv' kv'' : KvServer} {msgs : List (ApplyMsg Op)}
        → KvStep g gk (λ _ _. ⊥) kv kv'
        → KvRun kv' msgs kv''
        → KvRun kv msgs kv''
    taken :
        {kv kv' kv'' : KvServer} {msgs : List (ApplyMsg Op)} (msg : ApplyMsg Op)
        → apply_message g gk msg kv ≡ ok (some kv')
        → KvRun kv' msgs kv''
        → KvRun kv (msg ∷ msgs) kv''

  besides-kept :
      {kv kv' : KvServer} → KvStep g gk (λ _ _. ⊥) kv kv' → replica_of kv' ≡ replica_of kv
  besides-kept (get_begun args kv) = get_begin-kept g args kv
  besides-kept (get_ended ch late reply kv kv' e) =
      Received-kept ch kv kv' (get_finish-Received g gk ch late reply kv kv' e)
  besides-kept (put_append_begun args call kv kv' e) = put_append_begin-kept g args call kv kv' e
  besides-kept (put_append_ended ch late reply kv kv' e) =
      Received-kept ch kv kv' (put_append_finish-Received g gk ch late reply kv kv' e)
  besides-kept (removed index kv) = unfold remove_notify_channel in refl
  besides-kept (applied msg kv kv' never e) = absurd never
  besides-kept (peer_moved rf kv) = refl
  besides-kept (stopped kv) = unfold kill in refl

  run-takes :
      {kv kv' : KvServer} {msgs : List (ApplyMsg Op)}
      → KvRun kv msgs kv'
      → take_all gk msgs (replica_of kv) ≡ ok (replica_of kv')
  unfolding take_all
  run-takes (done kv) = refl
  run-takes (besides s run) = ap (take_all gk _) (sym (besides-kept s)) ∙ run-takes run
  run-takes (taken msg e run) = rw (apply_message-takes msg _ _ e) (run-takes run)

  -- A server is the replica of the messages that it was given and has applied to the end, without
  -- a panic: whatever its handlers, its peer and the goroutines that remove channels have done in
  -- between, in any order, its map of keys, its table of duplicates and the index of its last
  -- message are what a replica has that takes just these messages.
  pub server_is_replica :
      (kv kv' : KvServer) (msgs : List (ApplyMsg Op))
      → KvRun kv msgs kv'
      → take_all gk msgs (replica_of kv) ≡ ok (replica_of kv')
  server_is_replica kv kv' msgs run = run-takes run
