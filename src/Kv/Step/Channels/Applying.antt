-- ===== src/Kv/Step/Channels/Applying.antt =====
-- What the loop that applies does to the channels.
use logic_raft.Base.{
  from_option, leb, ℕ, ◌<◌, ◌≤◌, ◌≡◌, refl, sym, true, false, subst, Option, none, some, List, [],
  ◌∷◌, ok, arith, Bool-cases, >>=-eq-ok, inl, inr,
}
use logic_raft.Base.Dict.{nat_key}
use logic_raft.Gob.{Gob}
use logic_raft.Persister.{Bytes}
use logic_raft.Raft.Snapshot.{take_snapshot}
use logic_raft.Raft.{Value, ApplyMsg, get_state}
use logic_raft.Kv.{Op, OpReply}
use logic_raft.Kv.Server.{KvServer, KvValue, saved_machine, saved_table}
use logic_raft.Kv.Apply.{
  apply_op, notify, finish_apply, make_snapshot, wants_snapshot, apply_message,
  restore_from_snapshot,
}
use logic_raft.Kv.Step.Channels.{Clear, IsClear, Clear-later}
use logic_raft.Kv.Step.Channels.Handlers.{
  Same, Same-IsClear, send-IsClear, get_notify_channel-Clear,
}

module _ (g : Gob (Value Op)) (gk : Gob KvValue) where
  pub apply_op-Same :
      (op : Op) (kv kv' : KvServer) (reply : OpReply)
      → apply_op op kv ≡ ok (reply, kv')
      → Same kv kv'
  unfolding apply_op
  apply_op-Same op kv kv' reply e = ground arith

  make_snapshot-Same :
      (index : ℕ) (kv kv' : KvServer) → make_snapshot g gk index kv ≡ ok kv' → Same kv kv'
  unfolding make_snapshot
  make_snapshot-Same index kv kv' e =
      let bytes = gk.write (saved_machine kv.state_machine ∷ saved_table kv.duplicate_table ∷ []) in
      let (rf, _, e') = >>=-eq-ok (take_snapshot g index (some bytes) kv.rf) _ e in
      let same : record kv { rf = rf } ≡ kv' = cc in subst (Same kv) same (refl, refl, refl)

  finish_apply-IsClear :
      (index : ℕ) (kv : KvServer) (r : Option KvServer)
      → IsClear kv
      → finish_apply g gk index (some kv) ≡ ok r
      → (kv' : KvServer) × (r ≡ some kv') × IsClear kv'
  unfolding finish_apply
  finish_apply-IsClear index kv r c e = elim (Bool-cases (wants_snapshot g gk kv)) [
    | inl wanted ↦
        let e' = rw wanted at e in
        let (kv₁, made, e'') = >>=-eq-ok (make_snapshot g gk index kv) _ e' in
        (kv₁, cc, Same-IsClear kv kv₁ (make_snapshot-Same index kv kv₁ made) c)
    | inr not_wanted ↦ let e' = rw not_wanted at e in (kv, cc, c)
  ]

  -- The reply of an index that was not applied before finds an empty channel.
  notify-IsClear :
      (i last : ℕ) (reply : OpReply) (kv : KvServer)
      → Clear kv.notify_chans kv.chans last
      → last < i
      → i ≡ kv.last_applied
      → (kv' : KvServer) × (notify i reply kv ≡ some kv') × IsClear kv'
  unfolding notify
  notify-IsClear i last reply kv c new now =
      let (ch, kv', e, c', at, last_is) = get_notify_channel-Clear i last kv c in
      let c'' : IsClear kv' =
        Clear-later kv'.notify_chans kv'.chans last kv'.last_applied (omega (arith, last_is)) c' in
      let (kv'', sent, c₃) =
        send-IsClear i ch reply kv' c'' at (omega (arith, last_is)) (c'.empty i ch at new) in
      elim (Bool-cases (get_state kv.rf).1) [
        | inl leads ↦ (kv'', rw (e, leads) sent, c₃)
        | inr follows ↦ (
          kv,
          rw (e, follows) refl,
          Clear-later kv.notify_chans kv.chans last kv.last_applied (omega arith) c,
        )
      ]

  pub restore_from_snapshot-Same :
      (bytes : List ℕ) (kv kv' : KvServer)
      → restore_from_snapshot g gk bytes kv ≡ ok kv'
      → Same kv kv'
  unfolding restore_from_snapshot
  restore_from_snapshot-Same bytes kv kv' e = ground arith

  -- A command finds no full channel, and keeps the channels clear.
  command_applied :
      (msg : ApplyMsg Op) (kv : KvServer) (r : Option KvServer)
      → IsClear kv
      → msg.command_valid ≡ true
      → apply_message g gk msg kv ≡ ok r
      → (kv' : KvServer) × (r ≡ some kv') × IsClear kv'
  unfolding apply_message
  command_applied msg kv r c valid e = elim (Bool-cases (leb msg.command_index kv.last_applied)) [
    | inl old ↦ let e' = rw (valid, old) at e in (kv, cc, c)
    | inr new ↦
        let e₁ = rw (valid, new) at e in
        let i = msg.command_index in
        let (op, _, e₂) = >>=-eq-ok (from_option msg.command) _ e₁ in
        let moved : KvServer = record kv { last_applied = i } in
        let ((reply, kv₁), ran, e₃) = >>=-eq-ok (apply_op op moved) _ e₂ in
        let (m, cs, last_is) = apply_op-Same op moved kv₁ reply ran in
        let c₁ : Clear kv₁.notify_chans kv₁.chans kv.last_applied = rw (m, cs) c in
        let (kv₂, sent, c₂) =
          notify-IsClear i kv.last_applied reply kv₁ c₁ (ground arith) (sym last_is) in
        let e₄ = rw sent at e₃ in finish_apply-IsClear i kv₂ r c₂ e₄
  ]

  pub message_applied :
      (msg : ApplyMsg Op) (kv : KvServer) (r : Option KvServer)
      → IsClear kv
      → (msg.command_valid ≡ false → kv.last_applied ≤ msg.snapshot_index)
      → apply_message g gk msg kv ≡ ok r
      → (kv' : KvServer) × (r ≡ some kv') × IsClear kv'
  unfolding apply_message
  message_applied msg kv r c newer e = elim (Bool-cases msg.command_valid) [
    | inl command ↦ command_applied msg kv r c command e
    | inr other ↦
        let e₁ = rw other at e in
        elim (Bool-cases msg.snapshot_valid) [
          | inr neither ↦ let e₂ = rw neither at e₁ in (kv, cc, c)
          | inl snapshot ↦
              let e₂ = rw snapshot at e₁ in
              let bytes : Bytes = elim msg.snapshot [ none ↦ [] | some b ↦ b ] in
              let (kv₁, restored, e₃) = >>=-eq-ok (restore_from_snapshot g gk bytes kv) _ e₂ in
              let (m, cs, _) = restore_from_snapshot-Same bytes kv kv₁ restored in
              (
                record kv₁ { last_applied = msg.snapshot_index },
                cc,
                rw (m, cs)
                    (Clear-later kv.notify_chans kv.chans kv.last_applied msg.snapshot_index
                      (newer other) c),
              )
        ]
  ]
