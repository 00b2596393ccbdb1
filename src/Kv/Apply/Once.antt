-- ===== src/Kv/Apply/Once.antt =====
-- A write is applied once, however often the log holds it.
use mathlib.Core.Path.{◌∙◌}
use logic_raft.Base.{
  subst, ℕ, ◌≤◌, ◌≡◌, true, some, List, [], ◌∷◌, Result, ok, ◌>>=◌, arith, >>=-eq-ok, Option-cases,
  inl, inr, ◌⊎◌,
}
use logic_raft.Base.Dict.{lookup, lookup-assign, nat_key}
use logic_raft.Kv.{Op, OpReply, LastOperationInfo, apply_to_state_machine}
use logic_raft.Kv.Server.{KvServer}
use logic_raft.Kv.Apply.{apply_op, is_write}

-- The operations of a piece of the log, one after the other.
unfoldable pub run_ops : List Op → KvServer → Result KvServer
run_ops [] kv = ok kv
run_ops (op ∷ ops) kv = do applied ← apply_op op kv; run_ops ops applied.1

-- The table has a sequence number of the client that is at least `seq_id`.
abbrev pub Recorded : ℕ → ℕ → KvServer → Type 0
Recorded client_id seq_id kv =
    (info : LastOperationInfo) × (lookup client_id kv.duplicate_table ≡ some info)
    × (seq_id ≤ info.seq_id)

-- A write that is recorded already changes nothing, and gets the reply of the client's last write.
pub apply_op_recorded :
    (op : Op) (kv : KvServer) (info : LastOperationInfo)
    → is_write op.op_type ≡ true
    → lookup op.client_id kv.duplicate_table ≡ some info
    → op.seq_id ≤ info.seq_id
    → apply_op op kv ≡ ok (info.reply, kv)
unfolding apply_op
apply_op_recorded op kv info w e h = ground arith

-- What an applied write is noted as.
abbrev noted : Op → KvServer → LastOperationInfo
noted op kv = record { seq_id = op.seq_id; reply = (apply_to_state_machine op kv.state_machine).0 }

-- A lookup after an operation finds what was there, or the operation itself, which is newer.
lookup-apply_op :
    (client_id : ℕ) (op : Op) (kv : KvServer) (reply : OpReply) (kv' : KvServer)
    → apply_op op kv ≡ ok (reply, kv')
    → (lookup client_id kv'.duplicate_table ≡ lookup client_id kv.duplicate_table)
      ⊎ ((lookup client_id kv'.duplicate_table ≡ some (noted op kv))
          × ((info : LastOperationInfo)
              → lookup client_id kv.duplicate_table ≡ some info
              → info.seq_id ≤ op.seq_id))
unfolding apply_op
lookup-apply_op client_id op kv reply kv' h =
    ground (arith, lookup-assign op.client_id client_id (noted op kv) kv.duplicate_table)

apply_op-records :
    (op : Op) (kv : KvServer) (reply : OpReply) (kv' : KvServer)
    → is_write op.op_type ≡ true
    → apply_op op kv ≡ ok (reply, kv')
    → Recorded op.client_id op.seq_id kv'
unfolding apply_op
apply_op-records op kv reply kv' w h =
    elim (Option-cases (lookup op.client_id kv'.duplicate_table)) [
      | inl e ↦
          absurd (
            ground
              (arith, lookup-assign op.client_id op.client_id (noted op kv) kv.duplicate_table))
      | inr (info, e) ↦ (
        info,
        e,
        ground (arith, lookup-assign op.client_id op.client_id (noted op kv) kv.duplicate_table),
      )
    ]

Recorded-apply_op :
    (client_id seq_id : ℕ) (op : Op) (kv : KvServer) (reply : OpReply) (kv' : KvServer)
    → Recorded client_id seq_id kv
    → apply_op op kv ≡ ok (reply, kv')
    → Recorded client_id seq_id kv'
Recorded-apply_op client_id seq_id op kv reply kv' (info, e, le) h =
    elim (lookup-apply_op client_id op kv reply kv' h) [
      | inl same ↦ (info, same ∙ e, le)
      | inr (new, newer) ↦ (noted op kv, new, omega (arith, newer info e))
    ]

Recorded-run_ops :
    (client_id seq_id : ℕ) (ops : List Op) (kv kv' : KvServer)
    → Recorded client_id seq_id kv
    → run_ops ops kv ≡ ok kv'
    → Recorded client_id seq_id kv'
unfolding run_ops
Recorded-run_ops client_id seq_id [] kv kv' r h =
    subst (λ k. Recorded client_id seq_id k) (let e : kv ≡ kv' = cc in e) r
Recorded-run_ops client_id seq_id (op ∷ ops) kv kv' r h =
    let ((reply, mid), e, h') = >>=-eq-ok (apply_op op kv) _ h in
    Recorded-run_ops client_id seq_id ops mid kv'
      (Recorded-apply_op client_id seq_id op kv reply mid r e) h'

-- Once a write has been applied, and whatever operations are applied after it, the same write
-- changes nothing when the log holds it again.
pub applied_once :
    (op : Op) (ops : List Op) (kv : KvServer) (reply : OpReply) (a b : KvServer)
    → is_write op.op_type ≡ true
    → apply_op op kv ≡ ok (reply, a)
    → run_ops ops a ≡ ok b
    → (again : OpReply) × (apply_op op b ≡ ok (again, b))
applied_once op ops kv reply a b w first later =
    let (info, e, le) =
      Recorded-run_ops op.client_id op.seq_id ops a b (apply_op-records op kv reply a w first)
        later in
    (info.reply, apply_op_recorded op b info w e le)
