-- ===== src/Kv/Step/Replica/Kept.antt =====
-- What the handlers and the peer leave as it is.
use logic_raft.Base.{
  ℕ, ◌≡◌, ◌⊎◌, refl, sym, ap, true, false, not, Bool, Option, none, some, ok, arith, from_option,
  Bool-cases, >>=-eq-ok, inl, inr, if◌then◌else◌, ◌∙◌,
}
use logic_raft.Base.Dict.{lookup, nat_key}
use logic_raft.Gob.{Gob}
use logic_raft.Raft.{Value}
use logic_raft.Raft.Peer.{start}
use logic_raft.Kv.{
  err_wrong_leader, Op, OpReply, GetArgs, PutAppendArgs, PutAppendReply, get_operation_type,
}
use logic_raft.Kv.Server.{
  KvServer, Call, call_of, get_notify_channel, receive, submit, request_duplicated, get_begin,
  put_append_begin, send,
}
use logic_raft.Kv.Apply.{notify}
use logic_raft.Kv.Step.Replica.{Replica, replica_of}

pub get_notify_channel-kept :
    (index : ℕ) (kv : KvServer) → replica_of (get_notify_channel index kv).1 ≡ replica_of kv
unfolding get_notify_channel
get_notify_channel-kept index kv = ground arith

chosen-kept :
    {R : Type 0} (b : Bool) (first second : R × KvServer) (r : Replica)
    → replica_of first.1 ≡ r
    → replica_of second.1 ≡ r
    → replica_of (if b then first else second).1 ≡ r
chosen-kept true first second r e e' = e
chosen-kept false first second r e e' = e'

submit-kept :
    (g : Gob (Value Op)) (op : Op) (kv : KvServer) → replica_of (submit g op kv).1 ≡ replica_of kv
unfolding submit
submit-kept g op kv =
    let ((index, term, is_leader), rf) = start g op kv.rf in
    let (ch, kv') = get_notify_channel index (record kv { rf = rf }) in
    chosen-kept (not is_leader) (none, record kv { rf = rf }) (some (index, ch), kv')
      (replica_of kv) refl (get_notify_channel-kept index (record kv { rf = rf }))

call_of-kept :
    {R : Type 0} (r : R) (p : Option (ℕ × ℕ) × KvServer)
    → replica_of (call_of r p).1 ≡ replica_of p.1
call_of-kept r (none, s) = refl
call_of-kept r (some (index, ch), s) = refl

pub get_begin-kept :
    (g : Gob (Value Op)) (args : GetArgs) (kv : KvServer)
    → replica_of (get_begin g args kv).1 ≡ replica_of kv
unfolding get_begin
get_begin-kept g args kv = call_of-kept _ (submit g _ kv) ∙ submit-kept g _ kv

pub put_append_begin-kept :
    (g : Gob (Value Op)) (args : PutAppendArgs) (call : Call PutAppendReply) (kv kv' : KvServer)
    → put_append_begin g args kv ≡ ok (call, kv')
    → replica_of kv' ≡ replica_of kv
unfolding put_append_begin
put_append_begin-kept g args call kv kv' e =
    elim (Bool-cases (request_duplicated args.client_id args.seq_id kv)) [
      | inl again ↦
          let e' = rw again at e in
          let (info, _, e'') =
            >>=-eq-ok (from_option (lookup args.client_id kv.duplicate_table)) _ e' in
          let same : kv ≡ kv' = cc in ap replica_of (sym same)
      | inr new ↦
          let e' = rw new at e in
          let (op_type, _, e'') = >>=-eq-ok (get_operation_type args.op) _ e' in
          let op : Op = record {
            key = args.key;
            value = args.value;
            op_type = op_type;
            client_id = args.client_id;
            seq_id = args.seq_id;
          } in
          let no_leader : PutAppendReply = record { err = err_wrong_leader } in
          let same : (call_of no_leader (submit g op kv)).1 ≡ kv' = cc in
          ap replica_of (sym same) ∙ call_of-kept no_leader (submit g op kv) ∙ submit-kept g op kv
    ]

pub Received-kept :
    (ch : ℕ) (kv kv' : KvServer)
    → (kv ≡ kv') ⊎ ((result : OpReply) × (receive ch kv ≡ some (result, kv')))
    → replica_of kv' ≡ replica_of kv
Received-kept ch kv kv' (inl same) = ap replica_of (sym same)
Received-kept ch kv kv' (inr (result, e)) = unfold receive in ground arith

pub notify-kept :
    (index : ℕ) (reply : OpReply) (kv kv' : KvServer)
    → notify index reply kv ≡ some kv'
    → replica_of kv' ≡ replica_of kv
unfolding notify send
notify-kept index reply kv kv' e = ground arith
