-- ===== src/Kv/Step/Channels/Handlers.antt =====
-- What the handlers do to the channels.
use logic_raft.Base.{
  from_option, ℕ, ◌≤◌, ◌≡◌, ◌⊎◌, refl, sym, Bool, true, false, not, if◌then◌else◌, subst, Option,
  none, some, [], ◌∷◌, ◌++◌, ok, arith, length, get_elem?, set, Bool-cases, >>=-eq-ok, inl, inr,
  Option-cases,
}
use logic_raft.Base.Dict.{lookup, assign, lookup-assign, nat_key}
use logic_raft.Gob.{Gob}
use logic_raft.Raft.Peer.{start}
use logic_raft.Raft.{Value}
use logic_raft.Kv.{
  Op, OpReply, GetArgs, GetReply, PutAppendArgs, PutAppendReply, get_operation_type,
  err_wrong_leader,
}
use logic_raft.Kv.Server.{
  KvServer, KvValue, Call, call_of, get_notify_channel, send, receive, submit, request_duplicated,
  get_begin, get_finish, put_append_begin, put_append_finish,
}
use logic_raft.Kv.Step.Channels.{Clear, IsClear, Clear-assign, Clear-set}

-- What the channels depend on is the same.
abbrev pub Same : KvServer → KvServer → Type 0
Same kv kv' =
    (kv'.notify_chans ≡ kv.notify_chans)
    × (kv'.chans ≡ kv.chans)
    × (kv'.last_applied ≡ kv.last_applied)

pub Same-IsClear : (kv kv' : KvServer) → Same kv kv' → IsClear kv → IsClear kv'
Same-IsClear kv kv' (m, cs, last) c = rw (m, cs, last) c

get_notify_channel-new :
    (i : ℕ) (kv : KvServer)
    → lookup i kv.notify_chans ≡ none
    → get_notify_channel i kv ≡ (
      length kv.chans,
      record kv {
        notify_chans = assign i (length kv.chans) kv.notify_chans;
        chans = kv.chans ++ none ∷ [];
      },
    )
unfolding get_notify_channel
get_notify_channel-new i kv e = ground (arith, e)

pub get_notify_channel-old :
    (i ch : ℕ) (kv : KvServer)
    → lookup i kv.notify_chans ≡ some ch
    → get_notify_channel i kv ≡ (ch, kv)
unfolding get_notify_channel
get_notify_channel-old i ch kv e = ground (arith, e)

-- The channel that is handed out is that of the index.
pub get_notify_channel-Clear :
    (i last : ℕ) (kv : KvServer)
    → Clear kv.notify_chans kv.chans last
    → (ch : ℕ) × (kv' : KvServer) × (get_notify_channel i kv ≡ (ch, kv'))
      × Clear kv'.notify_chans kv'.chans last
      × (lookup i kv'.notify_chans ≡ some ch)
      × (kv'.last_applied ≡ kv.last_applied)
get_notify_channel-Clear i last kv c = elim (Option-cases (lookup i kv.notify_chans)) [
  | inl e ↦ (
    length kv.chans,
    _,
    get_notify_channel-new i kv e,
    Clear-assign i kv.notify_chans kv.chans last c,
    ground (arith, lookup-assign i i (length kv.chans) kv.notify_chans),
    refl,
  )
  | inr (ch, e) ↦ (ch, kv, get_notify_channel-old i ch kv e, c, e, refl)
]

receive-IsClear :
    (ch : ℕ) (kv kv' : KvServer) (reply : OpReply)
    → IsClear kv
    → receive ch kv ≡ some (reply, kv')
    → IsClear kv'
unfolding receive
receive-IsClear ch kv kv' reply c e =
    let same : Same (record kv { chans = set kv.chans ch none }) kv' = ground arith in
    Same-IsClear (record kv { chans = set kv.chans ch none }) kv' same
      (Clear-set kv.notify_chans kv.chans kv.last_applied ch none c (inl refl))

-- A send succeeds to an empty channel.
pub send-IsClear :
    (i ch : ℕ) (reply : OpReply) (kv : KvServer)
    → IsClear kv
    → lookup i kv.notify_chans ≡ some ch
    → i ≤ kv.last_applied
    → get_elem? kv.chans ch ≡ some none
    → (kv' : KvServer) × (send ch reply kv ≡ some kv') × IsClear kv'
unfolding send
send-IsClear i ch reply kv c e le free = (
  record kv { chans = set kv.chans ch (some reply) },
  ground (arith, free),
  Clear-set kv.notify_chans kv.chans kv.last_applied ch (some reply) c
      (inr (λ j h. omega (arith, c.distinct i j ch e h))),
)

chosen-IsClear :
    {R : Type 0} (b : Bool) (first second : R × KvServer)
    → IsClear first.1
    → IsClear second.1
    → IsClear (if b then first else second).1
chosen-IsClear true first second c c' = c
chosen-IsClear false first second c c' = c'

module _ (g : Gob (Value Op)) (gk : Gob KvValue) where
  channel-IsClear : (i : ℕ) (kv : KvServer) → IsClear kv → IsClear (get_notify_channel i kv).1
  channel-IsClear i kv c =
      let (ch, kv', e, c', _, last_is) = get_notify_channel-Clear i kv.last_applied kv c in
      subst (λ (r : ℕ × KvServer). IsClear r.1) (sym e) (rw last_is c')

  submit-IsClear : (op : Op) (kv : KvServer) → IsClear kv → IsClear (submit g op kv).1
  unfolding submit
  submit-IsClear op kv c =
      let ((index, term, is_leader), rf) = start g op kv.rf in
      chosen-IsClear (not is_leader) (none, record kv { rf = rf })
        (
          some (index, (get_notify_channel index (record kv { rf = rf })).0),
          (get_notify_channel index (record kv { rf = rf })).1,
        )
        c (channel-IsClear index (record kv { rf = rf }) c)

  call_of-IsClear :
      {R : Type 0} (r : R) (p : Option (ℕ × ℕ) × KvServer) → IsClear p.1 → IsClear (call_of r p).1
  call_of-IsClear r (none, s) c = c
  call_of-IsClear r (some (index, ch), s) c = c

  pub get_begin-IsClear :
      (args : GetArgs) (kv : KvServer) → IsClear kv → IsClear (get_begin g args kv).1
  unfolding get_begin
  get_begin-IsClear args kv c = call_of-IsClear _ _ (submit-IsClear _ kv c)

  pub put_append_begin-IsClear :
      (args : PutAppendArgs) (call : Call PutAppendReply) (kv kv' : KvServer)
      → IsClear kv
      → put_append_begin g args kv ≡ ok (call, kv')
      → IsClear kv'
  unfolding put_append_begin
  put_append_begin-IsClear args call kv kv' c e =
      elim (Bool-cases (request_duplicated args.client_id args.seq_id kv)) [
        | inl again ↦
            let e' = rw again at e in
            let (info, _, e'') =
              >>=-eq-ok (from_option (lookup args.client_id kv.duplicate_table)) _ e' in
            let same : kv ≡ kv' = cc in subst IsClear same c
        | inr new ↦
            let e' = rw new at e in
            let (op_type, _, e'') = >>=-eq-ok (get_operation_type args.op) _ e' in
            let op : Op = record {
              key = args.key;
              value = args.value;
              op_type = op_type;
              client_id = args.client_id;
              seq_id = args.seq_id;
            } in
            let no_leader : PutAppendReply = record { err = err_wrong_leader } in
            let same : (call_of no_leader (submit g op kv)).1 ≡ kv' = cc in
            subst IsClear same (call_of-IsClear _ _ (submit-IsClear op kv c))
      ]

  pub get_finish-Received :
      (ch : ℕ) (late : Bool) (reply : GetReply) (kv kv' : KvServer)
      → get_finish ch late kv ≡ some (reply, kv')
      → (kv ≡ kv') ⊎ ((result : OpReply) × (receive ch kv ≡ some (result, kv')))
  unfolding get_finish
  get_finish-Received ch late reply kv kv' e = ground arith

  pub put_append_finish-Received :
      (ch : ℕ) (late : Bool) (reply : PutAppendReply) (kv kv' : KvServer)
      → put_append_finish ch late kv ≡ some (reply, kv')
      → (kv ≡ kv') ⊎ ((result : OpReply) × (receive ch kv ≡ some (result, kv')))
  unfolding put_append_finish
  put_append_finish-Received ch late reply kv kv' e = ground arith

  pub Received-IsClear :
      (ch : ℕ) (kv kv' : KvServer)
      → IsClear kv
      → (kv ≡ kv') ⊎ ((result : OpReply) × (receive ch kv ≡ some (result, kv')))
      → IsClear kv'
  Received-IsClear ch kv kv' c (inl same) = subst IsClear same c
  Received-IsClear ch kv kv' c (inr (result, e)) = receive-IsClear ch kv kv' result c e
