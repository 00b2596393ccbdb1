-- ===== src/Kv/Step/Channels/Delivery.antt =====
-- What a handler that waits receives: the reply of the operation that is applied at its index.
use logic_raft.Base.{
  ℕ, ◌<◌, ◌≡◌, refl, ap, subst, Bool, true, false, not, Option, none, some, ok, arith, get_elem?,
  set, get_elem?-set_self, leb, if◌then◌else◌, ◌∙◌, length, ◌>>=◌,
}
use logic_raft.Base.Dict.{lookup, nat_key}
use logic_raft.Gob.{Gob}
use logic_raft.Raft.{Raft, Value, ApplyMsg, get_state}
use logic_raft.Raft.Peer.{start}
use logic_raft.Kv.{Op, OpReply, GetArgs}
use logic_raft.Kv.Server.{
  KvServer, KvValue, waiting, call_of, send, receive, submit, get_begin, get_finish,
}
use logic_raft.Kv.Apply.{apply_op, notify, finish_apply, wants_snapshot, apply_message}
use logic_raft.Kv.Step.Channels.{IsClear}
use logic_raft.Kv.Step.Channels.Handlers.{get_notify_channel-Clear, get_notify_channel-old}
use logic_raft.Kv.Step.Channels.Applying.{apply_op-Same}

-- The server has an empty channel for the index.
abbrev pub HasFree : ℕ → ℕ → KvServer → Type 0
HasFree index ch kv =
    (lookup index kv.notify_chans ≡ some ch)
    × (get_elem? kv.chans ch ≡ some none)
    × (ch < length kv.chans)
    × (kv.last_applied < index)

chosen :
    {A S : Type 0} (leads : Bool) (x y : A) (s s' t : S)
    → (let r : Option A × S = if not leads then (none, s) else (some x, s') in r ≡ (some y, t))
    → (x ≡ y) × (s' ≡ t)
chosen true x y s s' t e = (cc, cc)
chosen false x y s s' t e = absurd cc

waiting_of :
    {R S : Type 0} (r : R) (p : Option (ℕ × ℕ) × S) (index ch : ℕ) (s : S)
    → call_of r p ≡ (waiting index ch, s)
    → p ≡ (some (index, ch), s)
waiting_of r (none, t) index ch s e = absurd cc
waiting_of r (some (i, c), t) index ch s e = cc

submit_waits :
    (g : Gob (Value Op)) (op : Op) (index ch : ℕ) (kv kv₁ : KvServer)
    → IsClear kv
    → kv.last_applied < index
    → submit g op kv ≡ (some (index, ch), kv₁)
    → HasFree index ch kv₁
unfolding submit
submit_waits g op index ch kv kv₁ c new e =
    let ((i, term, is_leader), rf) = start g op kv.rf in
    let (ch', kv', made, c', at, last_is) =
      get_notify_channel-Clear i kv.last_applied (record kv { rf = rf }) c in
    let (same, now) = chosen is_leader _ _ _ _ _ e in
    let i_is : i ≡ index = ap (λ (r : ℕ × ℕ). r.0) same in
    let later : kv.last_applied < i = omega (arith, new, i_is) in
    let free : HasFree i ch' kv' =
      (at, c'.empty i ch' at later, c'.known i ch' at, omega (arith, last_is, later)) in
    let all : ((i, ch'), kv') ≡ ((index, ch), kv₁) = cc in
    subst (λ (r : (ℕ × ℕ) × KvServer). HasFree r.0.0 r.0.1 r.1) all free

get_begin_waits :
    (g : Gob (Value Op)) (args : GetArgs) (index ch : ℕ) (kv kv₁ : KvServer)
    → IsClear kv
    → kv.last_applied < index
    → get_begin g args kv ≡ (waiting index ch, kv₁)
    → HasFree index ch kv₁
unfolding get_begin
get_begin_waits g args index ch kv kv₁ c new e =
    submit_waits g _ index ch kv kv₁ c new (waiting_of _ _ index ch kv₁ e)

send_free :
    (ch : ℕ) (reply : OpReply) (kv : KvServer)
    → get_elem? kv.chans ch ≡ some none
    → send ch reply kv ≡ some (record kv { chans = set kv.chans ch (some reply) })
unfolding send
send_free ch reply kv free = rw (send, free) refl

notify_delivers :
    (index ch : ℕ) (reply : OpReply) (kv : KvServer)
    → lookup index kv.notify_chans ≡ some ch
    → get_elem? kv.chans ch ≡ some none
    → (get_state kv.rf).1 ≡ true
    → notify index reply kv ≡ some (record kv { chans = set kv.chans ch (some reply) })
unfolding notify
notify_delivers index ch reply kv at free leads =
    rw (get_notify_channel-old index ch kv at, leads) (send_free ch reply kv free)

get_finish_full :
    (ch : ℕ) (reply : OpReply) (kv : KvServer)
    → get_elem? kv.chans ch ≡ some (some reply)
    → get_finish ch false kv
      ≡ some (
        record { err = reply.err; value = reply.value },
        record kv { chans = set kv.chans ch none },
      )
unfolding get_finish
get_finish_full ch reply kv full = rw (get_finish, receive, full) refl

apply_op-kept :
    (op : Op) (kv kv' : KvServer) (reply : OpReply)
    → apply_op op kv ≡ ok (reply, kv')
    → (kv'.rf ≡ kv.rf) × (kv'.max_raft_state ≡ kv.max_raft_state)
unfolding apply_op
apply_op-kept op kv kv' reply e = ground arith

finish_apply-unlimited :
    (g : Gob (Value Op)) (gk : Gob KvValue) (index : ℕ) (kv : KvServer)
    → kv.max_raft_state ≡ none
    → finish_apply g gk index (some kv) ≡ ok (some kv)
unfolding finish_apply
finish_apply-unlimited g gk index kv limit = rw (wants_snapshot, limit) refl

applied_delivers :
    (g : Gob (Value Op)) (gk : Gob KvValue) (index ch : ℕ) (op : Op) (reply : OpReply)
    (msg : ApplyMsg Op) (kv kv' : KvServer)
    → HasFree index ch kv
    → (get_state kv.rf).1 ≡ true
    → kv.max_raft_state ≡ none
    → msg.command_valid ≡ true
    → msg.command_index ≡ index
    → msg.command ≡ some op
    → apply_op op (record kv { last_applied = index }) ≡ ok (reply, kv')
    → apply_message g gk msg kv ≡ ok (some (record kv' { chans = set kv'.chans ch (some reply) }))
unfolding apply_message
applied_delivers g gk index ch op reply msg kv kv' (at, free, known, new) leads limit valid is_at
      has ran =
    let moved : KvServer = record kv { last_applied = index } in
    let (m, cs, _) = apply_op-Same g gk op moved kv' reply ran in
    let (peer_is, limit_is) = apply_op-kept op moved kv' reply ran in
    let later : leb index kv.last_applied ≡ false = ground arith in
    let told = notify_delivers index ch reply kv' (rw m at) (rw cs free) (rw peer_is leads) in
    let kv'' : KvServer = record kv' { chans = set kv'.chans ch (some reply) } in
    rw (valid, is_at, later, has)
      (ap (λ r. r >>= (λ a. finish_apply g gk index (notify index a.0 a.1))) ran
        ∙ ap (finish_apply g gk index) told
        ∙ finish_apply-unlimited g gk index kv'' (limit_is ∙ limit))

module _ (g : Gob (Value Op)) (gk : Gob KvValue) where
  -- What a handler that waits receives is the reply of the operation that is applied at its index,
  -- whoever sent that operation: `Get` starts one that its peer places at an index, and waits on a
  -- channel; the peer may then be any, as long as it says that it leads, and the message that
  -- comes for the index may hold any operation, of another client too. It is applied, and the
  -- handler answers its client with the error and the value of that operation's reply. This is
  -- for a server that takes no snapshots, whose channels of later indexes are empty and which has
  -- not applied the index.
  pub reply_is_of_index :
      (args : GetArgs) (index ch : ℕ) (kv kv₁ : KvServer)
      → IsClear kv
      → kv.last_applied < index
      → get_begin g args kv ≡ (waiting index ch, kv₁)
      → kv₁.max_raft_state ≡ none
      → (rf : Raft Op) → (get_state rf).1 ≡ true
      → (op : Op) (msg : ApplyMsg Op) → msg.command_valid ≡ true
      → msg.command_index ≡ index
      → msg.command ≡ some op
      → (reply : OpReply) (kv₂ : KvServer)
      → apply_op op (record kv₁ { rf = rf; last_applied = index }) ≡ ok (reply, kv₂)
      → (kv₃ : KvServer) × (kv₄ : KvServer) × (apply_message g gk msg (record kv₁ { rf = rf })
          ≡ ok (some kv₃))
        × (get_finish ch false kv₃ ≡ some (record { err = reply.err; value = reply.value }, kv₄))
  reply_is_of_index args index ch kv kv₁ c new begun limit rf leads op msg valid is_at has reply kv₂
        ran =
      let (at, free, known, later) = get_begin_waits g args index ch kv kv₁ c new begun in
      let now : KvServer = record kv₁ { rf = rf } in
      let (_, cs, _) = apply_op-Same g gk op (record now { last_applied = index }) kv₂ reply ran in
      let kv₃ : KvServer = record kv₂ { chans = set kv₂.chans ch (some reply) } in
      (
        kv₃,
        record kv₃ { chans = set kv₃.chans ch none },
        applied_delivers g gk index ch op reply msg now kv₂ (at, free, known, later) leads limit
            valid is_at has ran,
        get_finish_full ch reply kv₃
            (get_elem?-set_self kv₂.chans ch (some reply) (omega (arith, ap length cs, known))),
      )
