-- ===== src/Kv/Server.antt =====
-- src/kvraft/server.go: the server of the key/value store over its Raft peer.
--
-- A handler that waits is cut where it waits: `get_begin` and `put_append_begin` run up to the
-- select, `get_finish` and `put_append_finish` from there. A channel of one place is a cell of
-- `chans`, and the map of channels holds its number, since a handler keeps its channel after the
-- map has dropped it. `max_raft_state` is `none` for -1.
use logic_raft.Base.{
  ℕ, Bool, true, false, not, Option, none, some, List, [], ◌∷◌, ◌++◌, Result, ok, ◌>>=◌,
  from_option, leb, if◌then◌else◌, length, get_elem?, set,
}
use logic_raft.Base.Dict.{Dict, lookup, assign, delete, nat_key}
use logic_raft.Gob.{Gob}
use logic_raft.Raft.{Raft, Value, ApplyMsg, get_state, get_raft_state_size}
use logic_raft.Raft
use logic_raft.Raft.Peer.{start}
use logic_raft.Kv.{
  err_wrong_leader, err_timeout, op_get, PutAppendArgs, PutAppendReply, GetArgs, GetReply, Op,
  OpReply, LastOperationInfo, get_operation_type, KvStateMachine,
}

pub record KvServer : Type 0 where
  pub me : ℕ
  pub rf : Raft Op
  pub dead : Bool
  pub max_raft_state : Option ℕ
  pub last_applied : ℕ
  pub state_machine : KvStateMachine
  pub notify_chans : Dict ℕ ℕ
  pub chans : List (Option OpReply)
  pub duplicate_table : Dict ℕ LastOperationInfo

-- What a snapshot encodes: two values, in this order.
pub data KvValue : Type 0 where
  saved_machine : KvStateMachine → KvValue
  saved_table : Dict ℕ LastOperationInfo → KvValue

-- A handler's first part: a reply at once, or the index and the channel that it waits for.
pub data Call (R : Type 0) : Type 0 where
  replied : R → Call R
  waiting : ℕ → ℕ → Call R

unfoldable pub request_duplicated : ℕ → ℕ → KvServer → Bool
request_duplicated client_id seq_id kv = elim (lookup client_id kv.duplicate_table) [
  | none ↦ false
  | some info ↦ leb seq_id info.seq_id
]

unfoldable pub get_notify_channel : ℕ → KvServer → ℕ × KvServer
get_notify_channel index kv = elim (lookup index kv.notify_chans) [
  | some ch ↦ (ch, kv)
  | none ↦ (
    length kv.chans,
    record kv {
      notify_chans = assign index (length kv.chans) kv.notify_chans;
      chans = kv.chans ++ none ∷ [];
    },
  )
]

unfoldable pub remove_notify_channel : ℕ → KvServer → KvServer
remove_notify_channel index kv = record kv { notify_chans = delete index kv.notify_chans }

-- ch <- reply: `none` while the channel is full.
unfoldable pub send : ℕ → OpReply → KvServer → Option KvServer
send ch reply kv = elim (get_elem? kv.chans ch) [
  | none ↦ none
  | some cell ↦ elim cell [
    | none ↦ some (record kv { chans = set kv.chans ch (some reply) })
    | some _ ↦ none
  ]
]

-- <-ch: `none` while the channel is empty.
unfoldable pub receive : ℕ → KvServer → Option (OpReply × KvServer)
receive ch kv = elim (get_elem? kv.chans ch) [
  | none ↦ none
  | some cell ↦ elim cell [
    | none ↦ none
    | some reply ↦ some (reply, record kv { chans = set kv.chans ch none })
  ]
]

-- Start, and the channel to wait on if this peer is the leader.
unfoldable pub submit : Gob (Value Op) → Op → KvServer → Option (ℕ × ℕ) × KvServer
unfolding get_notify_channel
submit g op kv =
    let ((index, term, is_leader), rf) = start g op kv.rf in
    let (ch, kv') = get_notify_channel index (record kv { rf = rf }) in
    if not is_leader then (none, record kv { rf = rf }) else (some (index, ch), kv')

abbrev pub call_of : {R S : Type 0} → R → Option (ℕ × ℕ) × S → Call R × S
call_of r (none, s) = (replied r, s)
call_of r (some (index, ch), s) = (waiting index ch, s)

unfoldable pub get_begin : Gob (Value Op) → GetArgs → KvServer → Call GetReply × KvServer
unfolding submit
get_begin g args kv =
    let op : Op = record {
      key = args.key;
      value = "";
      op_type = op_get;
      client_id = 0;
      seq_id = 0;
    } in
    call_of (record { err = err_wrong_leader; value = "" }) (submit g op kv)

-- The select, where the environment says whether the time has run out, or `none` while it waits.
unfoldable pub get_finish : ℕ → Bool → KvServer → Option (GetReply × KvServer)
unfolding receive
get_finish ch true kv = some (record { err = err_timeout; value = "" }, kv)
get_finish ch false kv = elim (receive ch kv) [
  | none ↦ none
  | some (result, kv') ↦ some (record { err = result.err; value = result.value }, kv')
]

unfoldable pub put_append_begin :
    Gob (Value Op) → PutAppendArgs → KvServer → Result (Call PutAppendReply × KvServer)
unfolding request_duplicated submit get_operation_type
put_append_begin g args kv =
    if request_duplicated args.client_id args.seq_id kv
    then (do
      info ← from_option (lookup args.client_id kv.duplicate_table)
      ok (replied (record { err = info.reply.err }), kv))
    else (do
      op_type ← get_operation_type args.op
      let op : Op = record {
        key = args.key;
        value = args.value;
        op_type = op_type;
        client_id = args.client_id;
        seq_id = args.seq_id;
      }
      ok (call_of (record { err = err_wrong_leader }) (submit g op kv)))

unfoldable pub put_append_finish : ℕ → Bool → KvServer → Option (PutAppendReply × KvServer)
unfolding receive
put_append_finish ch true kv = some (record { err = err_timeout }, kv)
put_append_finish ch false kv = elim (receive ch kv) [
  | none ↦ none
  | some (result, kv') ↦ some (record { err = result.err }, kv')
]

unfoldable pub kill : KvServer → KvServer
kill kv = record kv { dead = true; rf = Raft.kill kv.rf }

unfoldable pub killed : KvServer → Bool
killed kv = kv.dead
