-- ===== src/Kv/Apply.antt =====
-- src/kvraft/server.go: `applyTask`, which takes the messages of the Raft peer, the snapshots of
-- the server, and `StartKVServer`.
pub mod Once
pub mod Recovery
pub mod Rollback
use logic_raft.Base.{
  ℕ, Bool, true, false, not, ◌&&◌, Option, none, some, List, [], ◌∷◌, ◌++◌, Result, ok, panic,
  ◌>>=◌, from_option, leb, ltb, if◌then◌else◌, length, get_elem?, set,
}
use logic_raft.Base.Dict.{Dict, lookup, assign, delete, nat_key}
use logic_raft.Gob.{Gob}
use logic_raft.Persister.{Bytes, Persister, read_snapshot}
use logic_raft.Raft.{Raft, Value, ApplyMsg, get_state, get_raft_state_size}
use logic_raft.Raft
use logic_raft.Raft.Peer.{make, start}
use logic_raft.Raft.Snapshot.{take_snapshot}
use logic_raft.Kv.{
  Err, fine, err_wrong_leader, err_timeout, OperationType, op_get, op_put, op_append, PutAppendArgs,
  PutAppendReply, GetArgs, GetReply, Op, OpReply, LastOperationInfo, get_operation_type,
  KvStateMachine, new_kv_state_machine, apply_to_state_machine,
}
use logic_raft.Kv.Server.{
  KvServer, KvValue, saved_machine, saved_table, request_duplicated, get_notify_channel, send,
}

-- op.OpType != OpGet
abbrev pub is_write : OperationType → Bool
is_write op_get = false
is_write op_put = true
is_write op_append = true

-- The middle of `applyTask`: an operation that is not a duplicate goes to the state machine, and
-- a write is noted in the table of duplicates.
unfoldable pub apply_op : Op → KvServer → Result (OpReply × KvServer)
unfolding request_duplicated
apply_op op kv =
    if is_write op.op_type && request_duplicated op.client_id op.seq_id kv
    then (do info ← from_option (lookup op.client_id kv.duplicate_table); ok (info.reply, kv))
    else (let (reply, machine) = apply_to_state_machine op kv.state_machine in
        let info : LastOperationInfo = record { seq_id = op.seq_id; reply = reply } in
        ok (
          reply,
          record kv {
            state_machine = machine;
            duplicate_table =
                if is_write op.op_type
                then assign op.client_id info kv.duplicate_table
                else kv.duplicate_table;
          },
        ))

-- The reply goes to the channel of the index if this peer is the leader.
unfoldable pub notify : ℕ → OpReply → KvServer → Option KvServer
unfolding get_notify_channel send get_state
notify index reply kv =
    let (ch, kv') = get_notify_channel index kv in
    if (get_state kv.rf).1 then send ch reply kv' else some kv

module _ (g : Gob (Value Op)) (gk : Gob KvValue) where
  unfoldable pub make_snapshot : ℕ → KvServer → Result KvServer
  make_snapshot index kv = do
    rf ←
        take_snapshot g index
          (some (gk.write (saved_machine kv.state_machine ∷ saved_table kv.duplicate_table ∷ [])))
          kv.rf
    ok (record kv { rf = rf })

  restore_table : Option KvValue → KvStateMachine → KvServer → Result KvServer
  restore_table (some (saved_table table)) machine kv =
      ok (record kv { state_machine = machine; duplicate_table = table })
  restore_table _ machine kv = panic

  restore_machine : Option KvValue → Bytes → KvServer → Result KvServer
  unfolding restore_table
  restore_machine (some (saved_machine machine)) bytes kv =
      restore_table (gk.read bytes 1) machine kv
  restore_machine _ bytes kv = panic

  unfoldable pub restore_from_snapshot : Bytes → KvServer → Result KvServer
  unfolding restore_machine
  restore_from_snapshot bytes kv =
      if ltb 0 (length bytes) then restore_machine (gk.read bytes 0) bytes kv else ok kv

  -- kv.maxraftstate != -1 && kv.rf.GetRaftStateSize() >= kv.maxraftstate
  unfoldable pub wants_snapshot : KvServer → Bool
  unfolding get_raft_state_size
  wants_snapshot kv = elim kv.max_raft_state [
    | none ↦ false
    | some limit ↦ leb limit (get_raft_state_size kv.rf)
  ]

  -- The end of a round of `applyTask`; `none` while the send waits for a receiver.
  unfoldable pub finish_apply : ℕ → Option KvServer → Result (Option KvServer)
  unfolding make_snapshot wants_snapshot
  finish_apply index none = ok none
  finish_apply index (some kv) =
      if wants_snapshot kv then (do kv' ← make_snapshot index kv; ok (some kv')) else ok (some kv)

  -- One round of `applyTask`, which gets the lock of the peer whenever it wants it: its waits for
  -- the lock are in Kv/Step/Locks.antt.
  unfoldable pub apply_message : ApplyMsg Op → KvServer → Result (Option KvServer)
  unfolding apply_op notify finish_apply restore_from_snapshot
  apply_message message kv =
      if message.command_valid
      then (if leb message.command_index kv.last_applied then ok (some kv) else (do
        op ← from_option message.command
        applied ← apply_op op (record kv { last_applied = message.command_index })
        finish_apply message.command_index (notify message.command_index applied.0 applied.1)))
      else if message.snapshot_valid
      then (do
        kv' ← restore_from_snapshot (elim message.snapshot [ none ↦ [] | some bytes ↦ bytes ]) kv
        ok (some (record kv' { last_applied = message.snapshot_index })))
      else ok (some kv)

  -- What StartKVServer sets before it restores the snapshot.
  abbrev pub blank : ℕ → ℕ → Persister → Option ℕ → KvServer
  blank peers me persister max_raft_state = record {
    me = me;
    rf = make g peers me persister;
    dead = false;
    max_raft_state = max_raft_state;
    last_applied = 0;
    state_machine = new_kv_state_machine;
    notify_chans = [];
    chans = [];
    duplicate_table = [];
  }

  unfoldable pub start_kv_server : ℕ → ℕ → Persister → Option ℕ → Result KvServer
  unfolding restore_from_snapshot read_snapshot new_kv_state_machine
  start_kv_server peers me persister max_raft_state =
      restore_from_snapshot (read_snapshot persister) (blank peers me persister max_raft_state)
