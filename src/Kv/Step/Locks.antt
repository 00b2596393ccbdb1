-- ===== src/Kv/Step/Locks.antt =====
-- src/kvraft/server.go and src/raft/raft_snapshot.go: the lock of the peer, which the loop that
-- applies takes several times in a round, and which `InstallSnapshot` holds while it sends.
--
-- The channel of messages has no place: a message is sent when the loop takes it. The lock of the
-- server is held from the beginning of a round to its end.
pub mod Rounds
pub mod Deadlock
use logic_raft.Base.{
  ℕ, Bool, true, false, ◌≡◌, ◌⊎◌, Option, none, some, List, [], ◌∷◌, Result, ok, ◌>>=◌, from_option,
  leb, if◌then◌else◌,
}
use logic_raft.Gob.{Gob}
use logic_raft.Persister.{Bytes}
use logic_raft.Raft.{Raft, Value, ApplyMsg}
use logic_raft.Raft.Messages.{InstallSnapshotArgs, InstallSnapshotReply}
use logic_raft.Raft.Snapshot.{install_snapshot}
use logic_raft.Raft.Application.{apply_step}
use logic_raft.Kv.{Op, OpReply, GetArgs, GetReply, PutAppendArgs, PutAppendReply}
use logic_raft.Kv.Server.{
  KvServer, KvValue, Call, get_begin, get_finish, put_append_begin, put_append_finish,
  request_duplicated, remove_notify_channel, kill,
}
use logic_raft.Kv.Apply.{apply_op, notify, make_snapshot, wants_snapshot, restore_from_snapshot}

-- Where the loop is: it waits for a message, or in the round of an index it wants the lock, for
-- `GetState`, for `GetRaftStateSize` or for `Snapshot`.
pub data Loop : Type 0 where
  receiving : Loop
  asks_state : ℕ → OpReply → Loop
  asks_size : ℕ → Loop
  snapshots : ℕ → Loop

module _ (g : Gob (Value Op)) (gk : Gob KvValue) where
  -- The round up to where it first wants the lock.
  unfoldable pub begin_round : ApplyMsg Op → KvServer → Result (Loop × KvServer)
  unfolding apply_op restore_from_snapshot
  begin_round message kv =
      if message.command_valid
      then (if leb message.command_index kv.last_applied then ok (receiving, kv) else (do
        op ← from_option message.command
        applied ← apply_op op (record kv { last_applied = message.command_index })
        ok (asks_state message.command_index applied.0, applied.1)))
      else if message.snapshot_valid
      then (do
        kv' ←
            restore_from_snapshot g gk (elim message.snapshot [ none ↦ [] | some bytes ↦ bytes ]) kv
        ok (receiving, record kv' { last_applied = message.snapshot_index }))
      else ok (receiving, kv)

  -- From one wait for the lock, once it is had, to the next or to the end of the round; `none`
  -- while the send to a handler waits.
  unfoldable pub advance : Loop → KvServer → Result (Option (Loop × KvServer))
  unfolding notify wants_snapshot make_snapshot
  advance receiving kv = ok (some (receiving, kv))
  advance (asks_state index reply) kv = elim (notify index reply kv) [
    | none ↦ ok none
    | some kv' ↦
        ok (some ((elim kv'.max_raft_state [ none ↦ receiving | some _ ↦ asks_size index ]), kv'))
  ]
  advance (asks_size index) kv =
      ok (some ((if wants_snapshot g gk kv then snapshots index else receiving), kv))
  advance (snapshots index) kv = do kv' ← make_snapshot g gk index kv; ok (some (receiving, kv'))

-- A server with its peer: `holder` is the message that an `InstallSnapshot` sends while it holds
-- the lock, or `none` while the lock is free.
pub record Locked : Type 0 where
  pub kv : KvServer
  pub holder : Option (ApplyMsg Op)
  pub loop : Loop

module _ (g : Gob (Value Op)) (gk : Gob KvValue) where
  -- Everything that may happen. The methods of the peer other than `InstallSnapshot` take the lock
  -- and release it; what they do to the peer is left open. The end of a handler's wait, and
  -- `Kill`, take no lock.
  pub data Move : Locked → Locked → Type 0 where
    peer_moved :
        {s : Locked} (rf : Raft Op)
        → s.holder ≡ none
        → Move s (record s { kv = record s.kv { rf = rf } })
    installed :
        {s : Locked} (args : InstallSnapshotArgs) (reply : InstallSnapshotReply)
        (sends : Option (ApplyMsg Op)) (rf : Raft Op)
        → s.holder ≡ none
        → install_snapshot g args s.kv.rf ≡ ok (reply, sends, rf)
        → Move s (record s { kv = record s.kv { rf = rf }; holder = sends })
    snapshot_sent :
        {s : Locked} (msg : ApplyMsg Op) (loop : Loop) (kv : KvServer)
        → s.holder ≡ some msg
        → s.loop ≡ receiving
        → begin_round g gk msg s.kv ≡ ok (loop, kv)
        → Move s (record { kv = kv; holder = none; loop = loop })
    command_sent :
        {s : Locked} (msg : ApplyMsg Op) (rf : Raft Op) (loop : Loop) (kv : KvServer)
        → apply_step s.kv.rf ≡ ok (some msg, rf)
        → s.loop ≡ receiving
        → begin_round g gk msg (record s.kv { rf = rf }) ≡ ok (loop, kv)
        → Move s (record s { kv = kv; loop = loop })
    advanced :
        {s : Locked} (loop : Loop) (kv : KvServer)
        → s.holder ≡ none
        → advance g gk s.loop s.kv ≡ ok (some (loop, kv))
        → Move s (record s { kv = kv; loop = loop })
    get_begun :
        {s : Locked} (args : GetArgs)
        → s.holder ≡ none
        → s.loop ≡ receiving
        → Move s (record s { kv = (get_begin g args s.kv).1 })
    put_append_begun :
        {s : Locked} (args : PutAppendArgs) (call : Call PutAppendReply) (kv : KvServer)
        → (s.holder ≡ none) ⊎ (request_duplicated args.client_id args.seq_id s.kv ≡ true)
        → s.loop ≡ receiving
        → put_append_begin g args s.kv ≡ ok (call, kv)
        → Move s (record s { kv = kv })
    removed :
        {s : Locked} (index : ℕ)
        → s.loop ≡ receiving
        → Move s (record s { kv = remove_notify_channel index s.kv })
    get_ended :
        {s : Locked} (ch : ℕ) (late : Bool) (reply : GetReply) (kv : KvServer)
        → get_finish ch late s.kv ≡ some (reply, kv)
        → Move s (record s { kv = kv })
    put_append_ended :
        {s : Locked} (ch : ℕ) (late : Bool) (reply : PutAppendReply) (kv : KvServer)
        → put_append_finish ch late s.kv ≡ some (reply, kv)
        → Move s (record s { kv = kv })
    stopped : {s : Locked} → Move s (record s { kv = kill s.kv })

  pub data Moves (begun : Locked) : Locked → Type 0 where
    here : Moves begun begun
    next : {s t : Locked} → Moves begun s → Move s t → Moves begun t
