-- ===== src/Tests/Applying.antt =====
-- The server's loop that applies.
use logic_raft.Base.{
  ◌≡◌, ◌≢◌, ◌<◌, ◌≤◌, refl, true, false, none, some, [], ◌∷◌, Result, ok, panic, arith,
}
use logic_raft.Base.Dict.{string_key}
use logic_raft.Persister.{make_persister}
use logic_raft.Raft.{Raft, ApplyMsg}
use logic_raft.Raft.Peer.{make}
use logic_raft.Raft.Messages.{InstallSnapshotArgs}
use logic_raft.Raft.Snapshot.{install_snapshot}
use logic_raft.Kv.{Op, KvStateMachine}
use logic_raft.Kv.Server.{KvServer, saved_machine, saved_table}
use logic_raft.Kv.Apply.{apply_message, start_kv_server}
use logic_raft.Kv.Apply.Rollback.{old_snapshot_rolls_back}
use logic_raft.Kv.Step.{here as begun}
use logic_raft.Kv.Step.Channels.Blocking.{reply_never_blocks}
use logic_raft.Tests.Codec.{op_codec, kv_codec}
use logic_raft.Tests.Kv.{server, peer, append_op}

-- The messages that the theorem is about.
abbrev InOrder : ApplyMsg Op → KvServer → Type 0
InOrder msg kv = msg.command_valid ≡ false → kv.last_applied ≤ msg.snapshot_index

abbrev server_or : KvServer → Result KvServer → KvServer
server_or s panic = s
server_or s (ok kv) = kv

abbrev new_server : KvServer
new_server = server_or server (start_kv_server op_codec kv_codec 3 0 make_persister none)

starts : start_kv_server op_codec kv_codec 3 0 make_persister none ≡ ok new_server
unfolding start_kv_server make_persister
starts = refl

abbrev command : ApplyMsg Op
command = record {
  command_valid = true;
  command = some (append_op 0 "a");
  command_index = 1;
  snapshot_valid = false;
  snapshot = none;
  snapshot_term = 0;
  snapshot_index = 0;
}

reply_never_blocks_example : apply_message op_codec kv_codec command new_server ≢ ok none
reply_never_blocks_example =
    reply_never_blocks op_codec kv_codec InOrder (λ msg kv allowed. allowed) 3 0 make_persister none
      new_server new_server starts begun command (λ e. cc)

-- A server that has applied five commands, and its peer, whose log is not trimmed.
abbrev ahead : KvServer
ahead = record server { rf = record peer { last_applied = 5; commit_index = 5 }; last_applied = 5 }

abbrev old_machine : KvStateMachine
old_machine = record { kv = ("k", "old") ∷ [] }

abbrev old_snapshot : InstallSnapshotArgs
old_snapshot = record {
  term = 4;
  leader_id = 1;
  last_included_index = 3;
  last_included_term = 2;
  offset = 0;
  bytes = some (kv_codec.write (saved_machine old_machine ∷ saved_table [] ∷ []));
  done = false;
}

old_snapshot_rolls_back_example :
    (msg : ApplyMsg Op) × (rf' : Raft Op) × (kv' : KvServer) × (install_snapshot op_codec
        old_snapshot ahead.rf
      ≡ ok (record { term = ahead.rf.current_term }, some msg, rf'))
    × (apply_message op_codec kv_codec msg (record ahead { rf = rf' }) ≡ ok (some kv'))
    × (kv'.state_machine ≡ old_machine)
    × (kv'.last_applied ≡ 3)
    × (kv'.rf.last_applied ≡ 5)
    × (kv'.last_applied < kv'.rf.last_applied)
unfolding make make_persister
old_snapshot_rolls_back_example =
    old_snapshot_rolls_back op_codec kv_codec old_snapshot old_machine [] ahead refl (omega arith)
      (omega arith) (omega arith)
