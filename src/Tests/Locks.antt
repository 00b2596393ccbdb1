-- ===== src/Tests/Locks.antt =====
-- A snapshot that arrives in the middle of a command.
use logic_raft.Base.{◌≡◌, refl, none, some, [], ◌∷◌, ok, arith, true, false, Result, panic, ◌>>=◌}
use logic_raft.Base.Dict.{lookup, assign}
use logic_raft.Persister.{make_persister}
use logic_raft.Raft.{ApplyMsg}
use logic_raft.Raft.Peer.{make}
use logic_raft.Raft.Messages.{InstallSnapshotArgs}
use logic_raft.Raft.Snapshot.{snapshot_msg}
use logic_raft.Kv.{Op, fine, apply_to_state_machine}
use logic_raft.Kv.Server.{KvServer, saved_machine, saved_table}
use logic_raft.Kv.Step.Locks.{Loop, asks_state, Locked, Move, Moves, begin_round}
use logic_raft.Kv.Step.Locks.Deadlock.{snapshot_deadlocks}
use logic_raft.Kv.Step.Replica.{replica_of}
use logic_raft.Tests.Codec.{op_codec, kv_codec}
use logic_raft.Tests.Kv.{server, append_op}

-- Client 7 appends to "k" at index 1.
abbrev command : ApplyMsg Op
command = record {
  command_valid = true;
  command = some (append_op 0 "z");
  command_index = 1;
  snapshot_valid = false;
  snapshot = none;
  snapshot_term = 0;
  snapshot_index = 0;
}

abbrev kv_or : KvServer → Result (Loop × KvServer) → KvServer
kv_or kv panic = kv
kv_or kv (ok r) = r.1

-- The command is applied, and the loop wants to know whether the peer leads.
abbrev busy : Locked
busy = record {
  kv = kv_or server (begin_round op_codec kv_codec command server);
  holder = none;
  loop = asks_state 1 (record { value = ""; err = fine });
}

command_begun : begin_round op_codec kv_codec command server ≡ ok (busy.loop, busy.kv)
unfolding begin_round lookup assign apply_to_state_machine
command_begun = refl

abbrev arrives : InstallSnapshotArgs
arrives = record {
  term = 1;
  leader_id = 1;
  last_included_index = 5;
  last_included_term = 1;
  offset = 0;
  bytes = some (kv_codec.write (saved_machine server.state_machine ∷ saved_table [] ∷ []));
  done = false;
}

snapshot_deadlocks_example :
    (t : Locked) × Move op_codec kv_codec busy t
    × ((u : Locked)
        → Moves op_codec kv_codec t u
        → (u.holder ≡ some (snapshot_msg arrives))
          × (u.loop ≡ busy.loop)
          × (replica_of u.kv ≡ replica_of busy.kv))
snapshot_deadlocks_example =
    snapshot_deadlocks op_codec kv_codec arrives busy refl (λ e. cc)
      (unfold begin_round lookup make make_persister in omega arith)
      (unfold begin_round lookup in omega arith)
