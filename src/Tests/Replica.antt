-- ===== src/Tests/Replica.antt =====
-- A server that answers, applies and stops, and one that takes its snapshot.
use logic_raft.Base.{ℕ, ◌≡◌, refl, true, false, Option, none, some, [], ◌∷◌, ◌++◌, Result, ok}
use logic_raft.Base.Dict.{lookup, assign, nat_key}
use logic_raft.Raft.{ApplyMsg}
use logic_raft.Raft.Peer.{start}
use logic_raft.Kv.{Op, GetArgs, apply_to_state_machine}
use logic_raft.Kv.Server.{KvServer, saved_machine, saved_table, get_begin, kill}
use logic_raft.Kv.Apply.{apply_message}
use logic_raft.Kv.Step.{get_begun, stopped}
use logic_raft.Kv.Step.Replica.{replica_of, take_all}
use logic_raft.Kv.Step.Replica.Replay.{KvRun, done, besides, taken, server_is_replica}
use logic_raft.Kv.Step.Replica.Snapshots.{snapshot_stands_for_messages}
use logic_raft.Tests.Codec.{op_codec, kv_codec}
use logic_raft.Tests.Kv.{server, append_op}

abbrev begun : KvServer
begun = record server { max_raft_state = none }

-- Client 7 appends to "k" at an index.
abbrev appends : ℕ → ApplyMsg Op
appends i = record {
  command_valid = true;
  command = some (append_op i "z");
  command_index = i;
  snapshot_valid = false;
  snapshot = none;
  snapshot_term = 0;
  snapshot_index = 0;
}

abbrev question : GetArgs
question = record { key = "q" }

abbrev asked : KvServer
asked = (get_begin op_codec question begun).1

abbrev server_or : KvServer → Result (Option KvServer) → KvServer
server_or s (ok (some kv)) = kv
server_or s _ = s

abbrev after_one : KvServer
after_one = server_or asked (apply_message op_codec kv_codec (appends 1) asked)

one : apply_message op_codec kv_codec (appends 1) asked ≡ ok (some after_one)
unfolding apply_message get_begin start lookup assign apply_to_state_machine
one = refl

-- A handler begins, a command is applied, and the server is stopped.
run : KvRun op_codec kv_codec begun (appends 1 ∷ []) (kill after_one)
run =
    besides (get_begun question begun)
      (taken (appends 1) one (besides (stopped after_one) (done (kill after_one))))

server_is_replica_example :
    take_all kv_codec (appends 1 ∷ []) (replica_of begun) ≡ ok (replica_of (kill after_one))
server_is_replica_example =
    server_is_replica op_codec kv_codec begun (kill after_one) (appends 1 ∷ []) run

-- The snapshot of what that server has, for a server that was given nothing before.
abbrev snap : ApplyMsg Op
snap = record {
  command_valid = false;
  command = none;
  command_index = 0;
  snapshot_valid = true;
  snapshot = some (
      kv_codec.write
        (saved_machine after_one.state_machine ∷ saved_table after_one.duplicate_table ∷ []));
  snapshot_term = 1;
  snapshot_index = 1;
}

abbrev restored : KvServer
restored = server_or begun (apply_message op_codec kv_codec snap begun)

abbrev after_two : KvServer
after_two = server_or restored (apply_message op_codec kv_codec (appends 2) restored)

restored_is : apply_message op_codec kv_codec snap begun ≡ ok (some restored)
unfolding apply_message get_begin start lookup assign apply_to_state_machine kv_codec
restored_is = refl

two : apply_message op_codec kv_codec (appends 2) restored ≡ ok (some after_two)
unfolding apply_message get_begin start lookup assign apply_to_state_machine kv_codec
two = refl

later_run : KvRun op_codec kv_codec begun (snap ∷ appends 2 ∷ []) after_two
later_run = taken snap restored_is (taken (appends 2) two (done after_two))

both_appended : after_two.state_machine.kv ≡ ("k", "xzz") ∷ []
unfolding apply_message get_begin start lookup assign apply_to_state_machine kv_codec
both_appended = refl

at_one : 1 ≡ after_one.last_applied
unfolding apply_message get_begin start lookup assign apply_to_state_machine
at_one = refl

snapshot_stands_for_messages_example :
    take_all kv_codec ((appends 1 ∷ []) ++ appends 2 ∷ []) (replica_of begun)
    ≡ ok (replica_of after_two)
unfolding kill
snapshot_stands_for_messages_example =
    snapshot_stands_for_messages op_codec kv_codec begun (kill after_one) begun after_two
      (appends 1 ∷ []) (appends 2 ∷ []) snap run refl refl refl at_one later_run
