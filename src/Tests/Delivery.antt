-- ===== src/Tests/Delivery.antt =====
-- A handler that receives the reply of another client's operation.
use logic_raft.Base.{◌≡◌, refl, true, false, none, some, ok, arith}
use logic_raft.Base.Dict.{lookup, assign, nat_key}
use logic_raft.Raft.{ApplyMsg, get_state}
use logic_raft.Raft.Peer.{start}
use logic_raft.Kv.{Op, GetArgs, fine, apply_to_state_machine}
use logic_raft.Kv.Server.{KvServer, waiting, get_begin, get_finish}
use logic_raft.Kv.Apply.{apply_op, apply_message}
use logic_raft.Kv.Step.Channels.{IsClear}
use logic_raft.Kv.Step.Channels.Delivery.{reply_is_of_index}
use logic_raft.Tests.Codec.{op_codec, kv_codec}
use logic_raft.Tests.Kv.{server, append_op}

abbrev asked : KvServer
asked = record server { max_raft_state = none }

asked-IsClear : IsClear asked
asked-IsClear = record {
  known = λ i ch h. unfold lookup in cc;
  distinct = λ i j ch h h'. unfold lookup in cc;
  empty = λ i ch h later. unfold lookup in cc;
}

-- A client asks for the key "q"; its handler waits for index 2.
abbrev question : GetArgs
question = record { key = "q" }

abbrev waits : KvServer
waits = (get_begin op_codec question asked).1

begun : get_begin op_codec question asked ≡ (waiting 2 0, waits)
unfolding get_begin start lookup
begun = refl

-- Client 7 appends to "k" at index 2.
abbrev other : ApplyMsg Op
other = record {
  command_valid = true;
  command = some (append_op 4 "z");
  command_index = 2;
  snapshot_valid = false;
  snapshot = none;
  snapshot_term = 0;
  snapshot_index = 0;
}

abbrev appended : KvServer
appended = record waits {
  last_applied = 2;
  state_machine = (apply_to_state_machine (append_op 4 "z") waits.state_machine).1;
  duplicate_table =
      assign 7 (record { seq_id = 4; reply = record { value = ""; err = fine } })
        waits.duplicate_table;
}

ran :
    apply_op (append_op 4 "z") (record waits { last_applied = 2 })
    ≡ ok (record { value = ""; err = fine }, appended)
unfolding apply_op apply_to_state_machine get_begin start lookup assign
ran = refl

reply_is_of_index_example :
    (kv₃ : KvServer) × (kv₄ : KvServer) × (apply_message op_codec kv_codec other waits
      ≡ ok (some kv₃))
    × (get_finish 0 false kv₃ ≡ some (record { err = fine; value = "" }, kv₄))
unfolding get_begin get_state start lookup
reply_is_of_index_example =
    reply_is_of_index op_codec kv_codec question 2 0 asked waits asked-IsClear (omega arith) begun
      refl waits.rf refl (append_op 4 "z") other refl refl refl (record { value = ""; err = fine })
      appended ran
