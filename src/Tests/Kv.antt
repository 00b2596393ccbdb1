-- ===== src/Tests/Kv.antt =====
-- The key/value store: duplicates, snapshots, the specification and the client.
use Prim.Native.String.{String}
use text.Mathlib.TextEquality.{eq_iff}
use mathlib.Core.Bool.{false≢true}
use logic_raft.Base.{
  ℕ, zero, suc, ◌≡◌, ◌≢◌, refl, true, false, Option, none, some, [], ◌∷◌, Result, ok, panic, arith,
}
use logic_raft.Base.Dict.{lookup, assign, string_key}
use logic_raft.Log.{LogRecord, dummy, size}
use logic_raft.Persister.{make_persister}
use logic_raft.Raft.{Raft, leader}
use logic_raft.Raft.Peer.{make}
use logic_raft.Kv.{fine, err_wrong_leader, op_append, Op, OpReply, GetReply, apply_to_state_machine}
use logic_raft.Kv.Model.{apply_refines_model}
use logic_raft.Kv.Server.{KvServer}
use logic_raft.Kv.Apply.{apply_op, make_snapshot, start_kv_server}
use logic_raft.Kv.Apply.Once.{run_ops, applied_once}
use logic_raft.Kv.Apply.Recovery.{snapshot_recovers}
use logic_raft.Kv.Clerk.{Clerk, call_loop}
use logic_raft.Kv.Db.{Store}
use logic_raft.Kv.Db
use logic_raft.Kv.Clerk.Rotation.{Answered, client_finds_server}
use logic_raft.Tests.Codec.{op_codec, kv_codec}

abbrev op_record : Op → LogRecord Op
op_record op = record { term = 1; command_valid = true; command = some op }

abbrev pub append_op : ℕ → String → Op
append_op seq_id value = record {
  key = "k";
  value = value;
  op_type = op_append;
  client_id = 7;
  seq_id = seq_id;
}

abbrev pub peer : Raft Op
peer = record (make op_codec 3 0 make_persister) {
  role = leader;
  log = record { records = dummy 0 ∷ op_record (append_op 0 "a") ∷ []; base = 0 };
  commit_index = 1;
}

abbrev pub server : KvServer
server = record {
  me = 0;
  rf = peer;
  dead = false;
  max_raft_state = some 1;
  last_applied = 0;
  state_machine = record { kv = ("k", "x") ∷ [] };
  notify_chans = [];
  chans = [];
  duplicate_table = [];
}

abbrev server_or : KvServer → Result (OpReply × KvServer) → KvServer
server_or s panic = s
server_or s (ok r) = r.1

abbrev once : KvServer
once = server_or server (apply_op (append_op 0 "a") server)

abbrev twice : KvServer
twice = server_or once (apply_op (append_op 1 "b") once)

abbrev done : OpReply
done = record { value = ""; err = fine }

first : apply_op (append_op 0 "a") server ≡ ok (done, once)
unfolding apply_op apply_to_state_machine lookup assign
first = refl

later : run_ops (append_op 1 "b" ∷ []) once ≡ ok twice
unfolding run_ops apply_op apply_to_state_machine lookup assign
later = refl

appended : twice.state_machine.kv ≡ ("k", "xab") ∷ []
unfolding apply_op apply_to_state_machine lookup assign
appended = refl

applied_once_example : (again : OpReply) × (apply_op (append_op 0 "a") twice ≡ ok (again, twice))
applied_once_example =
    applied_once (append_op 0 "a") (append_op 1 "b" ∷ []) server done once twice refl first later

snapshot_recovers_example :
    (kv' : KvServer) × (new : KvServer) × (make_snapshot op_codec kv_codec 1 server ≡ ok kv')
    × (start_kv_server op_codec kv_codec 3 0 kv'.rf.persister none ≡ ok new)
    × (new.state_machine ≡ server.state_machine)
    × (new.duplicate_table ≡ server.duplicate_table)
snapshot_recovers_example =
    snapshot_recovers op_codec kv_codec 1 server 3 0 none (omega arith) (omega arith)
      (unfold size in omega arith)

other_key : (let a : String = "j" in let b : String = "k" in a ≢ b)
other_key h = false≢true ((eq_iff "j" "k").1 h)

apply_refines_model_example :
    lookup "j" (apply_to_state_machine (append_op 0 "a") server.state_machine).1.kv
    ≡ lookup "j" server.state_machine.kv
apply_refines_model_example =
    (apply_refines_model (append_op 0 "a") server.state_machine).1 "j" other_key

-- Server 1 answers, the others are not leaders.
abbrev answer : ℕ → ℕ → Option GetReply
answer n i = elim i [
  | zero ↦ some (record { err = err_wrong_leader; value = "" })
  | suc j ↦ elim j [ zero ↦ some (record { err = fine; value = "v" }) | suc _ ↦ none ]
]

abbrev client : Clerk
client = record { servers = 3; leader_id = 2; client_id = 7; seq_id = 0 }

client_finds_server_example :
    (reply : GetReply) × (ck' : Clerk) × (call_loop (λ (r : GetReply). r.err) answer 3 0 client
      ≡ some (reply, ck'))
    × Answered (λ (r : GetReply). r.err) answer client reply ck'
client_finds_server_example =
    client_finds_server (λ (r : GetReply). r.err) answer 1 client (omega arith) (omega arith)
      (λ m. (record { err = fine; value = "v" }, refl, refl))

-- A store of one value, whose reads and writes never fail: the methods panic.
abbrev store : Store String
store = record { db_get = λ key db. (db, none); db_put = λ key value db. (none, value) }

store-get_panics : Db.get store "k" "v" ≡ panic
unfolding Db.get
store-get_panics = refl

-- A store that fails: `append` gives what `put` gives.
abbrev broken : Store String
broken = record { db_get = λ key db. (db, some "e"); db_put = λ key value db. (some "e", value) }

broken-append : Db.append broken "k" "v" "u" ≡ ok ("e", "v")
unfolding Db.append
broken-append = refl
