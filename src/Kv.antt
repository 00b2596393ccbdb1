-- ===== src/Kv.antt =====
-- src/kvraft/common.go and state_machine.go: requests, replies and the key/value state machine.
-- The ids and sequence numbers of clients (int64) are natural numbers.
pub mod Harness
pub mod Model
pub mod Partition
pub mod Server
pub mod Apply
pub mod Step
pub mod Clerk
pub mod Db
use Prim.Native.String.{String, ◌++◌}
use text.Mathlib.Text.{◌==◌}
use logic_raft.Base.{ℕ, Option, none, some, [], Result, ok, panic, if◌then◌else◌}
use logic_raft.Base.Dict.{Dict, lookup, assign, string_key}

-- "OK", "ErrNoKey", "ErrWrongLeader", "ErrTimeout"
pub data Err : Type 0 where
  fine err_no_key err_wrong_leader err_timeout : Err

pub data OperationType : Type 0 where
  op_get op_put op_append : OperationType

pub record PutAppendArgs : Type 0 where
  pub key : String
  pub value : String
  pub op : String
  pub client_id : ℕ
  pub seq_id : ℕ

pub record PutAppendReply : Type 0 where
  pub err : Err

pub record GetArgs : Type 0 where
  pub key : String

pub record GetReply : Type 0 where
  pub err : Err
  pub value : String

pub record Op : Type 0 where
  pub key : String
  pub value : String
  pub op_type : OperationType
  pub client_id : ℕ
  pub seq_id : ℕ

pub record OpReply : Type 0 where
  pub value : String
  pub err : Err

pub record LastOperationInfo : Type 0 where
  pub seq_id : ℕ
  pub reply : OpReply

unfoldable pub get_operation_type : String → Result OperationType
get_operation_type v =
    if v == "Put" then ok op_put else if v == "Append" then ok op_append else panic

pub record KvStateMachine : Type 0 where
  pub kv : Dict String String

unfoldable pub new_kv_state_machine : KvStateMachine
new_kv_state_machine = record { kv = [] }

unfoldable pub get : String → KvStateMachine → String × Err
get key m = elim (lookup key m.kv) [ some value ↦ (value, fine) | none ↦ ("", err_no_key) ]

unfoldable pub put : String → String → KvStateMachine → Err × KvStateMachine
put key value m = (fine, record m { kv = assign key value m.kv })

-- A missing key reads as the empty string.
abbrev pub value_or_empty : Option String → String
value_or_empty none = ""
value_or_empty (some value) = value

unfoldable pub append : String → String → KvStateMachine → Err × KvStateMachine
append key value m =
    (fine, record m { kv = assign key (value_or_empty (lookup key m.kv) ++ value) m.kv })

-- server.go: applyToStateMachine
apply_typed : OperationType → Op → KvStateMachine → OpReply × KvStateMachine
unfolding get put append
apply_typed op_get op m =
    let (value, err) = get op.key m in (record { value = value; err = err }, m)
apply_typed op_put op m =
    let (err, m') = put op.key op.value m in (record { value = ""; err = err }, m')
apply_typed op_append op m =
    let (err, m') = append op.key op.value m in (record { value = ""; err = err }, m')

unfoldable pub apply_to_state_machine : Op → KvStateMachine → OpReply × KvStateMachine
unfolding apply_typed
apply_to_state_machine op m = apply_typed op.op_type op m
