-- ===== src/Kv/Model.antt =====
-- src/models/kv.go: the sequential specification of one key, against which histories are checked,
-- and the state machine of the server, which keeps to it.
use Prim.Native.String.{String, ◌++◌}
use text.Mathlib.Text.{◌==◌ as str_eq}
use text.Mathlib.TextEquality.{eq_iff}
use text.Mathlib.TextPositions.{eq_refl}
use logic_raft.Base.{ℕ, ◌≡◌, ◌≢◌, refl, Bool, true, ◌==◌, if◌then◌else◌, arith}
use logic_raft.Base.Dict.{lookup, lookup-assign, string_key}
use logic_raft.Kv.{
  Op, OperationType, op_get, op_put, op_append, KvStateMachine, value_or_empty,
  apply_to_state_machine,
}

pub record KvInput : Type 0 where
  pub op : ℕ
  pub key : String
  pub value : String

pub record KvOutput : Type 0 where
  pub value : String

-- KvModel.Init
unfoldable pub init : String
init = ""

-- KvModel.Step
unfoldable pub step : String → KvInput → KvOutput → Bool × String
step state inp out =
    if inp.op == 0
    then (str_eq out.value state, state)
    else if inp.op == 1
    then (true, inp.value)
    else (true, state ++ inp.value)

-- The number that a history gives to an operation.
abbrev pub op_number : OperationType → ℕ
op_number op_get = 0
op_number op_put = 1
op_number op_append = 2

abbrev pub input : Op → KvInput
input op = record { op = op_number op.op_type; key = op.key; value = op.value }

-- The state of one key, as the specification sees it.
abbrev pub view : String → KvStateMachine → String
view key m = value_or_empty (lookup key m.kv)

module _ (op : Op) (m : KvStateMachine) where
  step_typed :
      (t : OperationType)
      → op.op_type ≡ t
      → step (view op.key m) (input op) (record { value = (apply_to_state_machine op m).0.value })
        ≡ (true, view op.key (apply_to_state_machine op m).1)
  unfolding step apply_to_state_machine
  step_typed t e = ground (
    arith,
    eq_refl (view op.key m),
    eq_refl op.key,
    lookup-assign op.key op.key op.value m.kv,
    lookup-assign op.key op.key (view op.key m ++ op.value) m.kv,
  )

  other_typed :
      (t : OperationType) (key : String)
      → op.op_type ≡ t
      → key ≢ op.key
      → lookup key (apply_to_state_machine op m).1.kv ≡ lookup key m.kv
  unfolding apply_to_state_machine
  other_typed t key e differs = ground (
    arith,
    eq_iff op.key key,
    lookup-assign op.key key op.value m.kv,
    lookup-assign op.key key (view op.key m ++ op.value) m.kv,
  )

  -- Every operation that the server applies is a step that the specification allows: with the
  -- value of the reply as its output it takes the key's state to the state after the operation,
  -- and no other key changes.
  pub apply_refines_model :
      (step (view op.key m) (input op) (record { value = (apply_to_state_machine op m).0.value })
        ≡ (true, view op.key (apply_to_state_machine op m).1))
      × ((key : String)
          → key ≢ op.key
          → lookup key (apply_to_state_machine op m).1.kv ≡ lookup key m.kv)
  apply_refines_model =
      (step_typed op.op_type refl, λ key differs. other_typed op.op_type key refl differs)
