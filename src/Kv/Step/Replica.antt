-- ===== src/Kv/Step/Replica.antt =====
-- What a server promises, without its peer and its channels: a replica that takes messages.
pub mod Kept
pub mod Replay
pub mod Snapshots
use logic_raft.Base.{
  ℕ, Bool, true, false, ◌&&◌, Option, none, some, List, [], ◌∷◌, Result, ok, panic, from_option,
  ◌>>=◌, leb, if◌then◌else◌,
}
use logic_raft.Base.Dict.{Dict, lookup, assign, nat_key}
use logic_raft.Gob.{Gob}
use logic_raft.Persister.{Bytes}
use logic_raft.Raft.{ApplyMsg}
use logic_raft.Kv.{Op, LastOperationInfo, KvStateMachine, apply_to_state_machine}
use logic_raft.Kv.Server.{KvServer, KvValue, saved_machine, saved_table}
use logic_raft.Kv.Apply.{is_write}

-- A map of keys, the last write of each client, and the index of the last message.
pub record Replica : Type 0 where
  pub machine : KvStateMachine
  pub table : Dict ℕ LastOperationInfo
  pub last : ℕ

abbrev pub replica_of : KvServer → Replica
replica_of kv = record {
  machine = kv.state_machine;
  table = kv.duplicate_table;
  last = kv.last_applied;
}

-- The client's last write is not older than the operation.
abbrev pub is_seen : Op → Dict ℕ LastOperationInfo → Bool
is_seen op table = elim (lookup op.client_id table) [
  | none ↦ false
  | some info ↦ leb op.seq_id info.seq_id
]

-- A write that was seen changes nothing.
unfoldable pub perform : Op → Replica → Replica
perform op r =
    if is_write op.op_type && is_seen op r.table
    then r
    else (let (reply, machine) = apply_to_state_machine op r.machine in
        record r {
          machine = machine;
          table =
              if is_write op.op_type
              then assign op.client_id (record { seq_id = op.seq_id; reply = reply }) r.table
              else r.table;
        })

abbrev pub replace_table : Option KvValue → KvStateMachine → Replica → Result Replica
replace_table (some (saved_table table)) machine r =
    ok (record r { machine = machine; table = table })
replace_table _ machine r = panic

abbrev pub replace : Gob KvValue → Option KvValue → Bytes → Replica → Result Replica
replace gk (some (saved_machine machine)) bytes r = replace_table (gk.read bytes 1) machine r
replace gk _ bytes r = panic

-- A snapshot that is empty changes nothing, and one that cannot be decoded is a
-- panic.
unfoldable pub load : Gob KvValue → Bytes → Replica → Result Replica
load gk [] r = ok r
load gk (b ∷ bytes) r = replace gk (gk.read (b ∷ bytes) 0) (b ∷ bytes) r

abbrev at_index : ℕ → Replica → Replica
at_index index r = record r { last = index }

unfoldable pub take : Gob KvValue → ApplyMsg Op → Replica → Result Replica
take gk msg r =
    if msg.command_valid
    then (if leb msg.command_index r.last
        then ok r
        else (do op ← from_option msg.command; ok (perform op (at_index msg.command_index r))))
    else if msg.snapshot_valid
    then (do
      r' ← load gk (elim msg.snapshot [ none ↦ [] | some bytes ↦ bytes ]) r
      ok (at_index msg.snapshot_index r'))
    else ok r

unfoldable pub take_all : Gob KvValue → List (ApplyMsg Op) → Replica → Result Replica
take_all gk [] r = ok r
take_all gk (msg ∷ msgs) r = (do r' ← take gk msg r; take_all gk msgs r')
