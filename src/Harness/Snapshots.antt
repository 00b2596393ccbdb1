-- ===== src/Harness/Snapshots.antt =====
-- src/raft/config.go: the applier that takes snapshots.
use logic_raft.Base.{
  ℕ, zero, suc, ◌+◌, ◌%◌, Bool, true, false, not, ◌&&◌, ◌||◌, Option, none, some, List, [], ◌∷◌,
  Result, ok, panic, ◌>>=◌, ltb, ◌==◌, if◌then◌else◌, index, put,
}
use logic_raft.Base.Dict.{Key, Dict, lookup, nat_key}
use logic_raft.Gob.{Gob}
use logic_raft.Persister.{Bytes}
use logic_raft.Raft.{Value, ApplyMsg}
use logic_raft.Raft.Snapshot.{take_snapshot}
use logic_raft.Harness.{Config, raft_of, check_logs, is_some}

-- What a snapshot of `applierSnap` encodes: the index, and the commands up to it.
pub data SnapValue (C : Type 0) : Type 0 where
  included : ℕ → SnapValue C
  commands : List (Option C) → SnapValue C

abbrev pub snap_shot_interval : ℕ
snap_shot_interval = 10

-- The commands as a map from `j` on.
unfoldable pub logs_from : {C : Type 0} → ℕ → List (Option C) → Dict ℕ (Option C)
logs_from j [] = []
logs_from j (x ∷ xlog) = (j, x) ∷ logs_from (suc j) xlog

module _ {C : Type 0} (gs : Gob (SnapValue C)) where
  -- The end of `ingestSnap`: true for the error text of a snapshot that is not of the index.
  unfoldable pub ingest_decoded :
      ℕ → Option ℕ → ℕ → List (Option C) → Config C → Result (Bool × Config C)
  unfolding logs_from put
  ingest_decoded i expected last xlog cfg =
      let mismatch : Bool = elim expected [ none ↦ false | some n ↦ not (n == last) ] in
      let taken : Result (Bool × Config C) = (do
        logs ← put cfg.logs i (logs_from 0 xlog)
        applied ← put cfg.last_applied i last
        ok (false, record cfg { logs = logs; last_applied = applied })) in
      if mismatch then ok (true, cfg) else taken

  ingest_commands : Option (SnapValue C) → ℕ → Option ℕ → ℕ → Config C → Result (Bool × Config C)
  unfolding ingest_decoded
  ingest_commands (some (commands xlog)) i expected last cfg =
      ingest_decoded i expected last xlog cfg
  ingest_commands _ i expected last cfg = panic

  ingest_included :
      Option (SnapValue C) → Bytes → ℕ → Option ℕ → Config C → Result (Bool × Config C)
  unfolding ingest_commands
  ingest_included (some (included last)) bytes i expected cfg =
      ingest_commands (gs.read bytes 1) i expected last cfg
  ingest_included _ bytes i expected cfg = panic

  -- `none` stands for a nil snapshot, and for the index -1. What ends the program is a panic.
  unfoldable pub ingest_snap : ℕ → Option Bytes → Option ℕ → Config C → Result (Bool × Config C)
  unfolding ingest_included
  ingest_snap i none expected cfg = panic
  ingest_snap i (some bytes) expected cfg = ingest_included (gs.read bytes 0) bytes i expected cfg

-- cfg.logs[i][j] for j from `j` on; a missing key reads as nil.
unfoldable pub commands_from : {C : Type 0} → ℕ → ℕ → Dict ℕ (Option C) → List (Option C)
unfolding lookup
commands_from zero j log = []
commands_from (suc left) j log =
    (elim (lookup j log) [ none ↦ none | some c ↦ c ]) ∷ commands_from left (suc j) log

module _ {C : Type 0} ⦃eq : Key (Option C)⦄ (g : Gob (Value C)) (gs : Gob (SnapValue C)) where
  -- The command is checked as in `applier`, unless it is out of order already.
  unfoldable pub snap_command : ℕ → ApplyMsg C → Config C → Result (Config C)
  unfolding check_logs put
  snap_command i m cfg = do
    applied ← index cfg.last_applied i
    if not (m.command_index == applied + 1) then panic else (do
      checked ← check_logs i m cfg
      let gap = ltb 1 m.command_index && not checked.0.1
      if gap || is_some checked.0.0 then panic else (do
        moved ← put checked.1.last_applied i m.command_index
        ok (record checked.1 { last_applied = moved })))

  -- Every tenth command the peer is given a snapshot. `rafts[i]` is the peer the loop began with.
  unfoldable pub snap_every : ℕ → ℕ → Config C → Result (Config C)
  unfolding commands_from take_snapshot put raft_of
  snap_every i command_index cfg =
      if not ((command_index + 1) % snap_shot_interval == 0) then ok cfg else (do
        log ← index cfg.logs i
        rf ← raft_of i cfg
        rf' ←
            take_snapshot g command_index
              (some (
                gs.write (
                  included command_index
                  ∷ commands (commands_from (suc command_index) 0 log)
                  ∷ [])))
              rf
        rafts ← put cfg.rafts i (some rf')
        ok (record cfg { rafts = rafts }))

  -- One message of `applierSnap`; an error text ends the program.
  unfoldable pub applier_snap : ℕ → ApplyMsg C → Config C → Result (Config C)
  unfolding ingest_snap snap_command snap_every
  applier_snap i m cfg =
      if m.snapshot_valid
      then (do
        taken ← ingest_snap gs i m.snapshot (some m.snapshot_index) cfg
        if taken.0 then panic else ok taken.1)
      else if m.command_valid
      then (do applied ← snap_command i m cfg; snap_every i m.command_index applied)
      else ok cfg
