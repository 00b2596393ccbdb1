-- ===== src/Raft/Persistence.antt =====
-- src/raft/raft_persistence.go: what a peer writes to stable storage and reads back.

use logic_raft.Base.{ℕ, Option, none, some, [], ◌∷◌, ltb, if◌then◌else◌, length}
use logic_raft.Log.{size}
use logic_raft.Gob.{Gob}
use logic_raft.Persister.{Bytes, save, read_snapshot}
use logic_raft.Raft.{Raft, Value, saved_term, saved_vote, saved_log}

-- The numbers in the text of `persistString`.
pub record PersistText : Type 0 where
  pub term : ℕ
  pub voted_for : Option ℕ
  pub log_size : ℕ

unfoldable pub persist_string : {C : Type 0} → Raft C → PersistText
unfolding size
persist_string rf = record {
  term = rf.current_term;
  voted_for = rf.voted_for;
  log_size = size rf.log;
}

module _ {C : Type 0} (g : Gob (Value C)) where
  -- `none` stands for a nil snapshot: the stored one is kept.
  unfoldable pub persist_locked : Option Bytes → Raft C → Raft C
  unfolding save read_snapshot
  persist_locked snapshot rf =
      let kept : Bytes = elim snapshot [ none ↦ read_snapshot rf.persister | some bytes ↦ bytes ] in
      let state =
        g.write (saved_term rf.current_term ∷ saved_vote rf.voted_for ∷ saved_log rf.log ∷ []) in
      record rf { persister = save state kept rf.persister }

  -- The three reads of `readPersist`: an error ends the method, and keeps what was read.
  restore_log : Option (Value C) → Raft C → Raft C
  restore_log (some (saved_log log)) rf = record rf { log = log }
  restore_log _ rf = rf

  restore_vote : Option (Value C) → Bytes → Raft C → Raft C
  unfolding restore_log
  restore_vote (some (saved_vote v)) saved rf =
      restore_log (g.read saved 2) (record rf { voted_for = v })
  restore_vote _ saved rf = rf

  restore_term : Option (Value C) → Bytes → Raft C → Raft C
  unfolding restore_vote
  restore_term (some (saved_term t)) saved rf =
      restore_vote (g.read saved 1) saved (record rf { current_term = t })
  restore_term _ saved rf = rf

  unfoldable pub read_persist : Bytes → Raft C → Raft C
  unfolding restore_term
  read_persist saved rf =
      if ltb (length saved) 1 then rf else restore_term (g.read saved 0) saved rf
