-- ===== src/Raft/Peer.antt =====
-- src/raft/raft.go: `Make`, which creates a peer or restarts one from what it has saved, and
-- `Start`.
use logic_raft.Base.{ℕ, ◌-◌, Bool, true, false, none, some, [], ltb, if◌then◌else◌, replicate}
use logic_raft.Log.{LogRecord, dummy, invalid_term, append, size}
use logic_raft.Gob.{Gob}
use logic_raft.Persister.{Persister, read_raft_state}
use logic_raft.Raft.{Raft, Value, follower, leader, looping, role_eq}
use logic_raft.Raft.Persistence.{persist_locked, read_persist}

module _ {C : Type 0} where
  -- What `Make` sets before it reads the saved state; the fields not set there are zero.
  unfoldable pub fresh : ℕ → ℕ → Persister → Raft C
  unfolding append
  fresh peers me persister = record {
    peers = peers;
    persister = persister;
    me = me;
    dead = false;
    role = follower;
    current_term = 1;
    voted_for = none;
    election_start = 0;
    election_timeout = 0;
    log = append (record { records = []; base = 0 }) (dummy invalid_term);
    next_index = replicate peers 0;
    match_index = replicate peers 0;
    commit_index = 0;
    last_applied = 0;
    applier = looping;
  }

  unfoldable pub make : Gob (Value C) → ℕ → ℕ → Persister → Raft C
  unfolding fresh read_persist read_raft_state
  make g peers me persister =
      let rf = read_persist g (read_raft_state persister) (fresh peers me persister) in
      if ltb 0 rf.log.base
      then record rf { commit_index = rf.log.base; last_applied = rf.log.base }
      else rf

  -- The command's index, the term, and whether this peer is the leader.
  unfoldable pub start : Gob (Value C) → C → Raft C → (ℕ × ℕ × Bool) × Raft C
  unfolding append size persist_locked role_eq
  start g command rf =
      let lr : LogRecord C = record {
        term = rf.current_term;
        command_valid = true;
        command = some command;
      } in
      let rf' = persist_locked g none (record rf { log = append rf.log lr }) in
      if role_eq rf.role leader
      then ((size rf'.log - 1, rf'.current_term, true), rf')
      else ((0, 0, false), rf)
