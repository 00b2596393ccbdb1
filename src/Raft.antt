-- ===== src/Raft.antt =====
-- src/raft/raft.go: the state of a peer, and what its handlers exchange.
--
-- Every method runs under `rf.mu`, so a method is a function from the state to the state. The RPC
-- end points are their number; `voted_for` is `none` for -1. A time is a number of nanoseconds.
-- The condition variable and the goroutine that waits on it are `applier`.
pub mod Persistence
pub mod Roles
pub mod Peer
pub mod Messages
pub mod Majority
pub mod Election
pub mod Replication
pub mod Snapshot
pub mod Application
pub mod Step
pub mod Cluster
use logic_raft.Base.{ℕ, Bool, true, false, Option, List}
use logic_raft.Log.{LogRecord, Log}
use logic_raft.Persister.{Bytes, Persister, raft_state_size}

pub record ApplyMsg (C : Type 0) : Type 0 where
  pub command_valid : Bool
  pub command : Option C
  pub command_index : ℕ
  pub snapshot_valid : Bool
  pub snapshot : Option Bytes
  pub snapshot_term : ℕ
  pub snapshot_index : ℕ

pub data Role : Type 0 where
  follower candidate leader : Role

unfoldable pub role_eq : Role → Role → Bool
role_eq follower follower = true
role_eq candidate candidate = true
role_eq leader leader = true
role_eq _ _ = false

-- Where `applicationTicker` stands: at its loop's test, blocked in Wait, woken and waiting for the
-- lock, sending the entries that it has copied (how many are sent, and those that are left), or
-- ended.
pub data Applier (C : Type 0) : Type 0 where
  looping : Applier C
  waiting : Applier C
  woken : Applier C
  sending : ℕ → List (LogRecord C) → Applier C
  stopped : Applier C

pub record Raft (C : Type 0) : Type 0 where
  pub peers : ℕ
  pub persister : Persister
  pub me : ℕ
  pub dead : Bool
  pub role : Role
  pub current_term : ℕ
  pub voted_for : Option ℕ
  pub election_start : ℕ
  pub election_timeout : ℕ
  pub log : Log C
  pub next_index : List ℕ
  pub match_index : List ℕ
  pub commit_index : ℕ
  pub last_applied : ℕ
  pub applier : Applier C

-- What `persistLocked` encodes: three values, in this order.
pub data Value (C : Type 0) : Type 0 where
  saved_term : ℕ → Value C
  saved_vote : Option ℕ → Value C
  saved_log : Log C → Value C

-- The time, and a number of `rand.Int63()`.
pub record Clock : Type 0 where
  pub now : ℕ
  pub rand : ℕ

module _ {C : Type 0} where
  unfoldable pub get_state : Raft C → ℕ × Bool
  unfolding role_eq
  get_state rf = (rf.current_term, role_eq rf.role leader)

  unfoldable pub get_raft_state_size : Raft C → ℕ
  unfolding raft_state_size
  get_raft_state_size rf = raft_state_size rf.persister

  unfoldable pub kill : Raft C → Raft C
  kill rf = record rf { dead = true }

  unfoldable pub killed : Raft C → Bool
  killed rf = rf.dead

  wake : Applier C → Applier C
  wake waiting = woken
  wake a = a

  -- rf.applyCond.Signal(): wakes the goroutine that waits, and is lost if none does.
  unfoldable pub signal : Raft C → Raft C
  unfolding wake
  signal rf = record rf { applier = wake rf.applier }
