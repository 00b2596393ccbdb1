-- ===== src/Tests/States.antt =====
-- The peers and messages of the tests.
use logic_raft.Base.{ℕ, true, false, some, List, [], ◌∷◌, Result, ok, panic}
use logic_raft.Log.{LogRecord, dummy}
use logic_raft.Persister.{make_persister}
use logic_raft.Raft.{Raft, Role, follower, candidate, leader, looping, Clock}
use logic_raft.Raft.Peer.{make}
use logic_raft.Raft.Messages.{AppendEntriesArgs, AppendEntriesReply}
use logic_raft.Tests.Codec.{codec}

abbrev pub clock : Clock
clock = record { now = 1_000_000_000; rand = 7 }

abbrev pub entry : ℕ → ℕ → LogRecord ℕ
entry term command = record { term = term; command_valid = true; command = some command }

-- The state after a method that returns a reply, too.
abbrev pub state_of : {R S : Type 0} → S → Result (R × S) → S
state_of s panic = s
state_of s (ok (r, s')) = s'

abbrev pub state_or : {S : Type 0} → S → Result S → S
state_or s panic = s
state_or s (ok s') = s'

-- Peer 0 of three, started with empty storage.
abbrev pub new_peer : Raft ℕ
new_peer = make codec 3 0 make_persister

abbrev pub peer_with : Role → ℕ → List (LogRecord ℕ) → ℕ → Raft ℕ
peer_with role term records base = record {
  peers = 3;
  persister = make_persister;
  me = 0;
  dead = false;
  role = role;
  current_term = term;
  voted_for = some 0;
  election_start = 0;
  election_timeout = 300_000_000;
  log = record { records = records; base = base };
  next_index = 3 ∷ 2 ∷ 3 ∷ [];
  match_index = 2 ∷ 0 ∷ 0 ∷ [];
  commit_index = base;
  last_applied = base;
  applier = looping;
}

-- A leader of term 3 with two records.
abbrev pub leading : Raft ℕ
leading = peer_with leader 3 (dummy 0 ∷ entry 1 10 ∷ entry 3 30 ∷ []) 0

-- A follower with a record of a leader of term 2 that never was committed.
abbrev pub trailing : Raft ℕ
trailing = peer_with follower 2 (dummy 0 ∷ entry 1 10 ∷ entry 2 20 ∷ []) 0

-- A candidate of term 3.
abbrev pub standing : Raft ℕ
standing = peer_with candidate 3 (dummy 0 ∷ entry 1 10 ∷ []) 0

-- A follower that has taken a snapshot of index 5.
abbrev pub trimmed_peer : Raft ℕ
trimmed_peer = peer_with follower 3 (dummy 2 ∷ entry 2 60 ∷ entry 3 70 ∷ []) 5

-- What the leader sends to peer 1.
abbrev pub request : AppendEntriesArgs ℕ
request = record {
  term = 3;
  leader_id = 0;
  prev_log_index = 1;
  prev_log_term = 1;
  entries = entry 3 30 ∷ [];
  leader_commit = 0;
}

abbrev pub accepted : AppendEntriesReply
accepted = record { term = 2; success = true; conflict_index = 0; conflict_term = 0 }
