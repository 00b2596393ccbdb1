-- ===== src/Raft/Step.antt =====
-- The steps of one peer: each method of raft.go and its parts run under the lock, in any order and
-- with any arguments, and a crash with a restart from stable storage.
pub mod Evolves
pub mod Handlers
pub mod Durable
pub mod Votes
pub mod Shape
pub mod Reachable
use logic_raft.Base.{ℕ, ◌≡◌, Option, List, Result, ok}
use logic_raft.Gob.{Gob}
use logic_raft.Persister.{Bytes, make_persister}
use logic_raft.Raft.{Raft, Value, Clock, ApplyMsg, kill}
use logic_raft.Raft.Peer.{make, start}
use logic_raft.Raft.Messages.{
  AppendEntriesArgs, AppendEntriesReply, InstallSnapshotArgs, InstallSnapshotReply, Outgoing,
}
use logic_raft.Raft.Election.{
  RequestVoteArgs, RequestVoteReply, election_tick, handle_vote_reply, request_vote,
}
use logic_raft.Raft.Replication.{replication_tick, handle_append_reply, append_entries}
use logic_raft.Raft.Snapshot.{take_snapshot, handle_snapshot_reply, install_snapshot}
use logic_raft.Raft.Application.{apply_step}

module _ {C : Type 0} where
  pub data Step (g : Gob (Value C)) (rf rf' : Raft C) : Type 0 where
    started : (command : C) → rf' ≡ (start g command rf).1 → Step g rf rf'
    killed : rf' ≡ kill rf → Step g rf rf'
    election_ticked : (clock : Clock) → rf' ≡ (election_tick g clock rf).0 → Step g rf rf'
    vote_replied :
        (term : ℕ) (reply : Option RequestVoteReply) (votes votes' : ℕ) (loop : Option ℕ)
        → handle_vote_reply g term reply votes rf ≡ ok (votes', rf', loop)
        → Step g rf rf'
    vote_requested :
        (clock : Clock) (args : RequestVoteArgs) (reply : RequestVoteReply)
        → request_vote g clock args rf ≡ ok (reply, rf')
        → Step g rf rf'
    replication_ticked :
        (term : ℕ) (sent : Option (List (ℕ × Outgoing C)))
        → replication_tick term rf ≡ ok (sent, rf')
        → Step g rf rf'
    append_replied :
        (peer : ℕ) (args : AppendEntriesArgs C) (term : ℕ) (reply : Option AppendEntriesReply)
        → handle_append_reply g peer args term reply rf ≡ ok rf'
        → Step g rf rf'
    entries_received :
        (clock : Clock) (args : AppendEntriesArgs C) (reply : AppendEntriesReply)
        → append_entries g clock args rf ≡ ok (reply, rf')
        → Step g rf rf'
    snapshot_taken :
        (index : ℕ) (snapshot : Option Bytes)
        → take_snapshot g index snapshot rf ≡ ok rf'
        → Step g rf rf'
    snapshot_replied :
        (peer : ℕ) (args : InstallSnapshotArgs) (reply : Option InstallSnapshotReply)
        → handle_snapshot_reply g peer args reply rf ≡ ok rf'
        → Step g rf rf'
    snapshot_received :
        (args : InstallSnapshotArgs) (reply : InstallSnapshotReply) (msg : Option (ApplyMsg C))
        → install_snapshot g args rf ≡ ok (reply, msg, rf')
        → Step g rf rf'
    applied : (msg : Option (ApplyMsg C)) → apply_step rf ≡ ok (msg, rf') → Step g rf rf'
    restarted : rf' ≡ make g rf.peers rf.me rf.persister → Step g rf rf'

  -- Any number of steps.
  pub data Steps (g : Gob (Value C)) (rf : Raft C) : Raft C → Type 0 where
    here : Steps g rf rf
    next : {a b : Raft C} → Steps g rf a → Step g a b → Steps g rf b

-- What a peer that began with empty storage can come to.
abbrev pub Reach : {C : Type 0} → Gob (Value C) → ℕ → ℕ → Raft C → Type 0
Reach g peers me rf = Steps g (make g peers me make_persister) rf
