-- ===== src/Tests/Replication.antt =====
-- Replication: requests, replies, the commit index and the majority.
use logic_raft.Base.{
  ℕ, ◌+◌, ◌*◌, ◌≡◌, ◌<◌, ◌≤◌, ◌⊎◌, ◌↔◌, refl, false, none, some, [], ok, panic, arith, length,
}
use logic_raft.Log.{LogRecord, get, size, first_log_for}
use logic_raft.Log.Terms.{first_log_for_exact}
use logic_raft.Raft.{Raft, leader, candidate, killed}
use logic_raft.Raft.Election.{election_tick}
use logic_raft.Raft.Election.Timer.{heartbeat_holds_election}
use logic_raft.Raft.Messages.{AppendEntriesArgs, AppendEntriesReply, append_entries_rpc}
use logic_raft.Raft.Majority.{get_majority_index_locked, sort_ints}
use logic_raft.Raft.Majority.Exact.{majority_exact, count_ge}
use logic_raft.Raft.Replication.{message_for, append_entries, handle_append_reply}
use logic_raft.Raft.Replication.Accept.{append_entries_copies}
use logic_raft.Raft.Replication.Outcomes.{append_entries-Checked, append_entries_panic}
use logic_raft.Raft.Replication.Transfer.{accepted_log_is_leaders}
use logic_raft.Raft.Replication.Commit.{handle_append_reply-Commits, Commits}
use logic_raft.Tests.Codec.{codec}
use logic_raft.Tests.States.{
  clock, state_of, state_or, leading, trailing, trimmed_peer, request, accepted,
}

abbrev followed : Raft ℕ
followed = state_of trailing (append_entries codec clock request trailing)

sent : message_for 1 leading ≡ ok (append_entries_rpc request)
unfolding message_for
sent = refl

received : append_entries codec clock request trailing ≡ ok (accepted, followed)
unfolding append_entries codec
received = refl

accepted_log_is_leaders_example : size followed.log ≡ size leading.log
accepted_log_is_leaders_example =
    (accepted_log_is_leaders codec clock 1 leading trailing followed request accepted sent received
      refl).1

append_entries_copies_example : size followed.log ≡ 1 + 1 + 1
append_entries_copies_example =
    (append_entries_copies codec clock request trailing accepted followed received refl).3

append_entries-Checked_example : accepted.term ≡ 2
append_entries-Checked_example =
    (append_entries-Checked codec clock request trailing accepted followed received).old_term

-- The reply of the second of three peers commits the record of the leader's term.
abbrev committed : Raft ℕ
committed = state_or leading (handle_append_reply codec 1 request 3 (some accepted) leading)

replied : handle_append_reply codec 1 request 3 (some accepted) leading ≡ ok committed
unfolding handle_append_reply sort_ints codec
replied = refl

commits : committed.commit_index ≡ 2
unfolding handle_append_reply sort_ints codec
commits = refl

handle_append_reply-Commits_example :
    (committed.commit_index ≡ leading.commit_index)
    ⊎ (Commits leading committed × (leading.role ≡ leader) × (leading.current_term ≡ 3))
handle_append_reply-Commits_example =
    handle_append_reply-Commits codec 1 request 3 (some accepted) leading committed (omega arith)
      replied

majority_exact_example :
    (m : ℕ) × (get_majority_index_locked leading ≡ ok m)
    × (length leading.match_index < 2 * count_ge m leading.match_index)
    × ((v : ℕ) → m < v → 2 * count_ge v leading.match_index ≤ length leading.match_index)
majority_exact_example = majority_exact leading (omega arith)

append_entries_panic_example : (append_entries codec clock request trimmed_peer ≡ panic) ↔ (
    (trimmed_peer.current_term ≤ request.term) × (request.prev_log_index < trimmed_peer.log.base))
append_entries_panic_example = append_entries_panic codec clock request trimmed_peer (omega arith)

-- The third peer is believed to have the whole log, and has a record of another term.
abbrev probe : AppendEntriesArgs ℕ
probe = record request { prev_log_index = 2; prev_log_term = 3; entries = [] }

abbrev refused : AppendEntriesReply
refused = record { term = 2; success = false; conflict_index = 2; conflict_term = 2 }

abbrev unchanged : Raft ℕ
unchanged = state_of trailing (append_entries codec clock probe trailing)

found : 0 < first_log_for trailing.log 2
unfolding first_log_for
found = omega arith

first_log_for_exact_example :
    (r : LogRecord ℕ) × (get trailing.log (0 + first_log_for trailing.log 2) ≡ ok r) × (r.term ≡ 2)
first_log_for_exact_example =
    (first_log_for_exact trailing.log 2 (omega arith, (omega arith, (omega arith, tt)))).0 found

heartbeat_holds_election_example :
    (1_200_000_000 ≤ 1_000_000_000 + 250_000_000
      → election_tick codec (record { now = 1_200_000_000; rand = 3 }) followed ≡ (followed, none))
    × (killed followed ≡ false
        → 1_000_000_000 + 400_000_000 ≤ 1_200_000_000
        → ((election_tick codec (record { now = 1_200_000_000; rand = 3 }) followed).1 ≡ some 4)
          × ((election_tick codec (record { now = 1_200_000_000; rand = 3 }) followed).0.role
              ≡ candidate)
          × ((election_tick codec (record { now = 1_200_000_000; rand = 3 }) followed).0.voted_for
              ≡ some followed.me))
heartbeat_holds_election_example =
    heartbeat_holds_election codec clock (record { now = 1_200_000_000; rand = 3 }) request trailing
      followed accepted received (omega arith)
