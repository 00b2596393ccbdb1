-- ===== src/Raft/Election/Timer.antt =====
-- How long a message of the leader keeps a peer from an election.
use mathlib.Core.Path.{◌∙◌}
use logic_raft.Base.{ℕ, ◌+◌, ◌<◌, ◌≤◌, ◌≡◌, ap, false, none, some, ok, arith}
use logic_raft.Gob.{Gob}
use logic_raft.Raft.{Raft, Value, Clock, candidate, follower, killed}
use logic_raft.Raft.Messages.{AppendEntriesArgs, AppendEntriesReply}
use logic_raft.Raft.Election.{election_tick}
use logic_raft.Raft.Replication.{append_entries}

module _ {C : Type 0} (g : Gob (Value C)) where
  -- A timer that was set at `now`.
  record Timed (now : ℕ) (rf : Raft C) : Type 0 where
    from : rf.election_start ≡ now
    at_least : 250_000_000 ≤ rf.election_timeout
    below : rf.election_timeout < 400_000_000

  append_entries-Timed :
      (clock : Clock) (args : AppendEntriesArgs C) (rf rf' : Raft C) (reply : AppendEntriesReply)
      → append_entries g clock args rf ≡ ok (reply, rf')
      → rf.current_term ≤ args.term
      → Timed clock.now rf' × (rf'.role ≡ follower) × (rf'.current_term ≡ args.term)
  unfolding append_entries
  append_entries-Timed clock args rf rf' reply e current = ground arith

  tick_early :
      (clock : Clock) (now : ℕ) (rf : Raft C)
      → Timed now rf
      → clock.now ≤ now + 250_000_000
      → election_tick g clock rf ≡ (rf, none)
  unfolding election_tick
  tick_early clock now rf t early = ground (arith, t.from, t.at_least)

  tick_late :
      (clock : Clock) (now : ℕ) (rf : Raft C)
      → Timed now rf
      → rf.role ≡ follower
      → killed rf ≡ false
      → now + 400_000_000 ≤ clock.now
      → ((election_tick g clock rf).1 ≡ some (rf.current_term + 1))
        × ((election_tick g clock rf).0.role ≡ candidate)
        × ((election_tick g clock rf).0.voted_for ≡ some rf.me)
  unfolding election_tick
  tick_late clock now rf t role alive late = ground (arith, t.from, t.below)

  -- A request of the leader that is not of an older term holds off the peer's next election for
  -- 250 ms, whatever the peer answers; and 400 ms after it, if the peer is running and nothing has
  -- happened since, the election loop starts an election in the term after the request's, with the
  -- peer's vote for itself.
  pub heartbeat_holds_election :
      (clock clock' : Clock) (args : AppendEntriesArgs C) (rf rf' : Raft C)
      (reply : AppendEntriesReply)
      → append_entries g clock args rf ≡ ok (reply, rf')
      → rf.current_term ≤ args.term
      → (clock'.now ≤ clock.now + 250_000_000 → election_tick g clock' rf' ≡ (rf', none))
        × (killed rf' ≡ false
            → clock.now + 400_000_000 ≤ clock'.now
            → ((election_tick g clock' rf').1 ≡ some (args.term + 1))
              × ((election_tick g clock' rf').0.role ≡ candidate)
              × ((election_tick g clock' rf').0.voted_for ≡ some rf'.me))
  heartbeat_holds_election clock clock' args rf rf' reply e current =
      let (timed, role, term_is) = append_entries-Timed clock args rf rf' reply e current in
      (
        tick_early clock' clock.now rf' timed,
        λ alive late.
            let (starts, became, voted) = tick_late clock' clock.now rf' timed role alive late in
            (starts ∙ ap (λ t. some (t + 1)) term_is, became, voted),
      )
