-- ===== src/Raft/Cluster/Roles.antt =====
-- Who is a leader after a step: only a count of votes makes one.
use logic_raft.Base.{
  ℕ, zero, suc, ◌+◌, ◌-◌, ◌/◌, ◌<◌, ◌≤◌, ◌≡◌, ◌⊎◌, inl, inr, sym, ap, ◌∙◌, ◌≢◌, Result-cases, false,
  Bool-cases, Option, none, some, List, ok, arith, put, >>=-eq-ok, ◌==◌,
}
use logic_raft.Gob.{Gob}
use logic_raft.Persister.{Bytes, Persister, read_raft_state}
use logic_raft.Log.{size}
use logic_raft.Raft.{Raft, Value, Clock, leader, follower, kill, ApplyMsg}
use logic_raft.Raft.Peer.{fresh, make, start}
use logic_raft.Raft.Persistence.{read_persist}
use logic_raft.Raft.Roles.{reset_indexes, become_leader_locked, become_follower_locked}
use logic_raft.Raft.Messages.{
  AppendEntriesArgs, AppendEntriesReply, InstallSnapshotArgs, InstallSnapshotReply, Outgoing,
}
use logic_raft.Raft.Election.{
  RequestVoteArgs, RequestVoteReply, election_tick, request_vote, handle_vote_reply,
}
use logic_raft.Raft.Replication.{
  replication_tick, replicate_from, message_for, handle_append_reply, append_entries,
  advance_commit,
}
use logic_raft.Raft.Snapshot.{take_snapshot, handle_snapshot_reply, install_snapshot}
use logic_raft.Raft.Application.{apply_step}
use logic_raft.Raft.Step.{
  Step, started, killed, election_ticked, vote_replied, vote_requested, replication_ticked,
  append_replied, entries_received, snapshot_taken, snapshot_replied, snapshot_received, applied,
  restarted,
}
use logic_raft.Raft.Cluster.{IsQuiet}

pub no_follower_leads : follower ≢ leader
no_follower_leads h = cc

module _ {C : Type 0} (g : Gob (Value C)) where
  -- If b is a leader, a was one, of the same term.
  abbrev pub Stays : Raft C → Raft C → Type 0
  Stays a b = b.role ≡ leader → (a.role ≡ leader) × (a.current_term ≡ b.current_term)

  start-Stays : (command : C) (a : Raft C) → Stays a (start g command a).1
  unfolding start
  start-Stays command a = ground arith

  kill-Stays : (a : Raft C) → Stays a (kill a)
  unfolding kill
  kill-Stays a = ground arith

  pub election_tick-Stays : (clock : Clock) (a : Raft C) → Stays a (election_tick g clock a).0
  unfolding election_tick
  election_tick-Stays clock a = ground arith

  become_follower-Stays : (term : ℕ) (a : Raft C) → Stays a (become_follower_locked g term a)
  unfolding become_follower_locked
  become_follower-Stays term a = ground arith

  pub request_vote-Stays :
      (clock : Clock) (args : RequestVoteArgs) (reply : RequestVoteReply) (a b : Raft C)
      → request_vote g clock args a ≡ ok (reply, b)
      → Stays a b
  unfolding request_vote
  request_vote-Stays clock args reply a b e = ground arith

  append_entries-Stays :
      (clock : Clock) (args : AppendEntriesArgs C) (reply : AppendEntriesReply) (a b : Raft C)
      → append_entries g clock args a ≡ ok (reply, b)
      → Stays a b
  unfolding append_entries
  append_entries-Stays clock args reply a b e = ground arith

  install_snapshot-Stays :
      (args : InstallSnapshotArgs) (reply : InstallSnapshotReply) (msg : Option (ApplyMsg C))
      (a b : Raft C)
      → install_snapshot g args a ≡ ok (reply, msg, b)
      → Stays a b
  unfolding install_snapshot
  install_snapshot-Stays args reply msg a b e = ground arith

  take_snapshot-Stays :
      (i : ℕ) (snapshot : Option Bytes) (a b : Raft C)
      → take_snapshot g i snapshot a ≡ ok b
      → Stays a b
  unfolding take_snapshot
  take_snapshot-Stays i snapshot a b e = ground arith

  handle_snapshot_reply-Stays :
      (peer : ℕ) (args : InstallSnapshotArgs) (reply : Option InstallSnapshotReply) (a b : Raft C)
      → handle_snapshot_reply g peer args reply a ≡ ok b
      → Stays a b
  unfolding handle_snapshot_reply
  handle_snapshot_reply-Stays peer args none a b e = ground arith
  handle_snapshot_reply-Stays peer args (some reply) a b e = ground arith

  apply_step-Stays :
      (msg : Option (ApplyMsg C)) (a b : Raft C) → apply_step a ≡ ok (msg, b) → Stays a b
  unfolding apply_step
  apply_step-Stays msg a b e = ground arith

  advance_commit-Stays : (a b : Raft C) → advance_commit a ≡ ok b → Stays a b
  unfolding advance_commit
  advance_commit-Stays a b e = ground arith

  handle_append_reply-Stays :
      (peer term : ℕ) (args : AppendEntriesArgs C) (reply : Option AppendEntriesReply)
      (a b : Raft C)
      → handle_append_reply g peer args term reply a ≡ ok b
      → Stays a b
  unfolding handle_append_reply
  handle_append_reply-Stays peer term args none a b e = ground arith
  handle_append_reply-Stays peer term args (some reply) a b e = ground arith

  replicate_from-SameRole :
      (left peer : ℕ) (a b : Raft C) (sent : List (ℕ × Outgoing C))
      → replicate_from left peer a ≡ ok (sent, b)
      → (b.role ≡ a.role) × (b.current_term ≡ a.current_term)
  unfolding replicate_from
  replicate_from-SameRole zero peer a b sent e = ground arith
  replicate_from-SameRole (suc left) peer a b sent e = elim (Bool-cases (peer == a.me)) [
    | inl own ↦
        let e₀ = rw own at e in
        let (matched, _, e₁) = >>=-eq-ok (put a.match_index peer (size a.log - 1)) _ e₀ in
        let (later, _, e₂) = >>=-eq-ok (put a.next_index peer (size a.log)) _ e₁ in
        let a₁ : Raft C = record a { match_index = matched; next_index = later } in
        replicate_from-SameRole left (suc peer) a₁ b sent e₂
    | inr other ↦
        let e₀ = rw other at e in
        let (m, _, e₁) = >>=-eq-ok (message_for peer a) _ e₀ in
        let ((rest, b₁), e₂, e₃) = >>=-eq-ok (replicate_from left (suc peer) a) _ e₁ in
        ground (arith, replicate_from-SameRole left (suc peer) a b₁ rest e₂)
  ]

  replication_tick-Stays :
      (term : ℕ) (sent : Option (List (ℕ × Outgoing C))) (a b : Raft C)
      → replication_tick term a ≡ ok (sent, b)
      → Stays a b
  unfolding replication_tick
  replication_tick-Stays term sent a b e = elim (Result-cases (replicate_from a.peers 0 a)) [
    | inl ((ms, b₁), f) ↦ ground (arith, replicate_from-SameRole a.peers 0 a b₁ ms f)
    | inr f ↦ ground arith
  ]

  read_persist-role : (saved : Bytes) (rf : Raft C) → (read_persist g saved rf).role ≡ rf.role
  unfolding read_persist
  read_persist-role saved rf = ground arith

  pub make-follower : (peers me : ℕ) (ps : Persister) → (make g peers me ps).role ≡ follower
  unfolding make
  make-follower peers me ps =
      ground (arith, read_persist-role (read_raft_state ps) (fresh peers me ps))

  pub Step-Stays : {a b : Raft C} (step : Step g a b) → IsQuiet step → Stays a b
  Step-Stays {a} {b} (started c e) q = rw e (start-Stays c a)
  Step-Stays {a} {b} (killed e) q = rw e (kill-Stays a)
  Step-Stays {a} {b} (election_ticked clock e) q = rw e (election_tick-Stays clock a)
  Step-Stays {a} {b} (vote_replied t none v v' l e) q = unfold handle_vote_reply in ground arith
  Step-Stays {a} {b} (vote_replied t (some r) v v' l e) q = elim q [ ]
  Step-Stays {a} {b} (vote_requested clock args r e) q = request_vote-Stays clock args r a b e
  Step-Stays {a} {b} (replication_ticked t sent e) q = replication_tick-Stays t sent a b e
  Step-Stays {a} {b} (append_replied p args t r e) q = handle_append_reply-Stays p t args r a b e
  Step-Stays {a} {b} (entries_received clock args r e) q = append_entries-Stays clock args r a b e
  Step-Stays {a} {b} (snapshot_taken i s e) q = take_snapshot-Stays i s a b e
  Step-Stays {a} {b} (snapshot_replied p args r e) q = handle_snapshot_reply-Stays p args r a b e
  Step-Stays {a} {b} (snapshot_received args r m e) q = install_snapshot-Stays args r m a b e
  Step-Stays {a} {b} (applied m e) q = apply_step-Stays m a b e
  Step-Stays {a} {b} (restarted e) q = λ leads.
      absurd
        (no_follower_leads (sym (ap Raft.role e ∙ make-follower a.peers a.me a.persister) ∙ leads))

  reset_indexes-SameTerm :
      (left peer : ℕ) (a b : Raft C)
      → reset_indexes left peer a ≡ ok b
      → b.current_term ≡ a.current_term
  unfolding reset_indexes
  reset_indexes-SameTerm zero peer a b e = ground arith
  reset_indexes-SameTerm (suc left) peer a b e =
      let (later, _, e₁) = >>=-eq-ok (put a.next_index peer (size a.log)) _ e in
      let (matched, _, e₂) = >>=-eq-ok (put a.match_index peer a.log.base) _ e₁ in
      let a₁ : Raft C = record a { next_index = later; match_index = matched } in
      reset_indexes-SameTerm left (suc peer) a₁ b e₂

  become_leader-SameTerm :
      (a b : Raft C) → become_leader_locked a ≡ ok b → b.current_term ≡ a.current_term
  unfolding become_leader_locked
  become_leader-SameTerm a b e =
      let led : Raft C = record a { role = leader } in
      ground (arith, reset_indexes-SameTerm a.peers 0 led b)

  -- Where the reply of an election makes a leader, the votes counted are more than half.
  pub vote_reply-Leads :
      (term votes votes' : ℕ) (reply : RequestVoteReply) (a b : Raft C) (loop : Option ℕ)
      → handle_vote_reply g term (some reply) votes a ≡ ok (votes', b, loop)
      → b.role ≡ leader
      → ((a.role ≡ leader) × (a.current_term ≡ b.current_term))
        ⊎ ((a.peers / 2 < votes') × (a.current_term ≡ b.current_term))
  unfolding handle_vote_reply
  vote_reply-Leads term votes votes' reply a b loop e leads =
      elim (Result-cases (become_leader_locked a)) [
        | inl (b₁, f) ↦ ground (arith, f, become_leader-SameTerm a b₁ f)
        | inr f ↦ ground (arith, f)
      ]

  pub vote_reply-votes :
      (term votes votes' : ℕ) (reply : RequestVoteReply) (a b : Raft C) (loop : Option ℕ)
      → handle_vote_reply g term (some reply) votes a ≡ ok (votes', b, loop)
      → (votes' ≤ votes + 1) × (reply.vote_granted ≡ false → votes' ≤ votes)
  unfolding handle_vote_reply
  vote_reply-votes term votes votes' reply a b loop e = (ground arith, λ no. ground arith)
