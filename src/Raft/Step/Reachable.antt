-- ===== src/Raft/Step/Reachable.antt =====
-- What holds on every peer that can be reached, and the methods that never panic there.
use mathlib.Core.Path.{◌∙◌}
use native.Mathlib.Decide.{dec_lt}
use logic_raft.Raft.Election.Grant.{request_vote_exact}
use logic_raft.Raft.Snapshot.Install.{install_snapshot_ignored, install_snapshot-installed}
use logic_raft.Base.{
  sym, ℕ, ◌-◌, ◌≡◌, ◌≢◌, ◌<◌, ◌≤◌, ◌↔◌, inl, inr, Option, none, some, panic, arith, length,
  length-replicate, get_elem?-some, Result-cases,
}
use logic_raft.Log.{Log, last_log_term}
use logic_raft.Gob.{Gob}
use logic_raft.Persister.{Bytes, make_persister, read_raft_state}
use logic_raft.Raft.Persistence.{read_persist}
use logic_raft.Raft.{Raft, Value, Clock, kill}
use logic_raft.Raft.Peer.{fresh, make}
use logic_raft.Raft.Messages.{AppendEntriesArgs, InstallSnapshotArgs}
use logic_raft.Raft.Roles.Leader.{become_leader_exact}
use logic_raft.Raft.Election.{RequestVoteArgs, RequestVoteReply, request_vote, handle_vote_reply}
use logic_raft.Raft.Replication.{append_entries}
use logic_raft.Raft.Replication.Outcomes.{append_entries_panic}
use logic_raft.Raft.Snapshot.{install_snapshot}
use logic_raft.Raft.Step.{
  Step, Reach, started, killed, election_ticked, vote_replied, vote_requested, replication_ticked,
  append_replied, entries_received, snapshot_taken, snapshot_replied, snapshot_received, applied,
  restarted, here, next,
}
use logic_raft.Raft.Step.Evolves.{IsDurable}
use logic_raft.Raft.Step.Durable.{make-durable, Reach-IsDurable}
use logic_raft.Raft.Step.Shape
use logic_raft.Raft.Step.Shape.Replication
use logic_raft.Raft.Step.Shape.{HasShape, Keeps}

module _ {C : Type 0} (g : Gob (Value C)) where
  pub HasShape-Keeps : {a b : Raft C} → Keeps g a b → HasShape g a → HasShape g b
  HasShape-Keeps k s = record {
    next = omega (arith, k.next, k.peers, s.next);
    matched = omega (arith, k.matched, k.peers, s.matched);
    records = k.records s.records;
  }

  read_persist-indexes :
      (saved : Bytes) (rf : Raft C)
      → let rf' : Raft C = read_persist g saved rf in
        (rf'.peers ≡ rf.peers)
        × (rf'.me ≡ rf.me)
        × (rf'.next_index ≡ rf.next_index)
        × (rf'.match_index ≡ rf.match_index)
  unfolding read_persist
  read_persist-indexes saved rf = (ground arith, ground arith, ground arith, ground arith)

  make-indexes :
      (peers me : ℕ) (rf : Raft C)
      → let rf' : Raft C = make g peers me rf.persister in
        (rf'.peers ≡ peers)
        × (rf'.me ≡ me)
        × (length rf'.next_index ≡ peers)
        × (length rf'.match_index ≡ peers)
  unfolding make
  make-indexes peers me rf =
      let saved = read_raft_state rf.persister in
      let empty : Raft C = fresh peers me rf.persister in
      ground (
        arith,
        read_persist-indexes saved empty,
        length-replicate peers (let zero_index : ℕ = 0 in zero_index),
      )

  restarted-Keeps :
      (rf : Raft C)
      → IsDurable g rf
      → HasShape g rf
      → Keeps g rf (make g rf.peers rf.me rf.persister)
  restarted-Keeps rf d s =
      let (p, m, same_next, same_matched) = make-indexes rf.peers rf.me rf in
      let (_, _, _, same) = make-durable g rf.peers rf.me rf d in
      record {
        peers = p;
        me = m;
        next = same_next ∙ sym s.next;
        matched = same_matched ∙ sym s.matched;
        records = λ some_records. rw same some_records;
      }

  kill-Keeps : (rf : Raft C) → Keeps g rf (kill rf)
  unfolding kill
  kill-Keeps rf = ground arith

  pub Step-Keeps : {a b : Raft C} → IsDurable g a → Step g a b → HasShape g a → Keeps g a b
  Step-Keeps {a} d (started c e) s = rw e (Shape.start-Keeps g c a)
  Step-Keeps {a} d (killed e) s = rw e (kill-Keeps a)
  Step-Keeps {a} d (election_ticked clock e) s = rw e (Shape.election_tick-Keeps g clock a)
  Step-Keeps {a} d (vote_replied t r v _ _ e) s = Shape.handle_vote_reply-Keeps g t r v a e
  Step-Keeps {a} d (vote_requested clock args _ e) s = Shape.request_vote-Keeps g clock args a e
  Step-Keeps {a} d (replication_ticked t _ e) s = Replication.replication_tick-Keeps g t a e
  Step-Keeps {a} d (append_replied p args t r e) s =
      Replication.handle_append_reply-Keeps g p args t r a e
  Step-Keeps {a} d (entries_received clock args _ e) s =
      Replication.append_entries-Keeps g clock args a e
  Step-Keeps {a} d (snapshot_taken i b e) s = Shape.take_snapshot-Keeps g i b a e
  Step-Keeps {a} d (snapshot_replied p args r e) s =
      Shape.handle_snapshot_reply-Keeps g p args r a e
  Step-Keeps {a} d (snapshot_received args _ _ e) s = Shape.install_snapshot-Keeps g args a e
  Step-Keeps {a} d (applied _ e) s = Shape.apply_step-Keeps g a e
  Step-Keeps {a} d (restarted e) s = rw e (restarted-Keeps a d s)

  Step-HasShape : {a b : Raft C} → IsDurable g a → Step g a b → HasShape g a → HasShape g b
  Step-HasShape d step s = HasShape-Keeps (Step-Keeps d step s) s

  pub start-HasShape : (peers me : ℕ) → HasShape g (make g peers me make_persister)
  unfolding make make_persister
  start-HasShape peers me = record {
    next = length-replicate peers 0;
    matched = length-replicate peers 0;
    records = omega arith;
  }

  -- Every peer that can be reached has an index of each kind for every peer of the group, and a log
  -- with a record.
  pub Reach-HasShape : (peers me : ℕ) (rf : Raft C) → Reach g peers me rf → HasShape g rf
  Reach-HasShape peers me rf here = start-HasShape peers me
  Reach-HasShape peers me rf (next {a = a} r step) =
      Step-HasShape (Reach-IsDurable g peers me r) step (Reach-HasShape peers me a r)

  some_record : (log : Log C) → 0 < length log.records → last_log_term log ≢ panic
  unfolding last_log_term
  some_record log h e =
      let (r, at) = get_elem?-some log.records (length log.records - 1) (omega arith) in
      ground (arith, at)

  request_vote_total :
      (clock : Clock) (args : RequestVoteArgs) (rf : Raft C)
      → HasShape g rf
      → request_vote g clock args rf ≢ panic
  request_vote_total clock args rf s e = elim (Result-cases (last_log_term rf.log)) [
    | inl (t, at) ↦ let (_, _, runs, _) = request_vote_exact g clock args t rf at in cc
    | inr out ↦ absurd (some_record rf.log s.records out)
  ]

  install_snapshot_total :
      (args : InstallSnapshotArgs) (rf : Raft C) → install_snapshot g args rf ≢ panic
  install_snapshot_total args rf e = elim (dec_lt args.term rf.current_term) [
    | yes old ↦ cc ((install_snapshot_ignored g args rf (inl old)).1)
    | no current ↦ elim (dec_lt rf.log.base args.last_included_index) [
      | yes newer ↦ cc (install_snapshot-installed g args rf (omega arith) newer)
      | no known ↦ cc ((install_snapshot_ignored g args rf (inr (omega arith))).1)
    ]
  ]

  handle_vote_reply_total :
      (term votes : ℕ) (reply : Option RequestVoteReply) (rf : Raft C)
      → HasShape g rf
      → handle_vote_reply g term reply votes rf ≢ panic
  unfolding handle_vote_reply
  handle_vote_reply_total term votes none rf s e = cc
  handle_vote_reply_total term votes (some reply) rf s e =
      ground (arith, become_leader_exact rf s.next s.matched)

  -- On every peer that can be reached, the handlers of RequestVote and InstallSnapshot and the
  -- reply to a vote request never panic, whatever they are given; and AppendEntries panics exactly
  -- on a request that is not of an older term and whose index is below the base of the log.
  pub handlers_total :
      (peers me : ℕ) (rf : Raft C)
      → Reach g peers me rf
      → ((clock : Clock) (args : RequestVoteArgs) → request_vote g clock args rf ≢ panic)
        × ((args : InstallSnapshotArgs) → install_snapshot g args rf ≢ panic)
        × ((term votes : ℕ) (reply : Option RequestVoteReply)
            → handle_vote_reply g term reply votes rf ≢ panic)
        × ((clock : Clock) (args : AppendEntriesArgs C)
            → (append_entries g clock args rf ≡ panic)
              ↔ ((rf.current_term ≤ args.term) × (args.prev_log_index < rf.log.base)))
  handlers_total peers me rf r =
      let s = Reach-HasShape peers me rf r in
      (
        λ clock args. request_vote_total clock args rf s,
        λ args. install_snapshot_total args rf,
        λ term votes reply. handle_vote_reply_total term votes reply rf s,
        λ clock args. append_entries_panic g clock args rf s.records,
      )
