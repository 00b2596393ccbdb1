-- ===== src/Raft/Step/Durable.antt =====
-- A restart brings back the term, the vote and the log: stable storage is never behind.
use logic_raft.Base.{ℕ, ◌≡◌, ◌≢◌, refl, inl, inr, Option, List, [], ◌∷◌, arith, false, length, ltb}
use logic_raft.Log.{Log}
use logic_raft.Gob.{Gob}
use logic_raft.Persister.{Bytes, make_persister}
use logic_raft.Raft.{Raft, Value, saved_term, saved_vote, saved_log, kill}
use logic_raft.Raft.Persistence.{read_persist}
use logic_raft.Raft.Peer.{fresh, make}
use logic_raft.Raft.Step.{
  Step, Steps, Reach, started, killed, election_ticked, vote_replied, vote_requested,
  replication_ticked, append_replied, entries_received, snapshot_taken, snapshot_replied,
  snapshot_received, applied, restarted, here, next,
}
use logic_raft.Raft.Step.Evolves.{IsDurable, Evolves, Evolves-refl, Evolves-trans}
use logic_raft.Raft.Step.Handlers

module _ {C : Type 0} (g : Gob (Value C)) where
  length-pos : (xs : Bytes) → xs ≢ [] → ltb (length xs) 1 ≡ false
  length-pos [] h = absurd (h refl)
  length-pos (x ∷ xs) h = ground arith

  -- Reading what has been written sets the three fields, and no other.
  read_persist-write :
      (t : ℕ) (v : Option ℕ) (log : Log C) (rf : Raft C)
      → read_persist g (g.write (saved_term t ∷ saved_vote v ∷ saved_log log ∷ [])) rf
        ≡ record rf { current_term = t; voted_for = v; log = log }
  unfolding read_persist
  read_persist-write t v log rf =
      let vs : List (Value C) = saved_term t ∷ saved_vote v ∷ saved_log log ∷ [] in
      rw (
        length-pos (g.write vs) (g.write_nonempty _ _),
        g.read_write vs 0,
        g.read_write vs 1,
        g.read_write vs 2,
      )

  pub make-durable :
      (peers me : ℕ) (rf : Raft C)
      → IsDurable g rf
      → let rf' : Raft C = make g peers me rf.persister in
        (rf'.persister ≡ rf.persister)
        × (rf'.current_term ≡ rf.current_term)
        × (rf'.voted_for ≡ rf.voted_for)
        × (rf'.log ≡ rf.log)
  unfolding make
  make-durable peers me rf (inl w) =
      ground (
        arith,
        read_persist-write rf.current_term rf.voted_for rf.log (fresh peers me rf.persister),
      )
  make-durable peers me rf (inr u) = ground arith

  make-Evolves :
      (peers me : ℕ) (rf : Raft C) → IsDurable g rf → Evolves g rf (make g peers me rf.persister)
  make-Evolves peers me rf d = ground (arith, make-durable peers me rf)

  pub Step-Evolves : {a b : Raft C} → IsDurable g a → Step g a b → Evolves g a b
  Step-Evolves {a} {b} d (started c e) = rw e (Handlers.start-Evolves g c a)
  Step-Evolves {a} {b} d (killed e) = unfold kill in ground arith
  Step-Evolves {a} {b} d (election_ticked clock e) = rw e (Handlers.election_tick-Evolves g clock a)
  Step-Evolves {a} {b} d (vote_replied t r v _ _ e) = Handlers.handle_vote_reply-Evolves g t r v a e
  Step-Evolves {a} {b} d (vote_requested clock args _ e) =
      Handlers.request_vote-Evolves g clock args a e
  Step-Evolves {a} {b} d (replication_ticked t _ e) = Handlers.replication_tick-Evolves g t a e
  Step-Evolves {a} {b} d (append_replied p args t r e) =
      Handlers.handle_append_reply-Evolves g p args t r a e
  Step-Evolves {a} {b} d (entries_received clock args _ e) =
      Handlers.append_entries-Evolves g clock args a e
  Step-Evolves {a} {b} d (snapshot_taken i s e) = Handlers.take_snapshot-Evolves g i s a e
  Step-Evolves {a} {b} d (snapshot_replied p args r e) =
      Handlers.handle_snapshot_reply-Evolves g p args r a e
  Step-Evolves {a} {b} d (snapshot_received args _ _ e) =
      Handlers.install_snapshot-Evolves g args a e
  Step-Evolves {a} {b} d (applied _ e) = Handlers.apply_step-Evolves g a e
  Step-Evolves {a} {b} d (restarted e) = rw e (make-Evolves a.peers a.me a d)

  pub Steps-Evolves : {a b : Raft C} → IsDurable g a → Steps g a b → Evolves g a b
  Steps-Evolves {a} d here = Evolves-refl g a
  Steps-Evolves d (next r s) =
      let before = Steps-Evolves d r in Evolves-trans g before (Step-Evolves (before.durable d) s)

  pub start-IsDurable : (peers me : ℕ) → IsDurable g (make g peers me make_persister)
  unfolding make make_persister
  start-IsDurable peers me = inr (ground arith)

  pub Reach-IsDurable : (peers me : ℕ) {rf : Raft C} → Reach g peers me rf → IsDurable g rf
  Reach-IsDurable peers me r =
      (Steps-Evolves (start-IsDurable peers me) r).durable (start-IsDurable peers me)

  -- Whatever a peer has done since it first started, crashes included, a restart from its storage
  -- has its term, its vote and its log.
  pub restart_recovers :
      (peers me : ℕ) (rf : Raft C)
      → Reach g peers me rf
      → let rf' : Raft C = make g rf.peers rf.me rf.persister in
        (rf'.current_term ≡ rf.current_term) × (rf'.voted_for ≡ rf.voted_for) × (rf'.log ≡ rf.log)
  restart_recovers peers me rf r =
      let (_, same_term, same_vote, same_log) =
        make-durable rf.peers rf.me rf (Reach-IsDurable peers me r) in
      (same_term, same_vote, same_log)
