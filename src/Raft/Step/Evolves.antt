-- ===== src/Raft/Step/Evolves.antt =====
-- How the durable part of a peer (term, vote and log) may change, and what stays written.
use logic_raft.Base.{ℕ, ◌≤◌, ◌≡◌, ◌⊎◌, none, some, [], ◌∷◌, arith}
use logic_raft.Log.{dummy, invalid_term}
use logic_raft.Gob.{Gob}
use logic_raft.Raft.{Raft, Value, saved_term, saved_vote, saved_log}
use logic_raft.Raft.Roles.{become_follower_locked, become_candidate_locked}

module _ {C : Type 0} (g : Gob (Value C)) where
  -- Stable storage holds the term, the vote and the log.
  abbrev pub IsWritten : Raft C → Type 0
  IsWritten rf =
      rf.persister.raftstate
      ≡ g.write (saved_term rf.current_term ∷ saved_vote rf.voted_for ∷ saved_log rf.log ∷ [])

  -- Nothing is stored yet, and nothing has changed.
  pub record IsUntouched (rf : Raft C) : Type 0 where
    pub empty : rf.persister.raftstate ≡ []
    pub first_term : rf.current_term ≡ 1
    pub no_vote : rf.voted_for ≡ none
    pub no_log : rf.log ≡ record { records = dummy invalid_term ∷ []; base = 0 }

  abbrev pub IsDurable : Raft C → Type 0
  IsDurable rf = IsWritten rf ⊎ IsUntouched rf

  pub record Evolves (a b : Raft C) : Type 0 where
    pub durable : IsDurable a → IsDurable b
    pub term_grows : a.current_term ≤ b.current_term
    pub vote_kept :
        a.current_term ≡ b.current_term → (c : ℕ) → a.voted_for ≡ some c → b.voted_for ≡ some c

  pub Evolves-refl : (a : Raft C) → Evolves a a
  Evolves-refl a = record { durable = λ d. d; term_grows = omega arith; vote_kept = λ e c v. v }

  pub Evolves-trans : {a b c : Raft C} → Evolves a b → Evolves b c → Evolves a c
  Evolves-trans p q = record {
    durable = λ d. q.durable (p.durable d);
    term_grows = omega arith;
    vote_kept = λ e x v.
        q.vote_kept (omega (arith, p.term_grows, q.term_grows)) x
          (p.vote_kept (omega (arith, p.term_grows, q.term_grows)) x v);
  }

  pub become_follower-Evolves :
      (term : ℕ) (rf : Raft C) → Evolves rf (become_follower_locked g term rf)
  unfolding become_follower_locked
  become_follower-Evolves term rf = ground arith

  pub become_candidate-Evolves : (rf : Raft C) → Evolves rf (become_candidate_locked g rf)
  unfolding become_candidate_locked
  become_candidate-Evolves rf = ground arith
