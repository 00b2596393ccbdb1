-- ===== src/Raft/Cluster/Invariant.antt =====
-- What holds of a group of peers after every step: who has voted for whom, and that a leader has
-- been voted for by more than half of the peers.
use mathlib.Core.Path.{◌∙◌}
use native.Mathlib.Decide.{ℕ_discrete}
use logic_raft.Base.{
  ℕ, ◌*◌, ◌<◌, ◌≤◌, ◌≡◌, ◌≢◌, sym, ap, subst, some, List, ◌∷◌, Memᴰ, All, All-imp, Distinct, arith,
  length,
}
use logic_raft.Gob.{Gob}
use logic_raft.Raft.{Raft, Value, leader}
use logic_raft.Raft.Step.Evolves.{IsDurable, Evolves}
use logic_raft.Raft.Step.Shape.{HasShape}
use logic_raft.Raft.Cluster.{Vote, Ballot, Cluster, update}

-- More than half of n peers have voted for the candidate in the term.
abbrev pub Backed : ℕ → List Vote → ℕ → ℕ → List ℕ → Type 0
Backed n votes c t voters =
    Distinct voters
    × All (λ v. (v < n) × Memᴰ (record { voter = v; candidate = c; term = t }) votes) voters

abbrev pub Elected : ℕ → List Vote → ℕ → ℕ → Type 0
Elected n votes c t = (voters : List ℕ) × (n < 2 * length voters) × Backed n votes c t voters

abbrev pub IsBallot : ℕ → List Vote → Ballot → Type 0
IsBallot n votes b =
    (b.candidate < n) × (b.votes ≤ length b.voters) × Backed n votes b.candidate b.term b.voters

module _ {C : Type 0} (g : Gob (Value C)) (n : ℕ) where
  -- The peer knows of its vote, if it is of the term that it is in.
  abbrev pub Known : Vote → Raft C → Type 0
  Known v rf =
      (v.term ≤ rf.current_term) × (v.term ≡ rf.current_term → rf.voted_for ≡ some v.candidate)

  pub record Member (i : ℕ) (rf : Raft C) : Type 0 where
    pub durable : IsDurable g rf
    pub shape : HasShape g rf
    pub peers : rf.peers ≡ n
    pub me : rf.me ≡ i

  pub record IsSafe (cl : Cluster C) : Type 0 where
    pub member : (i : ℕ) → i < n → Member i (cl.peer i)
    pub known : (v : Vote) → Memᴰ v cl.votes → (v.voter < n) × Known v (cl.peer v.voter)
    pub single :
        (v w : Vote)
        → Memᴰ v cl.votes
        → Memᴰ w cl.votes
        → v.voter ≡ w.voter
        → v.term ≡ w.term
        → v.candidate ≡ w.candidate
    pub ballots : (b : Ballot) → Memᴰ b cl.ballots → IsBallot n cl.votes b
    pub leads :
        (i : ℕ) → i < n → (cl.peer i).role ≡ leader → Elected n cl.votes i (cl.peer i).current_term

  pub update_same : (i : ℕ) (rf : Raft C) (peers : ℕ → Raft C) → update i rf peers i ≡ rf
  update_same i rf peers = ground arith

  update_other :
      (i j : ℕ) (rf : Raft C) (peers : ℕ → Raft C) → i ≢ j → update i rf peers j ≡ peers j
  update_other i j rf peers h = ground arith

  -- What holds of the new state and of every other peer holds of every peer.
  update_all :
      (P : ℕ → Raft C → Type 0) (i j : ℕ) (rf : Raft C) (peers : ℕ → Raft C)
      → P i rf
      → P j (peers j)
      → P j (update i rf peers j)
  update_all P i j rf peers p q = elim (ℕ_discrete i j) [
    | yes e ↦
        let here : P i (update i rf peers i) = subst (P i) (sym (update_same i rf peers)) p in
        subst (λ k. P k (update i rf peers k)) e here
    | no e ↦ subst (P j) (sym (update_other i j rf peers e)) q
  ]

  Known-Evolves : (v : Vote) (a b : Raft C) → Evolves g a b → Known v a → Known v b
  Known-Evolves v a b e (le, kept) = (
    omega (arith, e.term_grows),
    λ now.
        e.vote_kept (omega (arith, e.term_grows)) v.candidate (kept (omega (arith, e.term_grows))),
  )

  -- One peer moves on.
  pub moved-IsSafe :
      (i : ℕ) (rf : Raft C) (cl : Cluster C)
      → IsSafe cl
      → Evolves g (cl.peer i) rf
      → Member i rf
      → (rf.role ≡ leader → Elected n cl.votes i rf.current_term)
      → IsSafe (record cl { peer = update i rf cl.peer })
  moved-IsSafe i rf cl s evolves m led = record {
    member = λ j lt. update_all Member i j rf cl.peer m (s.member j lt);
    known = λ v mem.
        let (lt, k) = s.known v mem in
        (
          lt,
          elim (ℕ_discrete i v.voter) [
            | yes e ↦
                let before : Known v (cl.peer i) = subst (λ k. Known v (cl.peer k)) (sym e) k in
                let here = Known-Evolves v (cl.peer i) rf evolves before in
                subst (λ j. Known v (update i rf cl.peer j)) e
                  (subst (Known v) (sym (update_same i rf cl.peer)) here)
            | no e ↦ subst (Known v) (sym (update_other i v.voter rf cl.peer e)) k
          ],
        );
    single = s.single;
    ballots = s.ballots;
    leads = λ j lt.
        update_all (λ k r. r.role ≡ leader → Elected n cl.votes k r.current_term) i j rf cl.peer led
          (s.leads j lt);
  }

  Backed-more :
      (w : Vote) (votes : List Vote) (c t : ℕ) (voters : List ℕ)
      → Backed n votes c t voters
      → Backed n (w ∷ votes) c t voters
  Backed-more w votes c t voters (d, h) = (d, All-imp (λ v k. (k.0, Memᴰ.tail k.1)) voters h)

  -- A vote is noted that the peer knows of, and that is its only one in the term.
  pub noted-IsSafe :
      (w : Vote) (cl : Cluster C)
      → IsSafe cl
      → w.voter < n
      → Known w (cl.peer w.voter)
      → ((v : Vote)
          → Memᴰ v cl.votes
          → v.voter ≡ w.voter
          → v.term ≡ w.term
          → v.candidate ≡ w.candidate)
      → IsSafe (record cl { votes = w ∷ cl.votes })
  noted-IsSafe w cl s lt k only = record {
    member = s.member;
    known = known_now;
    single = single_now;
    ballots = λ b m.
        let (c, fits, backed) = s.ballots b m in
        (c, fits, Backed-more w cl.votes b.candidate b.term b.voters backed);
    leads = λ i i_lt role.
        let (voters, more, backed) = s.leads i i_lt role in
        (voters, more, Backed-more w cl.votes i (cl.peer i).current_term voters backed);
  }
    where
      known_now : (v : Vote) → Memᴰ v (w ∷ cl.votes) → (v.voter < n) × Known v (cl.peer v.voter)
      known_now v (Memᴰ.head e) =
          subst (λ (u : Vote). (u.voter < n) × Known u (cl.peer u.voter)) (sym e) (lt, k)
      known_now v (Memᴰ.tail m) = s.known v m

      single_now :
          (v u : Vote)
          → Memᴰ v (w ∷ cl.votes)
          → Memᴰ u (w ∷ cl.votes)
          → v.voter ≡ u.voter
          → v.term ≡ u.term
          → v.candidate ≡ u.candidate
      single_now v u (Memᴰ.head e) (Memᴰ.head f) a b = ap Vote.candidate (e ∙ sym f)
      single_now v u (Memᴰ.head e) (Memᴰ.tail m) a b =
          ap Vote.candidate e ∙ sym (only u m (sym a ∙ ap Vote.voter e) (sym b ∙ ap Vote.term e))
      single_now v u (Memᴰ.tail m) (Memᴰ.head f) a b =
          only v m (a ∙ ap Vote.voter f) (b ∙ ap Vote.term f) ∙ sym (ap Vote.candidate f)
      single_now v u (Memᴰ.tail m) (Memᴰ.tail m') a b = s.single v u m m' a b

  pub balloted-IsSafe :
      (b : Ballot) (cl : Cluster C)
      → IsSafe cl
      → IsBallot n cl.votes b
      → IsSafe (record cl { ballots = b ∷ cl.ballots })
  balloted-IsSafe b cl s ok_b = record {
    member = s.member;
    known = s.known;
    single = s.single;
    ballots = ballots_now;
    leads = s.leads;
  }
    where
      ballots_now : (b' : Ballot) → Memᴰ b' (b ∷ cl.ballots) → IsBallot n cl.votes b'
      ballots_now b' (Memᴰ.head e) = subst (IsBallot n cl.votes) (sym e) ok_b
      ballots_now b' (Memᴰ.tail m) = s.ballots b' m
