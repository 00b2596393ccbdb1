-- ===== src/Raft/Cluster/Steps.antt =====
-- Every step of a group of peers keeps the invariant.
use mathlib.Core.Path.{◌∙◌}
use logic_raft.Base.{
  ℕ, ◌+◌, ◌/◌, ◌<◌, ◌≤◌, ◌≡◌, ◌⊎◌, inl, inr, refl, sym, ap, subst, Option, none, some, List, [],
  ◌∷◌, Memᴰ, ok, arith, length,
}
use logic_raft.Gob.{Gob}
use logic_raft.Persister.{make_persister}
use logic_raft.Raft.{Raft, Value, Clock, leader, candidate}
use logic_raft.Raft.Peer.{make}
use logic_raft.Raft.Election.{RequestVoteReply, election_tick, handle_vote_reply}
use logic_raft.Raft.Step.{Step, election_ticked, vote_requested, vote_replied}
use logic_raft.Raft.Step.Durable.{Step-Evolves, start-IsDurable}
use logic_raft.Raft.Step.Reachable.{Step-Keeps, HasShape-Keeps, start-HasShape}
use logic_raft.Raft.Step.Votes.{request_vote-granted}
use logic_raft.Raft.Cluster.{
  Vote, Ballot, Cluster, update, ClusterStep, ClusterReach, quiet, stood, voted, refused, counted,
  begun, next,
}
use logic_raft.Raft.Cluster.Roles.{
  Step-Stays, request_vote-Stays, election_tick-Stays, vote_reply-Leads, vote_reply-votes,
  make-follower, no_follower_leads,
}
use logic_raft.Raft.Cluster.Invariant.{
  Backed, Elected, Known, Member, IsSafe, update_same, moved-IsSafe, noted-IsSafe, balloted-IsSafe,
}

module _ {C : Type 0} (g : Gob (Value C)) (n : ℕ) where
  Member-Step : (i : ℕ) {a b : Raft C} → Step g a b → Member g n i a → Member g n i b
  Member-Step i {a} {b} step m =
      let evolves = Step-Evolves g m.durable step in
      let keeps = Step-Keeps g m.durable step m.shape in
      record {
        durable = evolves.durable m.durable;
        shape = HasShape-Keeps g keeps m.shape;
        peers = keeps.peers ∙ m.peers;
        me = keeps.me ∙ m.me;
      }

  stepped-IsSafe :
      (i : ℕ) (rf : Raft C) (cl : Cluster C)
      → IsSafe g n cl
      → i < n
      → Step g (cl.peer i) rf
      → (rf.role ≡ leader → Elected n cl.votes i rf.current_term)
      → IsSafe g n (record cl { peer = update i rf cl.peer })
  stepped-IsSafe i rf cl s lt step led =
      let m = s.member i lt in
      moved-IsSafe g n i rf cl s (Step-Evolves g m.durable step) (Member-Step i step m) led

  -- A leader that stays one stays elected.
  still_led :
      (i : ℕ) (rf : Raft C) (cl : Cluster C)
      → IsSafe g n cl
      → i < n
      → (rf.role ≡ leader
          → ((cl.peer i).role ≡ leader) × ((cl.peer i).current_term ≡ rf.current_term))
      → rf.role ≡ leader
      → Elected n cl.votes i rf.current_term
  still_led i rf cl s lt stays leads =
      let (before, same) = stays leads in subst (Elected n cl.votes i) same (s.leads i lt before)

  ballot_elects :
      (votes : List Vote) (b : Ballot) (k : ℕ)
      → Backed n votes b.candidate b.term b.voters
      → k ≤ length b.voters
      → n / 2 < k
      → Elected n votes b.candidate b.term
  ballot_elects votes b k backed fits more = (b.voters, omega arith, backed)

  election_tick-stood :
      (clock : Clock) (a b : Raft C) (t : ℕ)
      → election_tick g clock a ≡ (b, some t)
      → (t ≡ a.current_term + 1)
        × (b.current_term ≡ t)
        × (b.voted_for ≡ some a.me)
        × (b.role ≡ candidate)
  unfolding election_tick
  election_tick-stood clock a b t e = ground arith

  start-IsSafe :
      IsSafe g n (record { peer = λ i. make g n i make_persister; votes = []; ballots = [] })
  start-IsSafe = record {
    member = λ i lt. record {
      durable = start-IsDurable g n i;
      shape = start-HasShape g n i;
      peers = unfold make in unfold make_persister in ground arith;
      me = unfold make in unfold make_persister in ground arith;
    };
    known = λ v m. elim m [ ];
    single = λ v w m m'. elim m [ ];
    ballots = λ b m. elim m [ ];
    leads =
        λ i lt leads. absurd (no_follower_leads (sym (make-follower g n i make_persister) ∙ leads));
  }

  -- A vote is noted by a peer that has just given it, and had none in its term.
  vote_noted :
      (i c t : ℕ) (rf : Raft C) (cl : Cluster C)
      → IsSafe g n cl
      → i < n
      → IsSafe g n (record cl { peer = update i rf cl.peer })
      → rf.current_term ≡ t
      → rf.voted_for ≡ some c
      → ((cl.peer i).current_term < t)
        ⊎ (((cl.peer i).current_term ≡ t) × ((cl.peer i).voted_for ≡ none))
      → IsSafe g n (record {
        peer = update i rf cl.peer;
        votes = record { voter = i; candidate = c; term = t } ∷ cl.votes;
        ballots = cl.ballots;
      })
  vote_noted i c t rf cl s lt moved term_is vote_is new =
      let w : Vote = record { voter = i; candidate = c; term = t } in
      let knows : Known g n w rf = (omega (arith, term_is), λ _. vote_is) in
      noted-IsSafe g n w (record cl { peer = update i rf cl.peer }) moved lt
        (subst (Known g n w) (sym (update_same g n i rf cl.peer)) knows)
        (λ v m same_voter same_term.
          let (_, k) = s.known v m in
          let before : Known g n v (cl.peer i) =
            subst (λ j. Known g n v (cl.peer j)) same_voter k in
          ground (arith, before, new, same_term))

  replied-IsSafe :
      (b : Ballot) (votes : ℕ) (reply : RequestVoteReply) (rf : Raft C) (loop : Option ℕ)
      (cl : Cluster C) (voters : List ℕ)
      → IsSafe g n cl
      → b.candidate < n
      → (cl.peer b.candidate).current_term ≡ b.term
      → handle_vote_reply g b.term (some reply) b.votes (cl.peer b.candidate) ≡ ok (votes, rf, loop)
      → Backed n cl.votes b.candidate b.term voters
      → votes ≤ length voters
      → IsSafe g n (record cl { peer = update b.candidate rf cl.peer })
  replied-IsSafe b votes reply rf loop cl voters s lt fresh e backed fits =
      let i = b.candidate in
      let a = cl.peer i in
      let m = s.member i lt in
      stepped-IsSafe i rf cl s lt (vote_replied b.term (some reply) b.votes votes loop e) (λ leads.
        elim (vote_reply-Leads g b.term b.votes votes reply a rf loop e leads) [
          | inl (before, same) ↦ subst (Elected n cl.votes i) same (s.leads i lt before)
          | inr (more, same) ↦
              subst (Elected n cl.votes i) (sym fresh ∙ same)
                (voters, omega (arith, more, m.peers, fits), backed)
        ])

  module _ (Counted : ℕ → Raft C → Type 0)
      (fresh : (term : ℕ) (rf : Raft C) → Counted term rf → rf.current_term ≡ term) where
    ClusterStep-IsSafe :
        {cl cl' : Cluster C} → ClusterStep g n Counted cl cl' → IsSafe g n cl → IsSafe g n cl'
    ClusterStep-IsSafe {cl} (quiet i rf step lt q) s =
        stepped-IsSafe i rf cl s lt step (still_led i rf cl s lt (Step-Stays g step q))
    ClusterStep-IsSafe {cl} (stood i clock rf t lt e) s =
        let (t_is, term_is, vote_is, _) = election_tick-stood clock (cl.peer i) rf t e in
        let m = s.member i lt in
        let rf_is : rf ≡ (election_tick g clock (cl.peer i)).0 =
          sym (ap (λ (r : Raft C × Option ℕ). r.0) e) in
        let stays =
          subst
            (λ b.
              b.role ≡ leader
              → ((cl.peer i).role ≡ leader) × ((cl.peer i).current_term ≡ b.current_term))
            (sym rf_is) (election_tick-Stays g clock (cl.peer i)) in
        let moved =
          stepped-IsSafe i rf cl s lt (election_ticked clock rf_is)
            (still_led i rf cl s lt stays) in
        let vote_is' : rf.voted_for ≡ some i = vote_is ∙ ap some m.me in
        let noted =
          vote_noted i i t rf cl s lt moved term_is vote_is' (inl (omega (arith, t_is))) in
        balloted-IsSafe g n (record { candidate = i; term = t; votes = 1; voters = i ∷ [] }) _ noted
          (lt, omega arith, ((tt, tt), ((lt, Memᴰ.head refl), tt)))
    ClusterStep-IsSafe {cl} (voted i clock args reply rf lt e granted) s =
        let (new, term_is, vote_is) = request_vote-granted g clock args (cl.peer i) e granted in
        let moved =
          stepped-IsSafe i rf cl s lt (vote_requested clock args reply e)
            (still_led i rf cl s lt (request_vote-Stays g clock args reply (cl.peer i) rf e)) in
        vote_noted i args.candidate_id args.term rf cl s lt moved term_is vote_is new
    ClusterStep-IsSafe {cl} (refused b votes reply rf loop m denied c e) s =
        let (lt, fits, backed) = s.ballots b m in
        let (_, kept) =
          vote_reply-votes g b.term b.votes votes reply (cl.peer b.candidate) rf loop e in
        replied-IsSafe b votes reply rf loop cl b.voters s lt (fresh b.term (cl.peer b.candidate) c)
          e backed (omega (arith, kept denied))
    ClusterStep-IsSafe {cl} (counted b v votes reply rf loop m v_lt apart given yes_vote c e) s =
        let (lt, fits, (d, backed)) = s.ballots b m in
        let (more, _) =
          vote_reply-votes g b.term b.votes votes reply (cl.peer b.candidate) rf loop e in
        let backed' : Backed n cl.votes b.candidate b.term (v ∷ b.voters) =
          ((apart, d), ((v_lt, given), backed)) in
        let moved =
          replied-IsSafe b votes reply rf loop cl (v ∷ b.voters) s lt
            (fresh b.term (cl.peer b.candidate) c) e backed' (omega (arith, more)) in
        balloted-IsSafe g n (record b { votes = votes; voters = v ∷ b.voters }) _ moved
          (lt, omega (arith, more), backed')

    pub ClusterReach-IsSafe : {cl : Cluster C} → ClusterReach g n Counted cl → IsSafe g n cl
    ClusterReach-IsSafe begun = start-IsSafe
    ClusterReach-IsSafe (next r step) = ClusterStep-IsSafe step (ClusterReach-IsSafe r)
