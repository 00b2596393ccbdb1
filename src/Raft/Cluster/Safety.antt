-- ===== src/Raft/Cluster/Safety.antt =====
-- Election safety: at most one leader in a term.
use logic_raft.Base.{ℕ, ◌<◌, ◌≡◌, refl, subst, All-Mem, All-imp, Distinct-meet, arith}
use logic_raft.Gob.{Gob}
use logic_raft.Raft.{Raft, Value, leader}
use logic_raft.Raft.Cluster.{Vote, Cluster, ClusterReach}
use logic_raft.Raft.Cluster.Invariant.{Elected, IsSafe}
use logic_raft.Raft.Cluster.Steps.{ClusterReach-IsSafe}

module _ {C : Type 0} (g : Gob (Value C)) (n : ℕ) where
  -- Two candidates that more than half of the peers have voted for in a term are one.
  Elected-unique :
      (cl : Cluster C) (i j t : ℕ)
      → IsSafe g n cl
      → Elected n cl.votes i t
      → Elected n cl.votes j t
      → i ≡ j
  Elected-unique cl i j t s (xs, more, (d, h)) (ys, more', (d', h')) =
      let (v, in_xs, in_ys) =
        Distinct-meet n xs ys d d' (All-imp (λ x k. k.0) xs h) (All-imp (λ x k. k.0) ys h')
          (omega arith) in
      let vote_of : ℕ → Vote = λ c. record { voter = v; candidate = c; term = t } in
      let for_i = All-Mem _ xs v h in_xs in
      let for_j = All-Mem _ ys v h' in_ys in
      s.single (vote_of i) (vote_of j) for_i.1 for_j.1 refl refl

  -- In a group of peers that began with empty storage there are never two leaders in a term:
  -- whatever requests the peers get, in any order of steps, with crashes and restarts. This is so
  -- where a granting reply is one to a vote that was granted, a candidate counts it once, and it
  -- takes in the replies of an election only while it is in the election's term.
  pub one_leader_per_term :
      (Counted : ℕ → Raft C → Type 0)
      → ((term : ℕ) (rf : Raft C) → Counted term rf → rf.current_term ≡ term)
      → (cl : Cluster C) (i j : ℕ) → ClusterReach g n Counted cl
      → i < n
      → j < n
      → (cl.peer i).role ≡ leader
      → (cl.peer j).role ≡ leader
      → (cl.peer i).current_term ≡ (cl.peer j).current_term
      → i ≡ j
  one_leader_per_term Counted fresh cl i j reach i_lt j_lt i_leads j_leads same =
      let s = ClusterReach-IsSafe g n Counted fresh reach in
      Elected-unique cl i j (cl.peer j).current_term s
        (subst (Elected n cl.votes i) same (s.leads i i_lt i_leads)) (s.leads j j_lt j_leads)
