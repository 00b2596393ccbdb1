-- ===== src/Raft/Replication/Commit.antt =====
-- When the commit index of a leader moves.
use logic_raft.Base.{
  ℕ, ◌+◌, ◌*◌, ◌<◌, ◌≡◌, ◌⊎◌, Option, none, some, ok, arith, length, >>=-eq-ok, Bool-cases, inl,
  inr, Result-cases, put, put-set, ltb, subst, ◌==◌,
}
use logic_raft.Log.{LogRecord, get}
use logic_raft.Gob.{Gob}
use logic_raft.Raft.{Raft, Value, leader, signal}
use logic_raft.Raft.Election.{context_lost_locked}
use logic_raft.Raft.Majority.Exact.{count_ge, majority_exact}
use logic_raft.Raft.Messages.{AppendEntriesArgs, AppendEntriesReply}
use logic_raft.Raft.Replication.{advance_commit, handle_append_reply}

module _ {C : Type 0} where
  -- The rule of the Raft paper for a new commit index: a greater one that more than half of the
  -- peers match, at which the leader's record is of its own term.
  pub record Commits (rf rf' : Raft C) : Type 0 where
    pub grows : rf.commit_index < rf'.commit_index
    pub majority : length rf'.match_index < 2 * count_ge rf'.commit_index rf'.match_index
    pub committed : LogRecord C
    pub at : get rf'.log rf'.commit_index ≡ ok committed
    pub own_term : committed.term ≡ rf'.current_term

  advance_commit-Commits :
      (rf rf' : Raft C)
      → 0 < length rf.match_index
      → advance_commit rf ≡ ok rf'
      → (rf'.commit_index ≡ rf.commit_index) ⊎ Commits rf rf'
  unfolding advance_commit
  advance_commit-Commits rf rf' pos h =
      let (m, e, more, _) = majority_exact rf pos in
      elim (Bool-cases (ltb rf.commit_index m)) [
        | inr small ↦ inl (ground (arith, e, small))
        | inl great ↦ elim (Result-cases (get rf.log m)) [
          | inr out ↦ cc (rw (e, great, out) at h)
          | inl (r, at) ↦ elim (Bool-cases (r.term == rf.current_term)) [
            | inr other ↦ inl (ground (arith, e, great, at, other))
            | inl own ↦
                let same : signal (record rf { commit_index = m }) ≡ rf' =
                  ground (arith, e, great, at, own) in
                subst (λ b. (b.commit_index ≡ rf.commit_index) ⊎ Commits rf b) same
                  (inr (record {
                    grows = ground (arith, great);
                    majority = more;
                    committed = r;
                    at = at;
                    own_term = ground (arith, own);
                  }))
          ]
        ]
      ]

  -- With at least one peer, the reply to a replication request moves the commit index of a peer
  -- only forward, and only to an index that more than half of the peers match, with a record of the
  -- current term there, as a leader of the term in which the request was sent.
  pub handle_append_reply-Commits :
      (g : Gob (Value C)) (peer : ℕ) (args : AppendEntriesArgs C) (term : ℕ)
      (reply : Option AppendEntriesReply) (rf rf' : Raft C)
      → 0 < length rf.match_index
      → handle_append_reply g peer args term reply rf ≡ ok rf'
      → (rf'.commit_index ≡ rf.commit_index)
        ⊎ (Commits rf rf' × (rf.role ≡ leader) × (rf.current_term ≡ term))
  unfolding handle_append_reply
  handle_append_reply-Commits g peer args term none rf rf' pos h = inl (ground arith)
  handle_append_reply-Commits g peer args term (some reply) rf rf' pos h =
      elim (Bool-cases (ltb rf.current_term reply.term)) [
        | inl newer ↦ inl (ground (arith, newer))
        | inr current ↦ elim (Bool-cases (context_lost_locked leader term rf)) [
          | inl lost ↦ inl (ground (arith, current, lost))
          | inr kept ↦ elim (Bool-cases reply.success) [
            | inr failed ↦ inl (ground (arith, current, kept, failed))
            | inl good ↦
                let i = args.prev_log_index + length args.entries in
                let h₀ = rw (current, kept, good) at h in
                let (matched, e₁, h₁) = >>=-eq-ok (put rf.match_index peer i) _ h₀ in
                let (next, _, h₂) = >>=-eq-ok (put rf.next_index peer (i + 1)) _ h₁ in
                let rf₁ : Raft C = record rf { match_index = matched; next_index = next } in
                let (_, _, same) = put-set rf.match_index peer i e₁ in
                elim (advance_commit-Commits rf₁ rf' (omega arith) h₂) [
                  | inl e ↦ inl e
                  | inr c ↦ inr (
                    record {
                      grows = c.grows;
                      majority = c.majority;
                      committed = c.committed;
                      at = c.at;
                      own_term = c.own_term;
                    },
                    ground (arith, kept),
                    ground (arith, kept),
                  )
                ]
          ]
        ]
      ]
