-- ===== src/Kv/Clerk/Rotation.antt =====
-- The client's loop ends: it comes round to a server that answers.
use mathlib.Core.Path.{◌∙◌}
use native.Mathlib.Nat.{add-mod_right, mod-add-mod, mod-lt, mod-eq_of_lt}
use native.Mathlib.Decide.{dec_lt}
use logic_raft.Base.{
  subst, ◌⊎◌, ℕ, zero, suc, ◌+◌, ◌-◌, ◌%◌, ◌<◌, ◌≡◌, refl, sym, ap, false, Option, some, arith,
  Option-cases, Bool-cases, inl, inr,
}
use logic_raft.Kv.{Err}
use logic_raft.Kv.Clerk.{Clerk, is_retry, next_server, call_loop}

mod-add_self : (n k : ℕ) → n < k → (n + k) % k ≡ n
mod-add_self n k h = add-mod_right n k ∙ mod-eq_of_lt h

-- From any server the loop reaches a given one in fewer rounds than there are servers.
distance :
    (leader server servers : ℕ)
    → leader < servers
    → server < servers
    → (d : ℕ) × (d < servers) × ((leader + d) % servers ≡ server)
distance leader server servers h k = elim (dec_lt server leader) [
  | yes behind ↦ (
    server + servers - leader,
    omega arith,
    ap (λ m. m % servers) (omega arith) ∙ mod-add_self server servers k,
  )
  | no ahead ↦ (server - leader, omega arith, ap (λ m. m % servers) (omega arith) ∙ mod-eq_of_lt k)
]

module _ {R : Type 0} (err : R → Err) (call : ℕ → ℕ → Option R) where
  -- A reply that ends the loop.
  abbrev pub Final : ℕ → ℕ → Type 0
  Final n server = (r : R) × (call n server ≡ some r) × (is_retry (err r) ≡ false)

  step_cases :
      (fuel n : ℕ) (ck : Clerk)
      → ((r : R) × (call_loop err call (suc fuel) n ck ≡ some (r, ck))
          × (call n ck.leader_id ≡ some r)
          × (is_retry (err r) ≡ false))
        ⊎ ((call_loop err call (suc fuel) n ck ≡ call_loop err call fuel (suc n) (next_server ck))
            × ¬ Final n ck.leader_id)
  unfolding call_loop
  step_cases fuel n ck = elim (Option-cases (call n ck.leader_id)) [
    | inl lost ↦ inr (rw (lost, call_loop), λ f. cc (lost, f.1))
    | inr (r, e) ↦ elim (Bool-cases (is_retry (err r))) [
      | inl again ↦ inr (rw (e, again, call_loop), λ f. ground (arith, e, again, f.1, f.2))
      | inr done ↦ inl (r, rw (e, done, call_loop), e, done)
    ]
  ]

  -- What the loop comes back with: a reply that ends it, from the server that the client now holds
  -- to be the leader; the ids of the client are as before.
  abbrev pub Answered : Clerk → R → Clerk → Type 0
  Answered ck reply ck' =
      ((m : ℕ) × (call m ck'.leader_id ≡ some reply))
      × (is_retry (err reply) ≡ false)
      × (ck'.leader_id < ck.servers)
      × (ck'.seq_id ≡ ck.seq_id)
      × (ck'.client_id ≡ ck.client_id)

  loop_returns :
      (d fuel n server : ℕ) (ck : Clerk)
      → ck.leader_id < ck.servers
      → (ck.leader_id + d) % ck.servers ≡ server
      → d < fuel
      → ((m : ℕ) → Final m server)
      → (reply : R) × (ck' : Clerk) × (call_loop err call fuel n ck ≡ some (reply, ck'))
        × Answered ck reply ck'
  unfolding next_server
  loop_returns d zero n server ck low at enough final = absurd (omega arith)
  loop_returns zero (suc fuel) n server ck low at enough final = elim (step_cases fuel n ck) [
    | inl (r, e, c, done) ↦ (r, ck, e, ((n, c), done, low, refl, refl))
    | inr (_, not_final) ↦
        let here : server ≡ ck.leader_id =
          sym at ∙ ap (λ k. k % ck.servers) (omega arith) ∙ mod-eq_of_lt low in
        absurd (not_final (subst (λ k. Final n k) here (final n)))
  ]
  loop_returns (suc d) (suc fuel) n server ck low at enough final = elim (step_cases fuel n ck) [
    | inl (r, e, c, done) ↦ (r, ck, e, ((n, c), done, low, refl, refl))
    | inr (e, _) ↦
        let l = ck.leader_id in
        let moved : ((l + 1) % ck.servers + d) % ck.servers ≡ server =
          mod-add-mod (l + 1) ck.servers d ∙ ap (λ k. k % ck.servers) (omega arith) ∙ at in
        let (r, ck', e', answered) =
          loop_returns d fuel (suc n) server (next_server ck) (mod-lt (l + 1) (omega arith)) moved
            (omega arith) final in
        (r, ck', e ∙ e', answered)
  ]

  -- If the client's next server is one of its servers, and some server answers every call with a
  -- reply that is neither a wrong leader nor a timeout, the client's loop ends within as many calls
  -- as there are servers, and returns such a reply; the server that it came from is the one that
  -- the client asks first the next time.
  pub client_finds_server :
      (server : ℕ) (ck : Clerk)
      → ck.leader_id < ck.servers
      → server < ck.servers
      → ((m : ℕ) → Final m server)
      → (reply : R) × (ck' : Clerk) × (call_loop err call ck.servers 0 ck ≡ some (reply, ck'))
        × Answered ck reply ck'
  client_finds_server server ck low known final =
      let (d, few, at) = distance ck.leader_id server ck.servers low known in
      loop_returns d ck.servers 0 server ck low at few final
