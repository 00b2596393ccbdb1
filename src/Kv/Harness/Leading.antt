-- ===== src/Kv/Harness/Leading.antt =====
-- The server that `Leader` finds: the first that is the leader by its own state.
use native.Mathlib.Decide.{ℕ_discrete}
use logic_raft.Base.{
  ℕ, zero, suc, ◌+◌, ◌<◌, ◌≤◌, ◌≡◌, ◌⊎◌, inl, inr, refl, Bool, true, false, some, ok, arith, index,
  Bool-cases, subst,
}
use logic_raft.Raft.{get_state}
use logic_raft.Kv.Server.{KvServer}
use logic_raft.Kv.Harness.{Config}
use logic_raft.Kv.Harness.Servers.{leader_from, find_leader}

module _ {N : Type 0} (cfg : Config N) where
  abbrev pub IsRunning : ℕ → Type 0
  IsRunning i = (kv : KvServer) × (index cfg.kvservers i ≡ ok (some kv))

  -- Whether a running server says that its peer is the leader.
  abbrev pub Says : Bool → ℕ → Type 0
  Says b i = (kv : KvServer) × (index cfg.kvservers i ≡ ok (some kv)) × ((get_state kv.rf).1 ≡ b)

  -- Of the servers from i up to k, l is the first that leads, or none does and l is 0.
  abbrev pub IsFirst : ℕ → ℕ → ℕ → Type 0
  IsFirst i k l =
      ((i ≤ l) × (l < k) × Says true l × ((j : ℕ) → i ≤ j → j < l → Says false j))
      ⊎ ((l ≡ 0) × ((j : ℕ) → i ≤ j → j < k → Says false j))

  IsFirst-later : (i k l : ℕ) → Says false i → IsFirst (suc i) k l → IsFirst i k l
  IsFirst-later i k l rests (inl (above, below, leads, before)) = inl (
    omega arith,
    below,
    leads,
    λ j le lt. elim (ℕ_discrete i j) [
      | yes same ↦ subst (Says false) same rests
      | no differs ↦ before j (omega arith) lt
    ],
  )
  IsFirst-later i k l rests (inr (is_zero, none_leads)) = inr (
    is_zero,
    λ j le lt. elim (ℕ_discrete i j) [
      | yes same ↦ subst (Says false) same rests
      | no differs ↦ none_leads j (omega arith) lt
    ],
  )

  leader_from-IsFirst :
      (left i k : ℕ)
      → i + left ≡ k
      → ((j : ℕ) → j < k → IsRunning j)
      → (b : Bool) × (l : ℕ) × (leader_from left i cfg ≡ ok (b, l)) × IsFirst i k l
  unfolding leader_from
  leader_from-IsFirst zero i k ends running =
      (false, 0, refl, inr (refl, λ j le lt. absurd (omega arith)))
  leader_from-IsFirst (suc left) i k ends running =
      let (kv, at) = running i (omega arith) in
      let (b, l, rest, first) = leader_from-IsFirst left (suc i) k (omega arith) running in
      elim (Bool-cases (get_state kv.rf).1) [
        | inl leads ↦ (
          true,
          i,
          rw (at, leads) refl,
          inl (omega arith, omega arith, (kv, at, leads), λ j le lt. absurd (omega arith)),
        )
        | inr follows ↦ (b, l, rw (at, follows) rest, IsFirst-later i k l (kv, at, follows) first)
      ]

  pub find_leader-IsFirst :
      ((j : ℕ) → j < cfg.n → IsRunning j)
      → (b : Bool) × (l : ℕ) × (find_leader cfg ≡ ok (b, l)) × IsFirst 0 cfg.n l
  unfolding find_leader
  find_leader-IsFirst running = leader_from-IsFirst cfg.n 0 cfg.n (omega arith) running
