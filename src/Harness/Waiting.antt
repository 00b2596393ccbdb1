-- ===== src/Harness/Waiting.antt =====
-- src/raft/config.go: `wait` and `one`. What the harness sees while time passes is an argument: the
-- states at the times when it looks.
use logic_raft.Base.{
  ℕ, zero, suc, ◌+◌, ◌%◌, Bool, true, false, ◌&&◌, Option, none, some, List, [], ◌∷◌, Result, ok,
  panic, ◌>>=◌, from_option, ltb, leb, if◌then◌else◌, index, put,
}
use logic_raft.Base.Dict.{Key}
use logic_raft.Gob.{Gob}
use logic_raft.Raft.{Raft, Value, get_state}
use logic_raft.Raft.Peer.{start}
use logic_raft.Harness.{Config, n_committed}

-- What `wait` returns: -1 once a peer is in a later term, or the command.
pub data Waited (C : Type 0) : Type 0 where
  moved_on : Waited C
  committed : Option C → Waited C

module _ {C : Type 0} where
  -- The loop of `wait` over the peers: whether one is in a term after `start_term`.
  unfoldable pub later_term : ℕ → List (Option (Raft C)) → Result Bool
  unfolding get_state
  later_term start_term [] = ok false
  later_term start_term (r ∷ rafts) = do
    rf ← from_option r
    let rest = later_term start_term rafts
    if ltb start_term (get_state rf).0 then ok true else rest

module _ {C : Type 0} ⦃eq : Key (Option C)⦄ where
  -- The iterations of `wait`, with the state when it counts and the one when it has slept; true if
  -- it gives up. `none` stands for the term -1.
  unfoldable pub wait_rounds : ℕ → ℕ → Option ℕ → List (Config C × Config C) → Result Bool
  unfolding n_committed later_term
  wait_rounds at n start_term [] = ok false
  wait_rounds at n start_term ((counted, slept) ∷ later) = do
    found ← n_committed at counted
    let rest = wait_rounds at n start_term later
    if leb n found.0 then ok false else elim start_term [
      | none ↦ rest
      | some t ↦ do gone ← later_term t slept.rafts; if gone then ok true else rest
    ]

  unfoldable pub wait : ℕ → ℕ → Option ℕ → List (Config C × Config C) → Config C → Result (Waited C)
  unfolding wait_rounds n_committed
  wait at n start_term rounds last = do
    gone ← wait_rounds at n start_term rounds
    let final : Result (Waited C) = (do
      found ← n_committed at last
      if ltb found.0 n then panic else ok (committed found.1))
    if gone then ok moved_on else final

  -- The loop of `one` over the servers, from the one after `starts` on: the index of the command
  -- at the first that claims to be the leader, the server, and the state.
  unfoldable pub submit_from :
      Gob (Value C) → ℕ → ℕ → C → Config C → Result (Option ℕ × ℕ × Config C)
  unfolding start put
  submit_from g zero starts cmd cfg = ok (none, starts, cfg)
  submit_from g (suc left) starts cmd cfg = do
    let si = (starts + 1) % cfg.n
    connected ← index cfg.connected si
    let skip = submit_from g left si cmd cfg
    let asked : Result (Option ℕ × ℕ × Config C) = (do
      r ← index cfg.rafts si
      elim r [
        | none ↦ skip
        | some rf ↦
            let ((index1, _, leads), rf') = start g cmd rf in
            (do
              rafts ← put cfg.rafts si (some rf')
              let cfg' : Config C = record cfg { rafts = rafts }
              let next = submit_from g left si cmd cfg'
              if leads then ok (some index1, si, cfg') else next)
      ])
    if connected then asked else skip

  -- The test of `one` for an agreement on the command that it has submitted.
  unfoldable pub agreed : ℕ → ℕ → C → Config C → Result Bool
  unfolding n_committed
  agreed at expected cmd cfg = do
    found ← n_committed at cfg
    ok (ltb 0 found.0 && leb expected found.0 && eq.same found.1 (some cmd))
