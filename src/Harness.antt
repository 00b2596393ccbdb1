-- ===== src/Harness.antt =====
-- src/raft/config.go: what the test harness of the peers watches. A failure that ends the test
-- (`Fatalf`) is `panic`; a command is compared with `!=`, here by a decided equality.
pub mod Agreement
pub mod Count
pub mod Snapshots
pub mod Servers
pub mod Waiting
pub mod Crash
pub mod Restart
use logic_raft.Base.{
  ℕ, zero, suc, ◌+◌, ◌-◌, Bool, true, false, not, ◌&&◌, ◌||◌, Option, none, some, List, [], ◌∷◌,
  ◌++◌, Result, ok, panic, ◌>>=◌, from_option, ltb, ◌==◌, if◌then◌else◌, length, index, put,
}
use logic_raft.Base.Dict.{Key, Dict, lookup, assign, nat_key}
use logic_raft.Persister.{Persister, raft_state_size}
use logic_raft.Raft.{Raft, ApplyMsg, get_state}

-- The error texts of the appliers: a different value at a server, and a gap.
pub data ApplyError (C : Type 0) : Type 0 where
  differs : ℕ → Option C → ApplyError C
  out_of_order : ApplyError C

-- A nil pointer is `none`. A running peer writes to the persister that `saved` holds, which is
-- therefore read from the peer (`saved_of`).
pub record Config (C : Type 0) : Type 0 where
  pub n : ℕ
  pub rafts : List (Option (Raft C))
  pub apply_err : List (Option (ApplyError C))
  pub connected : List Bool
  pub saved : List (Option Persister)
  pub logs : List (Dict ℕ (Option C))
  pub last_applied : List ℕ
  pub max_index : ℕ

abbrev pub is_some {ℓ} : {A : Type ℓ} → Option A → Bool
is_some none = false
is_some (some _) = true

module _ {C : Type 0} where
  -- A method of a nil peer panics.
  unfoldable pub raft_of : ℕ → Config C → Result (Raft C)
  raft_of i cfg = do rf ← index cfg.rafts i; from_option rf

  unfoldable pub saved_of : ℕ → Config C → Result (Option Persister)
  saved_of i cfg = do
    rf ← index cfg.rafts i
    kept ← index cfg.saved i
    ok (elim rf [ none ↦ kept | some peer ↦ some peer.persister ])

-- The key before index 0 is -1, which no log has.
abbrev pub prev_ok : {C : Type 0} → ℕ → Dict ℕ (Option C) → Bool
prev_ok zero log = false
prev_ok (suc k) log = is_some (lookup k log)

module _ {C : Type 0} ⦃eq : Key (Option C)⦄ where
  -- The loop of `checkLogs`: the last server that has another value.
  unfoldable pub conflict : ℕ → Option C → ℕ → List (Dict ℕ (Option C)) → Option (ApplyError C)
  conflict i v j [] = none
  conflict i v j (log ∷ logs) = elim (conflict i v (suc j) logs) [
    | some e ↦ some e
    | none ↦ elim (lookup i log) [
      | none ↦ none
      | some old ↦ if eq.same old v then none else some (differs j old)
    ]
  ]

  unfoldable pub check_logs :
      ℕ → ApplyMsg C → Config C → Result ((Option (ApplyError C) × Bool) × Config C)
  unfolding conflict put
  check_logs i m cfg = do
    log ← index cfg.logs i
    logs ← put cfg.logs i (assign m.command_index m.command log)
    ok (
      (conflict m.command_index m.command 0 cfg.logs, prev_ok m.command_index log),
      record cfg {
        logs = logs;
        max_index = if ltb cfg.max_index m.command_index then m.command_index else cfg.max_index;
      },
    )

  -- One message of `applier`.
  unfoldable pub applier : ℕ → ApplyMsg C → Config C → Result (Config C)
  unfolding check_logs
  applier i m cfg = if not m.command_valid then ok cfg else (do
    checked ← check_logs i m cfg
    let gap = ltb 1 m.command_index && not checked.0.1
    if gap || is_some checked.0.0 then panic else ok checked.1)

  -- The loop of `nCommitted` from server `i` on.
  unfoldable pub n_committed_from : ℕ → ℕ → ℕ → ℕ → Option C → Config C → Result (ℕ × Option C)
  n_committed_from zero i at count cmd cfg = ok (count, cmd)
  n_committed_from (suc left) i at count cmd cfg = do
    err ← index cfg.apply_err i
    log ← index cfg.logs i
    let none_here = n_committed_from left (suc i) at count cmd cfg
    elim err [
      | some _ ↦ panic
      | none ↦ elim (lookup at log) [
        | none ↦ none_here
        | some cmd₁ ↦
            let found = n_committed_from left (suc i) at (count + 1) cmd₁ cfg in
            if ltb 0 count && not (eq.same cmd cmd₁) then panic else found
      ]
    ]

  unfoldable pub n_committed : ℕ → Config C → Result (ℕ × Option C)
  unfolding n_committed_from
  n_committed at cfg = n_committed_from (length cfg.rafts) 0 at 0 none cfg

-- The loop of `checkOneLeader` over the map: more than one leader in a term ends the test.
unfoldable pub last_term_from : Dict ℕ (List ℕ) → Option ℕ → Result (Option ℕ)
last_term_from [] last = ok last
last_term_from ((term, leaders) ∷ rest) last =
    let newer : Bool = elim last [ none ↦ true | some t ↦ ltb t term ] in
    let go_on = last_term_from rest (if newer then some term else last) in
    if ltb 1 (length leaders) then panic else go_on

module _ {C : Type 0} where
  -- The loop of `checkTerms`; the term is `none` for -1.
  unfoldable pub check_terms_from : ℕ → ℕ → Option ℕ → Config C → Result (Option ℕ)
  unfolding get_state raft_of
  check_terms_from zero i term cfg = ok term
  check_terms_from (suc left) i term cfg = do
    connected ← index cfg.connected i
    let skip = check_terms_from left (suc i) term cfg
    elim connected [
      | false ↦ skip
      | true ↦ do
        rf ← raft_of i cfg
        let xterm = (get_state rf).0
        let go_on = check_terms_from left (suc i) (some xterm) cfg
        elim term [ none ↦ go_on | some t ↦ if not (t == xterm) then panic else skip ]
    ]

  unfoldable pub check_terms : Config C → Result (Option ℕ)
  unfolding check_terms_from
  check_terms cfg = check_terms_from cfg.n 0 none cfg

  -- The loop of `checkNoLeader`.
  unfoldable pub check_no_leader_from : ℕ → ℕ → Config C → Result (Unit {0})
  unfolding get_state raft_of
  check_no_leader_from zero i cfg = ok tt
  check_no_leader_from (suc left) i cfg = do
    connected ← index cfg.connected i
    let go_on = check_no_leader_from left (suc i) cfg
    elim connected [
      | false ↦ go_on
      | true ↦ do rf ← raft_of i cfg; if (get_state rf).1 then panic else go_on
    ]

  unfoldable pub check_no_leader : Config C → Result (Unit {0})
  unfolding check_no_leader_from
  check_no_leader cfg = check_no_leader_from cfg.n 0 cfg

  -- The loop of `checkOneLeader` over the servers: the leaders of each term.
  unfoldable pub leaders_from : ℕ → ℕ → Dict ℕ (List ℕ) → Config C → Result (Dict ℕ (List ℕ))
  unfolding get_state raft_of
  leaders_from zero i leaders cfg = ok leaders
  leaders_from (suc left) i leaders cfg = do
    connected ← index cfg.connected i
    let skip = leaders_from left (suc i) leaders cfg
    elim connected [
      | false ↦ skip
      | true ↦ do
        rf ← raft_of i cfg
        let (term, leader) = get_state rf
        let others : List ℕ = elim (lookup term leaders) [ none ↦ [] | some is ↦ is ]
        let noted = leaders_from left (suc i) (assign term (others ++ i ∷ []) leaders) cfg
        if leader then noted else skip
    ]

  -- One iteration of `checkOneLeader`: the leader of the last term with one, if there is one.
  unfoldable pub one_leader : Config C → Result (Option ℕ)
  unfolding leaders_from last_term_from
  one_leader cfg = do
    leaders ← leaders_from cfg.n 0 [] cfg
    last ← last_term_from leaders none
    elim last [
      | none ↦ ok none
      | some term ↦ do
        servers ← from_option (lookup term leaders)
        first ← index servers 0
        ok (some first)
    ]

  -- The iterations, each on the state of its time; with none left the test ends.
  unfoldable pub check_one_leader : List (Config C) → Result ℕ
  unfolding one_leader
  check_one_leader [] = panic
  check_one_leader (cfg ∷ later) = do
    found ← one_leader cfg
    let rest = check_one_leader later
    elim found [ none ↦ rest | some i ↦ ok i ]

  -- The loop of `LogSize`.
  unfoldable pub log_size_from : ℕ → ℕ → ℕ → Config C → Result ℕ
  unfolding raft_state_size saved_of
  log_size_from zero i logsize cfg = ok logsize
  log_size_from (suc left) i logsize cfg = do
    held ← saved_of i cfg
    ps ← from_option held
    let n = raft_state_size ps
    log_size_from left (suc i) (if ltb logsize n then n else logsize) cfg

  unfoldable pub log_size : Config C → Result ℕ
  unfolding log_size_from
  log_size cfg = log_size_from cfg.n 0 0 cfg
