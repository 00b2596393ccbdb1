-- ===== src/Kv/Harness.antt =====
-- src/kvraft/config.go: the test harness of the store: its servers, clients and partitions.
--
-- The names of its ends are drawn by `randstring`, a
-- function of how many were drawn before. A nil slice or pointer is `none`. A running server writes
-- to the persister that `saved` holds, which is therefore read from the server (`saved_of`).
pub mod Servers
pub mod Links
pub mod Partition
pub mod Dealing
pub mod Leading
pub mod Minority
use Prim.Native.String.{String}
use logic_raft.Base.{
  ℕ, zero, suc, ◌+◌, ◌-◌, ◌%◌, Bool, true, false, Option, none, some, List, [], ◌∷◌, Result, ok,
  panic, ◌>>=◌, from_option, ltb, if◌then◌else◌, length, index, put,
}
use logic_raft.Base.Dict.{Dict, lookup, assign, delete, nat_key}
use logic_raft.Persister.{Persister, raft_state_size, snapshot_size}
use logic_raft.Network.{Network}
use logic_raft.Kv.Server.{KvServer}

-- A clerk is the number under which `makeClient` has made it.
pub record Config (N : Type 0) : Type 0 where
  pub net : N
  pub n : ℕ
  pub kvservers : List (Option KvServer)
  pub saved : List (Option Persister)
  pub endnames : List (Option (List String))
  pub clerks : Dict ℕ (List String)
  pub next_client_id : ℕ
  pub max_raft_state : Option ℕ

-- sa[i], sa[j] = sa[j], sa[i]
unfoldable pub swap {ℓ} : {A : Type ℓ} → ℕ → ℕ → List A → Result (List A)
unfolding put
swap i j sa = do a ← index sa i; b ← index sa j; sa' ← put sa i b; put sa' j a

-- The loop of `random_handles`: `rand i` is what `rand.Intn` draws from.
unfoldable pub shuffle_from {ℓ} : {A : Type ℓ} → (ℕ → ℕ) → ℕ → ℕ → List A → Result (List A)
unfolding swap
shuffle_from rand zero i sa = ok sa
shuffle_from rand (suc left) i sa = do
  sa' ← swap i (rand i % (i + 1)) sa
  shuffle_from rand left (suc i) sa'

unfoldable pub random_handles {ℓ} : {A : Type ℓ} → (ℕ → ℕ) → List A → Result (List A)
unfolding shuffle_from
random_handles rand kvh = shuffle_from rand (length kvh) 0 kvh

-- The loop of `All`.
unfoldable pub all_from : ℕ → ℕ → List ℕ
all_from zero i = []
all_from (suc left) i = i ∷ all_from left (suc i)

module _ {N : Type 0} where
  -- The persister in `saved`: that of the running server, if there is one.
  unfoldable pub saved_of : ℕ → Config N → Result (Option Persister)
  saved_of i cfg = do
    kv ← index cfg.kvservers i
    kept ← index cfg.saved i
    ok (elim kv [ none ↦ kept | some server ↦ some server.rf.persister ])

  -- The loop of `LogSize` and `SnapshotSize`; a method of a nil persister panics.
  unfoldable pub max_size_from : (Persister → ℕ) → ℕ → ℕ → ℕ → Config N → Result ℕ
  unfolding saved_of
  max_size_from size_of zero i most cfg = ok most
  max_size_from size_of (suc left) i most cfg = do
    held ← saved_of i cfg
    ps ← from_option held
    let n = size_of ps
    max_size_from size_of left (suc i) (if ltb most n then n else most) cfg

  unfoldable pub log_size : Config N → Result ℕ
  unfolding max_size_from raft_state_size
  log_size cfg = max_size_from raft_state_size cfg.n 0 0 cfg

  unfoldable pub max_snapshot_size : Config N → Result ℕ
  unfolding max_size_from snapshot_size
  max_snapshot_size cfg = max_size_from snapshot_size cfg.n 0 0 cfg

  unfoldable pub all : Config N → List ℕ
  unfolding all_from
  all cfg = all_from cfg.n 0

  -- cfg.endnames[i][j]
  unfoldable pub endname_of : ℕ → ℕ → Config N → Result String
  endname_of i j cfg = do row ← index cfg.endnames i; names ← from_option row; index names j

module _ {N : Type 0} (nw : Network N) where
  unfoldable pub enable_link : Bool → ℕ → ℕ → Config N → Result (Config N)
  unfolding endname_of
  enable_link on i j cfg = do
    endname ← endname_of i j cfg
    ok (record cfg { net = nw.enable endname on cfg.net })

  unfoldable pub connect_out : ℕ → List ℕ → Config N → Result (Config N)
  unfolding enable_link
  connect_out i [] cfg = ok cfg
  connect_out i (peer ∷ to) cfg = do cfg' ← enable_link true i peer cfg; connect_out i to cfg'

  unfoldable pub connect_in : ℕ → List ℕ → Config N → Result (Config N)
  unfolding enable_link
  connect_in i [] cfg = ok cfg
  connect_in i (peer ∷ to) cfg = do cfg' ← enable_link true peer i cfg; connect_in i to cfg'

  unfoldable pub connect_unlocked : ℕ → List ℕ → Config N → Result (Config N)
  unfolding connect_out connect_in
  connect_unlocked i to cfg = do cfg' ← connect_out i to cfg; connect_in i to cfg'

  unfoldable pub disconnect_out : ℕ → List ℕ → Config N → Result (Config N)
  unfolding enable_link
  disconnect_out i [] cfg = ok cfg
  disconnect_out i (peer ∷ from) cfg = do
    row ← index cfg.endnames i
    cfg' ← elim row [ none ↦ ok cfg | some _ ↦ enable_link false i peer cfg ]
    disconnect_out i from cfg'

  -- The row that is tested for nil is the `j`-th, for the `j`-th element of `from`.
  unfoldable pub disconnect_in : ℕ → ℕ → List ℕ → Config N → Result (Config N)
  unfolding enable_link
  disconnect_in i j [] cfg = ok cfg
  disconnect_in i j (peer ∷ from) cfg = do
    row ← index cfg.endnames j
    cfg' ← elim row [ none ↦ ok cfg | some _ ↦ enable_link false peer i cfg ]
    disconnect_in i (suc j) from cfg'

  unfoldable pub disconnect_unlocked : ℕ → List ℕ → Config N → Result (Config N)
  unfolding disconnect_out disconnect_in
  disconnect_unlocked i from cfg = do cfg' ← disconnect_out i from cfg; disconnect_in i 0 from cfg'

  unfoldable pub connect_all_from : ℕ → ℕ → Config N → Result (Config N)
  unfolding connect_unlocked all
  connect_all_from zero i cfg = ok cfg
  connect_all_from (suc left) i cfg = do
    cfg' ← connect_unlocked i (all cfg) cfg
    connect_all_from left (suc i) cfg'

  unfoldable pub connect_all : Config N → Result (Config N)
  unfolding connect_all_from
  connect_all cfg = connect_all_from cfg.n 0 cfg

  -- A loop of `partition`: the servers of `own` are cut from `others` and joined with `group`.
  unfoldable pub separate : List ℕ → List ℕ → List ℕ → Config N → Result (Config N)
  unfolding disconnect_unlocked connect_unlocked
  separate [] group others cfg = ok cfg
  separate (i ∷ own) group others cfg = do
    cut ← disconnect_unlocked i others cfg
    joined ← connect_unlocked i group cut
    separate own group others joined

  unfoldable pub partition : List ℕ → List ℕ → Config N → Result (Config N)
  unfolding separate
  partition p1 p2 cfg = do cfg' ← separate p1 p1 p2 cfg; separate p2 p2 p1 cfg'

  unfoldable pub enable_ends : Bool → List String → List ℕ → Config N → Result (Config N)
  enable_ends on endnames [] cfg = ok cfg
  enable_ends on endnames (j ∷ to) cfg = do
    s ← index endnames j
    enable_ends on endnames to (record cfg { net = nw.enable s on cfg.net })

  -- A clerk that is not in the map has no names.
  abbrev pub names_of : ℕ → Config N → List String
  names_of ck cfg = elim (lookup ck cfg.clerks) [ none ↦ [] | some names ↦ names ]

  unfoldable pub connect_client_unlocked : ℕ → List ℕ → Config N → Result (Config N)
  unfolding enable_ends
  connect_client_unlocked ck to cfg = enable_ends true (names_of ck cfg) to cfg

  unfoldable pub disconnect_client_unlocked : ℕ → List ℕ → Config N → Result (Config N)
  unfolding enable_ends
  disconnect_client_unlocked ck from cfg = enable_ends false (names_of ck cfg) from cfg

  -- Removing the files of the names is left out.
  unfoldable pub delete_client : ℕ → Config N → Config N
  delete_client ck cfg = record cfg { clerks = delete ck cfg.clerks }
