-- ===== src/Kv/Harness/Servers.antt =====
-- src/kvraft/config.go: starting and stopping servers, clients, and the partition that puts the
-- leader in the minority.
use Prim.Native.String.{String}
use logic_raft.Base.{
  ℕ, zero, suc, ◌+◌, ◌-◌, ◌/◌, Bool, true, false, not, Option, none, some, List, [], Result, ok,
  panic, ◌>>=◌, from_option, ltb, ◌==◌, if◌then◌else◌, length, index, put, replicate,
}
use logic_raft.Base.Dict.{assign, nat_key}
use logic_raft.Gob.{Gob}
use logic_raft.Persister.{Persister, make_persister, copy}
use logic_raft.Raft.{Value, get_state}
use logic_raft.Kv.{Op}
use logic_raft.Kv.Server.{KvValue}
use logic_raft.Kv.Apply.{start_kv_server}
use logic_raft.Kv.Clerk.{Clerk, make_clerk}
use logic_raft.Network.{Network, draw_names, make_ends}
use logic_raft.Kv.Harness.{
  Config, saved_of, all, disconnect_unlocked, connect_all, connect_client_unlocked,
}

module _ {N : Type 0} where
  -- The part of `ShutdownServer` that takes a copy of the persister.
  unfoldable pub keep_saved : ℕ → Config N → Result (Config N)
  unfolding saved_of copy put
  keep_saved i cfg = do
    held ← saved_of i cfg
    elim held [
      | none ↦ ok cfg
      | some ps ↦ do saved ← put cfg.saved i (some (copy ps)); ok (record cfg { saved = saved })
    ]

  -- The end of `ShutdownServer`: the server is killed, and forgotten.
  unfoldable pub drop_server : ℕ → Config N → Result (Config N)
  unfolding put
  drop_server i cfg = do
    kv ← index cfg.kvservers i
    elim kv [
      | none ↦ ok cfg
      | some _ ↦ do kvservers ← put cfg.kvservers i none; ok (record cfg { kvservers = kvservers })
    ]

  -- The loop of `Leader`; a nil server panics.
  unfoldable pub leader_from : ℕ → ℕ → Config N → Result (Bool × ℕ)
  unfolding get_state
  leader_from zero i cfg = ok (false, 0)
  leader_from (suc left) i cfg = do
    kv ← index cfg.kvservers i
    server ← from_option kv
    let rest = leader_from left (suc i) cfg
    if (get_state server.rf).1 then ok (true, i) else rest

  unfoldable pub find_leader : Config N → Result (Bool × ℕ)
  unfolding leader_from
  find_leader cfg = leader_from cfg.n 0 cfg

-- The loop of `make_partition` from server `i` on, with `j` servers placed.
unfoldable pub deal_from : ℕ → ℕ → ℕ → ℕ → List ℕ → List ℕ → Result (List ℕ × List ℕ)
unfolding put
deal_from l zero i j p1 p2 = ok (p1, p2)
deal_from l (suc left) i j p1 p2 =
    let first : Result (List ℕ × List ℕ) = (do
      p1' ← put p1 j i
      deal_from l left (suc i) (suc j) p1' p2) in
    let second : Result (List ℕ × List ℕ) = (do
      p2' ← put p2 (j - length p1) i
      deal_from l left (suc i) (suc j) p1 p2') in
    let skip = deal_from l left (suc i) j p1 p2 in
    if i == l then skip else if ltb j (length p1) then first else second

-- `p2[len(p2)-1]` panics if `p2` is empty.
unfoldable pub make_partition_with : ℕ → ℕ → Result (List ℕ × List ℕ)
unfolding deal_from put
make_partition_with n l = do
  dealt ← deal_from l n 0 0 (replicate (n / 2 + 1) 0) (replicate (n / 2) 0)
  last ← (if ltb 0 (length dealt.1) then ok (length dealt.1 - 1) else panic)
  p2 ← put dealt.1 last l
  ok (dealt.0, p2)

module _ {N : Type 0} where
  unfoldable pub make_partition : Config N → Result (List ℕ × List ℕ)
  unfolding find_leader make_partition_with
  make_partition cfg = do found ← find_leader cfg; make_partition_with cfg.n found.1

module _ {N : Type 0} (nw : Network N) where
  -- `makeClient`, whose new clerk is the number `ck` and draws its id from `nrand`.
  unfoldable pub make_client :
      (ℕ → String) → ℕ → ℕ → ℕ → List ℕ → Config N → Result (Clerk × Config N)
  unfolding draw_names make_ends connect_client_unlocked make_clerk
  make_client randstring k ck nrand to cfg = do
    let endnames = draw_names randstring k cfg.n
    let made : Config N = record cfg {
      net = make_ends nw 0 endnames cfg.net;
      clerks = assign ck endnames cfg.clerks;
      next_client_id = cfg.next_client_id + 1;
    }
    cfg' ← connect_client_unlocked nw ck to made
    ok (make_clerk cfg.n nrand, cfg')

  unfoldable pub shutdown_server : ℕ → Config N → Result (Config N)
  unfolding disconnect_unlocked all keep_saved drop_server
  shutdown_server i cfg = do
    cut ← disconnect_unlocked nw i (all cfg) cfg
    kept ← keep_saved i (record cut { net = nw.delete_server i cut.net })
    drop_server i kept

  module _ (g : Gob (Value Op)) (gk : Gob KvValue) where
    -- The persister that a server starts with: a copy of the saved one, or a new one.
    unfoldable pub start_server : (ℕ → String) → ℕ → ℕ → Config N → Result (Config N)
    unfolding draw_names make_ends saved_of copy make_persister start_kv_server put
    start_server randstring k i cfg = do
      let names = draw_names randstring k cfg.n
      endnames ← put cfg.endnames i (some names)
      held ← saved_of i cfg
      let ps : Persister = elim held [ none ↦ make_persister | some old ↦ copy old ]
      saved ← put cfg.saved i (some ps)
      kv ← start_kv_server g gk cfg.n i ps cfg.max_raft_state
      kvservers ← put cfg.kvservers i (some kv)
      ok (record cfg {
        net = nw.add_server i (make_ends nw 0 names cfg.net);
        kvservers = kvservers;
        saved = saved;
        endnames = endnames;
      })

    unfoldable pub start_servers : (ℕ → String) → ℕ → ℕ → ℕ → Config N → Result (Config N)
    unfolding start_server
    start_servers randstring k zero i cfg = ok cfg
    start_servers randstring k (suc left) i cfg = do
      cfg' ← start_server randstring k i cfg
      start_servers randstring (k + cfg.n) left (suc i) cfg'

    unfoldable pub make_config : (ℕ → String) → ℕ → Bool → Option ℕ → Result (Config N)
    unfolding start_servers connect_all
    make_config randstring n unreliable max_raft_state = do
      started ← start_servers randstring 0 n 0 (record {
        net = nw.make_network;
        n = n;
        kvservers = replicate n none;
        saved = replicate n none;
        endnames = replicate n none;
        clerks = [];
        next_client_id = n + 1000;
        max_raft_state = max_raft_state;
      })
      cfg ← connect_all nw started
      ok (record cfg { net = nw.reliable (not unreliable) cfg.net })
