-- ===== src/Harness/Servers.antt =====
-- src/raft/config.go: starting, crashing and connecting peers, and waiting for an agreement.
use Prim.Native.String.{String}
use logic_raft.Base.{
  ℕ, zero, suc, ◌+◌, Bool, true, false, not, Option, none, some, List, [], Result, ok, panic, ◌>>=◌,
  from_option, ltb, if◌then◌else◌, length, index, put, replicate,
}
use logic_raft.Base.Dict.{nat_key}
use logic_raft.Gob.{Gob}
use logic_raft.Network.{Network, draw_names, make_ends}
use logic_raft.Persister.{Persister, make_persister, copy, read_raft_state, read_snapshot, save}
use logic_raft.Raft.{Value}
use logic_raft.Raft.Peer.{make}
use logic_raft.Harness.{Config, saved_of}
use logic_raft.Harness.Snapshots.{SnapValue, ingest_snap}

-- The harness with its network: the other fields of `config`. A nil slice is `none`.
pub record Cluster (N C : Type 0) : Type 0 where
  pub cfg : Config C
  pub net : N
  pub endnames : List (Option (List String))

-- The end of `crash1`: the state in storage, saved again in a new persister.
unfoldable pub saved_again : Persister → Persister
unfolding save read_raft_state read_snapshot
saved_again ps =
    save (read_raft_state ps) (read_snapshot ps) (record { raftstate = []; snapshot = [] })

module _ {N C : Type 0} (nw : Network N) where
  -- Opens or cuts the end from i to j; a nil row panics.
  unfoldable pub enable_link : Bool → ℕ → ℕ → Cluster N C → Result (Cluster N C)
  enable_link on i j cl = do
    row ← index cl.endnames i
    names ← from_option row
    endname ← index names j
    ok (record cl { net = nw.enable endname on cl.net })

  -- A loop of `connect` over the peers from `j` on, for the outgoing or for the incoming ends.
  unfoldable pub connect_from : Bool → ℕ → ℕ → ℕ → Cluster N C → Result (Cluster N C)
  unfolding enable_link
  connect_from outgoing i zero j cl = ok cl
  connect_from outgoing i (suc left) j cl = do
    connected ← index cl.cfg.connected j
    let enabled : Result (Cluster N C) =
        if outgoing then enable_link true i j cl else enable_link true j i cl
    cl' ← (if connected then enabled else ok cl)
    connect_from outgoing i left (suc j) cl'

  unfoldable pub connect : ℕ → Cluster N C → Result (Cluster N C)
  unfolding connect_from put
  connect i cl = do
    connected ← put cl.cfg.connected i true
    let marked : Cluster N C = record cl { cfg = record cl.cfg { connected = connected } }
    out ← connect_from true i cl.cfg.n 0 marked
    connect_from false i cl.cfg.n 0 out

  -- A loop of `disconnect`; a nil row is left out.
  unfoldable pub disconnect_from : Bool → ℕ → ℕ → ℕ → Cluster N C → Result (Cluster N C)
  unfolding enable_link
  disconnect_from outgoing i zero j cl = ok cl
  disconnect_from outgoing i (suc left) j cl = do
    let from = if outgoing then i else j
    let to = if outgoing then j else i
    row ← index cl.endnames from
    cl' ← elim row [ none ↦ ok cl | some _ ↦ enable_link false from to cl ]
    disconnect_from outgoing i left (suc j) cl'

  unfoldable pub disconnect : ℕ → Cluster N C → Result (Cluster N C)
  unfolding disconnect_from put
  disconnect i cl = do
    connected ← put cl.cfg.connected i false
    let marked : Cluster N C = record cl { cfg = record cl.cfg { connected = connected } }
    out ← disconnect_from true i cl.cfg.n 0 marked
    disconnect_from false i cl.cfg.n 0 out

  -- A running peer is killed and forgotten.
  unfoldable pub crash1 : ℕ → Cluster N C → Result (Cluster N C)
  unfolding disconnect saved_again saved_of copy put
  crash1 i cl = do
    cut ← disconnect i cl
    held ← saved_of i cut.cfg
    let kept : Option Persister = elim held [ none ↦ none | some ps ↦ some (saved_again (copy ps)) ]
    saved ← put cut.cfg.saved i kept
    rafts ← put cut.cfg.rafts i none
    ok (record cut {
      net = nw.delete_server i cut.net;
      cfg = record cut.cfg { saved = saved; rafts = rafts };
    })

  module _ (g : Gob (Value C)) (gs : Gob (SnapValue C)) where
    -- The saved state that a peer starts with: a copy, whose snapshot is taken in, or a new one.
    unfoldable pub prepare : ℕ → Config C → Result (Persister × Config C)
    unfolding saved_of copy read_snapshot ingest_snap make_persister
    prepare i cfg = do
      held ← saved_of i cfg
      elim held [
        | none ↦ ok (make_persister, cfg)
        | some old ↦
            let ps = copy old in
            let taken : Result (Persister × Config C) = (do
              ingested ← ingest_snap gs i (some (read_snapshot ps)) none cfg
              if ingested.0 then panic else ok (ps, ingested.1)) in
            if ltb 0 (length (read_snapshot ps)) then taken else ok (ps, cfg)
      ]

    unfoldable pub start1 : (ℕ → String) → ℕ → ℕ → Cluster N C → Result (Cluster N C)
    unfolding crash1 draw_names make_ends prepare make put
    start1 randstring k i cl = do
      crashed ← crash1 i cl
      let names = draw_names randstring k cl.cfg.n
      endnames ← put crashed.endnames i (some names)
      applied ← put crashed.cfg.last_applied i 0
      prepared ← prepare i (record crashed.cfg { last_applied = applied })
      saved ← put prepared.1.saved i (some prepared.0)
      rafts ← put prepared.1.rafts i (some (make g cl.cfg.n i prepared.0))
      ok (record {
        cfg = record prepared.1 { saved = saved; rafts = rafts };
        net = nw.add_server i (make_ends nw 0 names crashed.net);
        endnames = endnames;
      })

    unfoldable pub start_all : (ℕ → String) → ℕ → ℕ → ℕ → Cluster N C → Result (Cluster N C)
    unfolding start1 put
    start_all randstring k zero i cl = ok cl
    start_all randstring k (suc left) i cl = do
      logs ← put cl.cfg.logs i []
      cl' ← start1 randstring k i (record cl { cfg = record cl.cfg { logs = logs } })
      start_all randstring (k + cl.cfg.n) left (suc i) cl'

    unfoldable pub connect_all : ℕ → ℕ → Cluster N C → Result (Cluster N C)
    unfolding connect
    connect_all zero i cl = ok cl
    connect_all (suc left) i cl = do cl' ← connect i cl; connect_all left (suc i) cl'

    -- A nil map reads as an empty one.
    unfoldable pub make_config : (ℕ → String) → ℕ → Bool → Result (Cluster N C)
    unfolding start_all connect_all
    make_config randstring n unreliable = do
      started ← start_all randstring 0 n 0 (record {
        cfg = record {
          n = n;
          rafts = replicate n none;
          apply_err = replicate n none;
          connected = replicate n false;
          saved = replicate n none;
          logs = replicate n [];
          last_applied = replicate n 0;
          max_index = 0;
        };
        net = nw.long_delays true (nw.reliable (not unreliable) nw.make_network);
        endnames = replicate n none;
      })
      connect_all n 0 started
