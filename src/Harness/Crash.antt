-- ===== src/Harness/Crash.antt =====
-- A peer that the harness stops.
use Prim.Native.String.{String}
use logic_raft.Base.{
  ℕ, zero, suc, ◌+◌, ◌<◌, ◌≤◌, ◌≡◌, refl, ap, Bool, true, false, Option, none, some, List, ok,
  arith, length, index, put_ok, set, get_elem?-some, from_option,
}
use logic_raft.Network.{Network}
use logic_raft.Raft.{Raft}
use logic_raft.Harness.Servers.{Cluster, enable_link, disconnect_from, crash1}

-- Every list of the harness has an entry for each peer, and every row of names that is there.
pub record IsSized {N C : Type 0} (cl : Cluster N C) : Type 0 where
  pub connected : length cl.cfg.connected ≡ cl.cfg.n
  pub rafts : length cl.cfg.rafts ≡ cl.cfg.n
  pub saved : length cl.cfg.saved ≡ cl.cfg.n
  pub logs : length cl.cfg.logs ≡ cl.cfg.n
  pub last_applied : length cl.cfg.last_applied ≡ cl.cfg.n
  pub rows : length cl.endnames ≡ cl.cfg.n
  pub names :
      (i : ℕ) (row : List String) → index cl.endnames i ≡ ok (some row) → length row ≡ cl.cfg.n

module _ {N C : Type 0} (nw : Network N) where
  abbrev with_net : Cluster N C → N → Cluster N C
  with_net cl net = record cl { net = net }

  enable_link_total :
      (on : Bool) (i j n : ℕ) (cl : Cluster N C) (row : List String)
      → index cl.endnames i ≡ ok (some row)
      → length row ≡ n
      → j < n
      → (net : N) × (enable_link nw on i j cl ≡ ok (with_net cl net))
  unfolding enable_link
  enable_link_total on i j n cl row at sized lt =
      let (name, named) = get_elem?-some row j (omega (arith, sized)) in
      (nw.enable name on cl.net, ground (arith, at, named))

  Rows : Cluster N C → ℕ → Type 0
  Rows cl n =
      (length cl.endnames ≡ n)
      × ((i : ℕ) (row : List String) → index cl.endnames i ≡ ok (some row) → length row ≡ n)

  cut_row :
      (from to n : ℕ) (cl : Cluster N C) (row : Option (List String))
      → index cl.endnames from ≡ ok row
      → Rows cl n
      → to < n
      → (net : N) × ((elim row [ none ↦ ok cl | some _ ↦ enable_link nw false from to cl ])
          ≡ ok (with_net cl net))
  unfolding Rows
  cut_row from to n cl none at r lt = (cl.net, refl)
  cut_row from to n cl (some row) at r lt =
      enable_link_total false from to n cl row at (r.1 from row at) lt

  disconnect_from_total :
      (outgoing : Bool) (i n left j : ℕ) (cl : Cluster N C)
      → Rows cl n
      → i < n
      → j + left ≤ n
      → (net : N) × (disconnect_from nw outgoing i left j cl ≡ ok (with_net cl net))
  unfolding disconnect_from Rows
  disconnect_from_total outgoing i n zero j cl r lt fits = (cl.net, refl)
  disconnect_from_total true i n (suc left) j cl r lt fits =
      let (row, at) = get_elem?-some cl.endnames i (omega (arith, r.0)) in
      let here : index cl.endnames i ≡ ok row = ap from_option at in
      let (net, cut) = cut_row i j n cl row here r (omega arith) in
      let (net', rest) =
        disconnect_from_total true i n left (suc j) (with_net cl net) r lt (omega arith) in
      (net', rw (here, cut) rest)
  disconnect_from_total false i n (suc left) j cl r lt fits =
      let (row, at) = get_elem?-some cl.endnames j (omega (arith, r.0)) in
      let here : index cl.endnames j ≡ ok row = ap from_option at in
      let (net, cut) = cut_row j i n cl row here r lt in
      let (net', rest) =
        disconnect_from_total false i n left (suc j) (with_net cl net) r lt (omega arith) in
      (net', rw (here, cut) rest)

  -- A running peer crashes without a panic, and its state is kept.
  pub crash1_total :
      (i : ℕ) (rf : Raft C) (cl : Cluster N C)
      → IsSized cl
      → i < cl.cfg.n
      → index cl.cfg.rafts i ≡ ok (some rf)
      → (net : N) × (crash1 nw i cl
          ≡ ok (record cl {
            net = net;
            cfg = record cl.cfg {
              connected = set cl.cfg.connected i false;
              saved = set cl.cfg.saved i (some rf.persister);
              rafts = set cl.cfg.rafts i none;
            };
          }))
  unfolding crash1 Rows
  crash1_total i rf cl w lt at =
      let n = cl.cfg.n in
      let marked : Cluster N C = record cl {
        cfg = record cl.cfg { connected = set cl.cfg.connected i false };
      } in
      let (net, out) =
        disconnect_from_total true i n n 0 marked (w.rows, w.names) lt (omega arith) in
      let (net', cut) =
        disconnect_from_total false i n n 0 (with_net marked net) (w.rows, w.names) lt
          (omega arith) in
      let (kept, kept_at) = get_elem?-some cl.cfg.saved i (omega (arith, w.saved)) in
      let c = put_ok cl.cfg.connected i false (omega (arith, w.connected)) in
      let s = put_ok cl.cfg.saved i (some rf.persister) (omega (arith, w.saved)) in
      let r = put_ok cl.cfg.rafts i none (omega (arith, w.rafts)) in
      (nw.delete_server i net', rw (c, out, cut, at, kept_at, s, r) refl)
