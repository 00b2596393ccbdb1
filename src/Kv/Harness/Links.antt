-- ===== src/Kv/Harness/Links.antt =====
-- The calls that a partition makes of the network, one for each link that it opens or cuts.
use Prim.Native.String.{String}
use logic_raft.Base.{
  ℕ, suc, ◌+◌, ◌<◌, ◌≤◌, ◌≡◌, refl, Bool, true, false, some, List, [], ◌∷◌, ◌++◌, map, Result, ok,
  arith, length, index, All,
}
use logic_raft.Network.{Network}
use logic_raft.Kv.Harness.{
  Config, endname_of, connect_out, connect_in, disconnect_out, disconnect_in, separate, partition,
}

-- A link from a server to a server, opened or cut.
abbrev pub Link : Type 0
Link = Bool × ℕ × ℕ

abbrev pub out_links : Bool → ℕ → List ℕ → List Link
out_links on i peers = map (λ j. (on, i, j)) peers

abbrev pub in_links : Bool → ℕ → List ℕ → List Link
in_links on i peers = map (λ j. (on, j, i)) peers

abbrev pub server_links : ℕ → List ℕ → List ℕ → List Link
server_links i group others =
    out_links false i others
    ++ (in_links false i others ++ (out_links true i group ++ in_links true i group))

abbrev pub links : List ℕ → List ℕ → List ℕ → List Link
links [] group others = []
links (i ∷ own) group others = server_links i group others ++ links own group others

module _ {N : Type 0} (nw : Network N) (name : ℕ → ℕ → String) where
  abbrev pub run : List Link → N → N
  run [] net = net
  run ((on, i, j) ∷ rest) net = run rest (nw.enable (name i j) on net)

  run-append : (xs ys : List Link) (net : N) → run (xs ++ ys) net ≡ run ys (run xs net)
  run-append [] ys net = refl
  run-append ((on, i, j) ∷ xs) ys net = run-append xs ys (nw.enable (name i j) on net)

  -- Every server has its ends, the one to server j under the name `name i j`.
  pub record IsNamed (cfg : Config N) : Type 0 where
    pub named : (i j : ℕ) → i < cfg.n → j < cfg.n → endname_of i j cfg ≡ ok (name i j)
    pub started : (i : ℕ) → i < cfg.n → (row : List String) × (index cfg.endnames i ≡ ok (some row))

  abbrev pub with_net : Config N → N → Config N
  with_net cfg net = record cfg { net = net }

  -- `f` makes these calls, and changes nothing else.
  abbrev Makes : (Config N → Result (Config N)) → List Link → Config N → Type 0
  Makes f ls cfg = (net : N) → f (with_net cfg net) ≡ ok (with_net cfg (run ls net))

  connect_out_links :
      (cfg : Config N) (i : ℕ) (to : List ℕ)
      → IsNamed cfg
      → i < cfg.n
      → All (λ j. j < cfg.n) to
      → Makes (connect_out nw i to) (out_links true i to) cfg
  unfolding connect_out
  connect_out_links cfg i [] w h k net = refl
  connect_out_links cfg i (j ∷ to) w h k net =
      rw (w.named i j h k.0) (connect_out_links cfg i to w h k.1 _)

  connect_in_links :
      (cfg : Config N) (i : ℕ) (to : List ℕ)
      → IsNamed cfg
      → i < cfg.n
      → All (λ j. j < cfg.n) to
      → Makes (connect_in nw i to) (in_links true i to) cfg
  unfolding connect_in
  connect_in_links cfg i [] w h k net = refl
  connect_in_links cfg i (j ∷ to) w h k net =
      rw (w.named j i k.0 h) (connect_in_links cfg i to w h k.1 _)

  disconnect_out_links :
      (cfg : Config N) (i : ℕ) (from : List ℕ)
      → IsNamed cfg
      → i < cfg.n
      → All (λ j. j < cfg.n) from
      → Makes (disconnect_out nw i from) (out_links false i from) cfg
  unfolding disconnect_out
  disconnect_out_links cfg i [] w h k net = refl
  disconnect_out_links cfg i (j ∷ from) w h k net =
      rw ((w.started i h).1, w.named i j h k.0) (disconnect_out_links cfg i from w h k.1 _)

  disconnect_in_links :
      (cfg : Config N) (i j : ℕ) (from : List ℕ)
      → IsNamed cfg
      → i < cfg.n
      → j + length from ≤ cfg.n
      → All (λ j. j < cfg.n) from
      → Makes (disconnect_in nw i j from) (in_links false i from) cfg
  unfolding disconnect_in
  disconnect_in_links cfg i j [] w h fits k net = refl
  disconnect_in_links cfg i j (peer ∷ from) w h fits k net =
      rw ((w.started j (omega arith)).1, w.named peer i k.0 h)
        (disconnect_in_links cfg i (suc j) from w h (omega arith) k.1 _)

  separate-links :
      (cfg : Config N) (own group others : List ℕ)
      → IsNamed cfg
      → length others ≤ cfg.n
      → All (λ j. j < cfg.n) own
      → All (λ j. j < cfg.n) group
      → All (λ j. j < cfg.n) others
      → Makes (separate nw own group others) (links own group others) cfg
  unfolding separate
  separate-links cfg [] group others w fits o p q net = refl
  separate-links cfg (i ∷ own) group others w fits o p q net =
      let cut = out_links false i others in
      let cut_in = in_links false i others in
      let joined = out_links true i group in
      let joined_in = in_links true i group in
      rw
        (
          disconnect_out_links cfg i others w o.0 q net,
          disconnect_in_links cfg i 0 others w o.0 (omega (arith, fits)) q (run cut net),
          connect_out_links cfg i group w o.0 p (run cut_in (run cut net)),
          connect_in_links cfg i group w o.0 p (run joined (run cut_in (run cut net))),
          run-append (server_links i group others) (links own group others) net,
          run-append cut (cut_in ++ (joined ++ joined_in)) net,
          run-append cut_in (joined ++ joined_in) (run cut net),
          run-append joined joined_in (run cut_in (run cut net)),
        )
        (separate-links cfg own group others w fits o.1 p q _)

  pub partition-links :
      (cfg : Config N) (p1 p2 : List ℕ)
      → IsNamed cfg
      → length p1 ≤ cfg.n
      → length p2 ≤ cfg.n
      → All (λ j. j < cfg.n) p1
      → All (λ j. j < cfg.n) p2
      → partition nw p1 p2 cfg ≡ ok (with_net cfg (run (links p1 p1 p2 ++ links p2 p2 p1) cfg.net))
  unfolding partition
  partition-links cfg p1 p2 w fits fits' o o' =
      rw
        (
          separate-links cfg p1 p1 p2 w fits' o o o' cfg.net,
          separate-links cfg p2 p2 p1 w fits o' o' o (run (links p1 p1 p2) cfg.net),
          run-append (links p1 p1 p2) (links p2 p2 p1) cfg.net,
        )
        refl
