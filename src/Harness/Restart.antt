-- ===== src/Harness/Restart.antt =====
-- A peer that the harness starts again has what it had saved.
use Prim.Native.String.{String}
use logic_raft.Base.{
  ℕ, ◌<◌, ◌≡◌, ◌⊎◌, inl, inr, refl, ap, true, false, Option, none, some, List, ltb, ◌≢◌, [], ◌∷◌,
  ok, arith, length, index, put_ok, set, from_option, length-set, get_elem?-set_self,
}
use logic_raft.Gob.{Gob}
use logic_raft.Network.{Network, draw_names, make_ends}
use logic_raft.Persister.{Persister, Bytes}
use logic_raft.Raft.{Raft, Value}
use logic_raft.Raft.Peer.{make}
use logic_raft.Raft.Step.{Reach}
use logic_raft.Raft.Step.Durable.{make-durable, Reach-IsDurable}
use logic_raft.Harness.{Config}
use logic_raft.Harness.Snapshots.{SnapValue, included, commands, ingest_snap, logs_from}
use logic_raft.Harness.Servers.{Cluster, start1, prepare}
use logic_raft.Harness.Crash.{IsSized, crash1_total}

-- What a snapshot of the harness is: none, or one that `applierSnap` has made.
abbrev pub SnapshotFits : {C : Type 0} → Gob (SnapValue C) → Bytes → Type 0
SnapshotFits {C} gs bytes =
    (bytes ≡ [])
    ⊎ ((last : ℕ) × (xlog : List (Option C)) × (bytes
          ≡ gs.write (included last ∷ commands xlog ∷ [])))

module _ {N C : Type 0} (nw : Network N) (g : Gob (Value C)) (gs : Gob (SnapValue C)) where
  nonempty : (xs : Bytes) → xs ≢ [] → ltb 0 (length xs) ≡ true
  nonempty [] h = absurd (h refl)
  nonempty (x ∷ xs) h = ground arith

  ingest_total :
      (i last : ℕ) (xlog : List (Option C)) (bytes : Bytes) (cfg : Config C)
      → bytes ≡ gs.write (included last ∷ commands xlog ∷ [])
      → i < length cfg.logs
      → i < length cfg.last_applied
      → ingest_snap gs i (some bytes) none cfg
        ≡ ok (
          false,
          record cfg {
            logs = set cfg.logs i (logs_from 0 xlog);
            last_applied = set cfg.last_applied i last;
          },
        )
  unfolding ingest_snap
  ingest_total i last xlog bytes cfg e in_logs in_applied =
      let vs : List (SnapValue C) = included last ∷ commands xlog ∷ [] in
      rw
        (
          e,
          gs.read_write vs 0,
          gs.read_write vs 1,
          put_ok cfg.logs i (logs_from 0 xlog) in_logs,
          put_ok cfg.last_applied i last in_applied,
        )
        refl

  prepare_total :
      (i : ℕ) (ps : Persister) (cfg : Config C)
      → index cfg.rafts i ≡ ok none
      → index cfg.saved i ≡ ok (some ps)
      → SnapshotFits gs ps.snapshot
      → i < length cfg.logs
      → i < length cfg.last_applied
      → (cfg' : Config C) × (prepare nw g gs i cfg ≡ ok (ps, cfg'))
        × (cfg'.rafts ≡ cfg.rafts)
        × (cfg'.saved ≡ cfg.saved)
  unfolding prepare
  prepare_total i ps cfg gone kept (inl e) in_logs in_applied =
      (cfg, rw (gone, kept, e) refl, refl, refl)
  prepare_total i ps cfg gone kept (inr (last, xlog, e)) in_logs in_applied =
      let some_bytes : ltb 0 (length ps.snapshot) ≡ true =
        rw e (nonempty (gs.write _) (gs.write_nonempty _ _)) in
      let ingested = ingest_total i last xlog ps.snapshot cfg e in_logs in_applied in
      let cfg' : Config C = record cfg {
        logs = set cfg.logs i (logs_from 0 xlog);
        last_applied = set cfg.last_applied i last;
      } in
      (cfg', rw (gone, kept, some_bytes, ingested) refl, refl, refl)

  start1_total :
      (randstring : ℕ → String) (k i : ℕ) (rf : Raft C) (cl : Cluster N C)
      → IsSized cl
      → i < cl.cfg.n
      → index cl.cfg.rafts i ≡ ok (some rf)
      → SnapshotFits gs rf.persister.snapshot
      → (cl' : Cluster N C) × (start1 nw g gs randstring k i cl ≡ ok cl')
        × (index cl'.cfg.rafts i ≡ ok (some (make g cl.cfg.n i rf.persister)))
  unfolding start1
  start1_total randstring k i rf cl w lt at fits =
      let n = cl.cfg.n in
      let ps = rf.persister in
      let (net, crashed) = crash1_total nw i rf cl w lt at in
      let cfg : Config C = record cl.cfg {
        connected = set cl.cfg.connected i false;
        saved = set cl.cfg.saved i (some ps);
        rafts = set cl.cfg.rafts i none;
        last_applied = set cl.cfg.last_applied i 0;
      } in
      let rafts_is = length-set cl.cfg.rafts i none in
      let gone : index cfg.rafts i ≡ ok none =
        ap from_option (get_elem?-set_self cl.cfg.rafts i none (omega (arith, w.rafts))) in
      let kept : index cfg.saved i ≡ ok (some ps) =
        ap from_option (get_elem?-set_self cl.cfg.saved i (some ps) (omega (arith, w.saved))) in
      let (cfg', prepared, rafts', saved') =
        prepare_total i ps cfg gone kept fits (omega (arith, w.logs))
          (omega (arith, w.last_applied, length-set cl.cfg.last_applied i 0)) in
      let new = make g n i ps in
      let named = put_ok cl.endnames i (some (draw_names randstring k n)) (omega (arith, w.rows)) in
      let applied = put_ok cl.cfg.last_applied i 0 (omega (arith, w.last_applied)) in
      let in_saved : i < length cfg'.saved =
        omega (arith, w.saved, length-set cl.cfg.saved i (some ps), ap length saved') in
      let in_rafts : i < length cfg'.rafts =
        omega (arith, w.rafts, length-set cl.cfg.rafts i none, ap length rafts') in
      let saving = put_ok cfg'.saved i (some ps) in_saved in
      let starting = put_ok cfg'.rafts i (some new) in_rafts in
      let cl' : Cluster N C = record {
        cfg = record cfg' {
          saved = set cfg'.saved i (some ps);
          rafts = set cfg'.rafts i (some new);
        };
        net = nw.add_server i (make_ends nw 0 (draw_names randstring k n) net);
        endnames = set cl.endnames i (some (draw_names randstring k n));
      } in
      (
        cl',
        rw (crashed, named, applied, prepared, saving, starting) refl,
        ap from_option (get_elem?-set_self cfg'.rafts i (some new) in_rafts),
      )

  -- Starting a peer that runs already does not panic, whatever the peer has done since it first
  -- started: the new peer has the term, the vote and the log of the old one. This is so where the
  -- harness's lists have an entry for each peer, and the peer's snapshot, if it has one, is one
  -- that the harness has made.
  pub restart_keeps_peer :
      (randstring : ℕ → String) (k i : ℕ) (rf : Raft C) (cl : Cluster N C)
      → IsSized cl
      → i < cl.cfg.n
      → index cl.cfg.rafts i ≡ ok (some rf)
      → Reach g cl.cfg.n i rf
      → SnapshotFits gs rf.persister.snapshot
      → (cl' : Cluster N C) × (rf' : Raft C) × (start1 nw g gs randstring k i cl ≡ ok cl')
        × (index cl'.cfg.rafts i ≡ ok (some rf'))
        × (rf'.current_term ≡ rf.current_term)
        × (rf'.voted_for ≡ rf.voted_for)
        × (rf'.log ≡ rf.log)
  restart_keeps_peer randstring k i rf cl w lt at reach fits =
      let (cl', started, new_at) = start1_total randstring k i rf cl w lt at fits in
      let (_, term_is, vote_is, log_is) =
        make-durable g cl.cfg.n i rf (Reach-IsDurable g cl.cfg.n i reach) in
      (cl', make g cl.cfg.n i rf.persister, started, new_at, term_is, vote_is, log_is)
