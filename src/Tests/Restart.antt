-- ===== src/Tests/Restart.antt =====
-- A peer that is stopped and started again by the harness.
use Prim.Native.String.{String}
use logic_raft.Base.{
  ℕ, zero, suc, ◌≡◌, ◌⊎◌, inl, inr, refl, true, false, Bool, Option, none, some, List, [], ◌∷◌, ok,
  arith, index, length,
}
use logic_raft.Base.Dict.{string_key}
use logic_raft.Persister.{make_persister}
use logic_raft.Raft.{Raft}
use logic_raft.Raft.Peer.{make}
use logic_raft.Raft.Step.{here}
use logic_raft.Harness.Snapshots.{SnapValue, included, commands}
use logic_raft.Harness.Servers.{Cluster, start1}
use logic_raft.Harness.Crash.{IsSized}
use logic_raft.Harness.Restart.{restart_keeps_peer}
use logic_raft.Tests.Coder.{through, either, number, list, option, gob_of}
use logic_raft.Tests.Codec.{codec}
use logic_raft.Tests.States.{new_peer}
use logic_raft.Gob.{Gob}
use logic_raft.Tests.Servers.{switchboard}

-- The encoder of the harness's snapshots.
abbrev of_snap : SnapValue ℕ → ℕ ⊎ List (Option ℕ)
of_snap (included n) = inl n
of_snap (commands xs) = inr xs

abbrev to_snap : ℕ ⊎ List (Option ℕ) → SnapValue ℕ
to_snap (inl n) = included n
to_snap (inr xs) = commands xs

to_snap-of_snap : (v : SnapValue ℕ) → to_snap (of_snap v) ≡ v
to_snap-of_snap (included n) = refl
to_snap-of_snap (commands xs) = refl

unfoldable snap_codec : Gob (SnapValue ℕ)
snap_codec = gob_of (through of_snap to_snap to_snap-of_snap (either number (list (option number))))

abbrev cluster : Cluster (String → Bool) ℕ
cluster = record {
  cfg = record {
    n = 3;
    rafts = some new_peer ∷ none ∷ none ∷ [];
    apply_err = none ∷ none ∷ none ∷ [];
    connected = true ∷ true ∷ true ∷ [];
    saved = none ∷ none ∷ none ∷ [];
    logs = [] ∷ [] ∷ [] ∷ [];
    last_applied = 0 ∷ 0 ∷ 0 ∷ [];
    max_index = 0;
  };
  net = λ _. false;
  endnames = some ("00" ∷ "01" ∷ "02" ∷ []) ∷ none ∷ none ∷ [];
}

cluster_rows :
    (i : ℕ) (row : List String) → index cluster.endnames i ≡ ok (some row) → length row ≡ 3
cluster_rows zero row e = ground arith
cluster_rows (suc zero) row e = cc
cluster_rows (suc (suc zero)) row e = cc
cluster_rows (suc (suc (suc i))) row e = cc

cluster-IsSized : IsSized cluster
cluster-IsSized = record {
  connected = refl;
  rafts = refl;
  saved = refl;
  logs = refl;
  last_applied = refl;
  rows = refl;
  names = cluster_rows;
}

nothing_saved : new_peer.persister.snapshot ≡ []
unfolding make make_persister
nothing_saved = refl

restart_keeps_peer_example :
    (cl' : Cluster (String → Bool) ℕ) × (rf' : Raft ℕ) × (start1 switchboard codec snap_codec
        (λ _. "x")
        0
        0
        cluster
      ≡ ok cl')
    × (index cl'.cfg.rafts 0 ≡ ok (some rf'))
    × (rf'.current_term ≡ new_peer.current_term)
    × (rf'.voted_for ≡ new_peer.voted_for)
    × (rf'.log ≡ new_peer.log)
restart_keeps_peer_example =
    restart_keeps_peer switchboard codec snap_codec (λ _. "x") 0 0 new_peer cluster cluster-IsSized
      (omega arith) refl here (inl nothing_saved)
