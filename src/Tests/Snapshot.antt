-- ===== src/Tests/Snapshot.antt =====
-- Snapshots and the application loop.
use logic_raft.Base.{
  ℕ, ◌+◌, ◌≡◌, ◌<◌, ◌≤◌, refl, false, none, some, List, [], ◌∷◌, ok, arith, length, index,
}
use logic_raft.Log.{LogRecord, dummy, get, size}
use logic_raft.Raft.{Raft, follower, woken, looping}
use logic_raft.Raft.Messages.{InstallSnapshotArgs}
use logic_raft.Raft.Snapshot.{take_snapshot, install_snapshot, snapshot_msg}
use logic_raft.Raft.Snapshot.Install.{take_snapshot_exact, install_snapshot_exact, IsRestored}
use logic_raft.Raft.Application.{apply_step, command_msg}
use logic_raft.Raft.Application.Round.{round_exact, run_steps, messages}
use logic_raft.Raft.Application.Race.{snapshot_renames_command}
use logic_raft.Tests.Codec.{codec}
use logic_raft.Tests.States.{leading, trimmed_peer}

-- Two records are committed, and none is applied.
abbrev ready : Raft ℕ
ready = record leading { commit_index = 2; applier = woken }

abbrev snapshot_at : ℕ → InstallSnapshotArgs
snapshot_at i = record {
  term = 4;
  leader_id = 1;
  last_included_index = i;
  last_included_term = 2;
  offset = 0;
  bytes = some (9 ∷ []);
  done = false;
}

take_snapshot_exact_example :
    (last : LogRecord ℕ) × (rf' : Raft ℕ) × (get ready.log 1 ≡ ok last)
    × (take_snapshot codec 1 (some (9 ∷ [])) ready ≡ ok rf')
    × (rf'.log.base ≡ 1)
    × (get rf'.log 1 ≡ ok (dummy last.term))
    × ((i : ℕ) → 1 < i → get rf'.log i ≡ get ready.log i)
    × (size rf'.log ≡ size ready.log)
    × (rf'.persister.snapshot ≡ 9 ∷ [])
    × (rf'.current_term ≡ ready.current_term)
    × (rf'.voted_for ≡ ready.voted_for)
    × (rf'.commit_index ≡ ready.commit_index)
take_snapshot_exact_example =
    take_snapshot_exact codec 1 (9 ∷ []) ready (omega arith) (omega arith)
      (unfold size in omega arith)

install_snapshot_exact_example :
    (rf' : Raft ℕ) × (install_snapshot codec (snapshot_at 6) trimmed_peer
      ≡ ok (record { term = 3 }, some (snapshot_msg {C = ℕ} (snapshot_at 6)), rf'))
    × (rf'.log.base ≡ 6)
    × (get rf'.log 6 ≡ ok (dummy 2))
    × ((i : ℕ) → 6 < i → get rf'.log i ≡ get trimmed_peer.log i)
    × ((6 ≤ rf'.commit_index) × (trimmed_peer.commit_index ≤ rf'.commit_index))
    × ((6 ≤ rf'.last_applied) × (trimmed_peer.last_applied ≤ rf'.last_applied))
    × (rf'.persister.snapshot ≡ 9 ∷ [])
    × IsRestored codec rf'
    × (rf'.current_term ≡ 4)
    × (rf'.role ≡ follower)
install_snapshot_exact_example =
    install_snapshot_exact codec (snapshot_at 6) (9 ∷ []) trimmed_peer (omega arith) (omega arith)
      refl

round_exact_example :
    (es : List (LogRecord ℕ)) × (run_steps 4 ready
      ≡ ok (messages 1 es, record ready { last_applied = 2; applier = looping }))
    × (length es ≡ 2)
    × ((j : ℕ) → j < 2 → index es j ≡ get ready.log (1 + j))
round_exact_example =
    round_exact ready refl (omega arith) (omega arith) (unfold size in omega arith)

snapshot_renames_command_example :
    (r : LogRecord ℕ) × (woke : Raft ℕ) × (cut : Raft ℕ) × (later : Raft ℕ) × (get ready.log 1
      ≡ ok r)
    × (apply_step ready ≡ ok (none, woke))
    × (install_snapshot codec (snapshot_at 6) woke
        ≡ ok (record { term = 3 }, some (snapshot_msg {C = ℕ} (snapshot_at 6)), cut))
    × (apply_step cut ≡ ok (some (command_msg r 7), later))
snapshot_renames_command_example =
    snapshot_renames_command codec (snapshot_at 6) ready refl (omega arith) (omega arith)
      (unfold size in omega arith) (omega arith) (omega arith) (omega arith)
