-- ===== src/Raft/Snapshot/Install.antt =====
-- What the two methods that cut the log do to a peer.
use logic_raft.Base.{
  ℕ, ◌<◌, ◌≤◌, ◌≡◌, ◌⊎◌, inl, refl, Option, none, some, ok, arith, ltb, if◌then◌else◌,
}
use logic_raft.Log.{LogRecord, dummy, get, size}
use logic_raft.Gob.{Gob}
use logic_raft.Persister.{Bytes}
use logic_raft.Raft.{Raft, Value, follower}
use logic_raft.Raft.Peer.{make}
use logic_raft.Raft.Step.Durable.{make-durable}
use logic_raft.Raft.Step.Evolves.{IsWritten}
use logic_raft.Raft.Persistence.{persist_locked}
use logic_raft.Raft.Roles.{become_follower_locked}
use logic_raft.Raft.Messages.{InstallSnapshotArgs}
use logic_raft.Raft.Snapshot.{take_snapshot, install_snapshot, snapshot_msg}
use logic_raft.Raft.Snapshot.Trim.{
  trimmed, trim_exact, get-trimmed, get-trimmed_first, size-trimmed,
}
use logic_raft.Log.Records.{get_ok}

module _ {C : Type 0} (g : Gob (Value C)) where
  -- Only a snapshot of a committed index that is not below the last snapshot is taken.
  pub take_snapshot_ignored :
      (index : ℕ) (snapshot : Option Bytes) (rf : Raft C)
      → (rf.commit_index < index) ⊎ (index < rf.log.base)
      → take_snapshot g index snapshot rf ≡ ok rf
  unfolding take_snapshot
  take_snapshot_ignored index snapshot rf h = ground arith

  -- A snapshot of a committed index of the log makes that index the base, with the term that was
  -- there; every record behind it, the size of the log, the term, the vote and the commit index
  -- are as before, and the snapshot is stored.
  pub take_snapshot_exact :
      (index : ℕ) (bytes : Bytes) (rf : Raft C)
      → rf.log.base ≤ index
      → index ≤ rf.commit_index
      → index < size rf.log
      → (last : LogRecord C) × (rf' : Raft C) × (get rf.log index ≡ ok last)
        × (take_snapshot g index (some bytes) rf ≡ ok rf')
        × (rf'.log.base ≡ index)
        × (get rf'.log index ≡ ok (dummy last.term))
        × ((i : ℕ) → index < i → get rf'.log i ≡ get rf.log i)
        × (size rf'.log ≡ size rf.log)
        × (rf'.persister.snapshot ≡ bytes)
        × (rf'.current_term ≡ rf.current_term)
        × (rf'.voted_for ≡ rf.voted_for)
        × (rf'.commit_index ≡ rf.commit_index)
  take_snapshot_exact index bytes rf above committed below =
      let (last, at) = get_ok rf.log index above below in
      let log' = trimmed index last.term rf.log in
      let rf' : Raft C = persist_locked g (some bytes) (record rf { log = log' }) in
      let runs : take_snapshot g index (some bytes) rf ≡ ok rf' =
        unfold take_snapshot in ground (arith, at, trim_exact index last.term rf.log above) in
      unfold persist_locked in
      (
        last,
        rf',
        at,
        runs,
        refl,
        get-trimmed_first index last.term rf.log above,
        get-trimmed index last.term rf.log above,
        size-trimmed index last.term rf.log above below,
        refl,
        refl,
        refl,
        refl,
      )

  pub install_snapshot_ignored :
      (args : InstallSnapshotArgs) (rf : Raft C)
      → (args.term < rf.current_term) ⊎ (args.last_included_index ≤ rf.log.base)
      → (rf' : Raft C) × (install_snapshot g args rf
          ≡ ok (record { term = rf.current_term }, none, rf'))
        × (rf'.log ≡ rf.log)
        × (rf'.commit_index ≡ rf.commit_index)
        × (rf'.last_applied ≡ rf.last_applied)
  unfolding install_snapshot
  install_snapshot_ignored args rf h = (
    (if ltb args.term rf.current_term then rf else become_follower_locked g args.term rf),
    ground arith,
    ground arith,
    ground arith,
    ground arith,
  )

  -- What a snapshot that is newer than the base makes of a peer.
  abbrev pub installed : InstallSnapshotArgs → Raft C → Raft C
  installed args rf =
      let rf₁ = become_follower_locked g args.term rf in
      let index = args.last_included_index in
      persist_locked g args.bytes (record rf₁ {
        log = trimmed index args.last_included_term rf.log;
        commit_index = if ltb rf.commit_index index then index else rf.commit_index;
        last_applied = if ltb rf.last_applied index then index else rf.last_applied;
      })

  pub install_snapshot-installed :
      (args : InstallSnapshotArgs) (rf : Raft C)
      → rf.current_term ≤ args.term
      → rf.log.base < args.last_included_index
      → install_snapshot g args rf
        ≡ ok
            (record { term = rf.current_term }, some (snapshot_msg {C = C} args), installed args rf)
  unfolding install_snapshot
  install_snapshot-installed args rf current newer =
      ground
        (arith, trim_exact args.last_included_index args.last_included_term rf.log (omega arith))

  -- A peer that starts from the storage has the term, the vote and the log.
  abbrev pub IsRestored : Raft C → Type 0
  IsRestored rf =
      (peers me : ℕ)
      → let new : Raft C = make g peers me rf.persister in
        (new.current_term ≡ rf.current_term) × (new.voted_for ≡ rf.voted_for) × (new.log ≡ rf.log)

  IsWritten-IsRestored : (rf : Raft C) → IsWritten g rf → IsRestored rf
  IsWritten-IsRestored rf w peers me =
      let (_, same_term, same_vote, same_log) = make-durable g peers me rf (inl w) in
      (same_term, same_vote, same_log)

  -- A snapshot (whose bytes are not nil) of a current leader that is newer than the base becomes
  -- the base of the log with its term, without a panic; every record behind it is as before; the
  -- commit index and the applied index are no longer behind it; the snapshot is stored, and with it
  -- the state, so that a peer that starts from the storage has the new term, vote and log; and the
  -- snapshot is sent to the service.
  pub install_snapshot_exact :
      (args : InstallSnapshotArgs) (bytes : Bytes) (rf : Raft C)
      → rf.current_term ≤ args.term
      → rf.log.base < args.last_included_index
      → args.bytes ≡ some bytes
      → (rf' : Raft C) × (install_snapshot g args rf
          ≡ ok (record { term = rf.current_term }, some (snapshot_msg {C = C} args), rf'))
        × (rf'.log.base ≡ args.last_included_index)
        × (get rf'.log args.last_included_index ≡ ok (dummy args.last_included_term))
        × ((i : ℕ) → args.last_included_index < i → get rf'.log i ≡ get rf.log i)
        × ((args.last_included_index ≤ rf'.commit_index) × (rf.commit_index ≤ rf'.commit_index))
        × ((args.last_included_index ≤ rf'.last_applied) × (rf.last_applied ≤ rf'.last_applied))
        × (rf'.persister.snapshot ≡ bytes)
        × IsRestored rf'
        × (rf'.current_term ≡ args.term)
        × (rf'.role ≡ follower)
  unfolding persist_locked become_follower_locked
  install_snapshot_exact args bytes rf current newer given =
      let index = args.last_included_index in
      let term = args.last_included_term in
      (
        installed args rf,
        install_snapshot-installed args rf current newer,
        refl,
        get-trimmed_first index term rf.log (omega arith),
        get-trimmed index term rf.log (omega arith),
        ground arith,
        ground arith,
        ground arith,
        IsWritten-IsRestored (installed args rf) refl,
        ground arith,
        ground arith,
      )
