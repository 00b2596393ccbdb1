-- ===== src/Raft/Replication/Convergence.antt =====
-- A leader that keeps sending to a peer that answers brings the peer's log to its own.
pub mod Refusal
pub mod Round
pub mod Rounds
use mathlib.Core.Path.{◌∙◌}
use native.Mathlib.Decide.{dec_lt, ℕ_discrete}
use logic_raft.Base.{
  ◌==◌, if◌then◌else◌, ℕ, zero, suc, ◌+◌, ◌-◌, ◌*◌, ◌<◌, ◌≤◌, ◌≡◌, ◌≢◌, ◌⊎◌, refl, sym, ap, true,
  false, some, List, [], ◌∷◌, Result, ok, panic, arith, length, index, inl, inr, Result-cases,
  Bool-cases, leb, ltb, slice_from_ok, drop, from_option, get_elem?-some, put, put_ok, set,
  length-set,
}
use logic_raft.Log.{LogRecord, Log, get, size, first_log_for}
use logic_raft.Log.Records.{get_at, get_in_range, get_ok}
use logic_raft.Log.Terms.{FromTerm, FromTerm-mono, first_log_for_exact}
use logic_raft.Gob.{Gob}
use logic_raft.Raft.{Raft, Value, Clock, leader, signal}
use logic_raft.Raft.Majority.Exact.{count_ge, majority_exact}
use logic_raft.Raft.Messages.{AppendEntriesArgs, AppendEntriesReply, append_entries_rpc}
use logic_raft.Raft.Replication.{
  message_for, append_entries, handle_append_reply, next_after_conflict, advance_commit,
}
use logic_raft.Raft.Replication.Outcomes.{append_entries-Checked, append_entries_panic}
use logic_raft.Raft.Replication.Transfer.{accepted_log_is_leaders}
use logic_raft.Raft.Replication.Backtrack.{first_log_for-le}
use logic_raft.Raft.Replication.Exchange.{exchange, exchanges}

-- A log that begins with the dummy record, and whose other records have real terms that do not
-- fall.
pub record IsWhole {C : Type 0} (log : Log C) : Type 0 where
  pub base : log.base ≡ 0
  pub first : LogRecord C
  pub first_at : get log 0 ≡ ok first
  pub first_term : first.term ≡ 0
  pub sorted : FromTerm 0 log.records
  pub real : (i : ℕ) (r : LogRecord C) → 0 < i → get log i ≡ ok r → 0 < r.term

-- An index that more than half of the peers match is not above every one of them.
counted_below :
    (v bound : ℕ) (xs : List ℕ)
    → ((i x : ℕ) → index xs i ≡ ok x → x < bound)
    → 0 < count_ge v xs
    → v < bound
counted_below v bound [] h pos = absurd (omega arith)
counted_below v bound (x ∷ xs) h pos = elim (dec_lt x v) [
  | yes lt ↦ counted_below v bound xs (λ i y e. h (suc i) y e) (ground arith)
  | no ge ↦ omega (arith, h 0 x refl)
]

module _ {C : Type 0} where
  -- The records of a term come from one leader: where the leader's log has a record of the term of
  -- a record of the other log, at its index or after it, the logs agree up to that index.
  abbrev pub Matching : Log C → Log C → Type 0
  Matching own other =
      (p k : ℕ) (r r' : LogRecord C)
      → p ≤ k
      → get other p ≡ ok r
      → get own k ≡ ok r'
      → r.term ≡ r'.term
      → (i : ℕ) → i ≤ p
      → get other i ≡ get own i

  -- What the leader sends.
  abbrev pub args_for : ℕ → ℕ → LogRecord C → Raft C → AppendEntriesArgs C
  args_for peer prev r rf = record {
    term = rf.current_term;
    leader_id = rf.me;
    prev_log_index = prev;
    prev_log_term = r.term;
    entries = drop (prev + 1) rf.log.records;
    leader_commit = rf.commit_index;
  }

  pub message_for-args :
      (peer prev : ℕ) (r : LogRecord C) (rf : Raft C)
      → rf.log.base ≡ 0
      → index rf.next_index peer ≡ ok (suc prev)
      → get rf.log prev ≡ ok r
      → message_for peer rf ≡ ok (append_entries_rpc (args_for peer prev r rf))
  unfolding message_for size
  message_for-args peer prev r rf b n at =
      let (above, below) = get_in_range rf.log prev r at in
      let low : leb (suc prev) rf.log.base ≡ false = ground arith in
      let e : suc prev - 1 ≡ prev = omega arith in
      let e' : prev + 1 - rf.log.base ≡ prev + 1 = omega arith in
      let rest = slice_from_ok rf.log.records (prev + 1) (omega (arith, below)) in
      rw n (rw low (rw e (rw at (rw e' (rw rest refl)))))

  pub advance_commit_total :
      (rf : Raft C)
      → rf.log.base ≡ 0
      → 0 < length rf.match_index
      → ((i x : ℕ) → index rf.match_index i ≡ ok x → x < size rf.log)
      → (rf' : Raft C) × (advance_commit rf ≡ ok rf')
        × (rf'.log ≡ rf.log)
        × (rf'.match_index ≡ rf.match_index)
  unfolding advance_commit
  advance_commit_total rf b pos bounded =
      let (m, e, more, _) = majority_exact rf pos in
      let low = counted_below m (size rf.log) rf.match_index bounded (omega arith) in
      let (r, at) = get_ok rf.log m (omega arith) low in
      (
        (if ltb rf.commit_index m
            then (if r.term == rf.current_term then signal (record rf { commit_index = m }) else rf)
            else rf),
        ground (arith, e, at),
        ground arith,
        ground arith,
      )

  -- A leader and a peer that it can bring up to date: where the leader goes on is in its log.
  pub record Ready (peer next : ℕ) (lead other : Raft C) : Type 0 where
    pub role : lead.role ≡ leader
    pub whole : IsWhole lead.log
    pub other_whole : IsWhole other.log
    pub terms : other.current_term ≤ lead.current_term
    pub matching : Matching lead.log other.log
    pub next_at : index lead.next_index peer ≡ ok next
    pub next_pos : 0 < next
    pub next_le : next ≤ size lead.log
    pub known : peer < length lead.match_index
    pub bounded : (i x : ℕ) → index lead.match_index i ≡ ok x → x < size lead.log

  pub IsWhole-nonempty : (log : Log C) → IsWhole log → 0 < length log.records
  unfolding size
  IsWhole-nonempty log w = omega (arith, w.base, get_in_range log 0 w.first w.first_at)
