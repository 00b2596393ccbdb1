-- ===== src/Log.antt =====
-- src/raft/log.go: the log of a peer. `records` is the Go slice `Records`, whose first record is a
-- dummy that stands for the last record of the snapshot, and `base` is the index of that record.
-- A command is an `interface{}`: a type parameter `C`, and `none` for nil.
pub mod Records
pub mod Terms
pub mod Splice
use logic_raft.Base.{
  ℕ, suc, ◌+◌, ◌-◌, Bool, false, Option, none, List, [], ◌∷◌, ◌++◌, Result, ok, panic, ◌>>=◌, ltb,
  ◌==◌, if◌then◌else◌, length, index,
}

pub record LogRecord (C : Type 0) : Type 0 where
  pub term : ℕ
  pub command_valid : Bool
  pub command : Option C

-- A Go int index; a negative one does not occur in a log.
pub record Log (C : Type 0) : Type 0 where
  pub records : List (LogRecord C)
  pub base : ℕ

-- raft.go: InvalidTerm and InvalidIndex
abbrev pub invalid_term : ℕ
invalid_term = 0

abbrev pub invalid_index : ℕ
invalid_index = 0

-- LogRecord{Term: term}
abbrev pub dummy : {C : Type 0} → ℕ → LogRecord C
dummy term = record { term = term; command_valid = false; command = none }

-- The text of `logString`, one line for each run of records of a term.
pub record Span : Type 0 where
  pub start : ℕ
  pub end : ℕ
  pub term : ℕ

module _ {C : Type 0} where
  unfoldable pub copy : LogRecord C → LogRecord C
  copy r = record { term = r.term; command_valid = r.command_valid; command = r.command }

  unfoldable pub append : Log C → LogRecord C → Log C
  append log lr = record log { records = log.records ++ lr ∷ [] }

  -- `i - log.Base` is negative, and the index out of range, if i is below the base.
  unfoldable pub get : Log C → ℕ → Result (LogRecord C)
  get log i = if ltb i log.base then panic else index log.records (i - log.base)

  unfoldable pub size : Log C → ℕ
  size log = log.base + length log.records

  -- On no records the index is -1: a panic, as `index [] 0` is.
  unfoldable pub last_log_term : Log C → Result ℕ
  last_log_term log = do r ← index log.records (length log.records - 1); ok r.term

  -- The loop of `firstLogFor`, at position `idx` of the slice.
  unfoldable pub first_log_from : ℕ → ℕ → List (LogRecord C) → ℕ
  first_log_from term idx [] = invalid_index
  first_log_from term idx (r ∷ rs) =
      let rest = first_log_from term (suc idx) rs in
      if r.term == term then idx else if ltb term r.term then invalid_index else rest

  unfoldable pub first_log_for : Log C → ℕ → ℕ
  unfolding first_log_from
  first_log_for log term = first_log_from term 0 log.records

  -- The loop of `logString` at position `i`, with `prevTerm` and `prevStart`.
  unfoldable pub spans_from : ℕ → ℕ → ℕ → List (LogRecord C) → ℕ → List Span
  spans_from i prev_term prev_start [] last =
      record { start = prev_start; end = last; term = prev_term } ∷ []
  spans_from i prev_term prev_start (r ∷ rs) last =
      let same = spans_from (suc i) prev_term prev_start rs last in
      let next =
        record { start = prev_start; end = i - 1; term = prev_term }
        ∷ spans_from (suc i) r.term i rs last in
      if r.term == prev_term then same else next

  unfoldable pub log_string : Log C → Result (List Span)
  unfolding spans_from size
  log_string log = do
    first ← index log.records 0
    ok (spans_from 0 first.term 0 log.records (size log - 1))
