-- ===== src/Log/Splice.antt =====
-- A log whose records after one index are replaced, as AppendEntries does.
use mathlib.Core.Path.{◌∙◌}
use logic_raft.Base.{
  ℕ, ◌+◌, ◌-◌, ◌<◌, ◌≤◌, ◌≡◌, ap, List, ◌++◌, arith, length, index, from_option, take,
  get_elem?-append_left, get_elem?-append_right, length-append, get_elem?-take, length-take_of_le,
}
use logic_raft.Log.{LogRecord, Log, get, size}
use logic_raft.Log.Records.{get_at}

module _ {C : Type 0} where
  -- log.Records = append(log.Records[:prev+1-log.Base], entries...)
  abbrev pub splice : Log C → ℕ → List (LogRecord C) → Log C
  splice log prev es = record log { records = take (prev + 1 - log.base) log.records ++ es }

module _ {C : Type 0} (log : Log C) (prev : ℕ) (es : List (LogRecord C)) (above : log.base ≤ prev)
    (below : prev < size log) where
  length-kept : length (take (prev + 1 - log.base) log.records) ≡ prev + 1 - log.base
  unfolding size
  length-kept = length-take_of_le (prev + 1 - log.base) log.records (omega (arith, below))

  pub size-splice : size (splice log prev es) ≡ prev + 1 + length es
  unfolding size
  size-splice =
      omega (arith, above, length-kept, length-append (take (prev + 1 - log.base) log.records) es)

  pub get-splice_kept : (i : ℕ) → i ≤ prev → get (splice log prev es) i ≡ get log i
  unfolding get
  get-splice_kept i h = ground (
    arith,
    above,
    length-kept,
    get_elem?-append_left (take (prev + 1 - log.base) log.records) es (i - log.base),
    get_elem?-take (prev + 1 - log.base) (i - log.base) log.records,
  )

  pub get-splice_new : (j : ℕ) → get (splice log prev es) (prev + 1 + j) ≡ index es j
  get-splice_new j =
      get_at (splice log prev es) (prev + 1 + j) (prev + 1 + j - log.base) (omega (arith, above))
      ∙ ap from_option (
          get_elem?-append_right (take (prev + 1 - log.base) log.records) es
            (prev + 1 + j - log.base) j (omega (arith, above, length-kept)))
