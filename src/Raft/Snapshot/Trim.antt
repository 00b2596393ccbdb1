-- ===== src/Raft/Snapshot/Trim.antt =====
-- What is left of a log after it is cut behind a snapshot.
use mathlib.Core.Path.{◌∙◌}
use mathlib.Core.List.{append-nil, append_assoc}
use native.Mathlib.Decide.{dec_lt}
use logic_raft.Base.{
  ℕ, zero, suc, ◌+◌, ◌-◌, ◌<◌, ◌≤◌, ◌≡◌, sym, ap, List, [], ◌∷◌, ◌++◌, ok, arith, drop, from_option,
  get_elem?-drop, length-drop, drop_beyond, drop_at, get_elem?_of_index,
}
use logic_raft.Log.{LogRecord, Log, dummy, append, copy, get, size}
use logic_raft.Log.Records.{get_at, get_ok}
use logic_raft.Raft.Snapshot.{copy_records, trim}

module _ {C : Type 0} where
  drop_next :
      (log : Log C) (i : ℕ) (r : LogRecord C) (front : List (LogRecord C))
      → log.base ≤ i
      → get log i ≡ ok r
      → (front ++ r ∷ []) ++ drop (suc i - log.base) log.records
        ≡ front ++ drop (i - log.base) log.records
  drop_next log i r front h at =
      let at' = sym (get_at log i (i - log.base) (omega arith)) ∙ at in
      let e : suc i - log.base ≡ suc (i - log.base) = omega arith in
      rw (e, drop_at (i - log.base) log.records r (get_elem?_of_index log.records _ r at'))
        (append_assoc front (r ∷ []) (drop (suc (i - log.base)) log.records))

  copy_records_exact :
      (left i : ℕ) (log new_log : Log C)
      → log.base ≤ i
      → i + left ≡ size log
      → copy_records left i log new_log
        ≡ ok (record new_log { records = new_log.records ++ drop (i - log.base) log.records })
  unfolding copy_records size append copy
  copy_records_exact zero i log new_log h e =
      rw (drop_beyond (i - log.base) log.records (omega arith), append-nil new_log.records)
  copy_records_exact (suc left) i log new_log h e =
      let (r, at) = get_ok log i h (unfold size in omega arith) in
      rw at (
        copy_records_exact left (suc i) log (append new_log (copy r)) (omega arith) (omega arith)
        ∙ ap (λ (rs : List (LogRecord C)). ok (record new_log { records = rs }))
            (drop_next log i r new_log.records h at))

  -- The log after the cut: the dummy record, and the records behind it.
  abbrev pub trimmed : ℕ → ℕ → Log C → Log C
  trimmed index term log = record {
    records = dummy term ∷ drop (index + 1 - log.base) log.records;
    base = index;
  }

  pub trim_exact :
      (index term : ℕ) (log : Log C)
      → log.base ≤ index
      → trim index term log ≡ ok (trimmed index term log)
  unfolding trim
  trim_exact index term log h = elim (dec_lt index (size log)) [
    | yes p ↦
        copy_records_exact (size log - (index + 1)) (index + 1) log _ (omega arith) (omega arith)
    | no p ↦
        let zero_left : size log - (index + 1) ≡ 0 = omega arith in
        rw (zero_left, drop_beyond (index + 1 - log.base) log.records (unfold size in omega arith))
  ]

module _ {C : Type 0} (index term : ℕ) (log : Log C) (above : log.base ≤ index) where
  pub get-trimmed_first : get (trimmed index term log) index ≡ ok (dummy term)
  get-trimmed_first = get_at (trimmed index term log) index 0 (omega arith)

  -- Behind the cut nothing has changed.
  pub get-trimmed : (i : ℕ) → index < i → get (trimmed index term log) i ≡ get log i
  get-trimmed i h =
      let j = i - index - 1 in
      get_at (trimmed index term log) i (suc j) (omega arith)
      ∙ ap from_option (
          get_elem?-drop (index + 1 - log.base) j (i - log.base) log.records (omega (arith, above)))
      ∙ sym (get_at log i (i - log.base) (omega (arith, above)))

  pub size-trimmed : index < size log → size (trimmed index term log) ≡ size log
  unfolding size
  size-trimmed h = omega (arith, above, length-drop (index + 1 - log.base) log.records)

  pub size-trimmed_all : size log ≤ index → size (trimmed index term log) ≡ index + 1
  unfolding size
  size-trimmed_all h = omega (arith, above, length-drop (index + 1 - log.base) log.records)
