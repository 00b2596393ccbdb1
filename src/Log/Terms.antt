-- ===== src/Log/Terms.antt =====
-- `firstLogFor`: what the loop finds, and where.
use mathlib.Core.Path.{◌∙◌}
use logic_raft.Base.{
  sym, ℕ, zero, suc, ◌+◌, ◌-◌, ◌<◌, ◌≤◌, ◌≡◌, ◌⊎◌, refl, List, [], ◌∷◌, ok, arith, index,
  Bool-cases, inl, inr, ◌==◌, ltb,
}
use logic_raft.Log.{LogRecord, Log, get, first_log_from, first_log_for}
use logic_raft.Log.Records.{get_at}

module _ {C : Type 0} where
  -- Terms do not fall along the slice.
  abbrev pub FromTerm : ℕ → List (LogRecord C) → Type 0
  FromTerm t [] = Unit
  FromTerm t (r ∷ rs) = (t ≤ r.term) × FromTerm r.term rs

  FromTerm-index :
      (t j : ℕ) (rs : List (LogRecord C)) (r : LogRecord C)
      → FromTerm t rs
      → index rs j ≡ ok r
      → t ≤ r.term
  FromTerm-index t j [] r s h = cc
  FromTerm-index t zero (r₀ ∷ rs) r s h = ground arith
  FromTerm-index t (suc j) (r₀ ∷ rs) r s h = omega (arith, s.0, FromTerm-index r₀.term j rs r s.1 h)

  -- Terms do not fall from one position to a later one.
  pub FromTerm-mono :
      (t i j : ℕ) (rs : List (LogRecord C)) (r r' : LogRecord C)
      → FromTerm t rs
      → i ≤ j
      → index rs i ≡ ok r
      → index rs j ≡ ok r'
      → r.term ≤ r'.term
  FromTerm-mono t i j [] r r' s h e e' = cc
  FromTerm-mono t zero zero (r₀ ∷ rs) r r' s h e e' = ground arith
  FromTerm-mono t zero (suc j) (r₀ ∷ rs) r r' s h e e' =
      ground (arith, FromTerm-index r₀.term j rs r' s.1 e')
  FromTerm-mono t (suc i) zero (r₀ ∷ rs) r r' s h e e' = absurd (omega arith)
  FromTerm-mono t (suc i) (suc j) (r₀ ∷ rs) r r' s h e e' =
      FromTerm-mono r₀.term i j rs r r' s.1 (omega arith) e e'

  -- The loop goes no further than a record of the term.
  pub first_log_from-le :
      (term idx j : ℕ) (rs : List (LogRecord C)) (r : LogRecord C)
      → index rs j ≡ ok r
      → r.term ≡ term
      → first_log_from term idx rs ≤ idx + j
  unfolding first_log_from
  first_log_from-le term idx j [] r h e = cc
  first_log_from-le term idx zero (r₀ ∷ rs) r h e = ground arith
  first_log_from-le term idx (suc j) (r₀ ∷ rs) r h e =
      ground (arith, first_log_from-le term (suc idx) j rs r h e)

  -- A result other than 0 is the position of a record of the term.
  pub first_log_from-found :
      (term idx : ℕ) (rs : List (LogRecord C))
      → (first_log_from term idx rs ≡ 0)
        ⊎ ((k : ℕ) × (r : LogRecord C) × (first_log_from term idx rs ≡ idx + k)
            × (index rs k ≡ ok r)
            × (r.term ≡ term))
  unfolding first_log_from
  first_log_from-found term idx [] = inl refl
  first_log_from-found term idx (r ∷ rs) = elim (Bool-cases (r.term == term)) [
    | inl e ↦ inr (0, r, ground (arith, e), refl, ground (arith, e))
    | inr e ↦ elim (Bool-cases (ltb term r.term)) [
      | inl f ↦ inl (rw (e, f))
      | inr f ↦ elim (first_log_from-found term (suc idx) rs) [
        | inl h ↦ inl (rw (e, f) h)
        | inr (k, r', h, at, same) ↦ inr (suc k, r', rw (e, f) (omega (arith, h)), at, same)
      ]
    ]
  ]

  -- Where the terms do not fall, no record of the term comes before the result.
  first_log_from-first :
      (term idx t j : ℕ) (rs : List (LogRecord C)) (r : LogRecord C)
      → FromTerm t rs
      → 0 < idx
      → index rs j ≡ ok r
      → r.term ≡ term
      → (0 < first_log_from term idx rs) × (first_log_from term idx rs ≤ idx + j)
  unfolding first_log_from
  first_log_from-first term idx t j [] r s pos h e = cc
  first_log_from-first term idx t zero (r₀ ∷ rs) r s pos h e = ground arith
  first_log_from-first term idx t (suc j) (r₀ ∷ rs) r s pos h e = ground (
    arith,
    FromTerm-index r₀.term j rs r s.1 h,
    first_log_from-first term (suc idx) r₀.term j rs r s.1 (omega arith) h e,
  )

  first_log_from_start :
      (term j : ℕ) (records : List (LogRecord C)) (r : LogRecord C)
      → FromTerm 0 records
      → index records (suc j) ≡ ok r
      → r.term ≡ term
      → ((0 < first_log_from term 0 records) × (first_log_from term 0 records ≤ suc j))
        ⊎ ((first : LogRecord C) × (index records 0 ≡ ok first)
            × (first.term ≡ term)
            × (first_log_from term 0 records ≡ 0))
  unfolding first_log_from
  first_log_from_start term j [] r s h e = cc
  first_log_from_start term j (r₀ ∷ rs) r s h e = elim (Bool-cases (r₀.term == term)) [
    | inl same ↦ inr (r₀, refl, ground (arith, same), rw same)
    | inr other ↦ inl (
        ground (
          arith,
          other,
          FromTerm-index r₀.term j rs r s.1 h,
          first_log_from-first term 1 r₀.term j rs r s.1 (omega arith) h e,
        ))
  ]

  -- In a log whose terms do not fall, a result other than 0 is the distance from the base of a
  -- record of the term, and no other record of the term after the base comes before it. If there
  -- is a record of the term after the base, the result is 0 only where the first record of the log
  -- has the term as well.
  pub first_log_for_exact :
      (log : Log C) (term : ℕ)
      → FromTerm 0 log.records
      → (0 < first_log_for log term
          → (r : LogRecord C) × (get log (log.base + first_log_for log term) ≡ ok r)
            × (r.term ≡ term))
        × ((i : ℕ) (r : LogRecord C)
            → log.base < i
            → get log i ≡ ok r
            → r.term ≡ term
            → ((0 < first_log_for log term) × (log.base + first_log_for log term ≤ i))
              ⊎ ((first : LogRecord C) × (get log log.base ≡ ok first)
                  × (first.term ≡ term)
                  × (first_log_for log term ≡ 0)))
  unfolding first_log_for
  first_log_for_exact log term s = (
    λ pos. elim (first_log_from-found term 0 log.records) [
      | inl none_found ↦ absurd (omega arith)
      | inr (k, r, e, at, same) ↦ (r, get_at log _ k (omega (arith, e)) ∙ at, same)
    ],
    λ i r after at same.
        let j = i - log.base - 1 in
        elim (first_log_from_start term j log.records r s
          (sym (get_at log i (suc j) (omega arith)) ∙ at) same) [
            | inl (pos, before) ↦ inl (pos, omega arith)
            | inr (first, first_at, first_same, zero_found) ↦
                inr (first, get_at log log.base 0 (omega arith) ∙ first_at, first_same, zero_found)
          ],
  )
