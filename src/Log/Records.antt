-- ===== src/Log/Records.antt =====
-- Reading a log by index.
use logic_raft.Base.{
  ◌⊎◌, inl, inr, ℕ, ◌+◌, ◌-◌, ◌<◌, ◌≤◌, ◌≡◌, ap, [], ◌∷◌, ok, panic, arith, length, index,
  from_option, get_elem?-some, get_elem?-none, get_elem?-append_left, get_elem?-append_right,
  length-append, lt→ltb, le→ltb, >>=-eq-ok, index-lt,
}
use mathlib.Core.Path.{◌∙◌}
use native.Mathlib.Decide.{dec_lt}
use logic_raft.Log.{LogRecord, Log, append, get, size, last_log_term}

module _ {C : Type 0} (log : Log C) where
  pub get_at : (i j : ℕ) → i ≡ log.base + j → get log i ≡ index log.records j
  unfolding get
  get_at i j e = rw (le→ltb i log.base (omega arith)) (ap (index log.records) (omega arith))

  -- A log is read without a panic exactly between its base and its size.
  pub get_ok : (i : ℕ) → log.base ≤ i → i < size log → (r : LogRecord C) × (get log i ≡ ok r)
  unfolding size
  get_ok i h k =
      let (r, e) = get_elem?-some log.records (i - log.base) (omega arith) in
      (r, get_at i (i - log.base) (omega arith) ∙ ap from_option e)

  pub get_below : (i : ℕ) → i < log.base → get log i ≡ panic
  unfolding get
  get_below i h = rw (lt→ltb i log.base h)

  pub get_beyond : (i : ℕ) → size log ≤ i → get log i ≡ panic
  unfolding size
  get_beyond i h =
      get_at i (i - log.base) (omega arith)
      ∙ ap from_option (get_elem?-none log.records (i - log.base) (omega arith))

  pub get_in_range : (i : ℕ) (r : LogRecord C) → get log i ≡ ok r → (log.base ≤ i) × (i < size log)
  get_in_range i r h = elim (dec_lt i log.base) [
    | yes p ↦ cc (get_below i p)
    | no p ↦ elim (dec_lt i (size log)) [
      | yes q ↦ (omega arith, q)
      | no q ↦ cc (get_beyond i (omega arith))
    ]
  ]

  pub get_panic : (i : ℕ) → get log i ≡ panic → (i < log.base) ⊎ (size log ≤ i)
  get_panic i e = elim (dec_lt i log.base) [
    | yes p ↦ inl p
    | no p ↦ elim (dec_lt i (size log)) [
      | yes q ↦ let (r, found) = get_ok i (omega arith) q in cc
      | no q ↦ inr (omega arith)
    ]
  ]

  pub first_record : 0 < length log.records → (r : LogRecord C) × (index log.records 0 ≡ ok r)
  first_record h = let (r, e) = get_elem?-some log.records 0 h in (r, ap from_option e)

  pub last_log_term_ok : 0 < length log.records → (t : ℕ) × (last_log_term log ≡ ok t)
  unfolding last_log_term
  last_log_term_ok h =
      let (r, e) = get_elem?-some log.records (length log.records - 1) (omega arith) in
      (r.term, rw e)

  -- The last record is the one before the size.
  pub last_log_term-get :
      (t : ℕ)
      → last_log_term log ≡ ok t
      → (r : LogRecord C) × (get log (size log - 1) ≡ ok r) × (r.term ≡ t)
  unfolding last_log_term size
  last_log_term-get t h =
      let n = length log.records - 1 in
      let (r, e, f) = >>=-eq-ok (index log.records n) _ h in
      (
        r,
        get_at (log.base + length log.records - 1) n (omega (arith, index-lt log.records n r e))
            ∙ e,
        ground (arith, f),
      )

  pub size-append : (lr : LogRecord C) → size (append log lr) ≡ size log + 1
  unfolding size append
  size-append lr = omega (arith, length-append log.records (lr ∷ []))

module _ {C : Type 0} (log : Log C) where
  pub get-append_left :
      (lr : LogRecord C) (i : ℕ) → i < size log → get (append log lr) i ≡ get log i
  unfolding get size append
  get-append_left lr i h =
      ground (arith, get_elem?-append_left log.records (lr ∷ []) (i - log.base))

  pub get-append_self : (lr : LogRecord C) → get (append log lr) (size log) ≡ ok lr
  unfolding get size append
  get-append_self lr = ground (
    arith,
    get_elem?-append_right log.records (lr ∷ []) (log.base + length log.records - log.base) 0,
  )
