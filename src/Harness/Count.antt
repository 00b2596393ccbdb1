-- ===== src/Harness/Count.antt =====
-- What `nCommitted` counts.
use mathlib.Core.Path.{◌∙◌}
use native.Mathlib.Nat.{add-zero}
use logic_raft.Base.{
  subst, ℕ, zero, suc, ◌+◌, ◌≡◌, ◌<◌, ◌⊎◌, refl, sym, ap, true, Option, none, some, List, [], ◌∷◌,
  ok, arith, length, index, drop, drop_at, drop_beyond, get_elem?-some, from_option, Option-cases,
  inl, inr, ltb, Bool-cases,
}
use logic_raft.Base.Dict.{Key, Dict, lookup, nat_key}
use logic_raft.Harness.{Config, n_committed, n_committed_from}
use logic_raft.Harness.Agreement.{Applied, Agree}

module _ {C : Type 0} ⦃eq : Key (Option C)⦄ where
  -- How many servers have applied a command at an index.
  abbrev pub holders : ℕ → List (Dict ℕ (Option C)) → ℕ
  holders at [] = 0
  holders at (log ∷ logs) =
      let rest = holders at logs in elim (lookup at log) [ none ↦ rest | some _ ↦ suc rest ]

  -- A count with a command that a server has applied, or none yet.
  abbrev pub Counted : ℕ → List (Dict ℕ (Option C)) → ℕ → Option C → Type 0
  Counted at logs count cmd = (count ≡ 0) ⊎ ((b : ℕ) × Applied logs b at cmd)

  module _ (i at : ℕ) (cfg : Config C) (log : Dict ℕ (Option C))
      (no_error : index cfg.apply_err i ≡ ok none) (here : index cfg.logs i ≡ ok log) where
    step_absent :
        (left count : ℕ) (cmd : Option C)
        → lookup at log ≡ none
        → n_committed_from (suc left) i at count cmd cfg
          ≡ n_committed_from left (suc i) at count cmd cfg
    unfolding n_committed_from
    step_absent left count cmd e = ground (arith, no_error, here, e)

    step_present :
        (left count : ℕ) (cmd c : Option C)
        → lookup at log ≡ some c
        → (count ≡ 0) ⊎ (cmd ≡ c)
        → n_committed_from (suc left) i at count cmd cfg
          ≡ n_committed_from left (suc i) at (count + 1) c cfg
    unfolding n_committed_from
    step_present left count cmd c e (inl z) = ground (arith, no_error, here, e, z)
    step_present left count cmd c e (inr same) =
        let passes : eq.same cmd c ≡ true = (eq.same_iff cmd c).1 same in
        elim (Bool-cases (ltb 0 count)) [
          | inl positive ↦ ground (arith, no_error, here, e, positive, passes)
          | inr none_yet ↦ ground (arith, no_error, here, e, none_yet)
        ]

  holders_absent :
      (at : ℕ) (log : Dict ℕ (Option C)) (logs : List (Dict ℕ (Option C)))
      → lookup at log ≡ none
      → holders at (log ∷ logs) ≡ holders at logs
  holders_absent at log logs e = ground (arith, e)

  holders_present :
      (at : ℕ) (log : Dict ℕ (Option C)) (logs : List (Dict ℕ (Option C))) (c : Option C)
      → lookup at log ≡ some c
      → holders at (log ∷ logs) ≡ suc (holders at logs)
  holders_present at log logs c e = ground (arith, e)

  agrees :
      (at count b : ℕ) (cmd c : Option C) (logs : List (Dict ℕ (Option C)))
      → Agree logs
      → Counted at logs count cmd
      → Applied logs b at c
      → (count ≡ 0) ⊎ (cmd ≡ c)
  agrees at count b cmd c logs agree (inl z) found = inl z
  agrees at count b cmd c logs agree (inr (a, before)) found = inr (agree a b at cmd c before found)

  count_from :
      (left i at count : ℕ) (cmd : Option C) (cfg : Config C)
      → ((j : ℕ) → j < i + left → index cfg.apply_err j ≡ ok none)
      → length cfg.logs ≡ i + left
      → Agree cfg.logs
      → Counted at cfg.logs count cmd
      → (cmd' : Option C) × (n_committed_from left i at count cmd cfg
          ≡ ok (count + holders at (drop i cfg.logs), cmd'))
        × Counted at cfg.logs (count + holders at (drop i cfg.logs)) cmd'
  unfolding n_committed_from
  count_from zero i at count cmd cfg fine n agree counted =
      let none_left : drop i cfg.logs ≡ [] = drop_beyond i cfg.logs (omega arith) in
      (cmd, rw (none_left, add-zero) refl, rw (none_left, add-zero) counted)
  count_from (suc left) i at count cmd cfg fine n agree counted =
      let (log, found) = get_elem?-some cfg.logs i (omega arith) in
      let here : index cfg.logs i ≡ ok log = ap from_option found in
      let no_error = fine i (omega arith) in
      let split = drop_at i cfg.logs log found in
      let rest = drop (suc i) cfg.logs in
      elim (Option-cases (lookup at log)) [
        | inl absent ↦
            let (cmd', e, c) =
              count_from left (suc i) at count cmd cfg (λ j lt. fine j (omega arith)) (omega arith)
                agree counted in
            let same : count + holders at rest ≡ count + holders at (drop i cfg.logs) =
              ap (λ k. count + k)
                (sym (ap (holders at) split ∙ holders_absent at log rest absent)) in
            (
              cmd',
              step_absent i at cfg log no_error here left count cmd absent
                  ∙ e
                  ∙ ap (λ k. ok (k, cmd')) same,
              subst (λ k. Counted at cfg.logs k cmd') same c,
            )
        | inr (c₁, present) ↦
            let applied : Applied cfg.logs i at c₁ = (log, here, present) in
            let (cmd', e, c) =
              count_from left (suc i) at (count + 1) c₁ cfg (λ j lt. fine j (omega arith))
                (omega arith) agree (inr (i, applied)) in
            let total : holders at (drop i cfg.logs) ≡ suc (holders at rest) =
              ap (holders at) split ∙ holders_present at log rest c₁ present in
            let same : count + 1 + holders at rest ≡ count + holders at (drop i cfg.logs) =
              omega arith in
            (
              cmd',
              step_present i at cfg log no_error here left count cmd c₁ present
                    (agrees at count i cmd c₁ cfg.logs agree counted applied)
                  ∙ e
                  ∙ ap (λ k. ok (k, cmd')) same,
              subst (λ k. Counted at cfg.logs k cmd') same c,
            )
      ]

  -- Where no applier has found an error and the servers have applied the same commands where they
  -- have applied any, the count never fails: it is the number of servers that have applied a
  -- command at the index, and the command that comes with a count other than 0 is one that a server
  -- has applied there.
  pub n_committed_exact :
      (at : ℕ) (cfg : Config C)
      → ((j : ℕ) → j < length cfg.rafts → index cfg.apply_err j ≡ ok none)
      → length cfg.logs ≡ length cfg.rafts
      → Agree cfg.logs
      → (cmd : Option C) × (n_committed at cfg ≡ ok (holders at cfg.logs, cmd))
        × Counted at cfg.logs (holders at cfg.logs) cmd
  unfolding n_committed
  n_committed_exact at cfg fine n agree =
      let (cmd, e, c) =
        count_from (length cfg.rafts) 0 at 0 none cfg (λ j lt. fine j (omega arith)) (omega arith)
          agree (inl refl) in
      let same : 0 + holders at cfg.logs ≡ holders at cfg.logs = omega arith in
      (cmd, e ∙ ap (λ k. ok (k, cmd)) same, subst (λ k. Counted at cfg.logs k cmd) same c)
