-- ===== src/Raft/Application/Round.antt =====
-- One round of the application loop, undisturbed: every committed record is handed over once.
use mathlib.Core.Path.{◌∙◌}
use native.Mathlib.Nat.{add-zero}
use logic_raft.Base.{
  sym, subst, ℕ, zero, suc, ◌+◌, ◌-◌, ◌<◌, ◌≤◌, ◌≡◌, refl, ap, Option, none, some, List, [], ◌∷◌,
  Result, ok, ◌>>=◌, arith, length, index,
}
use logic_raft.Log.{LogRecord, Log, get, size}
use logic_raft.Log.Records.{get_ok}
use logic_raft.Raft.{Raft, ApplyMsg, looping, woken, sending}
use logic_raft.Raft.Application.{collect, command_msg, apply_step}

-- The message that a step sends, in front of those that follow.
abbrev prepend {ℓ} : {A : Type ℓ} → Option A → List A → List A
prepend none ms = ms
prepend (some m) ms = m ∷ ms

module _ {C : Type 0} where
  -- A number of steps of the loop, one after the other: the messages sent and the state.
  abbrev pub run_steps : ℕ → Raft C → Result (List (ApplyMsg C) × Raft C)
  run_steps zero rf = ok ([], rf)
  run_steps (suc n) rf = do
    sent ← apply_step rf
    later ← run_steps n sent.1
    ok (prepend sent.0 later.0, later.1)

  -- The messages for records from index i on.
  abbrev pub messages : ℕ → List (LogRecord C) → List (ApplyMsg C)
  messages i [] = []
  messages i (r ∷ rs) = command_msg r i ∷ messages (suc i) rs

  pub collect_exact :
      (left i : ℕ) (log : Log C)
      → log.base ≤ i
      → i + left ≤ size log
      → (es : List (LogRecord C)) × (collect left i log ≡ ok es)
        × (length es ≡ left)
        × ((j : ℕ) → j < left → index es j ≡ get log (i + j))
  unfolding collect
  collect_exact zero i log h k = ([], refl, refl, λ j lt. absurd (omega arith))
  collect_exact (suc left) i log h k =
      let (r, at) = get_ok log i h (omega arith) in
      let (es, e, n, same) = collect_exact left (suc i) log (omega arith) (omega arith) in
      (r ∷ es, rw (at, e), ap suc n, found r es at same)
    where
      found :
          (r : LogRecord C) (es : List (LogRecord C))
          → get log i ≡ ok r
          → ((j : ℕ) → j < left → index es j ≡ get log (suc i + j))
          → (j : ℕ) → j < suc left
          → index (r ∷ es) j ≡ get log (i + j)
      found r es at same zero lt = let e : i + 0 ≡ i = omega arith in sym (rw e at)
      found r es at same (suc j) lt = same j (omega arith) ∙ ap (get log) (omega arith)

  -- What is left to send is sent, and then counted as applied.
  send_all :
      (es : List (LogRecord C)) (n : ℕ) (rf : Raft C)
      → run_steps (suc (length es)) (record rf { applier = sending n es })
        ≡ ok (
          messages (rf.last_applied + 1 + n) es,
          record rf { last_applied = rf.last_applied + n + length es; applier = looping },
        )
  unfolding apply_step
  send_all [] n rf = rw add-zero
  send_all (r ∷ es) n rf =
      let one_more : rf.last_applied + 1 + suc n ≡ suc (rf.last_applied + 1 + n) = omega arith in
      let total : rf.last_applied + suc n + length es ≡ rf.last_applied + n + suc (length es) =
        omega arith in
      let rest = send_all es (suc n) rf in rw (rest, one_more, total)

  pub apply_step-woken :
      (rf : Raft C) (es : List (LogRecord C))
      → rf.applier ≡ woken
      → collect (rf.commit_index - rf.last_applied) (rf.last_applied + 1) rf.log ≡ ok es
      → apply_step rf ≡ ok (none, record rf { applier = sending 0 es })
  unfolding apply_step
  apply_step-woken rf es h e = ground arith

  -- Where the applied index is at most the commit index, which the log has, and the base of the log
  -- is at most the index after the applied one: a round of the loop that begins when it is woken
  -- and that nothing disturbs hands over the records from the one after the applied index up to the
  -- commit index, in order, each with its index, and moves the applied index to the commit index.
  pub round_exact :
      (rf : Raft C)
      → rf.applier ≡ woken
      → rf.log.base ≤ rf.last_applied + 1
      → rf.last_applied ≤ rf.commit_index
      → rf.commit_index < size rf.log
      → (es : List (LogRecord C)) × (run_steps (suc (suc (rf.commit_index - rf.last_applied))) rf
          ≡ ok (
            messages (rf.last_applied + 1) es,
            record rf { last_applied = rf.commit_index; applier = looping },
          ))
        × (length es ≡ rf.commit_index - rf.last_applied)
        × ((j : ℕ)
            → j < rf.commit_index - rf.last_applied
            → index es j ≡ get rf.log (rf.last_applied + 1 + j))
  round_exact rf h above le below =
      let k = rf.commit_index - rf.last_applied in
      let (es, e, n, same) =
        collect_exact (rf.commit_index - rf.last_applied) (rf.last_applied + 1) rf.log above
          (omega arith) in
      let sent = send_all es 0 rf in
      let total : rf.last_applied + 0 + (rf.commit_index - rf.last_applied) ≡ rf.commit_index =
        omega arith in
      let start : rf.last_applied + 1 + 0 ≡ rf.last_applied + 1 = omega arith in
      let sent' : run_steps (suc k) (record rf { applier = sending 0 es })
          ≡ ok (
            messages (rf.last_applied + 1 + 0) es,
            record rf { last_applied = rf.last_applied + 0 + k; applier = looping },
          ) =
        subst
          (λ (m : ℕ).
            run_steps (suc m) (record rf { applier = sending 0 es })
            ≡ ok (
              messages (rf.last_applied + 1 + 0) es,
              record rf { last_applied = rf.last_applied + 0 + m; applier = looping },
            ))
          n sent in
      (es, rw (apply_step-woken rf es h e) (rw (sent', start, total)), n, same)
