-- ===== src/Harness/Agreement.antt =====
-- What the harness's check of applied commands is worth.
use mathlib.Core.Path.{◌∙◌}
use native.Mathlib.Decide.{ℕ_discrete}
use logic_raft.Base.{
  set, sym, ap, subst, from_option, index-lt, ℕ, zero, suc, ◌⊎◌, Bool, put-set, get_elem?-set_self,
  get_elem?-set_ne, ◌≡◌, Option, none, some, List, [], ◌∷◌, ok, arith, index, put, >>=-eq-ok, inl,
  inr,
}
use logic_raft.Base.Dict.{Key, Dict, lookup, assign, lookup-assign, nat_key}
use logic_raft.Raft.{ApplyMsg}
use logic_raft.Harness.{Config, conflict, check_logs}

module _ {C : Type 0} ⦃eq : Key (Option C)⦄ where
  -- Server a has applied command v at index i.
  abbrev pub Applied : List (Dict ℕ (Option C)) → ℕ → ℕ → Option C → Type 0
  Applied logs a i v = (log : Dict ℕ (Option C)) × (index logs a ≡ ok log) × (lookup i log ≡ some v)

  -- No two servers have applied different commands at an index.
  abbrev pub Agree : List (Dict ℕ (Option C)) → Type 0
  Agree logs = (a b i : ℕ) (v w : Option C) → Applied logs a i v → Applied logs b i w → v ≡ w

  conflict-none :
      (i : ℕ) (v : Option C) (j : ℕ) (logs : List (Dict ℕ (Option C)))
      → conflict i v j logs ≡ none
      → (b : ℕ) (log : Dict ℕ (Option C)) (w : Option C) → index logs b ≡ ok log
      → lookup i log ≡ some w
      → w ≡ v
  unfolding conflict
  conflict-none i v j [] h b log w at e = cc
  conflict-none i v j (l ∷ ls) h zero log w at e = ground (arith, eq.same_iff w v)
  conflict-none i v j (l ∷ ls) h (suc b) log w at e =
      let later : conflict i v (suc j) ls ≡ none = ground arith in
      conflict-none i v (suc j) ls later b log w at e

  check_logs-inverse :
      (i : ℕ) (m : ApplyMsg C) (cfg cfg' : Config C) (prev : Bool)
      → check_logs i m cfg ≡ ok ((none, prev), cfg')
      → (old : Dict ℕ (Option C)) × (index cfg.logs i ≡ ok old)
        × (cfg'.logs ≡ set cfg.logs i (assign m.command_index m.command old))
        × (conflict m.command_index m.command 0 cfg.logs ≡ none)
  unfolding check_logs
  check_logs-inverse i m cfg cfg' prev h =
      let (old, at, h₁) = >>=-eq-ok (index cfg.logs i) _ h in
      let (logs, stored, h₂) =
        >>=-eq-ok (put cfg.logs i (assign m.command_index m.command old)) _ h₁ in
      let (_, same, _) = put-set cfg.logs i (assign m.command_index m.command old) stored in
      let kept : logs ≡ cfg'.logs = cc in
      let fine : conflict m.command_index m.command 0 cfg.logs ≡ none = cc in
      (old, at, sym kept ∙ same, fine)

  lookup-assigned :
      (i k : ℕ) (c v : Option C) (old : Dict ℕ (Option C))
      → lookup k (assign i c old) ≡ some v
      → (lookup k old ≡ some v) ⊎ ((k ≡ i) × (v ≡ c))
  lookup-assigned i k c v old e = elim (ℕ_discrete i k) [
    | yes same ↦ inr (ground (arith, lookup-assign i k c old))
    | no other ↦ inl (ground (arith, lookup-assign i k c old))
  ]

  -- What is applied after an assignment was so before, or is what is assigned.
  Applied-set :
      (logs : List (Dict ℕ (Option C))) (s i a k : ℕ) (c v : Option C) (old : Dict ℕ (Option C))
      → index logs s ≡ ok old
      → Applied (set logs s (assign i c old)) a k v
      → Applied logs a k v ⊎ ((k ≡ i) × (v ≡ c))
  Applied-set logs s i a k c v old at_s (log, at, e) =
      let new = assign i c old in
      elim (ℕ_discrete s a) [
        | no other ↦ inl (log, ap from_option (sym (get_elem?-set_ne logs s a new other)) ∙ at, e)
        | yes own ↦
            let here : log ≡ new =
              ground (arith, at, own, get_elem?-set_self logs s new (index-lt logs s old at_s)) in
            elim (lookup-assigned i k c v old (rw here at e)) [
              | inl before ↦ inl (old, subst (λ b. index logs b ≡ ok old) own at_s, before)
              | inr now ↦ inr now
            ]
      ]

  Agree-set :
      (logs : List (Dict ℕ (Option C))) (s i : ℕ) (c : Option C) (old : Dict ℕ (Option C))
      → Agree logs
      → conflict i c 0 logs ≡ none
      → index logs s ≡ ok old
      → Agree (set logs s (assign i c old))
  Agree-set logs s i c old agree fine at a b k v w va wb =
      elim (Applied-set logs s i a k c v old at va) [
        | inl v₀ ↦ elim (Applied-set logs s i b k c w old at wb) [
          | inl w₀ ↦ agree a b k v w v₀ w₀
          | inr (k_is, w_is) ↦
              let (log, found, e) = v₀ in
              conflict-none i c 0 logs fine a log v found (cc (e, k_is)) ∙ sym w_is
        ]
        | inr (k_is, v_is) ↦ elim (Applied-set logs s i b k c w old at wb) [
          | inl w₀ ↦
              let (log, found, e) = w₀ in
              v_is ∙ sym (conflict-none i c 0 logs fine b log w found (cc (e, k_is)))
          | inr (_, w_is) ↦ v_is ∙ sym w_is
        ]
      ]

  -- If the servers have applied the same commands where they have applied any, and the check of a
  -- message finds no error, then that is so after the message as well, which its server has
  -- applied.
  pub check_logs-Agree :
      (i : ℕ) (m : ApplyMsg C) (cfg cfg' : Config C) (prev : Bool)
      → Agree cfg.logs
      → check_logs i m cfg ≡ ok ((none, prev), cfg')
      → Agree cfg'.logs × Applied cfg'.logs i m.command_index m.command
  check_logs-Agree i m cfg cfg' prev agree h =
      let (old, at, same, fine) = check_logs-inverse i m cfg cfg' prev h in
      let new = assign m.command_index m.command old in
      rw same (
        Agree-set cfg.logs i m.command_index m.command old agree fine at,
        (
          new,
          ap from_option (get_elem?-set_self cfg.logs i new (index-lt cfg.logs i old at)),
          lookup-assign m.command_index m.command_index m.command old ∙ ground arith,
        ),
      )
