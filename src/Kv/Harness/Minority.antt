-- ===== src/Kv/Harness/Minority.antt =====
-- The partition that puts the leader in the minority.
use mathlib.Core.Path.{◌∙◌}
use native.Mathlib.Decide.{dec_lt, ℕ_discrete}
use logic_raft.Base.{
  ℕ, suc, ◌+◌, ◌-◌, ◌/◌, ◌<◌, ◌≡◌, ◌⊎◌, inl, inr, refl, ap, true, List, Memᴰ, Mem_at, Mem-index, ok,
  arith, length, index, put_ok, set, length-set, index-lt, replicate, ltb, if◌then◌else◌,
}
use logic_raft.Kv.Harness.{Config}
use logic_raft.Kv.Harness.Servers.{deal_from, make_partition_with, make_partition}
use logic_raft.Kv.Harness.Leading.{IsRunning, IsFirst, find_leader-IsFirst}
use logic_raft.Kv.Harness.Dealing.{other, deal_all, none_placed, index-set_self, index-set_ne}

-- The servers other than l fill p1 and all of p2 but its last place, which has l.
record Divided (l h : ℕ) (p1 p2 : List ℕ) : Type 0 where
  size₁ : length p1 ≡ h + 1
  size₂ : length p2 ≡ h
  first : (q : ℕ) → q < h + 1 → index p1 q ≡ ok (other l q)
  second : (q : ℕ) → suc q < h → index p2 q ≡ ok (other l (h + 1 + q))
  last : index p2 (h - 1) ≡ ok l

make_partition_runs :
    (n l h : ℕ) (p1 p2 : List ℕ)
    → n / 2 ≡ h
    → deal_from l n 0 0 (replicate (h + 1) 0) (replicate h 0) ≡ ok (p1, p2)
    → length p2 ≡ h
    → 0 < h
    → make_partition_with n l ≡ ok (p1, set p2 (h - 1) l)
unfolding make_partition_with
make_partition_runs n l h p1 p2 half run size_is pos =
    let nonempty : ltb 0 (length p2) ≡ true = ground (arith, size_is) in
    let at : length p2 - 1 ≡ h - 1 = omega (arith, size_is) in
    let written = put_ok p2 (h - 1) l (omega (arith, size_is)) in
    rw half (rw run (rw nonempty (rw at (rw written refl))))

make_partition-Divided :
    (n l h : ℕ)
    → n ≡ h + h + 1
    → 0 < h
    → l < n
    → (p1 p2 : List ℕ) × (make_partition_with n l ≡ ok (p1, p2)) × Divided l h p1 p2
make_partition-Divided n l h e pos lt =
    let (p1, p2, run, d) =
      deal_all l h n 0 0 (replicate (h + 1) 0) (replicate h 0) (omega arith) (omega arith)
        (inl (omega arith, refl)) (none_placed l h) in
    (
      p1,
      set p2 (h - 1) l,
      make_partition_runs n l h p1 p2 (omega arith) run d.length₂ pos,
      record {
        size₁ = d.length₁;
        size₂ = length-set p2 (h - 1) l ∙ d.length₂;
        first = λ q fits. d.first q (omega arith) fits;
        second =
            λ q fits. index-set_ne p2 (h - 1) q l (λ same. omega arith) ∙ d.second q (omega arith);
        last = index-set_self p2 (h - 1) l (omega (arith, d.length₂));
      },
    )

module _ (n l h : ℕ) (e : n ≡ h + h + 1) (pos : 0 < h) (lt : l < n) (p1 p2 : List ℕ)
    (d : Divided l h p1 p2) where
  in_first : (i : ℕ) → Memᴰ i p1 → (q : ℕ) × (q < h + 1) × (i ≡ other l q)
  in_first i m =
      let (q, at) = Mem-index p1 i m in
      let below = index-lt p1 q i at in
      (q, omega (arith, d.size₁), ground (arith, d.first q (omega (arith, d.size₁)), at))

  in_second : (i : ℕ) → Memᴰ i p2 → (i ≡ l) ⊎ ((q : ℕ) × (h < q) × (q < h + h) × (i ≡ other l q))
  in_second i m =
      let (q, at) = Mem-index p2 i m in
      let below = index-lt p2 q i at in
      elim (ℕ_discrete q (h - 1)) [
        | yes same ↦ inl (ground (arith, ap (index p2) same, d.last))
        | no early ↦
            let fits : suc q < h = omega (arith, d.size₂) in
            inr (h + 1 + q, omega arith, omega arith, ground (arith, d.second q fits))
      ]

  groups_disjoint : (i : ℕ) → Memᴰ i p1 → Memᴰ i p2 → ⊥
  groups_disjoint i m m' =
      let (q, below, is) = in_first i m in
      elim (in_second i m') [ inl is_l ↦ ground arith | inr (q', above, _, is') ↦ ground arith ]

  in_range : (i : ℕ) → Memᴰ i p1 ⊎ Memᴰ i p2 → i < n
  in_range i (inl m) = let (q, below, is) = in_first i m in ground arith
  in_range i (inr m) = elim (in_second i m) [
    | inl is_l ↦ omega arith
    | inr (q, _, below, is) ↦ ground arith
  ]

  placed_somewhere : (i : ℕ) → i < n → Memᴰ i p1 ⊎ Memᴰ i p2
  placed_somewhere i h' = elim (ℕ_discrete i l) [
    | yes same ↦ inr (Mem_at p2 (h - 1) i (rw same d.last))
    | no differs ↦
        let q = if ltb i l then i else i - 1 in
        let is : other l q ≡ i = ground arith in
        let q_below : q < h + h = ground arith in
        elim (dec_lt q (h + 1)) [
          | yes fits ↦ inl (Mem_at p1 q i (d.first q fits ∙ ap ok is))
          | no full ↦
              let k = q - (h + 1) in
              let at : h + 1 + k ≡ q = omega arith in
              inr
                (Mem_at p2 k i (d.second k (omega arith) ∙ ap (λ m. ok (other l m)) at ∙ ap ok is))
        ]
  ]

IsFirst-lt : {N : Type 0} (cfg : Config N) (l : ℕ) → 0 < cfg.n → IsFirst cfg 0 cfg.n l → l < cfg.n
IsFirst-lt cfg l pos (inl (_, below, _, _)) = below
IsFirst-lt cfg l pos (inr (is_zero, _)) = omega arith

-- With an odd number of servers, but not only one, that are all running, `make_partition` divides
-- them without a panic into a group of more than half of them and one of the others: every server
-- is in one of them and none is in both. In the second group is the first server whose peer says
-- that it is the leader, or server 0 if none says so.
pub make_partition_exact :
    {N : Type 0} (cfg : Config N) (h : ℕ)
    → cfg.n ≡ h + h + 1
    → 0 < h
    → ((i : ℕ) → i < cfg.n → IsRunning cfg i)
    → (p1 p2 : List ℕ) × (l : ℕ) × (make_partition cfg ≡ ok (p1, p2))
      × (length p1 ≡ h + 1)
      × (length p2 ≡ h)
      × IsFirst cfg 0 cfg.n l
      × Memᴰ l p2
      × ((i : ℕ) → i < cfg.n → Memᴰ i p1 ⊎ Memᴰ i p2)
      × ((i : ℕ) → Memᴰ i p1 ⊎ Memᴰ i p2 → i < cfg.n)
      × ((i : ℕ) → Memᴰ i p1 → Memᴰ i p2 → ⊥)
unfolding make_partition
make_partition_exact cfg h e pos running =
    let (b, l, found, first) = find_leader-IsFirst cfg running in
    let lt = IsFirst-lt cfg l (omega arith) first in
    let (p1, p2, run, d) = make_partition-Divided cfg.n l h e pos lt in
    (
      p1,
      p2,
      l,
      rw (found, run) refl,
      d.size₁,
      d.size₂,
      first,
      Mem_at p2 (h - 1) l d.last,
      placed_somewhere cfg.n l h e pos lt p1 p2 d,
      λ i m. in_range cfg.n l h e pos lt p1 p2 d i m,
      groups_disjoint cfg.n l h e pos lt p1 p2 d,
    )
