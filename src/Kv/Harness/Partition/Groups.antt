-- ===== src/Kv/Harness/Partition/Groups.antt =====
-- Which links are open after a partition.
use Prim.Native.String.{String}
use mathlib.Core.List.Memᴰ.{cast, append_left, append_right}
use logic_raft.Base.{
  ℕ, ◌<◌, ◌≤◌, ◌≡◌, ◌⊎◌, inl, inr, refl, Bool, true, false, List, ◌++◌, Memᴰ, ok, length, All,
  All-Mem, All-append, sym,
}
use logic_raft.Network.{Network}
use logic_raft.Kv.Harness.{Config, partition}
use logic_raft.Kv.Harness.Links.{links, run, IsNamed, partition-links}
use logic_raft.Kv.Harness.Partition.{
  Switches, Joins, Sets, links-Sets, links-Mem, cut-Mem, joined-Mem, run-settles,
}

module _ {N : Type 0} (nw : Network N) (is_enabled : String → N → Bool)
    (switches : Switches nw is_enabled) (name : ℕ → ℕ → String) (n : ℕ)
    (apart : (i j i' j' : ℕ)
      → i < n
      → j < n
      → i' < n
      → j' < n
      → name i j ≡ name i' j'
      → (i ≡ i') × (j ≡ j')) where
  module _ (p1 p2 : List ℕ) (in_p1 : All (λ i. i < n) p1) (in_p2 : All (λ i. i < n) p2)
      (disjoint : (i : ℕ) → Memᴰ i p1 → Memᴰ i p2 → ⊥) where
    not_together :
        (a b : ℕ)
        → (Memᴰ a p1 × Memᴰ b p2) ⊎ (Memᴰ b p1 × Memᴰ a p2)
        → (Memᴰ a p1 × Memᴰ b p1) ⊎ (Memᴰ a p2 × Memᴰ b p2)
        → ⊥
    not_together a b (inl (a₁, b₂)) (inl (_, b₁)) = disjoint b b₁ b₂
    not_together a b (inl (a₁, b₂)) (inr (a₂, _)) = disjoint a a₁ a₂
    not_together a b (inr (b₁, a₂)) (inl (a₁, _)) = disjoint a a₁ a₂
    not_together a b (inr (b₁, a₂)) (inr (_, b₂)) = disjoint b b₁ b₂

    same_group :
        (a b i j : ℕ)
        → (Memᴰ i p1 × Memᴰ j p1) ⊎ (Memᴰ i p2 × Memᴰ j p2)
        → Joins a b i j
        → (Memᴰ a p1 × Memᴰ b p1) ⊎ (Memᴰ a p2 × Memᴰ b p2)
    same_group a b i j (inl (mi, mj)) (inl (e, e')) = inl (cast (sym e) mi, cast (sym e') mj)
    same_group a b i j (inl (mi, mj)) (inr (e, e')) = inl (cast (sym e) mj, cast (sym e') mi)
    same_group a b i j (inr (mi, mj)) (inl (e, e')) = inr (cast (sym e) mi, cast (sym e') mj)
    same_group a b i j (inr (mi, mj)) (inr (e, e')) = inr (cast (sym e) mj, cast (sym e') mi)

    split_pair :
        (a b i j : ℕ)
        → Memᴰ i p1
        → Memᴰ j p2
        → Joins a b i j ⊎ Joins a b j i
        → (Memᴰ a p1 × Memᴰ b p2) ⊎ (Memᴰ b p1 × Memᴰ a p2)
    split_pair a b i j mi mj (inl (inl (e, e'))) = inl (cast (sym e) mi, cast (sym e') mj)
    split_pair a b i j mi mj (inl (inr (e, e'))) = inr (cast (sym e') mi, cast (sym e) mj)
    split_pair a b i j mi mj (inr (inl (e, e'))) = inr (cast (sym e') mi, cast (sym e) mj)
    split_pair a b i j mi mj (inr (inr (e, e'))) = inl (cast (sym e) mi, cast (sym e') mj)

    every_link-Sets :
        (v : Bool) (a b : ℕ)
        → ((i j : ℕ) → Memᴰ i p1 → Memᴰ j p2 → Joins a b i j ⊎ Joins a b j i → false ≡ v)
        → ((i j : ℕ) → (Memᴰ i p1 × Memᴰ j p1) ⊎ (Memᴰ i p2 × Memᴰ j p2) → Joins a b i j → true ≡ v)
        → All (Sets n v a b) (links p1 p1 p2 ++ links p2 p2 p1)
    every_link-Sets v a b cut joined =
        All-append (Sets n v a b) (links p1 p1 p2) (links p2 p2 p1)
          (links-Sets n v a b p1 p2 in_p1 in_p2 p1 in_p1 (λ i j m m' e. cut i j m m' (inl e))
            (λ i j m m'. joined i j (inl (m, m'))))
          (links-Sets n v a b p2 p1 in_p2 in_p1 p2 in_p2 (λ i j m m' e. cut j i m' m (inr e))
            (λ i j m m'. joined i j (inr (m, m'))))

    crossing :
        (a b : ℕ)
        → (Memᴰ a p1 × Memᴰ b p2) ⊎ (Memᴰ b p1 × Memᴰ a p2)
        → (net : N)
        → is_enabled (name a b) (run nw name (links p1 p1 p2 ++ links p2 p2 p1) net) ≡ false
    crossing a b m net =
        let known = λ (xs : List ℕ) (h : All (λ i. i < n) xs) (i : ℕ) (k : Memᴰ i xs).
          All-Mem (λ i. i < n) xs i h k in
        let (a_in, b_in) : (a < n) × (b < n) = elim m [
          | inl (ma, mb) ↦ (known p1 in_p1 a ma, known p2 in_p2 b mb)
          | inr (mb, ma) ↦ (known p2 in_p2 a ma, known p1 in_p1 b mb)
        ] in
        let among : Memᴰ (false, a, b) (links p1 p1 p2 ++ links p2 p2 p1) = elim m [
          | inl (ma, mb) ↦ append_left _ (links-Mem p1 p1 p2 a _ ma (cut-Mem a b p1 p2 mb).0)
          | inr (mb, ma) ↦ append_left _ (links-Mem p1 p1 p2 b _ mb (cut-Mem b a p1 p2 ma).1)
        ] in
        run-settles nw is_enabled switches name n apart (links p1 p1 p2 ++ links p2 p2 p1) false a b
          net a_in b_in
          (every_link-Sets false a b (λ i j _ _ _. refl)
            (λ i j pair joins. absurd (not_together a b m (same_group a b i j pair joins))))
          (inr among)

    inside :
        (a b : ℕ)
        → (Memᴰ a p1 × Memᴰ b p1) ⊎ (Memᴰ a p2 × Memᴰ b p2)
        → (net : N)
        → is_enabled (name a b) (run nw name (links p1 p1 p2 ++ links p2 p2 p1) net) ≡ true
    inside a b m net =
        let known = λ (xs : List ℕ) (h : All (λ i. i < n) xs) (i : ℕ) (k : Memᴰ i xs).
          All-Mem (λ i. i < n) xs i h k in
        let (a_in, b_in) : (a < n) × (b < n) = elim m [
          | inl (ma, mb) ↦ (known p1 in_p1 a ma, known p1 in_p1 b mb)
          | inr (ma, mb) ↦ (known p2 in_p2 a ma, known p2 in_p2 b mb)
        ] in
        let among : Memᴰ (true, a, b) (links p1 p1 p2 ++ links p2 p2 p1) = elim m [
          | inl (ma, mb) ↦ append_left _ (links-Mem p1 p1 p2 a _ ma (joined-Mem a b p1 p2 mb))
          | inr (ma, mb) ↦
              append_right (links p1 p1 p2) (links-Mem p2 p2 p1 a _ ma (joined-Mem a b p2 p1 mb))
        ] in
        run-settles nw is_enabled switches name n apart (links p1 p1 p2 ++ links p2 p2 p1) true a b
          net a_in b_in
          (every_link-Sets true a b
            (λ i j mi mj joins. absurd (not_together a b (split_pair a b i j mi mj joins) m))
            (λ i j _ _. refl))
          (inr among)

module _ {N : Type 0} (nw : Network N) (is_enabled : String → N → Bool)
    (switches : Switches nw is_enabled) (name : ℕ → ℕ → String) where
  -- After `partition`, every link within one of the two groups is open, and every link between
  -- them is cut, in both directions; only the network has changed. This is so where every server
  -- has its ends, no two ends have the same name, and the groups are of existing servers and have
  -- none in common.
  pub partition_separates :
      (cfg : Config N) (p1 p2 : List ℕ)
      → IsNamed nw name cfg
      → ((i j i' j' : ℕ)
          → i < cfg.n
          → j < cfg.n
          → i' < cfg.n
          → j' < cfg.n
          → name i j ≡ name i' j'
          → (i ≡ i') × (j ≡ j'))
      → length p1 ≤ cfg.n
      → length p2 ≤ cfg.n
      → All (λ i. i < cfg.n) p1
      → All (λ i. i < cfg.n) p2
      → ((i : ℕ) → Memᴰ i p1 → Memᴰ i p2 → ⊥)
      → (net : N) × (partition nw p1 p2 cfg ≡ ok (record cfg { net = net }))
        × ((a b : ℕ)
            → (Memᴰ a p1 × Memᴰ b p1) ⊎ (Memᴰ a p2 × Memᴰ b p2)
            → is_enabled (name a b) net ≡ true)
        × ((a b : ℕ)
            → (Memᴰ a p1 × Memᴰ b p2) ⊎ (Memᴰ b p1 × Memᴰ a p2)
            → is_enabled (name a b) net ≡ false)
  partition_separates cfg p1 p2 w apart fits fits' in_p1 in_p2 disjoint = (
    run nw name (links p1 p1 p2 ++ links p2 p2 p1) cfg.net,
    partition-links nw name cfg p1 p2 w fits fits' in_p1 in_p2,
    λ a b m.
        inside nw is_enabled switches name cfg.n apart p1 p2 in_p1 in_p2 disjoint a b m cfg.net,
    λ a b m.
        crossing nw is_enabled switches name cfg.n apart p1 p2 in_p1 in_p2 disjoint a b m cfg.net,
  )
