-- ===== src/Raft/Majority/Exact.antt =====
-- The majority index: more than half of the peers match it, and no greater index.
use logic_raft.Base.{
  ℕ, zero, suc, ◌+◌, ◌-◌, ◌*◌, ◌/◌, ◌<◌, ◌≤◌, ◌≡◌, refl, List, [], ◌∷◌, ok, arith, leb,
  if◌then◌else◌, length, index, get_elem?-some,
}
use logic_raft.Raft.{Raft}
use logic_raft.Raft.Majority.{insert, sort_ints, get_majority_index_locked}

-- How many numbers of the list are at least v: the peers that match index v.
abbrev pub count_ge : ℕ → List ℕ → ℕ
count_ge v [] = 0
count_ge v (x ∷ xs) = let rest = count_ge v xs in if leb v x then suc rest else rest

abbrev IsSorted : List ℕ → Type 0
IsSorted [] = Unit
IsSorted (x ∷ xs) = (count_ge x xs ≡ length xs) × IsSorted xs

count_ge-le : (v : ℕ) (xs : List ℕ) → count_ge v xs ≤ length xs
count_ge-le v [] = omega arith
count_ge-le v (x ∷ xs) = ground (arith, count_ge-le v xs)

count_ge-insert : (v x : ℕ) (xs : List ℕ) → count_ge v (insert x xs) ≡ count_ge v (x ∷ xs)
unfolding insert
count_ge-insert v x [] = refl
count_ge-insert v x (y ∷ ys) = ground (arith, count_ge-insert v x ys)

length-insert : (x : ℕ) (xs : List ℕ) → length (insert x xs) ≡ suc (length xs)
unfolding insert
length-insert x [] = refl
length-insert x (y ∷ ys) = ground (arith, length-insert x ys)

count_ge-sort : (v : ℕ) (xs : List ℕ) → count_ge v (sort_ints xs) ≡ count_ge v xs
unfolding sort_ints
count_ge-sort v [] = refl
count_ge-sort v (x ∷ xs) = ground (arith, count_ge-insert v x (sort_ints xs), count_ge-sort v xs)

length-sort : (xs : List ℕ) → length (sort_ints xs) ≡ length xs
unfolding sort_ints
length-sort [] = refl
length-sort (x ∷ xs) = omega (arith, length-insert x (sort_ints xs), length-sort xs)

-- A smaller bound counts all that a greater one counts.
count_ge_all :
    (v w : ℕ) (xs : List ℕ) → v ≤ w → count_ge w xs ≡ length xs → count_ge v xs ≡ length xs
count_ge_all v w [] h e = refl
count_ge_all v w (x ∷ xs) h e = ground (arith, count_ge_all v w xs, count_ge-le w xs)

insert-IsSorted : (x : ℕ) (xs : List ℕ) → IsSorted xs → IsSorted (insert x xs)
unfolding insert
insert-IsSorted x [] s = ground arith
insert-IsSorted x (y ∷ ys) s =
    ground
      (arith, insert-IsSorted x ys, count_ge_all x y ys, count_ge-insert y x ys, length-insert x ys)

sort-IsSorted : (xs : List ℕ) → IsSorted (sort_ints xs)
unfolding sort_ints
sort-IsSorted [] = tt
sort-IsSorted (x ∷ xs) = insert-IsSorted x (sort_ints xs) (sort-IsSorted xs)

index_above : (x k m : ℕ) (xs : List ℕ) → count_ge x xs ≡ length xs → index xs k ≡ ok m → x ≤ m
index_above x k m [] e h = cc
index_above x zero m (y ∷ ys) e h = ground (arith, count_ge-le x ys)
index_above x (suc k) m (y ∷ ys) e h = ground (arith, count_ge-le x ys, index_above x k m ys)

count_ge-index :
    (k m : ℕ) (xs : List ℕ)
    → IsSorted xs
    → index xs k ≡ ok m
    → (length xs ≤ count_ge m xs + k) × ((v : ℕ) → m < v → count_ge v xs + k + 1 ≤ length xs)
count_ge-index k m [] s h = cc
count_ge-index zero m (x ∷ xs) s h = (ground arith, λ v lt. ground (arith, count_ge-le v xs))
count_ge-index (suc k) m (x ∷ xs) s h =
    let (enough, few) = count_ge-index k m xs s.1 h in
    (ground arith, λ v lt. ground (arith, few v lt, index_above x k m xs s.0 h))

-- With at least one peer the majority index is returned; more than half of the peers match it, and
-- of every greater index at most half of them.
pub majority_exact :
    {C : Type 0} (rf : Raft C)
    → 0 < length rf.match_index
    → (m : ℕ) × (get_majority_index_locked rf ≡ ok m)
      × (length rf.match_index < 2 * count_ge m rf.match_index)
      × ((v : ℕ) → m < v → 2 * count_ge v rf.match_index ≤ length rf.match_index)
unfolding get_majority_index_locked
majority_exact rf h =
    let sorted = sort_ints rf.match_index in
    let k = (length sorted - 1) / 2 in
    let (m, e) = get_elem?-some sorted k (omega (arith, length-sort rf.match_index)) in
    let (enough, few) =
      count_ge-index k m sorted (sort-IsSorted rf.match_index) (ground (arith, e)) in
    (
      m,
      ground (arith, e),
      omega (arith, enough, length-sort rf.match_index, count_ge-sort m rf.match_index),
      λ v lt. omega (arith, few v lt, length-sort rf.match_index, count_ge-sort v rf.match_index),
    )
