-- ===== src/Kv/Harness/Dealing.antt =====
-- The loop of `make_partition`: where it places the servers.
use mathlib.Core.Path.{◌∙◌}
use native.Mathlib.Decide.{dec_lt, ℕ_discrete}
use logic_raft.Base.{
  ℕ, zero, suc, ◌+◌, ◌-◌, ◌<◌, ◌≤◌, ◌≡◌, ◌≢◌, ◌⊎◌, inr, refl, sym, ap, subst, List, ok, arith,
  length, index, put_ok, set, length-set, get_elem?-set_self, get_elem?-set_ne, from_option,
  replicate, length-replicate, ltb, if◌then◌else◌,
}
use logic_raft.Kv.Harness.Servers.{deal_from}

-- The q-th of the servers other than l.
abbrev pub other : ℕ → ℕ → ℕ
other l q = if ltb q l then q else suc q

-- The first j of the other servers are placed, the first h + 1 in p1 and the next in p2.
pub record Dealt (l h j : ℕ) (p1 p2 : List ℕ) : Type 0 where
  pub length₁ : length p1 ≡ h + 1
  pub length₂ : length p2 ≡ h
  pub first : (q : ℕ) → q < j → q < h + 1 → index p1 q ≡ ok (other l q)
  pub second : (q : ℕ) → h + 1 + q < j → index p2 q ≡ ok (other l (h + 1 + q))

pub index-set_self :
    {A : Type 0} (xs : List A) (i : ℕ) (v : A) → i < length xs → index (set xs i v) i ≡ ok v
index-set_self xs i v h = ap from_option (get_elem?-set_self xs i v h)

pub index-set_ne :
    {A : Type 0} (xs : List A) (i j : ℕ) (v : A) → i ≢ j → index (set xs i v) j ≡ index xs j
index-set_ne xs i j v h = ap from_option (get_elem?-set_ne xs i j v h)

place_first :
    (l h j : ℕ) (p1 p2 : List ℕ)
    → Dealt l h j p1 p2
    → j < h + 1
    → Dealt l h (suc j) (set p1 j (other l j)) p2
place_first l h j p1 p2 d lt = record {
  length₁ = length-set p1 j (other l j) ∙ d.length₁;
  length₂ = d.length₂;
  first = λ q below fits. elim (ℕ_discrete j q) [
    | yes e ↦ rw (sym e) (index-set_self p1 j (other l j) (omega (arith, d.length₁)))
    | no e ↦ index-set_ne p1 j q (other l j) e ∙ d.first q (omega arith) fits
  ];
  second = λ q below. absurd (omega arith);
}

place_second :
    (l h j k : ℕ) (p1 p2 : List ℕ)
    → Dealt l h j p1 p2
    → j ≡ h + 1 + k
    → k < h
    → Dealt l h (suc j) p1 (set p2 k (other l j))
place_second l h j k p1 p2 d e lt = record {
  length₁ = d.length₁;
  length₂ = length-set p2 k (other l j) ∙ d.length₂;
  first = λ q below fits. d.first q (omega arith) fits;
  second = λ q below. elim (ℕ_discrete k q) [
    | yes f ↦
        rw (sym f)
          (index-set_self p2 k (other l j) (omega (arith, d.length₂)) ∙ ap (λ m. ok (other l m)) e)
    | no f ↦ index-set_ne p2 k q (other l j) f ∙ d.second q (omega arith)
  ];
}

-- Of the servers before i, j are placed.
abbrev Placed : ℕ → ℕ → ℕ → Type 0
Placed l i j = ((i ≤ l) × (j ≡ i)) ⊎ ((l < i) × (j + 1 ≡ i))

pub deal_all :
    (l h left i j : ℕ) (p1 p2 : List ℕ)
    → i + left ≡ h + h + 1
    → l < h + h + 1
    → Placed l i j
    → Dealt l h j p1 p2
    → (p1' p2' : List ℕ) × (deal_from l left i j p1 p2 ≡ ok (p1', p2')) × Dealt l h (h + h) p1' p2'
unfolding deal_from
deal_all l h zero i j p1 p2 e lt placed d =
    let all : j ≡ h + h = ground arith in (p1, p2, refl, subst (λ m. Dealt l h m p1 p2) all d)
deal_all l h (suc left) i j p1 p2 e lt placed d = elim (ℕ_discrete i l) [
  | yes same ↦
      let (p1', p2', run, d') =
        deal_all l h left (suc i) j p1 p2 (omega arith) lt (inr (ground arith)) d in
      (p1', p2', ground (arith, run), d')
  | no differs ↦
      let at : other l j ≡ i = ground arith in
      let next : Placed l (suc i) (suc j) = ground arith in
      elim (dec_lt j (h + 1)) [
        | yes fits ↦
            let (p1', p2', run, d') =
              deal_all l h left (suc i) (suc j) (set p1 j (other l j)) p2 (omega arith) lt next
                (place_first l h j p1 p2 d fits) in
            let written = put_ok p1 j (other l j) (omega (arith, d.length₁)) in
            (p1', p2', ground (arith, run, written, at, d.length₁), d')
        | no full ↦
            let k = j - (h + 1) in
            let room : k < h = ground arith in
            let (p1', p2', run, d') =
              deal_all l h left (suc i) (suc j) p1 (set p2 k (other l j)) (omega arith) lt next
                (place_second l h j k p1 p2 d (omega arith) room) in
            let written = put_ok p2 k (other l j) (omega (arith, d.length₂)) in
            (p1', p2', ground (arith, run, written, at, d.length₁), d')
      ]
]

pub none_placed : (l h : ℕ) → Dealt l h 0 (replicate (h + 1) 0) (replicate h 0)
none_placed l h = record {
  length₁ = length-replicate (h + 1) 0;
  length₂ = length-replicate h 0;
  first = λ q below fits. absurd (omega arith);
  second = λ q below. absurd (omega arith);
}
