-- ===== src/Base/Meeting.antt =====
-- Lists without repetition of numbers below a bound: two that are together longer than the bound
-- have a common element.
use Prim.Native.Nat.{ℕ, zero, suc, ◌+◌, ◌<◌, ◌≤◌}
use mathlib.Core.Path.{◌≡◌, refl}
use mathlib.Core.Logic.{◌≢◌, ◌⊎◌, inl, inr}
use mathlib.Core.List.{List, [], ◌∷◌, ◌++◌, Memᴰ}
use native.Mathlib.Decide.{ℕ_discrete}
use native.Mathlib.Omega.{arith}
use logic_raft.Base.Tests.{◌==◌, if◌then◌else◌}
use logic_raft.Base.Lists.{length, length-append}
use logic_raft.Base.Members.{All, All-append}

abbrev pub Distinct : List ℕ → Type 0
Distinct [] = Unit
Distinct (x ∷ xs) = All (λ y. x ≢ y) xs × Distinct xs

abbrev without : ℕ → List ℕ → List ℕ
without v [] = []
without v (x ∷ xs) = let rest = without v xs in if x == v then rest else x ∷ rest

without-All : (P : ℕ → Type 0) (v : ℕ) (xs : List ℕ) → All P xs → All P (without v xs)
without-All P v [] h = tt
without-All P v (x ∷ xs) (p, h) = ground (arith, without-All P v xs h)

without-Distinct : (v : ℕ) (xs : List ℕ) → Distinct xs → Distinct (without v xs)
without-Distinct v [] d = tt
without-Distinct v (x ∷ xs) (apart, d) =
    ground (arith, without-All (λ y. x ≢ y) v xs apart, without-Distinct v xs d)

without-below : (n : ℕ) (xs : List ℕ) → All (λ x. x < suc n) xs → All (λ x. x < n) (without n xs)
without-below n [] h = tt
without-below n (x ∷ xs) (p, h) = elim (ℕ_discrete x n) [
  | yes e ↦ ground (arith, e, without-below n xs h)
  | no e ↦ ground (arith, without-below n xs h)
]

without_none : (v : ℕ) (xs : List ℕ) → All (λ y. v ≢ y) xs → without v xs ≡ xs
without_none v [] h = refl
without_none v (x ∷ xs) (p, h) = ground (arith, without_none v xs h)

length-without : (v : ℕ) (xs : List ℕ) → Distinct xs → length xs ≤ suc (length (without v xs))
length-without v [] d = omega arith
length-without v (x ∷ xs) (apart, d) = elim (ℕ_discrete x v) [
  | yes e ↦ ground (arith, without_none x xs apart, e)
  | no e ↦ ground (arith, length-without v xs d)
]

length_bound : (n : ℕ) (xs : List ℕ) → Distinct xs → All (λ x. x < n) xs → length xs ≤ n
length_bound n [] d h = omega arith
length_bound zero (x ∷ xs) d (p, h) = absurd (omega arith)
length_bound (suc n) (x ∷ xs) d h =
    let rest = without n (x ∷ xs) in
    let shorter = length-without n (x ∷ xs) d in
    let fits = length_bound n rest (without-Distinct n (x ∷ xs) d) (without-below n (x ∷ xs) h) in
    omega (arith, shorter, fits)

find : (x : ℕ) (ys : List ℕ) → Memᴰ x ys ⊎ All (λ y. x ≢ y) ys
find x [] = inr tt
find x (y ∷ ys) = elim (ℕ_discrete x y) [
  | yes e ↦ inl (Memᴰ.head e)
  | no e ↦ elim (find x ys) [ inl m ↦ inl (Memᴰ.tail m) | inr h ↦ inr (e, h) ]
]

common : (xs ys : List ℕ) → ((x : ℕ) × Memᴰ x xs × Memᴰ x ys) ⊎ All (λ x. All (λ y. x ≢ y) ys) xs
common [] ys = inr tt
common (x ∷ xs) ys = elim (find x ys) [
  | inl m ↦ inl (x, Memᴰ.head refl, m)
  | inr apart ↦ elim (common xs ys) [
    | inl (z, m, m') ↦ inl (z, Memᴰ.tail m, m')
    | inr h ↦ inr (apart, h)
  ]
]

append-Distinct :
    (xs ys : List ℕ)
    → Distinct xs
    → Distinct ys
    → All (λ x. All (λ y. x ≢ y) ys) xs
    → Distinct (xs ++ ys)
append-Distinct [] ys d d' h = d'
append-Distinct (x ∷ xs) ys (apart, d) d' (p, h) =
    (All-append (λ y. x ≢ y) xs ys apart p, append-Distinct xs ys d d' h)

pub Distinct-meet :
    (n : ℕ) (xs ys : List ℕ)
    → Distinct xs
    → Distinct ys
    → All (λ x. x < n) xs
    → All (λ x. x < n) ys
    → n < length xs + length ys
    → (x : ℕ) × Memᴰ x xs × Memᴰ x ys
Distinct-meet n xs ys d d' h h' more = elim (common xs ys) [
  | inl found ↦ found
  | inr apart ↦
      let fits =
        length_bound n (xs ++ ys) (append-Distinct xs ys d d' apart)
          (All-append (λ x. x < n) xs ys h h') in
      absurd (omega (arith, fits, length-append xs ys))
]
