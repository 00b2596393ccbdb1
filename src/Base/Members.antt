-- ===== src/Base/Members.antt =====
-- What holds of every element of a list, and membership by position.
use Prim.Native.Nat.{ℕ, zero, suc}
use mathlib.Core.Path.{◌≡◌, refl, ap, sym, subst}
use mathlib.Core.List.{List, [], ◌∷◌, ◌++◌, map, Memᴰ}
use logic_raft.Base.Fallible.{ok, index}

abbrev pub All {ℓ κ} : {A : Type ℓ} → (A → Type κ) → List A → Type κ
All P [] = Unit
All P (x ∷ xs) = P x × All P xs

module _ {ℓ} {A : Type ℓ} where
  pub All-append {κ} : (P : A → Type κ) (xs ys : List A) → All P xs → All P ys → All P (xs ++ ys)
  All-append P [] ys h k = k
  All-append P (x ∷ xs) ys h k = (h.0, All-append P xs ys h.1 k)

  pub All-imp {κ μ} :
      {P : A → Type κ} {Q : A → Type μ}
      → ((x : A) → P x → Q x)
      → (xs : List A) → All P xs
      → All Q xs
  All-imp f [] h = tt
  All-imp f (x ∷ xs) h = (f x h.0, All-imp f xs h.1)

  pub All-Mem {κ} : (P : A → Type κ) (xs : List A) (x : A) → All P xs → Memᴰ x xs → P x
  All-Mem P [] x h m = elim m [ ]
  All-Mem P (y ∷ xs) x h (Memᴰ.head e) = subst P (sym e) h.0
  All-Mem P (y ∷ xs) x h (Memᴰ.tail m) = All-Mem P xs x h.1 m

  pub Mem_at : (xs : List A) (i : ℕ) (a : A) → index xs i ≡ ok a → Memᴰ a xs
  Mem_at [] i a h = cc
  Mem_at (x ∷ xs) zero a h = Memᴰ.head cc
  Mem_at (x ∷ xs) (suc i) a h = Memᴰ.tail (Mem_at xs i a h)

  pub Mem-index : (xs : List A) (a : A) → Memᴰ a xs → (i : ℕ) × (index xs i ≡ ok a)
  Mem-index [] a m = elim m [ ]
  Mem-index (x ∷ xs) a (Memᴰ.head e) = (0, cc)
  Mem-index (x ∷ xs) a (Memᴰ.tail h) = let (i, e) = Mem-index xs a h in (suc i, e)

module _ {ℓ κ} {A : Type ℓ} {B : Type κ} where
  pub All-map {μ} :
      (P : B → Type μ) (f : A → B) (xs : List A)
      → ((x : A) → Memᴰ x xs → P (f x))
      → All P (map f xs)
  All-map P f [] h = tt
  All-map P f (x ∷ xs) h = (h x (Memᴰ.head refl), All-map P f xs (λ y k. h y (Memᴰ.tail k)))

  pub Mem-map : (f : A → B) (xs : List A) (x : A) → Memᴰ x xs → Memᴰ (f x) (map f xs)
  Mem-map f [] x m = elim m [ ]
  Mem-map f (y ∷ xs) x (Memᴰ.head e) = Memᴰ.head (ap f e)
  Mem-map f (y ∷ xs) x (Memᴰ.tail m) = Memᴰ.tail (Mem-map f xs x m)
