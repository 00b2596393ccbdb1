-- ===== src/Base/Fallible.antt =====
-- Go code that may panic: a run returns a value or panics. An index or a slice bound out of range
-- is a panic.
use Prim.Native.Nat.{ℕ, zero, suc, ◌≤◌, ◌<◌}
use mathlib.Core.Logic.{◌⊎◌, inl, inr}
use mathlib.Core.Path.{◌≡◌, refl}
use mathlib.Core.List.{List, [], ◌∷◌}
use mathlib.Core.Option.{Option, none, some}
use native.Mathlib.Omega.{arith}
use logic_raft.Base.Tests.{ltb, if◌then◌else◌, lt→ltb, le→ltb}
use logic_raft.Base.Lists.{length, get_elem?, length-set, set, take, drop}

pub data Result {ℓ} (A : Type ℓ) : Type ℓ where
  ok : A → Result A
  panic : Result A

module _ {ℓ κ} {A : Type ℓ} {B : Type κ} where
  infixl 5 ◌>>=◌
  -- A panic ends the method.
  abbrev pub ◌>>=◌ : Result A → (A → Result B) → Result B
  panic >>= next = panic
  ok a >>= next = next a

  pub >>=-eq-ok :
      (first : Result A) (next : A → Result B) {b : B}
      → (first >>= next) ≡ ok b
      → (a : A) × (first ≡ ok a) × (next a ≡ ok b)
  >>=-eq-ok panic next h = cc
  >>=-eq-ok (ok a) next h = (a, refl, h)

abbrev pub from_option {ℓ} : {A : Type ℓ} → Option A → Result A
from_option none = panic
from_option (some a) = ok a

pub Result-cases {ℓ} : {A : Type ℓ} (r : Result A) → ((a : A) × (r ≡ ok a)) ⊎ (r ≡ panic)
Result-cases (ok a) = inl (a, refl)
Result-cases panic = inr refl

module _ {ℓ} {A : Type ℓ} where
  -- xs[i]
  abbrev pub index : List A → ℕ → Result A
  index xs i = from_option (get_elem? xs i)

  -- xs[i] = v
  unfoldable pub put : List A → ℕ → A → Result (List A)
  put xs i v = if ltb i (length xs) then ok (set xs i v) else panic

  -- xs[n:]
  unfoldable pub slice_from : List A → ℕ → Result (List A)
  slice_from xs n = if ltb (length xs) n then panic else ok (drop n xs)

  -- xs[:n]. Go allows n up to the capacity; the source calls it with n at most the length.
  unfoldable pub slice_to : List A → ℕ → Result (List A)
  slice_to xs n = if ltb (length xs) n then panic else ok (take n xs)

  pub slice_from_ok : (xs : List A) (n : ℕ) → n ≤ length xs → slice_from xs n ≡ ok (drop n xs)
  unfolding slice_from
  slice_from_ok xs n h = rw (le→ltb (length xs) n h)

  pub slice_to_ok : (xs : List A) (n : ℕ) → n ≤ length xs → slice_to xs n ≡ ok (take n xs)
  unfolding slice_to
  slice_to_ok xs n h = rw (le→ltb (length xs) n h)

  pub index-lt : (xs : List A) (i : ℕ) (a : A) → index xs i ≡ ok a → i < length xs
  index-lt [] i a h = cc
  index-lt (x ∷ xs) zero a h = omega arith
  index-lt (x ∷ xs) (suc i) a h = omega (arith, index-lt xs i a h)

  pub get_elem?_of_index :
      (xs : List A) (i : ℕ) (a : A) → index xs i ≡ ok a → get_elem? xs i ≡ some a
  get_elem?_of_index xs i a h = ground arith

  pub put_ok : (xs : List A) (i : ℕ) (v : A) → i < length xs → put xs i v ≡ ok (set xs i v)
  unfolding put
  put_ok xs i v h = rw (lt→ltb i (length xs) h)

  pub put-set :
      (xs : List A) (i : ℕ) (v : A) {ys : List A}
      → put xs i v ≡ ok ys
      → (i < length xs) × (ys ≡ set xs i v) × (length ys ≡ length xs)
  unfolding put
  put-set xs i v h = ground (arith, length-set xs i v)
