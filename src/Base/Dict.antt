-- ===== src/Base/Dict.antt =====
-- Go maps: keys with a decided equality, a missing key, assignment and deletion. The program never
-- ranges over a map, so the order of entries is not modelled.
use Prim.Native.String.{String}
use text.Mathlib.Text.{◌==◌ as str_eq}
use text.Mathlib.TextEquality.{eq_iff}
use Prim.Native.Nat.{ℕ}
use mathlib.Core.Path.{◌≡◌, refl}
use mathlib.Core.Logic.{◌↔◌}
use mathlib.Core.Bool.{Bool, true}
use mathlib.Core.Option.{Option, none, some}
use mathlib.Core.List.{List, [], ◌∷◌}
use native.Mathlib.Omega.{arith}
use logic_raft.Base.Tests.{◌==◌ as nat_eq, if◌then◌else◌, ==_iff}

pub record Key {ℓ} (K : Type ℓ) : Type ℓ where
  pub same : K → K → Bool
  pub same_iff : (a b : K) → (same a b ≡ true) ↔ (a ≡ b)

instance abbrev pub nat_key : Key ℕ
nat_key = record { same = nat_eq; same_iff = ==_iff }

instance abbrev pub string_key : Key String
string_key = record { same = str_eq; same_iff = eq_iff }

pub same_refl {ℓ} : {K : Type ℓ} ⦃k : Key K⦄ → (a : K) → k.same a a ≡ true
same_refl ⦃k⦄ a = (k.same_iff a a).1 refl

abbrev pub Dict {ℓ κ} : Type ℓ → Type κ → Type (ℓ ⊔ κ)
Dict K V = List (K × V)

module _ {ℓ κ} {K : Type ℓ} {V : Type κ} ⦃k : Key K⦄ where
  unfoldable pub lookup : K → Dict K V → Option V
  lookup a [] = none
  lookup a ((b, v) ∷ rest) = if k.same b a then some v else lookup a rest

  unfoldable pub assign : K → V → Dict K V → Dict K V
  assign a v [] = (a, v) ∷ []
  assign a v ((b, w) ∷ rest) = if k.same b a then (a, v) ∷ rest else (b, w) ∷ assign a v rest

  unfoldable pub delete : K → Dict K V → Dict K V
  delete a [] = []
  delete a ((b, w) ∷ rest) =
      let others = delete a rest in if k.same b a then others else (b, w) ∷ others

  pub lookup-assign :
      (a b : K) (v : V) (m : Dict K V)
      → lookup b (assign a v m) ≡ (if k.same a b then some v else lookup b m)
  unfolding lookup assign
  lookup-assign a b v [] = refl
  lookup-assign a b v ((c, w) ∷ rest) =
      ground (arith, k.same_iff a b, k.same_iff c a, k.same_iff c b, lookup-assign a b v rest)

  pub lookup-delete :
      (a b : K) (m : Dict K V) → lookup b (delete a m) ≡ (if k.same a b then none else lookup b m)
  unfolding lookup delete
  lookup-delete a b [] = ground arith
  lookup-delete a b ((c, w) ∷ rest) =
      ground (arith, k.same_iff a b, k.same_iff c a, k.same_iff c b, lookup-delete a b rest)

  pub assign-assign : (a : K) (v w : V) (m : Dict K V) → assign a v (assign a w m) ≡ assign a v m
  unfolding assign
  assign-assign a v w [] = ground (arith, same_refl a)
  assign-assign a v w ((c, u) ∷ rest) = ground (arith, same_refl a, assign-assign a v w rest)
