-- ===== src/Kv/Harness/Partition.antt =====
-- What a sequence of calls of the network comes to, and which calls a partition makes.
pub mod Groups
use Prim.Native.String.{String}
use mathlib.Core.Path.{◌∙◌}
use native.Mathlib.Decide.{ℕ_discrete}
use mathlib.Core.List.Memᴰ.{cast, append_left, append_right}
use logic_raft.Base.{
  ℕ, zero, suc, ◌+◌, ◌<◌, ◌≤◌, ◌≡◌, ◌≢◌, ◌⊎◌, inl, inr, refl, Bool, true, false, Option, none, some,
  List, [], ◌∷◌, ◌++◌, map, Memᴰ, Mem-map, Result, ok, arith, length, index, All, All-Mem,
  All-append, All-map, ap, sym, subst,
}
use logic_raft.Network.{Network}
use logic_raft.Kv.Harness.{Config, partition}
use logic_raft.Kv.Harness.Links.{
  Link, out_links, in_links, server_links, links, run, IsNamed, with_net, partition-links,
}

-- What the harness relies on: enabling or disabling an end is about that end alone.
pub record Switches {N : Type 0} (nw : Network N) (is_enabled : String → N → Bool) : Type 0 where
  pub switched : (e : String) (on : Bool) (net : N) → is_enabled e (nw.enable e on net) ≡ on
  pub others :
      (e e' : String) (on : Bool) (net : N)
      → e ≢ e'
      → is_enabled e' (nw.enable e on net) ≡ is_enabled e' net

-- The call, if it is about the link from a to b, sets it to v.
abbrev pub Sets : ℕ → Bool → ℕ → ℕ → Link → Type 0
Sets n v a b (on, i, j) = (i < n) × (j < n) × (i ≡ a → j ≡ b → on ≡ v)

-- The link from a to b joins i and j.
abbrev pub Joins : ℕ → ℕ → ℕ → ℕ → Type 0
Joins a b i j = ((i ≡ a) × (j ≡ b)) ⊎ ((j ≡ a) × (i ≡ b))

module _ (n : ℕ) (v : Bool) (a b : ℕ) (group others : List ℕ) (in_group : All (λ j. j < n) group)
    (in_others : All (λ j. j < n) others) where
  server_links-Sets :
      (i : ℕ)
      → i < n
      → ((j : ℕ) → Memᴰ j others → Joins a b i j → false ≡ v)
      → ((j : ℕ) → Memᴰ j group → Joins a b i j → true ≡ v)
      → All (Sets n v a b) (server_links i group others)
  server_links-Sets i h cut joined =
      let P = Sets n v a b in
      let known : (xs : List ℕ) → All (λ j. j < n) xs → (j : ℕ) → Memᴰ j xs → j < n =
        λ xs k j. All-Mem (λ j. j < n) xs j k in
      All-append P (out_links false i others) _
        (All-map P _ others (λ j m. (h, known others in_others j m, λ e e'. cut j m (inl (e, e')))))
        (All-append P (in_links false i others) _
          (All-map P _ others
            (λ j m. (known others in_others j m, h, λ e e'. cut j m (inr (e, e')))))
          (All-append P (out_links true i group) _
            (All-map P _ group
              (λ j m. (h, known group in_group j m, λ e e'. joined j m (inl (e, e')))))
            (All-map P _ group
              (λ j m. (known group in_group j m, h, λ e e'. joined j m (inr (e, e')))))))

  pub links-Sets :
      (own : List ℕ)
      → All (λ i. i < n) own
      → ((i j : ℕ) → Memᴰ i own → Memᴰ j others → Joins a b i j → false ≡ v)
      → ((i j : ℕ) → Memᴰ i own → Memᴰ j group → Joins a b i j → true ≡ v)
      → All (Sets n v a b) (links own group others)
  links-Sets [] h cut joined = tt
  links-Sets (i ∷ own) h cut joined =
      All-append (Sets n v a b) (server_links i group others) _
        (server_links-Sets i h.0 (λ j. cut i j (Memᴰ.head refl)) (λ j. joined i j (Memᴰ.head refl)))
        (links-Sets own h.1 (λ i' j m. cut i' j (Memᴰ.tail m))
          (λ i' j m. joined i' j (Memᴰ.tail m)))

-- What is among the calls: both directions of a cut, and of a link in the group.
pub links-Mem :
    (own group others : List ℕ) (i : ℕ) (l : Link)
    → Memᴰ i own
    → Memᴰ l (server_links i group others)
    → Memᴰ l (links own group others)
links-Mem [] group others i l m k = elim m [ ]
links-Mem (x ∷ own) group others i l (Memᴰ.head e) k =
    append_left {s = server_links x group others} _ (rw (sym e) k)
links-Mem (x ∷ own) group others i l (Memᴰ.tail m) k =
    append_right (server_links x group others) (links-Mem own group others i l m k)

pub cut-Mem :
    (i j : ℕ) (group others : List ℕ)
    → Memᴰ j others
    → Memᴰ (false, i, j) (server_links i group others)
      × Memᴰ (false, j, i) (server_links i group others)
cut-Mem i j group others m = (
  append_left _ (Mem-map _ others j m),
  append_right (out_links false i others) (append_left _ (Mem-map _ others j m)),
)

pub joined-Mem :
    (i j : ℕ) (group others : List ℕ)
    → Memᴰ j group
    → Memᴰ (true, i, j) (server_links i group others)
joined-Mem i j group others m =
    append_right (out_links false i others)
      (append_right (in_links false i others) (append_left _ (Mem-map _ group j m)))

module _ {N : Type 0} (nw : Network N) (is_enabled : String → N → Bool)
    (switches : Switches nw is_enabled) (name : ℕ → ℕ → String) (n : ℕ)
    (apart : (i j i' j' : ℕ)
      → i < n
      → j < n
      → i' < n
      → j' < n
      → name i j ≡ name i' j'
      → (i ≡ i') × (j ≡ j')) where
  switched_to :
      (on : Bool) (i j : ℕ) (v : Bool) (a b : ℕ) (net : N)
      → (let l : Link = (on, i, j) in l ≡ (v, a, b))
      → is_enabled (name a b) (nw.enable (name i j) on net) ≡ v
  switched_to on i j v a b net e =
      let p : on ≡ v = ap (λ (l : Link). l.0) e in
      let q : i ≡ a = ap (λ (l : Link). l.1) e in
      let r : j ≡ b = ap (λ (l : Link). l.2) e in rw (p, q, r) (switches.switched (name a b) v net)

  -- If all calls about a link set it to the same value, it has that value at the end, where one of
  -- them is about it or it has the value before.
  pub run-settles :
      (ls : List Link) (v : Bool) (a b : ℕ) (net : N)
      → a < n
      → b < n
      → All (Sets n v a b) ls
      → (is_enabled (name a b) net ≡ v) ⊎ Memᴰ (v, a, b) ls
      → is_enabled (name a b) (run nw name ls net) ≡ v
  run-settles [] v a b net h k sets (inl e) = e
  run-settles [] v a b net h k sets (inr m) = elim m [ ]
  run-settles ((on, i, j) ∷ ls) v a b net h k (s, sets) (inr (Memᴰ.tail m)) =
      run-settles ls v a b _ h k sets (inr m)
  run-settles ((on, i, j) ∷ ls) v a b net h k (s, sets) (inr (Memᴰ.head e)) =
      run-settles ls v a b _ h k sets (inl (switched_to on i j v a b net (sym e)))
  run-settles ((on, i, j) ∷ ls) v a b net h k ((i_in, j_in, to), sets) (inl e) =
      run-settles ls v a b _ h k sets (
        inl (elim (ℕ_discrete i a) [
          | yes p ↦ elim (ℕ_discrete j b) [
            | yes q ↦ switched_to on i j v a b net (cc (to p q, p, q))
            | no q ↦
                switches.others (name i j) (name a b) on net
                  (λ same. q (apart i j a b i_in j_in h k same).1)
                ∙ e
          ]
          | no p ↦
              switches.others (name i j) (name a b) on net
                (λ same. p (apart i j a b i_in j_in h k same).0)
              ∙ e
        ]))
