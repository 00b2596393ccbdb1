-- ===== src/Kv/Partition.antt =====
-- `Partition` of src/models/kv.go: a history is checked one key at a time. An operation is a type
-- of the checker, of which only the input is read.
use Prim.Native.Nat.{Ordering}
use Prim.Native.String.{String, compare}
use mathlib.Core.Path.{◌∙◌}
use mathlib.Core.List.{append-nil, append_assoc}
use logic_raft.Base.{
  ◌≢◌, ◌⊎◌, Option-cases, ℕ, zero, suc, ◌≡◌, refl, sym, ap, Bool, true, false, none, some, List, [],
  ◌∷◌, ◌++◌, ok, arith, index, if◌then◌else◌, Bool-cases, inl, inr,
}
use logic_raft.Base.Dict.{Dict, lookup, assign, lookup-assign, string_key}
use logic_raft.Kv.Model.{KvInput}

-- sort.Strings orders by bytes, which is the order of the characters' numbers.
abbrev pub str_leb : String → String → Bool
str_leb a b = elim (compare a b) [ Ordering.lt ↦ true | Ordering.eq ↦ true | Ordering.gt ↦ false ]

unfoldable pub insert_string : String → List String → List String
insert_string x [] = x ∷ []
insert_string x (y ∷ ys) =
    let rest = insert_string x ys in if str_leb x y then x ∷ y ∷ ys else y ∷ rest

unfoldable pub sort_strings : List String → List String
unfolding insert_string
sort_strings [] = []
sort_strings (x ∷ xs) = insert_string x (sort_strings xs)

module _ {O : Type 0} (input_of : O → KvInput) where
  -- A missing key reads as an empty slice.
  abbrev pub ops_at : String → Dict String (List O) → List O
  ops_at key m = elim (lookup key m) [ none ↦ [] | some ops ↦ ops ]

  -- The first loop, on the map so far.
  unfoldable pub group_from : Dict String (List O) → List O → Dict String (List O)
  group_from m [] = m
  group_from m (v ∷ history) =
      let key = (input_of v).key in group_from (assign key (ops_at key m ++ v ∷ []) m) history

  unfoldable pub keys_of : Dict String (List O) → List String
  keys_of [] = []
  keys_of ((key, ops) ∷ rest) = key ∷ keys_of rest

  -- The last loop.
  unfoldable pub lists_of : List String → Dict String (List O) → List (List O)
  lists_of [] m = []
  lists_of (key ∷ keys) m = ops_at key m ∷ lists_of keys m

  unfoldable pub partition : List O → List (List O)
  unfolding group_from keys_of sort_strings lists_of
  partition history = let m = group_from [] history in lists_of (sort_strings (keys_of m)) m

  -- The operations of a history on a key, in order.
  abbrev pub of_key : String → List O → List O
  of_key key [] = []
  of_key key (v ∷ history) =
      let rest = of_key key history in
      if string_key.same (input_of v).key key then v ∷ rest else rest

  ops_at-assign :
      (a key : String) (ops : List O) (m : Dict String (List O))
      → ops_at key (assign a ops m) ≡ (if string_key.same a key then ops else ops_at key m)
  ops_at-assign a key ops m = ground (arith, lookup-assign a key ops m)

  ops_at-group_from :
      (key : String) (m : Dict String (List O)) (history : List O)
      → ops_at key (group_from m history) ≡ ops_at key m ++ of_key key history
  unfolding group_from
  ops_at-group_from key m [] = sym (append-nil (ops_at key m))
  ops_at-group_from key m (v ∷ history) =
      let own = (input_of v).key in
      let ops = ops_at own m ++ v ∷ [] in
      let later = of_key key history in
      let first : ops_at key (assign own ops m) ++ later
          ≡ ops_at key m ++ of_key key (v ∷ history) =
        elim (Bool-cases (string_key.same own key)) [
          | inl same ↦
              let e : own ≡ key = (string_key.same_iff own key).0 same in
              let now : ops_at key (assign own ops m) ≡ ops =
                ops_at-assign own key ops m ∙ rw same refl in
              let all : of_key key (v ∷ history) ≡ v ∷ later = rw same refl in
              ap (λ xs. xs ++ later) now
              ∙ append_assoc (ops_at own m) (v ∷ []) later
              ∙ ap (λ k. ops_at k m ++ v ∷ later) e
              ∙ ap (λ xs. ops_at key m ++ xs) (sym all)
          | inr other ↦
              let now : ops_at key (assign own ops m) ≡ ops_at key m =
                ops_at-assign own key ops m ∙ rw other refl in
              let all : of_key key (v ∷ history) ≡ later = rw other refl in
              ap (λ xs. xs ++ later) now ∙ ap (λ xs. ops_at key m ++ xs) (sym all)
        ] in
      ops_at-group_from key (assign own ops m) history ∙ first

  -- A string of a list.
  abbrev pub In : String → List String → Type 0
  In key keys = (j : ℕ) × (index keys j ≡ ok key)

  In-insert :
      (key x : String) (xs : List String) → (key ≡ x) ⊎ In key xs → In key (insert_string x xs)
  unfolding insert_string
  In-insert key x [] (inl e) = (0, ap ok (sym e))
  In-insert key x [] (inr (j, e)) = cc
  In-insert key x (y ∷ ys) (inl e) = elim (Bool-cases (str_leb x y)) [
    | inl first ↦ (0, rw first (ap ok (sym e)))
    | inr later ↦ let (j, found) = In-insert key x ys (inl e) in (suc j, rw later found)
  ]
  In-insert key x (y ∷ ys) (inr (zero, e)) = elim (Bool-cases (str_leb x y)) [
    | inl first ↦ (1, rw first e)
    | inr later ↦ (0, rw later e)
  ]
  In-insert key x (y ∷ ys) (inr (suc j, e)) = elim (Bool-cases (str_leb x y)) [
    | inl first ↦ (suc (suc j), rw first e)
    | inr later ↦ let (k, found) = In-insert key x ys (inr (j, e)) in (suc k, rw later found)
  ]

  In-sort : (key : String) (xs : List String) → In key xs → In key (sort_strings xs)
  unfolding sort_strings
  In-sort key [] (j, e) = cc
  In-sort key (x ∷ xs) (zero, e) =
      In-insert key x (sort_strings xs) (inl (let e' : x ≡ key = cc in sym e'))
  In-sort key (x ∷ xs) (suc j, e) = In-insert key x (sort_strings xs) (inr (In-sort key xs (j, e)))

  In-keys_of :
      (key : String) (m : Dict String (List O)) (ops : List O)
      → lookup key m ≡ some ops
      → In key (keys_of m)
  unfolding keys_of lookup
  In-keys_of key [] ops h = cc
  In-keys_of key ((k, o) ∷ rest) ops h = elim (Bool-cases (string_key.same k key)) [
    | inl same ↦ (0, ap ok ((string_key.same_iff k key).0 same))
    | inr other ↦ let (j, e) = In-keys_of key rest ops (rw other at h) in (suc j, e)
  ]

  lists_of-index :
      (keys : List String) (m : Dict String (List O)) (j : ℕ) (key : String)
      → index keys j ≡ ok key
      → index (lists_of keys m) j ≡ ok (ops_at key m)
  unfolding lists_of
  lists_of-index [] m j key h = cc
  lists_of-index (k ∷ keys) m zero key h = let e : k ≡ key = cc in ap (λ x. ok (ops_at x m)) e
  lists_of-index (k ∷ keys) m (suc j) key h = lists_of-index keys m j key h

  index-lists_of :
      (keys : List String) (m : Dict String (List O)) (j : ℕ) (ops : List O)
      → index (lists_of keys m) j ≡ ok ops
      → (key : String) × (ops ≡ ops_at key m)
  unfolding lists_of
  index-lists_of [] m j ops h = cc
  index-lists_of (k ∷ keys) m zero ops h = (k, cc)
  index-lists_of (k ∷ keys) m (suc j) ops h = index-lists_of keys m j ops h

  -- Each list of the partition is what the history does to one key, in the history's order; and
  -- what it does to a key, if anything, is a list of the partition.
  pub partition_exact :
      (history : List O)
      → ((j : ℕ) (ops : List O)
          → index (partition history) j ≡ ok ops
          → (key : String) × (ops ≡ of_key key history))
        × ((key : String)
            → of_key key history ≢ []
            → (j : ℕ) × (index (partition history) j ≡ ok (of_key key history)))
  unfolding partition lookup
  partition_exact history =
      let m = group_from [] history in
      let keys = sort_strings (keys_of m) in
      let at : (key : String) → ops_at key m ≡ of_key key history =
        λ key. ops_at-group_from key [] history in
      (
        λ j ops h. let (key, e) = index-lists_of keys m j ops h in (key, e ∙ at key),
        λ key some_ops. elim (Option-cases (lookup key m)) [
          | inl absent ↦ absurd (some_ops (sym (at key) ∙ rw (ops_at, absent) refl))
          | inr (ops, present) ↦
              let (j, e) = In-sort key (keys_of m) (In-keys_of key m ops present) in
              (j, lists_of-index keys m j key e ∙ ap ok (at key))
        ],
      )
