-- ===== src/Tests/Servers.antt =====
-- The networks and the partitions of the harness of the store.
use Prim.Native.String.{String}
use logic_raft.Base.{
  ℕ, zero, suc, ◌≡◌, ◌<◌, ◌⊎◌, refl, true, false, Bool, none, some, List, [], ◌∷◌, Result, ok,
  panic, arith, index, length, sym, ap, if◌then◌else◌, ◌∙◌, map, ◌>>=◌, Memᴰ,
}
use logic_raft.Base.Dict.{string_key}
use logic_raft.Network.{Network}
use logic_raft.Raft.{follower}
use logic_raft.Kv.Server.{KvServer}
use logic_raft.Kv.Harness.{Config, endname_of, partition}
use logic_raft.Kv.Harness.Servers.{find_leader, make_partition}
use logic_raft.Kv.Harness.Links.{IsNamed}
use logic_raft.Kv.Harness.Partition.{Switches}
use logic_raft.Kv.Harness.Partition.Groups.{partition_separates}
use logic_raft.Kv.Harness.Leading.{IsRunning, IsFirst}
use logic_raft.Kv.Harness.Minority.{make_partition_exact}
use logic_raft.Tests.Kv.{server, peer}

-- A network that knows of each end whether it is enabled.
abbrev pub switchboard : Network (String → Bool)
switchboard = record {
  make_network = λ _. false;
  make_end = λ _ net. net;
  connect_end = λ _ _ net. net;
  enable = λ e on net x. if string_key.same e x then on else net x;
  delete_server = λ _ net. net;
  add_server = λ _ net. net;
  reliable = λ _ net. net;
  long_delays = λ _ net. net;
}

abbrev is_on : String → (String → Bool) → Bool
is_on e net = net e

switches : Switches switchboard is_on
switches = record {
  switched = λ e on net. ground (arith, string_key.same_iff e e);
  others = λ e e' on net h. ground (arith, string_key.same_iff e e');
}

abbrev end_rows : List (List String)
end_rows = ("00" ∷ "01" ∷ "02" ∷ []) ∷ ("10" ∷ "11" ∷ "12" ∷ []) ∷ ("20" ∷ "21" ∷ "22" ∷ []) ∷ []

abbrev or_empty : Result String → String
or_empty panic = ""
or_empty (ok s) = s

abbrev end_name : ℕ → ℕ → String
end_name i j = or_empty (do row ← index end_rows i; index row j)

-- Which end has a name.
abbrev end_of : String → ℕ × ℕ
end_of s =
    if string_key.same s "00"
    then (0, 0)
    else if string_key.same s "01"
    then (0, 1)
    else if string_key.same s "02"
    then (0, 2)
    else if string_key.same s "10"
    then (1, 0)
    else if string_key.same s "11"
    then (1, 1)
    else if string_key.same s "12"
    then (1, 2)
    else if string_key.same s "20"
    then (2, 0)
    else if string_key.same s "21"
    then (2, 1)
    else (2, 2)

end_of-end_name : (i j : ℕ) → i < 3 → j < 3 → end_of (end_name i j) ≡ (i, j)
end_of-end_name zero zero h k = refl
end_of-end_name zero (suc zero) h k = refl
end_of-end_name zero (suc (suc zero)) h k = refl
end_of-end_name (suc zero) zero h k = refl
end_of-end_name (suc zero) (suc zero) h k = refl
end_of-end_name (suc zero) (suc (suc zero)) h k = refl
end_of-end_name (suc (suc zero)) zero h k = refl
end_of-end_name (suc (suc zero)) (suc zero) h k = refl
end_of-end_name (suc (suc zero)) (suc (suc zero)) h k = refl
end_of-end_name (suc (suc (suc i))) j h k = absurd (omega arith)
end_of-end_name i (suc (suc (suc j))) h k = absurd (omega arith)

apart :
    (i j i' j' : ℕ)
    → i < 3
    → j < 3
    → i' < 3
    → j' < 3
    → end_name i j ≡ end_name i' j'
    → (i ≡ i') × (j ≡ j')
apart i j i' j' h k h' k' e =
    let same : let p : ℕ × ℕ = (i, j) in p ≡ (i', j') =
      sym (end_of-end_name i j h k) ∙ ap end_of e ∙ end_of-end_name i' j' h' k' in
    (ap (λ (p : ℕ × ℕ). p.0) same, ap (λ (p : ℕ × ℕ). p.1) same)

abbrev resting : KvServer
resting = record server { rf = record peer { role = follower } }

-- Three servers, of which the second leads.
abbrev three : Config (String → Bool)
three = record {
  net = λ _. false;
  n = 3;
  kvservers = some resting ∷ some server ∷ some resting ∷ [];
  saved = none ∷ none ∷ none ∷ [];
  endnames = map some end_rows;
  clerks = [];
  next_client_id = 1003;
  max_raft_state = none;
}

three_names : (i j : ℕ) → i < 3 → j < 3 → endname_of i j three ≡ ok (end_name i j)
unfolding endname_of
three_names zero zero h k = refl
three_names zero (suc zero) h k = refl
three_names zero (suc (suc zero)) h k = refl
three_names (suc zero) zero h k = refl
three_names (suc zero) (suc zero) h k = refl
three_names (suc zero) (suc (suc zero)) h k = refl
three_names (suc (suc zero)) zero h k = refl
three_names (suc (suc zero)) (suc zero) h k = refl
three_names (suc (suc zero)) (suc (suc zero)) h k = refl
three_names (suc (suc (suc i))) j h k = absurd (omega arith)
three_names i (suc (suc (suc j))) h k = absurd (omega arith)

three_rows : (i : ℕ) → i < 3 → (row : List String) × (index three.endnames i ≡ ok (some row))
three_rows zero h = (_, refl)
three_rows (suc zero) h = (_, refl)
three_rows (suc (suc zero)) h = (_, refl)
three_rows (suc (suc (suc i))) h = absurd (omega arith)

three-IsNamed : IsNamed switchboard end_name three
three-IsNamed = record { named = three_names; started = three_rows }

no_common : (i : ℕ) → Memᴰ i (0 ∷ 2 ∷ []) → Memᴰ i (1 ∷ []) → ⊥
no_common i (Memᴰ.head e) (Memᴰ.head e') = omega arith
no_common i (Memᴰ.tail (Memᴰ.head e)) (Memᴰ.head e') = omega arith
no_common i (Memᴰ.tail (Memᴰ.tail m)) m' = elim m [ ]
no_common i m (Memᴰ.tail m') = elim m' [ ]

partition_separates_example :
    (net : String → Bool) × (partition switchboard (0 ∷ 2 ∷ []) (1 ∷ []) three
      ≡ ok (record three { net = net }))
    × ((a b : ℕ)
        → (Memᴰ a (0 ∷ 2 ∷ []) × Memᴰ b (0 ∷ 2 ∷ [])) ⊎ (Memᴰ a (1 ∷ []) × Memᴰ b (1 ∷ []))
        → net (end_name a b) ≡ true)
    × ((a b : ℕ)
        → (Memᴰ a (0 ∷ 2 ∷ []) × Memᴰ b (1 ∷ [])) ⊎ (Memᴰ b (0 ∷ 2 ∷ []) × Memᴰ a (1 ∷ []))
        → net (end_name a b) ≡ false)
partition_separates_example =
    partition_separates switchboard is_on switches end_name three (0 ∷ 2 ∷ []) (1 ∷ [])
      three-IsNamed apart (omega arith) (omega arith) (omega arith, (omega arith, tt))
      (omega arith, tt) no_common

leads : find_leader three ≡ ok (true, 1)
unfolding find_leader
leads = refl

three-IsRunning : (i : ℕ) → i < 3 → IsRunning three i
three-IsRunning zero h = (resting, refl)
three-IsRunning (suc zero) h = (server, refl)
three-IsRunning (suc (suc zero)) h = (resting, refl)
three-IsRunning (suc (suc (suc i))) h = absurd (omega arith)

make_partition_exact_example :
    (p1 p2 : List ℕ) × (l : ℕ) × (make_partition three ≡ ok (p1, p2))
    × (length p1 ≡ 2)
    × (length p2 ≡ 1)
    × IsFirst three 0 3 l
    × Memᴰ l p2
    × ((i : ℕ) → i < 3 → Memᴰ i p1 ⊎ Memᴰ i p2)
    × ((i : ℕ) → Memᴰ i p1 ⊎ Memᴰ i p2 → i < 3)
    × ((i : ℕ) → Memᴰ i p1 → Memᴰ i p2 → ⊥)
make_partition_exact_example = make_partition_exact three 1 refl (omega arith) three-IsRunning
