-- ===== src/Tests/Harness.antt =====
-- The checks of the test harness, and the partition of a history.
use Prim.Native.String.{String}
use mathlib.Core.Path.{◌∙◌}
use logic_raft.Base.{
  ℕ, zero, suc, ◌≡◌, ◌≢◌, ◌<◌, refl, true, false, Bool, Option, none, some, List, [], ◌∷◌, Result,
  ok, panic, arith, index, ◌==◌, ==_iff, sym, ap, ◌↔◌,
}
use logic_raft.Base.Dict.{Key, lookup, assign, nat_key, string_key}
use logic_raft.Raft.{ApplyMsg}
use logic_raft.Harness.{Config, check_logs, n_committed, one_leader}
use logic_raft.Harness.Agreement.{Agree, Applied, check_logs-Agree}
use logic_raft.Harness.Count.{holders, Counted, n_committed_exact}
use logic_raft.Kv.Model.{KvInput}
use logic_raft.Kv.Partition.{partition, partition_exact, of_key}
use logic_raft.Tests.States.{leading, trailing}

abbrev same_command : Option ℕ → Option ℕ → Bool
same_command none none = true
same_command (some a) (some b) = a == b
same_command _ _ = false

same_command_iff : (a b : Option ℕ) → (same_command a b ≡ true) ↔ (a ≡ b)
same_command_iff none none = (λ h. refl, λ h. refl)
same_command_iff none (some b) = (λ h. cc, λ h. cc)
same_command_iff (some a) none = (λ h. cc, λ h. cc)
same_command_iff (some a) (some b) =
    (λ h. ap some ((==_iff a b).0 h), λ h. (==_iff a b).1 (let e : a ≡ b = cc in e))

instance command_key : Key (Option ℕ)
command_key = record { same = same_command; same_iff = same_command_iff }

-- Three servers, of which the first two have applied command 10 at index 1.
abbrev watched : Config ℕ
watched = record {
  n = 3;
  rafts = some leading ∷ some trailing ∷ some trailing ∷ [];
  apply_err = none ∷ none ∷ none ∷ [];
  connected = true ∷ true ∷ true ∷ [];
  saved = [];
  logs = ((1, some 10) ∷ []) ∷ ((1, some 10) ∷ []) ∷ [] ∷ [];
  last_applied = 1 ∷ 1 ∷ 0 ∷ [];
  max_index = 1;
}

abbrev message : ℕ → ApplyMsg ℕ
message command = record {
  command_valid = true;
  command = some command;
  command_index = 1;
  snapshot_valid = false;
  snapshot = none;
  snapshot_term = 0;
  snapshot_index = 0;
}

only_ten : (a i : ℕ) (v : Option ℕ) → Applied watched.logs a i v → v ≡ some 10
unfolding lookup
only_ten zero i v (log, at, e) =
    let same : ((1, some 10) ∷ []) ≡ log = cc in ground (arith, same, e)
only_ten (suc zero) i v (log, at, e) =
    let same : ((1, some 10) ∷ []) ≡ log = cc in ground (arith, same, e)
only_ten (suc (suc zero)) i v (log, at, e) = let same : [] ≡ log = cc in ground (arith, same, e)
only_ten (suc (suc (suc a))) i v (log, at, e) = cc

watched-Agree : Agree watched.logs
watched-Agree a b i v w va wb = only_ten a i v va ∙ sym (only_ten b i w wb)

abbrev config_or : {R : Type 0} → Config ℕ → Result (R × Config ℕ) → Config ℕ
config_or cfg panic = cfg
config_or cfg (ok r) = r.1

abbrev checked : Config ℕ
checked = config_or watched (check_logs 2 (message 10) watched)

check : check_logs 2 (message 10) watched ≡ ok ((none, false), checked)
unfolding check_logs command_key lookup
check = refl

check_logs-Agree_example : Agree checked.logs × Applied checked.logs 2 1 (some 10)
check_logs-Agree_example = check_logs-Agree 2 (message 10) watched checked false watched-Agree check

no_error : (j : ℕ) → j < 3 → index watched.apply_err j ≡ ok none
no_error zero h = refl
no_error (suc zero) h = refl
no_error (suc (suc zero)) h = refl
no_error (suc (suc (suc j))) h = absurd (omega arith)

n_committed_exact_example :
    (cmd : Option ℕ) × (n_committed 1 watched ≡ ok (holders 1 watched.logs, cmd))
    × Counted 1 watched.logs (holders 1 watched.logs) cmd
n_committed_exact_example = n_committed_exact 1 watched no_error refl watched-Agree

two_hold : holders 1 watched.logs ≡ 2
unfolding lookup
two_hold = refl

one_leads : one_leader watched ≡ ok (some 0)
unfolding one_leader lookup assign
one_leads = refl

abbrev ops : List KvInput
ops =
    record { op = 1; key = "b"; value = "x" }
    ∷ record { op = 1; key = "a"; value = "y" }
    ∷ record { op = 0; key = "b"; value = "" }
    ∷ []

partition_exact_example :
    ((j : ℕ) (os : List KvInput)
      → index (partition (λ (o : KvInput). o) ops) j ≡ ok os
      → (key : String) × (os ≡ of_key (λ (o : KvInput). o) key ops))
    × ((key : String)
        → of_key (λ (o : KvInput). o) key ops ≢ []
        → (j : ℕ) × (index (partition (λ (o : KvInput). o) ops) j
            ≡ ok (of_key (λ (o : KvInput). o) key ops)))
partition_exact_example = partition_exact (λ (o : KvInput). o) ops
