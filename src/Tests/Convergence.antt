-- ===== src/Tests/Convergence.antt =====
-- A leader of three records and a follower with a record of a leader that never committed it.
use mathlib.Core.Path.{◌∙◌}
use native.Mathlib.Decide.{dec_lt}
use logic_raft.Base.{sym, ◌*◌, ◌≢◌, ℕ, zero, suc, ◌<◌, ◌≤◌, ◌≡◌, refl, ok, arith, index, [], ◌∷◌}
use logic_raft.Log.{LogRecord, get, size, dummy}
use logic_raft.Log.Records.{get_at}
use logic_raft.Raft.{Raft}
use logic_raft.Raft.Replication.Exchange.{exchanges}
use logic_raft.Raft.Replication.Convergence.{IsWhole, Matching, Ready}
use logic_raft.Raft.Replication.Convergence.Round.{Brought}
use logic_raft.Raft.Replication.Convergence.Rounds.{replication_converges}
use logic_raft.Tests.Codec.{codec}
use logic_raft.Tests.States.{clock, leading, trailing, entry}

real_terms :
    (last i : ℕ) (r : LogRecord ℕ)
    → 0 < last
    → 0 < i
    → index (dummy 0 ∷ entry 1 10 ∷ entry last (last * 10) ∷ []) i ≡ ok r
    → 0 < r.term
real_terms last zero r pos later e = absurd (omega arith)
real_terms last (suc zero) r pos later e = ground arith
real_terms last (suc (suc zero)) r pos later e = ground arith
real_terms last (suc (suc (suc i))) r pos later e = cc

leading-IsWhole : IsWhole leading.log
unfolding get
leading-IsWhole = record {
  base = refl;
  first = dummy 0;
  first_at = refl;
  first_term = refl;
  sorted = (omega arith, (omega arith, (omega arith, tt)));
  real = λ i r later e.
      real_terms 3 i r (omega arith) later (sym (get_at leading.log i i (omega arith)) ∙ e);
}

trailing-IsWhole : IsWhole trailing.log
unfolding get
trailing-IsWhole = record {
  base = refl;
  first = dummy 0;
  first_at = refl;
  first_term = refl;
  sorted = (omega arith, (omega arith, (omega arith, tt)));
  real = λ i r later e.
      real_terms 2 i r (omega arith) later (sym (get_at trailing.log i i (omega arith)) ∙ e);
}

last_differs :
    (p k : ℕ) (r r' : LogRecord ℕ)
    → 1 < p
    → p ≤ k
    → index trailing.log.records p ≡ ok r
    → index leading.log.records k ≡ ok r'
    → r.term ≢ r'.term
last_differs (suc (suc zero)) (suc (suc zero)) r r' later le e e' same = ground arith
last_differs p (suc (suc (suc k))) r r' later le e e' same = cc
last_differs (suc (suc (suc p))) k r r' later le e e' same = cc
last_differs p zero r r' later le e e' same = omega arith
last_differs p (suc zero) r r' later le e e' same = omega arith
last_differs zero k r r' later le e e' same = omega arith
last_differs (suc zero) k r r' later le e e' same = omega arith

begin_alike : (p i : ℕ) → p ≤ 1 → i ≤ p → get trailing.log i ≡ get leading.log i
unfolding get
begin_alike p zero h le = refl
begin_alike p (suc zero) h le = refl
begin_alike p (suc (suc i)) h le = absurd (omega arith)

same_leaders : Matching leading.log trailing.log
same_leaders p k r r' le at at' same i before = elim (dec_lt 1 p) [
  | yes later ↦ absurd (
      last_differs p k r r' later le (sym (get_at trailing.log p p (omega arith)) ∙ at)
        (sym (get_at leading.log k k (omega arith)) ∙ at') same)
  | no early ↦ begin_alike p i (omega arith) before
]

matches_bounded : (i x : ℕ) → index leading.match_index i ≡ ok x → x < size leading.log
unfolding size
matches_bounded zero x e = ground arith
matches_bounded (suc zero) x e = ground arith
matches_bounded (suc (suc zero)) x e = ground arith
matches_bounded (suc (suc (suc i))) x e = cc

ready : Ready 2 3 leading trailing
unfolding size
ready = record {
  role = refl;
  whole = leading-IsWhole;
  other_whole = trailing-IsWhole;
  terms = omega arith;
  matching = same_leaders;
  next_at = refl;
  next_pos = omega arith;
  next_le = omega arith;
  known = omega arith;
  bounded = matches_bounded;
}

replication_converges_example :
    (n : ℕ) × (lead' other' : Raft ℕ) × (n ≤ 3)
    × (exchanges codec clock 2 n leading trailing ≡ ok (lead', other'))
    × Brought codec clock 2 leading lead' other'
replication_converges_example = replication_converges codec clock 2 3 leading trailing ready
