-- ===== src/Kv/Step/Channels.antt =====
-- The channels of a server that are empty, and how they stay so.
pub mod Handlers
pub mod Applying
pub mod Blocking
pub mod Delivery
use mathlib.Core.Path.{◌∙◌}
use native.Mathlib.Decide.{ℕ_discrete}
use logic_raft.Base.{
  ℕ, ◌<◌, ◌≤◌, ◌≡◌, ◌≢◌, ◌⊎◌, refl, sym, ap, Bool, true, false, Option, none, some, List, [], ◌∷◌,
  ◌++◌, Result, ok, panic, arith, length, get_elem?, set, length-set, length-append,
  get_elem?-set_self, get_elem?-set_ne, get_elem?-append_left, get_elem?-append_right,
  get_elem?-none, Bool-cases, inl, inr, Option-cases,
}
use logic_raft.Base.Dict.{Dict, lookup, assign, delete, lookup-assign, lookup-delete, nat_key}
use logic_raft.Gob.{Gob}
use logic_raft.Persister.{Persister}
use logic_raft.Raft.{Raft, Value, ApplyMsg}
use logic_raft.Kv.{Op, OpReply}
use logic_raft.Kv.Server.{
  KvServer, KvValue, get_notify_channel, remove_notify_channel, send, receive, submit, get_begin,
  get_finish, put_append_begin, put_append_finish, kill,
}
use logic_raft.Kv.Apply.{
  apply_op, notify, finish_apply, make_snapshot, apply_message, restore_from_snapshot,
  start_kv_server,
}
use logic_raft.Kv.Step.{
  KvStep, get_begun, get_ended, put_append_begun, put_append_ended, removed, applied, peer_moved,
  stopped, KvReach, here, next,
}

-- Different indexes have different channels, and that of an index not yet applied is empty.
pub record Clear (chans_of : Dict ℕ ℕ) (chans : List (Option OpReply)) (last_applied : ℕ)
    : Type 0 where
  pub known : (i ch : ℕ) → lookup i chans_of ≡ some ch → ch < length chans
  pub distinct : (i j ch : ℕ) → lookup i chans_of ≡ some ch → lookup j chans_of ≡ some ch → i ≡ j
  pub empty :
      (i ch : ℕ) → lookup i chans_of ≡ some ch → last_applied < i → get_elem? chans ch ≡ some none

abbrev pub IsClear : KvServer → Type 0
IsClear kv = Clear kv.notify_chans kv.chans kv.last_applied

pub Clear-assign :
    (i : ℕ) (m : Dict ℕ ℕ) (cs : List (Option OpReply)) (last : ℕ)
    → Clear m cs last
    → Clear (assign i (length cs) m) (cs ++ none ∷ []) last
Clear-assign i m cs last c = record {
  known = λ j ch h.
      ground (arith, lookup-assign i j (length cs) m, c.known j ch, length-append cs (none ∷ []));
  distinct = λ j k ch h h'. ground (
    arith,
    lookup-assign i j (length cs) m,
    lookup-assign i k (length cs) m,
    c.known j ch,
    c.known k ch,
    c.distinct j k ch,
  );
  empty = λ j ch h later. ground (
    arith,
    lookup-assign i j (length cs) m,
    c.known j ch,
    c.empty j ch,
    get_elem?-append_left cs (none ∷ []) ch,
    get_elem?-append_right cs (none ∷ []) (length cs) 0,
  );
}

pub Clear-delete :
    (i : ℕ) (m : Dict ℕ ℕ) (cs : List (Option OpReply)) (last : ℕ)
    → Clear m cs last
    → Clear (delete i m) cs last
Clear-delete i m cs last c = record {
  known = λ j ch h. ground (arith, lookup-delete i j m, c.known j ch);
  distinct =
      λ j k ch h h'. ground (arith, lookup-delete i j m, lookup-delete i k m, c.distinct j k ch);
  empty = λ j ch h later. ground (arith, lookup-delete i j m, c.empty j ch);
}

-- A channel is emptied, or filled where no index that is not applied has it.
pub Clear-set :
    (m : Dict ℕ ℕ) (cs : List (Option OpReply)) (last ch : ℕ) (cell : Option OpReply)
    → Clear m cs last
    → (cell ≡ none) ⊎ ((i : ℕ) → lookup i m ≡ some ch → i ≤ last)
    → Clear m (set cs ch cell) last
Clear-set m cs last ch cell c ready = record {
  known = λ j ch' h. omega (arith, c.known j ch' h, length-set cs ch cell);
  distinct = c.distinct;
  empty = λ j ch' h later. elim (ℕ_discrete ch ch') [
    | no differs ↦ get_elem?-set_ne cs ch ch' cell differs ∙ c.empty j ch' h later
    | yes same ↦
        let written = get_elem?-set_self cs ch cell (omega (arith, c.known j ch' h)) in
        let here = ap (get_elem? (set cs ch cell)) (sym same) ∙ written in
        elim ready [
          | inl e ↦ here ∙ ap some e
          | inr old ↦ absurd (omega (arith, old j (h ∙ ap some (sym same))))
        ]
  ];
}

pub Clear-later :
    (m : Dict ℕ ℕ) (cs : List (Option OpReply)) (last last' : ℕ)
    → last ≤ last'
    → Clear m cs last
    → Clear m cs last'
Clear-later m cs last last' le c = record {
  known = c.known;
  distinct = c.distinct;
  empty = λ j ch h later. c.empty j ch h (omega arith);
}
