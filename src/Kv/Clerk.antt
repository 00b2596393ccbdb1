-- ===== src/Kv/Clerk.antt =====
-- src/kvraft/client.go: the client, which asks one server after the other. The network is a
-- function: what the n-th call of a loop, made to a server, comes back with; `none` for a failed
-- call.
pub mod Rotation
use Prim.Native.String.{String}
use logic_raft.Base.{ℕ, zero, suc, ◌+◌, ◌%◌, Bool, true, false, Option, none, some}
use logic_raft.Kv.{
  Err, fine, err_no_key, err_wrong_leader, err_timeout, GetArgs, GetReply, PutAppendArgs,
  PutAppendReply,
}

pub record Clerk : Type 0 where
  pub servers : ℕ
  pub leader_id : ℕ
  pub client_id : ℕ
  pub seq_id : ℕ

-- The client id is drawn at random by `nrand`.
unfoldable pub make_clerk : ℕ → ℕ → Clerk
make_clerk servers nrand = record {
  servers = servers;
  leader_id = 0;
  client_id = nrand;
  seq_id = 0;
}

-- !ok || reply.Err == ErrWrongLeader || reply.Err == ErrTimeout
abbrev pub is_retry : Err → Bool
is_retry err_wrong_leader = true
is_retry err_timeout = true
is_retry _ = false

-- ck.leaderId = (ck.leaderId + 1) % len(ck.servers)
unfoldable pub next_server : Clerk → Clerk
next_server ck = record ck { leader_id = (ck.leader_id + 1) % ck.servers }

-- The loop of both methods from the n-th call on, on fuel; `none` when the fuel runs out.
unfoldable pub call_loop :
    {R : Type 0} → (R → Err) → (ℕ → ℕ → Option R) → ℕ → ℕ → Clerk → Option (R × Clerk)
unfolding next_server
call_loop err call zero n ck = none
call_loop err call (suc fuel) n ck =
    let retry = call_loop err call fuel (suc n) (next_server ck) in
    elim (call n ck.leader_id) [
      | none ↦ retry
      | some reply ↦ elim (is_retry (err reply)) [ true ↦ retry | false ↦ some (reply, ck) ]
    ]

unfoldable pub get :
    (GetArgs → ℕ → ℕ → Option GetReply) → ℕ → String → Clerk → Option (String × Clerk)
unfolding call_loop
get call fuel key ck =
    elim (call_loop (λ (r : GetReply). r.err) (call (record { key = key })) fuel 0 ck) [
      | none ↦ none
      | some (reply, ck') ↦ some (reply.value, ck')
    ]

unfoldable pub put_append :
    (PutAppendArgs → ℕ → ℕ → Option PutAppendReply)
    → ℕ
    → String
    → String
    → String
    → Clerk
    → Option Clerk
unfolding call_loop
put_append call fuel key value op ck =
    let args : PutAppendArgs = record {
      key = key;
      value = value;
      op = op;
      client_id = ck.client_id;
      seq_id = ck.seq_id;
    } in
    elim (call_loop (λ (r : PutAppendReply). r.err) (call args) fuel 0 ck) [
      | none ↦ none
      | some (reply, ck') ↦ some (record ck' { seq_id = ck'.seq_id + 1 })
    ]

unfoldable pub put :
    (PutAppendArgs → ℕ → ℕ → Option PutAppendReply) → ℕ → String → String → Clerk → Option Clerk
unfolding put_append
put call fuel key value ck = put_append call fuel key value "Put" ck

unfoldable pub append :
    (PutAppendArgs → ℕ → ℕ → Option PutAppendReply) → ℕ → String → String → Clerk → Option Clerk
unfolding put_append
append call fuel key value ck = put_append call fuel key value "Append" ck
