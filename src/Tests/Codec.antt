-- ===== src/Tests/Codec.antt =====
-- Concrete encoders, which show that the laws of `Gob` can hold: of the values that a peer saves,
-- and of those that a server's snapshot has.
use Prim.Native.String.{String}
use logic_raft.Base.{ℕ, zero, suc, ◌≡◌, ◌⊎◌, refl, Option, inl, inr}
use logic_raft.Base.Dict.{Dict}
use logic_raft.Log.{LogRecord, Log}
use logic_raft.Gob.{Gob}
use logic_raft.Raft.{Value, saved_term, saved_vote, saved_log}
use logic_raft.Kv.{
  Err, fine, err_no_key, err_wrong_leader, err_timeout, OperationType, op_get, op_put, op_append,
  Op, LastOperationInfo,
}
use logic_raft.Kv.Server.{KvValue, saved_machine, saved_table}
use logic_raft.Tests.Coder.{
  Coder, number, through, pair, list, either, bool, option, string, gob_of,
}

abbrev of_value : {C : Type 0} → Value C → ℕ ⊎ (Option ℕ ⊎ Log C)
of_value (saved_term t) = inl t
of_value (saved_vote v) = inr (inl v)
of_value (saved_log log) = inr (inr log)

abbrev to_value : {C : Type 0} → ℕ ⊎ (Option ℕ ⊎ Log C) → Value C
to_value (inl t) = saved_term t
to_value (inr (inl v)) = saved_vote v
to_value (inr (inr log)) = saved_log log

pub to_value-of_value : {C : Type 0} (v : Value C) → to_value (of_value v) ≡ v
to_value-of_value (saved_term t) = refl
to_value-of_value (saved_vote v) = refl
to_value-of_value (saved_log log) = refl

abbrev pub log_record : {C : Type 0} → Coder C → Coder (LogRecord C)
log_record c =
    through (λ r. (r.term, (r.command_valid, r.command)))
      (λ p. record { term = p.0; command_valid = p.1.0; command = p.1.1 }) (λ r. refl)
      (pair number (pair bool (option c)))

abbrev pub log : {C : Type 0} → Coder C → Coder (Log C)
log c =
    through (λ l. (l.base, l.records)) (λ p. record { records = p.1; base = p.0 }) (λ l. refl)
      (pair number (list (log_record c)))

abbrev pub codec_of : {C : Type 0} → Coder C → Gob (Value C)
codec_of c =
    gob_of
      (through of_value to_value to_value-of_value (either number (either (option number) (log c))))

unfoldable pub codec : Gob (Value ℕ)
codec = codec_of number

abbrev of_err : Err → ℕ
of_err fine = 0
of_err err_no_key = 1
of_err err_wrong_leader = 2
of_err err_timeout = 3

abbrev to_err : ℕ → Err
to_err zero = fine
to_err (suc zero) = err_no_key
to_err (suc (suc zero)) = err_wrong_leader
to_err _ = err_timeout

pub to_err-of_err : (e : Err) → to_err (of_err e) ≡ e
to_err-of_err fine = refl
to_err-of_err err_no_key = refl
to_err-of_err err_wrong_leader = refl
to_err-of_err err_timeout = refl

abbrev of_type : OperationType → ℕ
of_type op_get = 0
of_type op_put = 1
of_type op_append = 2

abbrev to_type : ℕ → OperationType
to_type zero = op_get
to_type (suc zero) = op_put
to_type _ = op_append

pub to_type-of_type : (t : OperationType) → to_type (of_type t) ≡ t
to_type-of_type op_get = refl
to_type-of_type op_put = refl
to_type-of_type op_append = refl

abbrev pub op : Coder Op
op =
    through (λ o. ((o.key, o.value), (o.op_type, (o.client_id, o.seq_id))))
      (λ p. record {
        key = p.0.0;
        value = p.0.1;
        op_type = p.1.0;
        client_id = p.1.1.0;
        seq_id = p.1.1.1;
      })
      (λ o. refl)
      (pair (pair string string)
        (pair (through of_type to_type to_type-of_type number) (pair number number)))

unfoldable pub op_codec : Gob (Value Op)
op_codec = codec_of op

abbrev pub last_operation : Coder LastOperationInfo
last_operation =
    through (λ i. (i.seq_id, (i.reply.value, i.reply.err)))
      (λ p. record { seq_id = p.0; reply = record { value = p.1.0; err = p.1.1 } }) (λ i. refl)
      (pair number (pair string (through of_err to_err to_err-of_err number)))

abbrev of_kv_value : KvValue → Dict String String ⊎ Dict ℕ LastOperationInfo
of_kv_value (saved_machine m) = inl m.kv
of_kv_value (saved_table t) = inr t

abbrev to_kv_value : Dict String String ⊎ Dict ℕ LastOperationInfo → KvValue
to_kv_value (inl kv) = saved_machine (record { kv = kv })
to_kv_value (inr t) = saved_table t

pub to_kv_value-of_kv_value : (v : KvValue) → to_kv_value (of_kv_value v) ≡ v
to_kv_value-of_kv_value (saved_machine m) = refl
to_kv_value-of_kv_value (saved_table t) = refl

unfoldable pub kv_codec : Gob KvValue
kv_codec = gob_of (
    through of_kv_value to_kv_value to_kv_value-of_kv_value
      (either (list (pair string string)) (list (pair number last_operation))))
