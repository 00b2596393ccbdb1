-- ===== src/Gob.antt =====
-- labgob, the encoder that the program takes from elsewhere (labgob/labgob.go wraps Go's
-- encoding/gob): a parameter of the model, with the one behaviour that the program relies on.
use logic_raft.Base.{ℕ, ◌≡◌, ◌≢◌, Option, List, [], ◌∷◌, get_elem?}
use logic_raft.Persister.{Bytes}

-- The bytes of a buffer after values have been encoded one after the other, and the i-th Decode
-- of such a buffer, `none` for an error.
pub record Gob (V : Type 0) : Type 0 where
  pub write : List V → Bytes
  pub read : Bytes → ℕ → Option V
  -- Values are decoded in the order in which they were encoded.
  pub read_write : (vs : List V) (i : ℕ) → read (write vs) i ≡ get_elem? vs i
  pub write_nonempty : (v : V) (vs : List V) → write (v ∷ vs) ≢ []
