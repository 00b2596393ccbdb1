-- ===== src/Kv/Db.antt =====
-- src/kvraft/db.go: a state machine over the logicKV store. The store itself is not part of the
-- repository: its methods are parameters, and an error that is nil is `none`.
use Prim.Native.String.{String}
use logic_raft.Base.{Option, Result, ok, ◌>>=◌, from_option}

-- logicKV.DB: Get and Put, which return an error or nil.
pub record Store (D : Type 0) : Type 0 where
  pub db_get : String → D → String × Option String
  pub db_put : String → String → D → Option String × D

module _ {D : Type 0} (store : Store D) where
  -- Err(err.Error()): on a nil error the call is a nil dereference.
  unfoldable pub get : String → D → Result (String × String)
  get key db = do let (value, err) = store.db_get key db; text ← from_option err; ok (value, text)

  unfoldable pub put : String → String → D → Result (String × D)
  put key value db = do
    let (err, db') = store.db_put key value db
    text ← from_option err
    ok (text, db')

  unfoldable pub append : String → String → D → Result (String × D)
  append key value db = do
    let (err, db') = store.db_put key value db
    text ← from_option err
    ok (text, db')
