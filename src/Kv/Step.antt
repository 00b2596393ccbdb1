-- ===== src/Kv/Step.antt =====
-- Everything that may happen to a key/value server, as a step relation: the handlers of
-- src/kvraft/server.go, the loop that applies, and whatever its Raft peer does.
pub mod Channels
pub mod Replica
pub mod Locks
use logic_raft.Base.{ℕ, ◌≡◌, Bool, Option, none, some, Result, ok}
use logic_raft.Gob.{Gob}
use logic_raft.Raft.{Raft, Value, ApplyMsg}
use logic_raft.Kv.{Op, GetArgs, GetReply, PutAppendArgs, PutAppendReply}
use logic_raft.Kv.Server.{
  KvServer, KvValue, Call, get_begin, get_finish, put_append_begin, put_append_finish,
  remove_notify_channel, kill,
}
use logic_raft.Kv.Apply.{apply_message}

module _ (g : Gob (Value Op)) (gk : Gob KvValue) (Allowed : ApplyMsg Op → KvServer → Type 0) where
  -- `Allowed` says which messages the peer may hand over in a state. The goroutine that removes a
  -- channel may run at any time, and for any index.
  pub data KvStep : KvServer → KvServer → Type 0 where
    get_begun : (args : GetArgs) (kv : KvServer) → KvStep kv (get_begin g args kv).1
    get_ended :
        (ch : ℕ) (late : Bool) (reply : GetReply) (kv kv' : KvServer)
        → get_finish ch late kv ≡ some (reply, kv')
        → KvStep kv kv'
    put_append_begun :
        (args : PutAppendArgs) (call : Call PutAppendReply) (kv kv' : KvServer)
        → put_append_begin g args kv ≡ ok (call, kv')
        → KvStep kv kv'
    put_append_ended :
        (ch : ℕ) (late : Bool) (reply : PutAppendReply) (kv kv' : KvServer)
        → put_append_finish ch late kv ≡ some (reply, kv')
        → KvStep kv kv'
    removed : (index : ℕ) (kv : KvServer) → KvStep kv (remove_notify_channel index kv)
    applied :
        (msg : ApplyMsg Op) (kv kv' : KvServer)
        → Allowed msg kv
        → apply_message g gk msg kv ≡ ok (some kv')
        → KvStep kv kv'
    peer_moved : (rf : Raft Op) (kv : KvServer) → KvStep kv (record kv { rf = rf })
    stopped : (kv : KvServer) → KvStep kv (kill kv)

  pub data KvReach (start : KvServer) : KvServer → Type 0 where
    here : KvReach start start
    next : {kv kv' : KvServer} → KvReach start kv → KvStep kv kv' → KvReach start kv'
