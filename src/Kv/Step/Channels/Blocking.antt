-- ===== src/Kv/Step/Channels/Blocking.antt =====
-- The loop that applies never waits to send a reply to a handler.
use logic_raft.Base.{ℕ, ◌≤◌, ◌≡◌, ◌≢◌, false, subst, Option, none, some, ok}
use logic_raft.Base.Dict.{lookup, nat_key}
use logic_raft.Gob.{Gob}
use logic_raft.Persister.{Persister}
use logic_raft.Raft.{Value, ApplyMsg}
use logic_raft.Kv.{Op}
use logic_raft.Kv.Server.{KvServer, KvValue, remove_notify_channel, kill}
use logic_raft.Kv.Apply.{apply_message, start_kv_server, blank}
use logic_raft.Kv.Step.{
  KvStep, get_begun, get_ended, put_append_begun, put_append_ended, removed, applied, peer_moved,
  stopped, KvReach, here, next,
}
use logic_raft.Kv.Step.Channels.{IsClear, Clear-delete}
use logic_raft.Kv.Step.Channels.Handlers.{
  Same-IsClear, get_begin-IsClear, put_append_begin-IsClear, get_finish-Received,
  put_append_finish-Received, Received-IsClear,
}
use logic_raft.Kv.Step.Channels.Applying.{message_applied, restore_from_snapshot-Same}

module _ (g : Gob (Value Op)) (gk : Gob KvValue) where
  module _ (Allowed : ApplyMsg Op → KvServer → Type 0)
      (newer : (msg : ApplyMsg Op) (kv : KvServer)
        → Allowed msg kv
        → msg.command_valid ≡ false
        → kv.last_applied ≤ msg.snapshot_index) where
    KvStep-IsClear : {kv kv' : KvServer} → KvStep g gk Allowed kv kv' → IsClear kv → IsClear kv'
    KvStep-IsClear (get_begun args kv) c = get_begin-IsClear g gk args kv c
    KvStep-IsClear (get_ended ch late reply kv kv' e) c =
        Received-IsClear g gk ch kv kv' c (get_finish-Received g gk ch late reply kv kv' e)
    KvStep-IsClear (put_append_begun args call kv kv' e) c =
        put_append_begin-IsClear g gk args call kv kv' c e
    KvStep-IsClear (put_append_ended ch late reply kv kv' e) c =
        Received-IsClear g gk ch kv kv' c (put_append_finish-Received g gk ch late reply kv kv' e)
    KvStep-IsClear (removed index kv) c =
        unfold remove_notify_channel in
        Clear-delete index kv.notify_chans kv.chans kv.last_applied c
    KvStep-IsClear (applied msg kv kv' allowed e) c =
        let (kv₁, same, c') = message_applied g gk msg kv (some kv') c (newer msg kv allowed) e in
        let e' : kv₁ ≡ kv' = cc in subst IsClear e' c'
    KvStep-IsClear (peer_moved rf kv) c = c
    KvStep-IsClear (stopped kv) c = unfold kill in c

    KvReach-IsClear :
        {begun kv : KvServer} → IsClear begun → KvReach g gk Allowed begun kv → IsClear kv
    KvReach-IsClear c here = c
    KvReach-IsClear c (next r s) = KvStep-IsClear s (KvReach-IsClear c r)

  start-IsClear :
      (peers me : ℕ) (persister : Persister) (max_raft_state : Option ℕ) (kv : KvServer)
      → start_kv_server g gk peers me persister max_raft_state ≡ ok kv
      → IsClear kv
  unfolding start_kv_server
  start-IsClear peers me persister max_raft_state kv e =
      let first : KvServer = blank g gk peers me persister max_raft_state in
      Same-IsClear first kv (restore_from_snapshot-Same g gk _ first kv e) (record {
        known = λ i ch h. unfold lookup in cc;
        distinct = λ i j ch h h'. unfold lookup in cc;
        empty = λ i ch h later. unfold lookup in cc;
      })

  -- Where a server, whatever its handlers and its peer have done since it started, is given a
  -- message, the channel of the message's index has room for the reply: the loop that applies does
  -- not wait to send it. This is so where its peer hands over no snapshot, and no other message
  -- without a command, that is older than what the server has applied. It says nothing of the
  -- loop's waits for the lock of the peer, which a round is taken to get.
  pub reply_never_blocks :
      (Allowed : ApplyMsg Op → KvServer → Type 0)
      → ((msg : ApplyMsg Op) (kv : KvServer)
          → Allowed msg kv
          → msg.command_valid ≡ false
          → kv.last_applied ≤ msg.snapshot_index)
      → (peers me : ℕ) (persister : Persister) (max_raft_state : Option ℕ) (begun kv : KvServer)
      → start_kv_server g gk peers me persister max_raft_state ≡ ok begun
      → KvReach g gk Allowed begun kv
      → (msg : ApplyMsg Op) → Allowed msg kv
      → apply_message g gk msg kv ≢ ok none
  reply_never_blocks Allowed newer peers me persister max_raft_state begun kv started reach msg
        allowed e =
      let c = start-IsClear peers me persister max_raft_state begun started in
      let (kv', same, _) =
        message_applied g gk msg kv none (KvReach-IsClear Allowed newer c reach)
          (newer msg kv allowed) e in
      cc
