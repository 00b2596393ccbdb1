-- ===== src/Kv/Step/Locks/Rounds.antt =====
-- The round that takes the lock step by step does what the round of `Kv.Apply` does.
use logic_raft.Base.{◌≡◌, refl, Option, none, some, Result, ok, panic, ◌>>=◌}
use logic_raft.Base.Dict.{nat_key}
use logic_raft.Gob.{Gob}
use logic_raft.Raft.{Value}
use logic_raft.Kv.{Op}
use logic_raft.Kv.Server.{KvServer, KvValue}
use logic_raft.Kv.Step.Locks.{Loop, receiving, advance}

module _ (g : Gob (Value Op)) (gk : Gob KvValue) where
  -- The rest of a round, with the lock whenever it is wanted.
  abbrev pub go_on : Result (Option (Loop × KvServer)) → Result (Option (Loop × KvServer))
  go_on panic = panic
  go_on (ok none) = ok none
  go_on (ok (some (loop, kv))) = advance g gk loop kv

  abbrev pub end_of : Result (Option (Loop × KvServer)) → Result (Option KvServer)
  end_of panic = panic
  end_of (ok none) = ok none
  end_of (ok (some (loop, kv))) = ok (some kv)

  abbrev pub whole : Loop → KvServer → Result (Option KvServer)
  whole loop kv = end_of (go_on (go_on (advance g gk loop kv)))

  whole-receiving : (kv : KvServer) → end_of (go_on (ok (some (receiving, kv)))) ≡ ok (some kv)
  unfolding advance
  whole-receiving kv = refl
