-- ===== src/Util.antt =====
-- src/raft/util.go: the topics of the debug log, their levels, and which lines LOG prints. The text
-- itself is not modelled. The level comes from the environment variable VERBOSE: `env` is its value
-- if it is set and not empty, and `atoi` is Go's strconv.Atoi, for a level that is not negative.
use Prim.Native.String.{String}
use logic_raft.Base.{ℕ, ◌+◌, Bool, Option, none, some, Result, from_option, ok, leb}

pub data LogTopic : Type 0 where
  d_error d_warn d_info d_debug : LogTopic
  d_client d_commit d_drop d_leader d_log d_log2 d_persist d_snap : LogTopic
  d_term d_test d_timer d_trace d_vote d_apply : LogTopic

unfoldable pub get_topic_level : LogTopic → ℕ
get_topic_level d_error = 3
get_topic_level d_warn = 2
get_topic_level d_info = 1
get_topic_level d_debug = 0
get_topic_level _ = 1

-- Without VERBOSE the level is above that of every topic.
unfoldable pub get_env_level : (String → Option ℕ) → Option String → Result ℕ
unfolding get_topic_level
get_env_level atoi none = ok (get_topic_level d_error + 1)
get_env_level atoi (some v) = from_option (atoi v)

-- The test of LOG.
unfoldable pub is_printed : ℕ → LogTopic → Bool
unfolding get_topic_level
is_printed log_level topic = leb log_level (get_topic_level topic)
