-- ===== src/Network.antt =====
-- src/labrpc/labrpc.go: the simulated network, a parameter: what the test harnesses call of it. A
-- server is a number, and an end of a connection is its name. The names that the harnesses
-- (src/raft/config.go and src/kvraft/config.go) draw with `randstring` are a function of how many
-- were drawn before.
use Prim.Native.String.{String}
use logic_raft.Base.{ℕ, zero, suc, Bool, List, [], ◌∷◌}

pub record Network (N : Type 0) : Type 0 where
  pub make_network : N
  pub make_end : String → N → N
  pub connect_end : String → ℕ → N → N
  pub enable : String → Bool → N → N
  pub delete_server : ℕ → N → N
  pub add_server : ℕ → N → N
  pub reliable : Bool → N → N
  pub long_delays : Bool → N → N

-- The names of the ends of one server or client, from the `k`-th drawn on.
unfoldable pub draw_names : (ℕ → String) → ℕ → ℕ → List String
draw_names randstring k zero = []
draw_names randstring k (suc left) = randstring k ∷ draw_names randstring (suc k) left

module _ {N : Type 0} (nw : Network N) where
  -- The loop that makes the ends and connects the `j`-th to server `j`.
  unfoldable pub make_ends : ℕ → List String → N → N
  make_ends j [] net = net
  make_ends j (name ∷ names) net =
      make_ends (suc j) names (nw.connect_end name j (nw.make_end name net))
