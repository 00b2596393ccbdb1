-- ===== src/Tests.antt =====
-- Runs of the definitions at concrete inputs, and the theorems at inputs that meet their
-- hypotheses.
mod Coder
mod Codec
mod States
mod Election
mod Replication
mod Snapshot
mod Kv
mod Harness
mod Convergence
mod Delivery
mod Replica
mod Locks
mod Servers
mod Applying
mod Restart
mod Cluster
