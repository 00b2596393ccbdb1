-- ===== src/Lib.antt =====
-- Verification of logicRaft: the Raft library of src/raft and the key/value store of src/kvraft.
--
-- A Raft peer keeps a replicated log (log.go), a term, a vote and a role (raft.go, raft_roleTrans.go),
-- and saves the first three to stable storage (persister.go, raft_persistence.go). A peer that hears
-- of no leader asks the others for their votes (raft_election.go); a leader sends its log to the
-- others and moves the commit index to what a majority has (raft_replication.go); a log is cut behind
-- a snapshot, which is sent to peers that are too far behind (raft_snapshot.go); a loop of its own
-- hands committed records to the service (raft_application.go). The key/value store is such a service:
-- a server (src/kvraft/server.go) starts operations on its peer, applies what the peer hands over to a
-- map (state_machine.go) with a table that keeps a write from being applied twice, and makes and
-- restores snapshots; a client (client.go) asks one server after the other. src/models/kv.go says what
-- one key may do, for the checker of histories. The test harnesses (src/raft/config.go and
-- src/kvraft/config.go) start, stop and connect peers and servers, and compare what the peers apply.
--
-- Which file models what:
--   Base.antt, Base/: tests, lists over native numbers, results of code that may panic, maps
--   Log.antt: log.go, with Log/ for what reads, cuts and searches find
--   Persister.antt: persister.go;  Gob.antt: the encoder, a parameter
--   Raft.antt: the state of raft.go;  Raft/Peer.antt: Make and Start
--   Raft/Persistence.antt: raft_persistence.go;  Raft/Roles.antt: raft_roleTrans.go
--   Raft/Messages.antt: the requests and replies
--   Raft/Election.antt: raft_election.go;  Raft/Majority.antt: getMajorityIndexLocked
--   Raft/Replication.antt: raft_replication.go;  Raft/Snapshot.antt: raft_snapshot.go
--   Raft/Application.antt: raft_application.go
--   Raft/Step.antt: everything that may happen to a peer, as a step relation
--   Raft/Cluster.antt: a group of peers, with the votes that were granted and counted
--   Kv.antt: src/kvraft/common.go and state_machine.go;  Kv/Db.antt: db.go
--   Kv/Server.antt and Kv/Apply.antt: server.go;  Kv/Clerk.antt: client.go
--   Kv/Model.antt and Kv/Partition.antt: src/models/kv.go
--   Kv/Step.antt: everything that may happen to a server, as a step relation;  Kv/Step/Replica.antt:
--     what a server promises, a map of keys that takes messages;  Kv/Step/Locks.antt: the lock of a peer
--   Kv/Harness.antt and Kv/Harness/: src/kvraft/config.go
--   Harness.antt and Harness/: src/raft/config.go;  Network.antt: the network, a parameter
--   Util.antt: src/raft/util.go
--   Tests.antt: runs at concrete inputs, with a concrete encoder
-- A definition has the name of its Go function in lower case with underscores (`AppendEntries` is
-- `append_entries`), and so have the fields; names that are keywords or taken differ a little
-- (`Snapshot` is `take_snapshot`, the field Data is `bytes`). The files below the folder of a part hold the
-- proofs about it.
--
-- How state and operations correspond. A method of a peer runs under its lock, so it is a function from
-- the state to the state, with what it returns or sends beside it. A goroutine that sends a request and
-- waits is two definitions, up to the call and from the reply on; the reply is an argument, and `none`
-- where the call failed. An index out of range, a slice bound out of range, a type assertion on nil and
-- an explicit panic are the result `panic`. `Raft.Step` has a case for every method, in any order and
-- with any arguments, and one for a crash with a restart, so its runs include those of
-- every schedule and every network, and of messages that no peer has sent as well. The time and the
-- random numbers come from outside. The application loop does not hold the lock throughout: it has a
-- state for each place where it waits or lets others run.
--
-- Bounds and fuel. Terms, indexes, ids and sequence numbers are natural numbers without an upper bound
-- (int and int64 in the source, which they would take centuries to exhaust); -1 for no vote and for no
-- limit is `none`. The loops over peers, records and entries recurse on what is left of them. The
-- client's loop, which need not end, has fuel; as many calls as there are servers are enough where one
-- server answers, since it asks them in turn. Keys and values are strings, a snapshot is a list of numbers.
--
-- What is not modelled. A slice is a value: that the entries of a request share memory with the log of
-- the leader that sends them is not. The lock of a server is taken and released several times by a
-- handler before it waits; that part is one step here. `InstallSnapshot` and a round
-- of the server's loop are one step each everywhere but in Kv/Step/Locks.antt, which has their waits for the
-- lock of the peer and for the channel between them. Goroutines run at the steps in which the code can take
-- the lock; their speed is left open. The output for people (LOG and the String
-- methods), DeepCopy and the opening of a logicKV directory are left out. The encoder, the network and the
-- logicKV store are not the repository's own code, and are parameters: of the encoder the model
-- supposes that values come back in the order in which they were written and that something is
-- written; of the network that enabling an end is about that end alone. Of the test harnesses the time
-- limits and the statistics are not modelled; a persister that the harness holds for a running peer is
-- read from the peer, which writes to it. The tests are not modelled, nor is the copy of porcupine.
pub mod Base
pub mod Log
pub mod Persister
pub mod Gob
pub mod Raft
pub mod Kv
pub mod Util
pub mod Harness
pub mod Network
mod Tests
