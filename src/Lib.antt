-- ===== src/Lib.antt =====
-- Verification of a Go implementation of distributed-systems labs: Raft, a key/value service that is
-- replicated through it, MapReduce, the linearizability checker of the tests, and their simulated network.
--
-- Parts and files. Paths are the repository's.
--   src/raft/raft.go, src/raft/persister.go: Raft.antt and its children. Types is the data, Persist
--     the persister with `persist` and `readPersist`, AppendEntries and RequestVote the handlers (one
--     definition for each stage between the handler's returns), Node GetState, Start, Kill and Make,
--     Election `checkElection`, Heartbeat `sendHeartbeat`, Apply `checkApply`. Each critical section
--     under `rf.mu` is one function on the peer's record; Steps is the relation of the sections that
--     change the state, with the clock, the random numbers and the messages as arguments. The other
--     children are proofs: Durable (persistence), Votes and Elected (elections), Matching, Follows
--     and Appended (a follower's log), Sending and Backtrack (requests and refusals), Commit, Applied.
--     Retry is the loop that repeats a round's request to one peer until it is done; Replies is about its
--     steps, Retried about its end. Its fuel bounds the requests, and the bound that is shown to be enough is
--     len(peer's log) * (len(leader's log) + 1) + nextIndex.
--   src/kvraft: Kvraft.antt and its children. Types is common.go and the operations, Server the apply
--     loop and the handlers; Spec is what the service promises, Applied and Service relate the two,
--     Reads is about the answers. Clerk is client.go: a call with its retry goroutines as a step
--     relation; Retries and Calls are its proofs.
--   src/mr, src/main/mrsequential.go: Mr.antt and its children. Master is master.go with the records
--     of rpc.go, Worker what a worker writes for a map task and reads for a reduce task, and the
--     sequential program's loop. Loop is `Worker` itself, on a record of the calls of the master. Tasks,
--     Finish and Stays are proofs about the master, Shuffle, Gather, Rerun and Lines about the workers'
--     files, Alone, Reducing and Whole about a worker that the master's handlers serve alone.
--   src/porcupine, src/models/kv.go: Porcupine.antt and its children. Model is model.go and the
--     key/value model, Bitset bitset.go, Entries the entries with `renumber`, Links the linked list
--     (an address for each node), Checker `checkSingle` with its caches, Parallel `checkParallel` and
--     its callers. The other children are proofs: Renumber, Verdict; Bits
--     and Members (the bitset as a set); Rounds (what a round does); Runs
--     and Sound (the calls of a search are a run); Relink, Chain, Placed and Moves (the list and the
--     stack of calls through every round); Linear, Built, Reads and Linearized (what a linearization
--     is, what the list says of the history, and what an answer of true means); Measure, Sizes, Safe
--     and Total (the rounds left to do, and that no round panics); Operations joins these for the
--     entries of `makeEntries`.
--   src/labrpc: Labrpc.antt and its children. Network is the network's operations and the dispatch of
--     servers and services, Request the stages of `processReq`; Delivery is about replies.
--   src/shardkv, src/shardmaster: Shardkv.antt and its children. Client is `key2shard`, the loop of a
--     sharded clerk's call, and a round of the shardmaster's clerk; Answers is its proof. The servers
--     are stubs.
--   src/kvraft/config.go, src/raft/config.go: Harness.antt and its children, the set-up and the checks
--     that the tests run in, on the model of the network. Ends is the names of ends and the loops that
--     enable them, Kv the connections and partitions of kvraft, Peers the connections and the checks of
--     leaders of raft, Committed the reader of applyCh and `nCommitted`. Wiring, Partition, Halves and
--     Minority (make_partition), Isolation, Leaders and Accepted are proofs.
-- `worker` takes fuel for the rounds of each of its loops, where other workers may hold the tasks;
-- alone it needs one round more than there are tasks.
-- `check_single` takes fuel for the rounds of its loop; running out of it returns none, which is no
-- answer. `rounds n n` of Porcupine.Measure is enough fuel for n events. `length_from` takes the number
-- of nodes that were allocated, which bounds the list.
--
-- Conventions. A Go int that is never negative is a natural number, with no bound of 63 bits; where
-- the source stores -1 it is a signed integer. An index out of range, a failed type assertion and
-- log.Fatal are the outcome `panic`; but a model's Step is a total function, and `kv_step` and `kv_key`
-- give a default on a value of the wrong type, where the assertions of models/kv.go panic. A map is a
-- function to options; a nil slice is none. Values that time.Now, math/rand and the network supply are
-- arguments. Loops are structural recursions, or take the number of rounds left (in `checkApply` the
-- entries between lastApplied and commitIndex, after which the loop's own test ends it).
-- Not modelled: goroutines as such, sleeps, logging, and the byte format of encoding/gob: a buffer is
-- the sequence of values that were encoded into it.
mod Prelude
pub mod Raft
pub mod Kvraft
pub mod Mr
pub mod Porcupine
pub mod Labrpc
pub mod Shardkv
pub mod Harness
