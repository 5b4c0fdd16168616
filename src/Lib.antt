-- ===== src/Lib.antt =====
-- A verification library for my_raft_kvdb, a key-value store replicated by Raft (C++, under src/
-- and include/ of the repository).
--
-- The program. A server process (src/raft_node_server.cpp) owns one RaftNode, a Persister and a
-- KVStore. Peers and clients reach it by gRPC; a main loop checks the timers, sends votes and
-- entries by a thread pool, and applies committed entries; a background thread of the node saves
-- its state. Each handler of RaftNode runs under the node's mutex, so that the calls are steps of
-- one state machine in an order that the environment chooses.
--
-- Files.
-- - Base, Base/Tests, Base/Lists, Base/Int: shared names, Boolean tests, lists over native numbers,
--   and the integers that stand for C++ int.
-- - Text: std::string as a list of bytes, and decimal output.
-- - Log (include/raft/log_entry.h), Messages (include/raft/rpc_messages.h): log entries and the two
--   RPCs.
-- - Persister (src/storage/persister.cpp): the state file, its format, and a save by temporary file
--   and rename, under a script of what the file system answers.
-- - Node (include/raft/raft_node.h, src/raft/raft_node.cpp): the state of a node and the helpers.
--   Node/Election: handleRequestVote, startElection, handleVoteResponse, becomeLeader,
--   becomeFollower. Node/Append: handleAppendEntries. Node/Apply: applyCommittedEntries.
--   Node/Leader: appendLogEntry, createAppendEntriesArgs, handleAppendEntriesResponse,
--   updateCommitIndex. The modules below these hold the proofs about them.
-- - Run: the calls as events and their sequences; Run/Terms, Run/Votes, Run/Valid, Run/Saved and
--   Run/Durable hold what is proved of every sequence.
-- - Text/Scan, Text/Numbers: std::getline, read, std::stoi and std::stoull, and the reading of
--   printed numbers. Log/Codec, Messages/Codec, Messages/RoundTrip: the texts of entries and
--   messages.
-- - Persister/Load, Persister/RoundTrip, Node/Restore, Run/Restart: loadRaftState, restoreState and
--   a restart of the process.
-- - Command (src/storage/command.cpp), KvStore (src/storage/kv_store.cpp): the commands and the
--   store, over an interface to the skip list (SkipListOps, with its laws in KvStore/Refine);
--   KvStore/Stored fills it.
-- - SkipList (include/storage/skiplist.h): the skip list on an explicit heap. Cells and Valid say
--   when a heap stands for a list of elements; Walk, Descent and Search are about the search loops,
--   Splice, Preds, Grow, Insert, Replace and Insertion about insert, Unsplice, Shrink, Remove and
--   Removal about remove, Destroy about the destructor; Refines compares any calls with a map.
-- - Cluster (src/raft_node_server.cpp): the servers of a cluster with their messages; Moves says
--   what a call does to term, vote and role, Invariant, Ballots, Counts, Shared, Voting and Deliver
--   carry the invariant to Safety.
-- - Client (src/client/kv_client.cpp): KVClient over a transport; Start, Attempts, Success and
--   Stable are about executeOperation.
-- - Config (src/util/config.cpp): ClusterConfig with the reader of its file; Reading and Nodes are
--   about the table of nodes.
-- - Node/Submit: submitCommand. Service (src/network/grpc_rpc_server.cpp): HandleRequest.
--   Service/Single and Service/Poison put the components together.
-- - Server (src/raft_node_server.cpp): the start, the turns of the main loop and the tasks of the
--   thread pool; Sending is about the peers that are sent to; Counting and Wins follow an election
--   from the timeout to the last answer.
-- - Rpc (src/network/simple_rpc_server.cpp, src/network/simple_rpc_client.cpp): handleClient,
--   processRequest and the calls with their retries; Rpc/Exchange puts both sides together.
-- - Tests: sample nodes and each theorem at a concrete input.
--
-- Correspondence. A field of a class is a field of a record under its name in snake_case, without
-- the trailing underscore; a method is a function of the same name from the old state to the new
-- one and its result. The C++ int is the type of integers without wrap-around: terms, indices and
-- identifiers would need 2 ^ 31 elections or entries to overflow. A read of the log out of range is
-- undefined in C++ and reads an empty entry here; Run/Valid shows the ranges that the program
-- keeps. The clock reading and the random election timeout of a call are its argument env. The
-- state machine behind the apply callback is a type parameter, and the callback may throw. An
-- exception is an Option or a constructor of the result. How much memory an allocation finds is a
-- parameter (Memory in Text/Scan).
--
-- Loops. The inner loops of the skip list have one turn more than its size as fuel, its outer loops
-- the levels, and the retries of a client the number of retries; a loop of the skip list that ran
-- out of fuel would give `none`, as undefined behaviour does, and the theorems exclude both. A loop
-- over a vector is a recursion on the list. The loop of applyCommittedEntriesInternal has
-- commitIndex - lastApplied as fuel, that of updateCommitIndex the distance from the last index
-- down to commitIndex; the theorems on them state the result with this fuel.
--
-- Not modelled. Sockets, gRPC, threads and condition variables, console output, and the parts of
-- the program that PROJECT.json lists as such; the sending helpers of RaftNode that only start
-- threads and call the transport.
mod Base
mod Text
pub mod Log
pub mod Messages
pub mod Persister
pub mod Node
pub mod Run
pub mod Command
pub mod SkipList
pub mod KvStore
pub mod Cluster
pub mod Service
pub mod Client
pub mod Config
pub mod Server
pub mod Rpc
mod Tests
