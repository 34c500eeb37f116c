-- ===== src/Lib.antt =====
-- The distributed stream processor crane-sps, and the services that it runs on.
--
-- Every node runs one daemon. Its parts, from the bottom up:
--   * the membership service (daemon/src/DMember.cpp, daemon/src/member/Member.cpp and the handler
--     daemon/src/message/MessageHandler.cpp): nodes send each other heartbeats, each listens to its
--     predecessors in a ring, and a member that is not heard of is dropped and announced as failed;
--   * the election (daemon/src/election/Candidate.cpp, daemon/src/message/
--     ElectionMessageHandler.cpp): the node with the lowest name leads;
--   * the replicated file system: the master's file map (daemon/src/filesys/DFileMaster.cpp), which
--     acts when a node fails and when its own node is elected, and every node's share
--     (daemon/src/filesys/DFile.cpp); daemon/src/message/DFileMessageHandler.cpp serves both;
--   * Nimbus (daemon/src/nimbus/Nimbus.cpp), the master of the topologies, and the part of
--     daemon/src/message/CraneMessageHandler.cpp that serves its clients: it hands the tasks of a
--     topology to the supervisors of the other nodes in turn and starts, stops and kills it;
--   * the supervisor of every node (daemon/src/supervisor/Supervisor.cpp) starts a worker process for
--     each task that Nimbus asks for, with a port of its own, and forwards Nimbus's requests to it;
--   * a worker (daemon/src/worker/Worker.cpp, daemon/src/message/WorkerMessageHandler.cpp) runs the
--     code of a spout or a bolt on the tuples that come to its port, and sends the results in
--     batches to the workers of the next nodes, at random or by the hash of a field;
--   * the introducer (daemon/src/introducer/Introducer.cpp) tells a node that joins who is there;
--   * crane-core/src/topology is the library with which a user builds a topology and its
--     specification, client/src/CraneClient.cpp the client that sends it to Nimbus, and user-code
--     holds topologies.
--
-- Files:
--   * Base: names passed on, texts by their order (Text, Key), byte strings (Bytes), fixed-width
--     integers (Words), std::map and std::set as sorted lists (StdMap, StdSet);
--   * Member: the class Member; DMember: the struct DMember::Impl, with its merging (Merge), the
--     sending thread (Heartbeat), the ring (Connect) and the heartbeat handler (Messages); the
--     other modules below DMember prove: Tables, Detector, Reports, Delivery, Ring;
--   * Election: lowerIds and min_element (Lowest), the candidate and its handlers (Node), its messages
--     and their parser (Wire), a group of candidates with messages on the way (Group); proofs in
--     Confirmations, in History, which has the steps of a candidate as a relation, and in Agreement;
--   * FileMaster: the file map (Files), the random replication (Replicate), the requests, node
--     failures (Requests); proofs below each;
--   * FileNode: reading a file in chunks (Chunks), the two sides of a transfer and the steps of a
--     transfer in which messages are lost (Transfer), the local files, the data ports and the
--     commands of the master (Store), the requests to the master and between the nodes (Service),
--     the messages and their parser (Messages), and one node with all its handlers and its two
--     receiving threads (Daemon); proofs below them, in Exchange, and in
--     Unanswered, where a thread owes a reply;
--   * Nimbus: the table of topologies (Stats), the assignment of tasks and the connections (Assign),
--     the operations on a topology (Lifecycle), the clients' requests and node failures (Requests);
--     proofs below Assign and Requests;
--   * Supervisor: the table of workers and its operations, and its handlers of Nimbus's requests
--     (Messages); proofs in Workers, in Life, which has the requests as a relation of steps, and in
--     Cluster, Deploy, Wiring and Wired, where the supervisors of all nodes serve what Nimbus sends;
--   * Worker: the tuples and the groupings (Send), the threads and handlers of the process (Child),
--     the side of the supervisor (Parent); proofs in Send/Routes, Deliver, Child/Tuples and
--     Child/Life, which has what happens to a bolt as a relation of steps;
--   * Introducer: the pings and the handlers; the messages of the membership, their parser and a
--     process that handles them all (Wire); the joining of a node in Join, and over the wire in
--     Arrival;
--   * Topology: the graph, its builder and the search (Builder, Grouping), the parsing of a
--     specification (Request); proofs below Builder;
--   * Client: the requests (Submit) and the port of the archive (Ports);
--   * Crane: the messages between the client, Nimbus, the supervisors and the workers
--     (protocol/crane.proto), the parsers (Parser), how they are filled in (Messages) and received (Wire);
--   * UserCode: the bolts of the word count topology, and the topology as a whole (WordCount);
--   * Tests: the theorems at concrete inputs.
--
-- How the program is read:
--   * A function that the source guards by a mutex is one function on the state. Threads are steps
--     that a relation may take in any order, or the parts of a function between two waits.
--   * A reading of the clock is an argument, in nanoseconds; a loop that reads it once for a key
--     takes a function from keys to readings. Heartbeat counts are unbounded numbers, since they
--     grow by one in half a second; durations are narrowed to an int as in the source.
--   * rand() is a stream of numbers. What is proved to end relies on `Fair`: from any point on
--     every index comes again.
--   * The loops that wait for random numbers run on fuel, and the theorems say that some fuel is
--     enough, for the next draws; the loop of lowerIds has one round for each name and one more; the
--     fetching loop has one for each chunk. The search of the builder has one round for each spout
--     and node, which is enough since a node enters its queue once. The client's search for
--     a port runs 100 times, once for each port that it may take.
--   * A read through std::map's operator[] makes an empty entry; no operation that is modelled tells
--     it from a missing one, so it is not stored.
--   * Maps of members are shared by pointer in the source, and owned by one queue; here they are
--     values. Member::update copies into the record of the own map, so nothing is shared. The map
--     that the introducer queues is taken by its value at that time.
--   * boost::lockfree::queue is a list, first in, first out; one round of a worker's thread is a
--     step. The user's code is a parameter (TopologyNode), with a state of its own. A second START
--     would start the threads of a worker again; the model has one of each. The random draw of a
--     shuffle grouping is an argument. The texts in tuples are their bytes.
--   * A call of Nimbus takes the membership list and the ports that the supervisors reply as
--     arguments; a request that runs two of its calls takes two such lists.
--   * A socket address is the pair of its host and port.
--   * A request to the file master replies, and changes the map, before replicateFile is called,
--     which may not return: then there are no commands, and the thread serves nothing more. Whether
--     a socket of ZeroMQ receives while it owes a reply is a parameter.
--   * Reading the first field of a tuple that has none is undefined in the source; the model takes
--     the empty text, and the lines of the word count have a field. The count of chunks would
--     overflow its int at 2 ^ 31 - 1 whole chunks and a rest; the model does not wrap there.
--
-- Not modelled: ZeroMQ sockets and the encoding of protobuf; threads and their scheduling; logging
-- (utils/easylogging++.h is another project's); the console programs; the compiler and the files
-- that Nimbus's clients send; the spouts, printers and other small bolts of
-- user-code.
pub mod Base
pub mod Member
pub mod DMember
pub mod Election
pub mod FileMaster
pub mod FileNode
pub mod Nimbus
pub mod Supervisor
pub mod Introducer
pub mod Topology
pub mod Worker
pub mod Client
pub mod UserCode
pub mod Crane
pub mod Tests
