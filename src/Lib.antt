-- ===== src/Lib.antt =====
-- Whisper Network (wnts): a program that keeps folders in step across a peer-to-peer network. This is
-- a model of its nodes and of small networks of them, with the theorems about its parts.
--
-- A node is a record (Node) with the members of the singletons MessageManager and PeerManager, its
-- address, a reading of its clock, and its file system. Once a second the sweeper (src/file_sweep.hpp)
-- looks for changed files and its callbacks (src/main.cpp) broadcast what they find; what arrives from
-- a peer is routed and validated (src/peer_manager.hpp, src/message_manager.hpp) and queued; the main
-- loop takes messages from the queue, and their handlers (src/message_manager.cpp) change the file
-- system and the peers. A call returns a value, throws, or is undefined (Base.Outcome).
--
-- The files, and what they model:
--   Text, Paths       hash, wntsPath (src/include_everywhere.hpp), lockFilePath
--   Messages          the message classes and their archives (src/messages.hpp)
--   Permissions, Disk files, folders, permissions, streams, enumerateAllFiles and lock files
--   Node              the state of a node
--   Queue             PrioComp and the priority queue (src/message_manager.hpp)
--   Routing           PeerManager::send, routeData, deserializeMessage, validateMessageHash
--   Handlers          the process...Message functions (src/message_manager.cpp): Files has locks,
--                     changes and deletions, Sync the initial sync and connect, Links lost links,
--                     disconnect and resend requests
--   Manager           processNextMessage and the destructor of MessageManager
--   Framing           Peer::send and the receiving loop of threadFunction (src/peer.hpp, src/peer.cpp)
--   Incoming          Peer::processMessage and the errors of a socket (src/peer.cpp)
--   Life              the steps of a node: all of these calls, in any order
--   Network           several nodes, and the frames between them, which arrive one at a time; Changes
--                     and Locking go from a callback of the sweep on one node to the disks of the others
--   Connection        Peer::connect (src/peer.hpp); Slots has the vector of peers and their caches
--   Sweep             FilesystemSweeper (src/file_sweep.hpp)
--   Callbacks         the callbacks of the sweep (src/main.cpp)
--   Accept            the listening thread of PeerManager::setup (src/peer_manager.hpp)
--   Startup           main (src/main.cpp): the folders, the first connection and the main loop; Joining,
--                     Syncing and Timing follow the files of the initial sync from one node to another
--   ZeroTier          the events that ZeroTierNode handles, and its setup (src/ztnode.hpp)
--   Monitor           monitor, the guards of a value behind a mutex (src/monitor.hpp)
--   Platform          what other libraries decide, as parameters
--   Tests             the theorems at concrete inputs
--
-- Conventions. Numbers are natural numbers, and the operations on a size_t are taken modulo 2 ^ 64
-- where they can pass it. A path is the list of its names, a string the list of its bytes. A
-- subclass of Message is the base record with a body. An archive is the list of the fields that
-- cereal is given. The queue is a list whose order means nothing: the top is found by comparing all
-- entries. Two readings of the clock within one call of convertTimepoint are parameters.
--
-- A node can broadcast if no peer has the unspecified address and that address is not taken for the
-- node's own.
--
-- Bounds. deserializeMessage, send and routeData call one another: the model bounds the depth, and a
-- depth of two is enough for all data. The loops that process messages (the destructor, the main loop)
-- take fuel, since they may wait for other nodes. The attempts of Peer::connect are counted, and the
-- receiving loop runs over a list of how many bytes arrive in each iteration. The loops of
-- ZeroTierNode::setup and of the listening thread run over lists of what comes in each turn.
--
-- Time. The clock of a node goes on by a tenth of a second when its queue is empty, and by times that are
-- parameters when a message is handled and when all files are swept; within one of these it stands
-- still. So the main loop ends its second with messages left where their handling takes too long.
--
-- Peers. Each peer of a Node has the address and port that it answers and those of its socket. An
-- erasure or an insertion in the vector moves the sockets, and not what the peers answer, which
-- assumes that each of them was asked before; that a reallocation of the vector empties the caches is
-- not modelled. What is sent is listed under the address that the peer answers. How the caches are
-- filled is in Connection/Slots. In the runs of Network the frames
-- that were written last arrive first, one after another, and fuel bounds them; in Network/Arrivals any
-- frame on its way may be the next. The guards of Monitor are those of all threads; in the other files
-- one call runs at a time.
--
-- Not modelled: the interleaving of threads outside Monitor, the command line, signals and output, the
-- sockets but for their results, and the libraries under thirdparty. A callback of the sweep that
-- throws leaves nothing of what it did before.
pub mod Base
pub mod Text
pub mod Paths
pub mod Permissions
pub mod Platform
pub mod Messages
pub mod Disk
pub mod Node
pub mod Queue
pub mod Routing
pub mod Handlers
pub mod Manager
pub mod Framing
pub mod Connection
pub mod Sweep
pub mod Callbacks
pub mod Accept
pub mod Startup
pub mod ZeroTier
pub mod Incoming
pub mod Life
pub mod Network
pub mod Monitor
mod Tests
