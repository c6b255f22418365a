-- ===== src/Node.antt =====
-- The state of one running node: the members of the singletons MessageManager (message_manager.hpp)
-- and PeerManager (peer_manager.hpp), the node's address, and its surroundings.
use cpe400_peer_2_peer_file.Base.{ℕ, Bool, List, [], ◌∷◌, ◌++◌, eqb}
use cpe400_peer_2_peer_file.Paths.{FilePath}
use cpe400_peer_2_peer_file.Messages.{Message}
use cpe400_peer_2_peer_file.Messages.Archive.{Archive}
use cpe400_peer_2_peer_file.Disk.{Disk}

-- An entry of the message queue. Lower priorities are processed first.
pub record Prio (Ip : Type 0) : Type 0 where
  pub priority : ℕ
  pub message : Message Ip

-- A Peer: the address and port that getRemoteIP and getRemotePort answer, which are cached, and the
-- address and port that its socket is connected to.
pub record Peer (Ip : Type 0) : Type 0 where
  pub remote_ip : Ip
  pub remote_port : ℕ
  pub socket : Ip × ℕ

pub record Node (Ip : Type 0) : Type 0 where
  -- ZeroTierNode: the address of this node
  pub ip : Ip
  -- The reading of system_clock::now(), in nanoseconds
  pub now : ℕ
  pub disk : Disk Ip
  -- MessageManager
  pub folders : List FilePath
  pub received_initial_files : ℕ
  pub total_initial_files : ℕ
  pub message_queue : List (Prio Ip)
  pub old_messages : List (Message Ip)
  -- PeerManager
  pub peers : List (Peer Ip)
  pub gateway_ip : Ip
  pub backup_peers : List (Ip × ℕ)
  -- What was written to the peers' sockets, each under the address that the peer answers, the latest
  -- last
  pub sent : List (Ip × Archive)

module _ {Ip : Type 0} where
  -- A Peer whose cached address and port, if any, are those of its socket.
  abbrev pub fresh_peer : Ip × ℕ → Peer Ip
  fresh_peer (ip, port) = record { remote_ip = ip; remote_port = port; socket = (ip, port) }

  -- messageQueue->emplace: the order of the list means nothing.
  abbrev pub enqueue : ℕ → Message Ip → Node Ip → Node Ip
  enqueue priority m node = record node {
    message_queue = node.message_queue ++ record { priority = priority; message = m } ∷ [];
  }

  -- isFinishedConnecting
  abbrev pub is_finished_connecting : Node Ip → Bool
  is_finished_connecting node = eqb node.received_initial_files node.total_initial_files
