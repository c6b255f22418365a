-- ===== src/Accept.antt =====
-- The listening thread of PeerManager::setup (peer_manager.hpp).
pub mod Welcome
use cpe400_peer_2_peer_file.Base.{ℕ, Bool, true, List, [], ◌∷◌, ◌++◌, map, Eq, if◌then◌else◌}
use cpe400_peer_2_peer_file.Base.Outcome.{Outcome, returns, throws, zt_error, ◌>>=◌}
use cpe400_peer_2_peer_file.Paths.{FilePath}
use cpe400_peer_2_peer_file.Platform.{Platform}
use cpe400_peer_2_peer_file.Messages.{
  connect, initial_sync_request, plain_body, connect_body, Message,
}
use cpe400_peer_2_peer_file.Node.{Node, Peer, enqueue}
use cpe400_peer_2_peer_file.Routing.{send, disconnect_priority}

module _ {Ip : Type 0} ⦃ip_eq : Eq Ip⦄ (net : Platform Ip) where
  -- The peers that were there before the new one.
  abbrev pub backups_of : List (Peer Ip) → List (Ip × ℕ)
  backups_of = map (λ peer. (peer.remote_ip, peer.remote_port))

  abbrev pub connect_message : List (Ip × ℕ) → List FilePath → Message Ip
  connect_message backup_peers managed_paths = record {
    type = connect;
    receiver_node = net.ipv6_unspecified;
    sender_node = net.ipv6_unspecified;
    originator_node = net.ipv6_unspecified;
    message_hash = 0;
    body = connect_body backup_peers managed_paths;
  }

  -- The request that the new node be sent all files, in the name of that node. The hash is never set.
  abbrev pub sync_request : Ip → Message Ip
  sync_request peer_ip = record {
    type = initial_sync_request;
    receiver_node = net.ipv6_unspecified;
    sender_node = net.ipv6_unspecified;
    originator_node = peer_ip;
    message_hash = 0;
    body = plain_body;
  }

  unfoldable pub accept_connection : Peer Ip → Node Ip → Outcome (Node Ip)
  accept_connection peer node =
      send net (connect_message (backups_of node.peers) node.folders) peer.remote_ip true
        (record node { peers = node.peers ++ peer ∷ [] })
      >>= λ node'. returns (enqueue disconnect_priority (sync_request peer.remote_ip) node')

  -- What the connection socket gives within 100ms.
  pub data Poll : Type 0 where
    poll_failed : Poll
    not_ready : Poll
    accept_failed : Poll
    accepted : Peer Ip → Poll

  -- The loop of the thread: the polls until it is requested to stop. An exception of it is not caught.
  unfoldable pub listen : List Poll → Node Ip → Outcome (Node Ip)
  listen [] node = returns node
  listen (poll_failed ∷ polls) node = throws zt_error
  listen (not_ready ∷ polls) node = listen polls node
  listen (accept_failed ∷ polls) node = throws zt_error
  listen (accepted peer ∷ polls) node = accept_connection peer node >>= listen polls

  -- The thread, where init, bind and listen of the socket succeed or not.
  unfoldable pub run_listener : Bool → Bool → Bool → List Poll → Node Ip → Outcome (Node Ip)
  run_listener inits binds listens polls node =
      if inits
      then if binds then if listens then listen polls node else throws zt_error else throws zt_error
      else throws zt_error
