-- ===== src/Incoming.antt =====
-- What a peer's thread does with a message and with an error of its socket: Peer::processMessage and
-- the handler of Peer::threadFunction (peer.cpp).
pub mod Forwarding
pub mod Keeps
use cpe400_peer_2_peer_file.Base.{
  ℕ, Bool, true, false, ◌&&◌, ◌||◌, List, [], ◌∷◌, Option, none, some, Eq, ◌==◌, eqb, ltb,
  if◌then◌else◌, length,
}
use cpe400_peer_2_peer_file.Base.Outcome.{Outcome, returns, throws, undefined, archive_error}
use cpe400_peer_2_peer_file.Text.{Text, codes}
use cpe400_peer_2_peer_file.Platform.{Platform}
use cpe400_peer_2_peer_file.Messages.{link_lost, plain_body, Message}
use cpe400_peer_2_peer_file.Messages.Archive.{Archive}
use cpe400_peer_2_peer_file.Messages.Wire.{load_header}
use cpe400_peer_2_peer_file.Node.{Node, enqueue}
use cpe400_peer_2_peer_file.Routing.{disconnect_priority, route_data, deserialize_message}

unfoldable pub starts_with : Text → Text → Bool
starts_with [] error = true
starts_with (c ∷ part) [] = false
starts_with (c ∷ part) (d ∷ error) = eqb c d && starts_with part error

-- error.find(part) != std::string::npos
unfoldable pub contains : Text → Text → Bool
contains part [] = starts_with part []
contains part (c ∷ error) = starts_with part (c ∷ error) || contains part error

-- Whether an error of the socket says that the connection is gone.
unfoldable pub is_lost : Text → Bool
is_lost error =
    contains (codes "zts_errno=107") error || contains (codes "zts_poll returned ZTS_POLLERR") error

module _ {Ip : Type 0} ⦃ip_eq : Eq Ip⦄ (net : Platform Ip) where
  -- processMessage, for data from a peer at an address. The header is read from as many bytes as a
  -- Message object has: past the end of the data where that has fewer.
  unfoldable pub process_message : Ip → Archive → Node Ip → Outcome (Node Ip)
  process_message remote data' node =
      if ltb (length (net.archive_bytes data')) net.message_size
      then undefined
      else elim (load_header net data') [
        | none ↦ throws archive_error
        | some (m, rest) ↦
            route_data net (deserialize_message net 2) data' m.receiver_node
              (if m.sender_node == net.ipv6_unspecified then remote else m.sender_node) node
      ]

  -- The hash is never set.
  abbrev pub lost_message : Ip → Message Ip
  lost_message remote = record {
    type = link_lost;
    receiver_node = net.ipv6_unspecified;
    sender_node = net.ipv6_unspecified;
    originator_node = remote;
    message_hash = 0;
    body = plain_body;
  }

  -- The handler: the node, and whether the thread ends. Other errors are only printed.
  unfoldable pub on_socket_error : Text → Ip → Node Ip → Node Ip × Bool
  on_socket_error error remote node =
      if is_lost error
      then (enqueue disconnect_priority (lost_message remote) node, true)
      else (node, false)
