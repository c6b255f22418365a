-- ===== src/Routing.antt =====
-- Sending and receiving: PeerManager::send and routeData (peer_manager.hpp), and
-- MessageManager::deserializeMessage and validateMessageHash (message_manager.hpp, message_manager.cpp).
pub mod Local
pub mod Laws
pub mod Keeps
use cpe400_peer_2_peer_file.Base.{
  ℕ, zero, suc, ◌+◌, ◌%◌, Bool, true, false, not, ◌||◌, List, [], ◌∷◌, ◌++◌, Option, none, some, Eq,
  ◌==◌, eqb, if◌then◌else◌,
}
use cpe400_peer_2_peer_file.Base.Outcome.{
  Outcome, returns, throws, too_deep, archive_error, unrecognized_type, ◌>>=◌,
}
use cpe400_peer_2_peer_file.Text.{size_t_mod}
use cpe400_peer_2_peer_file.Platform.{Platform}
use cpe400_peer_2_peer_file.Messages.{
  MessageType, invalid, lock, unlock, delete_file, content_change, initial_sync, connect,
  disconnect, payload, resend_request, resend_body, Message, hash_message,
}
use cpe400_peer_2_peer_file.Messages.Archive.{Archive, octet}
use cpe400_peer_2_peer_file.Messages.Wire.{
  type_of_code, Class, message_class, payload_class, resend_class, file_class, content_class,
  sync_class, connect_class, save_message, load_message,
}
use cpe400_peer_2_peer_file.Node.{Node, Peer, enqueue}

abbrev pub payload_priority : ℕ
payload_priority = 10

abbrev pub resend_priority : ℕ
resend_priority = 0

abbrev pub lock_priority : ℕ
lock_priority = 4

abbrev pub file_priority : ℕ
file_priority = 5

abbrev pub connect_priority : ℕ
connect_priority = 1

abbrev pub disconnect_priority : ℕ
disconnect_priority = 2

-- How a type of message is taken in: the class that it is read as, the offset of its hash, and its
-- priority.
pub record Intake : Type 0 where
  pub class : Class
  pub offset : ℕ
  pub priority : ℕ

abbrev pub intake : Class → ℕ → ℕ → Intake
intake class offset priority = record { class = class; offset = offset; priority = priority }

-- The cases of the switch; the default throws.
abbrev pub intake_of : MessageType → Option Intake
intake_of payload = some (intake payload_class 0 payload_priority)
intake_of resend_request = some (intake resend_class 0 resend_priority)
intake_of lock = some (intake file_class 1 lock_priority)
intake_of unlock = some (intake file_class 1 lock_priority)
intake_of delete_file = some (intake file_class 1 file_priority)
intake_of content_change = some (intake content_class 1 file_priority)
intake_of initial_sync = some (intake sync_class 1 lock_priority)
intake_of connect = some (intake connect_class 0 connect_priority)
intake_of disconnect = some (intake message_class 0 disconnect_priority)
intake_of _ = none

module _ {Ip : Type 0} ⦃ip_eq : Eq Ip⦄ (net : Platform Ip) where
  -- What deserializeMessage does with data that arrives at this node.
  abbrev pub Deliver : Type 0
  Deliver = Archive → Node Ip → Outcome (Node Ip)

  -- The data for every peer but the source.
  abbrev pub copies : Archive → Ip → List (Peer Ip) → List (Ip × Archive)
  copies data' source [] = []
  copies data' source (peer ∷ rest) =
      if not (peer.remote_ip == source)
      then (peer.remote_ip, data') ∷ copies data' source rest
      else copies data' source rest

  abbrev pub is_this_node : Ip → Node Ip → Bool
  is_this_node a node = a == net.ipv6_loopback || (a == net.ipv4_loopback || a == node.ip)

  abbrev pub has_link : Ip → List (Peer Ip) → Bool
  has_link destination [] = false
  has_link destination (peer ∷ rest) = peer.remote_ip == destination || has_link destination rest

  abbrev pub transmit : List (Ip × Archive) → Node Ip → Node Ip
  transmit frames node = record node { sent = node.sent ++ frames }

  -- The lambda of routeData.
  unfoldable pub forward_to_all : Deliver → Archive → Ip → Node Ip → Outcome (Node Ip)
  forward_to_all deliver data' source node =
      let node' = transmit (copies data' source node.peers) node in
      if not (is_this_node source node) then deliver data' node' else returns node'

  unfoldable pub route_data : Deliver → Archive → Ip → Ip → Node Ip → Outcome (Node Ip)
  route_data deliver data' destination source node =
      if destination == net.ipv6_unspecified || destination == net.ipv4_unspecified
      then forward_to_all deliver data' source node
      else if is_this_node destination node
      then deliver data' node
      else if has_link destination node.peers
      then returns (transmit ((destination, data') ∷ []) node)
      else forward_to_all deliver data' source node

  -- The message as send completes it.
  abbrev pub addressed : Message Ip → Ip → Node Ip → Message Ip
  addressed m destination node =
      let originator =
        if m.originator_node == net.ipv6_unspecified then node.ip else m.originator_node in
      let msg : Message Ip = record {
        type = m.type;
        receiver_node = destination;
        sender_node = node.ip;
        originator_node = originator;
        message_hash = m.message_hash;
        body = m.body;
      } in
      record msg { message_hash = hash_message net msg }

  -- send, where to_self is broadcastToSelf.
  unfoldable pub send_by : Deliver → Message Ip → Ip → Bool → Node Ip → Outcome (Node Ip)
  send_by deliver m destination to_self node =
      let msg = addressed m destination node in
      route_data deliver (save_message net msg) destination
        (if to_self then net.ipv6_unspecified else net.ipv6_loopback) node
      >>= λ node'. returns (record node' { old_messages = net.remember msg node'.old_messages })

  -- The request of validateMessageHash that m be sent again. send fills in the rest.
  abbrev pub resend_of : Message Ip → Message Ip
  resend_of m = record {
    type = resend_request;
    receiver_node = net.ipv6_unspecified;
    sender_node = net.ipv6_unspecified;
    originator_node = net.ipv6_unspecified;
    message_hash = 0;
    body = resend_body m.message_hash m.receiver_node;
  }

  -- The test of validateMessageHash.
  abbrev pub hash_matches : Message Ip → ℕ → Bool
  hash_matches m offset = eqb m.message_hash ((hash_message net m + offset) % size_t_mod)

  -- A message that was read: it is queued if its hash is right, and requested again if not.
  unfoldable pub receive : Deliver → Intake → Message Ip → Node Ip → Outcome (Node Ip)
  receive deliver how m node =
      if hash_matches m how.offset
      then returns (enqueue how.priority m node)
      else send_by deliver (resend_of m) m.sender_node true node

  unfoldable pub load_and_receive : Deliver → Option Intake → Archive → Node Ip → Outcome (Node Ip)
  load_and_receive deliver none data' node = throws unrecognized_type
  load_and_receive deliver (some how) data' node = elim (load_message net how.class data') [
    | none ↦ throws archive_error
    | some (m, rest) ↦ receive deliver how m node
  ]

  -- deserializeMessage. The first argument bounds how deep it is called within itself, by way of the
  -- request that a wrong hash leads to; two is enough (Routing.Local).
  unfoldable pub deserialize_message : ℕ → Archive → Node Ip → Outcome (Node Ip)
  deserialize_message zero data' node = too_deep
  deserialize_message (suc depth) [] node = throws archive_error
  deserialize_message (suc depth) (octet code ∷ data') node =
      load_and_receive (deserialize_message depth) (intake_of (type_of_code code))
        (octet code ∷ data') node
  deserialize_message (suc depth) (_ ∷ data') node = throws archive_error

  -- PeerManager::send
  unfoldable pub send : Message Ip → Ip → Bool → Node Ip → Outcome (Node Ip)
  send = send_by (deserialize_message 2)
