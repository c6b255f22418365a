-- ===== src/Routing/Laws.antt =====
-- Where a sent message goes, and what becomes of one that arrives.
use cpe400_peer_2_peer_file.Base.{
  ℕ, suc, Bool, true, false, not, if◌then◌else◌, List, [], ◌∷◌, map, some, Eq, ◌≡◌, refl, ◌∙◌,
  arith, ◌≢◌, All,
}
use cpe400_peer_2_peer_file.Base.Outcome.{returns}
use cpe400_peer_2_peer_file.Text.Hash.{hash-lt}
use cpe400_peer_2_peer_file.Platform.{Platform, IsLawful}
use cpe400_peer_2_peer_file.Messages.{
  MessageType, invalid, unknown, lock, unlock, delete_file, content_change, initial_sync, Message,
  hash_message, hash_string,
}
use cpe400_peer_2_peer_file.Messages.Archive.{Archive}
use cpe400_peer_2_peer_file.Messages.Wire.{class_of_body, save_message, received}
use cpe400_peer_2_peer_file.Node.{Node, Peer, enqueue}
use cpe400_peer_2_peer_file.Routing.{
  Intake, intake_of, resend_priority, Deliver, is_this_node, has_link, copies, transmit, route_data,
  addressed, send_by, forward_to_all, resend_of, hash_matches, receive, deserialize_message, send,
}
use cpe400_peer_2_peer_file.Routing.Local.{
  deserialize_message-save_message, deserialize_message-resend,
}

-- The types of the messages about a file.
abbrev pub carries_file : MessageType → Bool
carries_file lock = true
carries_file unlock = true
carries_file delete_file = true
carries_file content_change = true
carries_file initial_sync = true
carries_file _ = false

offset_of :
    (type : MessageType) {how : Intake}
    → intake_of type ≡ some how
    → how.offset ≡ (if carries_file type then 1 else 0)
offset_of invalid e = cc
offset_of (unknown n) e = cc
offset_of _ e = ground arith

module _ {Ip : Type 0} ⦃ip_eq : Eq Ip⦄ (net : Platform Ip) where
  -- No peer has this address.
  abbrev pub NoPeer : Ip → List (Peer Ip) → Type 0
  NoPeer a = All (λ peer. peer.remote_ip ≢ a)

  -- One frame for each peer.
  abbrev pub frames : Archive → List (Peer Ip) → List (Ip × Archive)
  frames data' = map (λ peer. (peer.remote_ip, data'))

  copies-frames :
      (data' : Archive) (source : Ip) (peers : List (Peer Ip))
      → NoPeer source peers
      → copies net data' source peers ≡ frames data' peers
  copies-frames data' source [] h = refl
  copies-frames data' source (peer ∷ rest) h =
      ground (arith, h.0, copies-frames data' source rest h.1)

  -- emplace_back of the circular buffer of old messages.
  abbrev pub remembered : Message Ip → Node Ip → Node Ip
  remembered msg node = record node { old_messages = net.remember msg node.old_messages }

  -- A message to one peer that this node is connected to goes to that peer alone, and nothing else of
  -- the node changes but its record of old messages.
  pub send_linked :
      (m : Message Ip) (destination : Ip) (to_self : Bool) (node : Node Ip)
      → destination ≢ net.ipv6_unspecified
      → destination ≢ net.ipv4_unspecified
      → is_this_node net destination node ≡ false
      → has_link net destination node.peers ≡ true
      → let msg = addressed net m destination node in
        send net m destination to_self node
        ≡ returns (remembered msg (transmit net ((destination, save_message net msg) ∷ []) node))
  unfolding send send_by route_data
  send_linked m destination to_self node h6 h4 other link = ground arith

  -- A node whose address is the unspecified one, or whose unspecified address is a loopback address,
  -- could not tell a broadcast from a message to itself.
  abbrev pub CanBroadcast : Node Ip → Type 0
  CanBroadcast node =
      NoPeer net.ipv6_unspecified node.peers × (is_this_node net net.ipv6_unspecified node ≡ false)

  -- The request for m, as it is sent to everyone.
  abbrev pub request_of : Message Ip → Node Ip → Message Ip
  request_of m node = addressed net (resend_of net m) net.ipv6_unspecified node

  -- A message of an accepted type whose hash is exactly that of its members: it is found wrong if it is
  -- a lock, an unlock, a deletion, a change of content or a file of the initial sync, and right
  -- otherwise.
  pub hash_matches_exact :
      (m : Message Ip) (how : Intake)
      → intake_of m.type ≡ some how
      → m.message_hash ≡ hash_message net m
      → hash_matches net m how.offset ≡ not (carries_file m.type)
  unfolding hash_message
  hash_matches_exact m how known exact =
      ground (arith, hash-lt (hash_string net m), offset_of m.type known)

module _ {Ip : Type 0} ⦃ip_eq : Eq Ip⦄ (net : Platform Ip) (law : IsLawful net) where
  route_data-everyone :
      (deliver : Deliver net) (data' : Archive) (node : Node Ip)
      → CanBroadcast net node
      → route_data net deliver data' net.ipv6_unspecified net.ipv6_unspecified node
        ≡ deliver data' (transmit net (frames net data' node.peers) node)
  unfolding route_data forward_to_all
  route_data-everyone deliver data' node (peers, other) =
      ground (arith, copies-frames net data' net.ipv6_unspecified node.peers peers)

  pub receive_right :
      (deliver : Deliver net) (how : Intake) (m : Message Ip) (node : Node Ip)
      → hash_matches net m how.offset ≡ true
      → receive net deliver how m node ≡ returns (enqueue how.priority m node)
  unfolding receive
  receive_right deliver how m node right = rw right

  receive_wrong :
      (depth : ℕ) (how : Intake) (m : Message Ip) (node : Node Ip)
      → hash_matches net m how.offset ≡ false
      → m.sender_node ≡ net.ipv6_unspecified
      → CanBroadcast net node
      → let request = request_of net m node in
        receive net (deserialize_message net (suc depth)) how m node
        ≡ returns (
            remembered net request (
              enqueue resend_priority
                (received net request)
                (transmit net (frames net (save_message net request) node.peers) node)))
  unfolding receive send_by
  receive_wrong depth how m node wrong sender can =
      let request = request_of net m node in
      let node' = transmit net (frames net (save_message net request) node.peers) node in
      rw (
        wrong,
        sender,
        route_data-everyone (deserialize_message net (suc depth)) (save_message net request) node
            can,
        deserialize_message-resend net law depth m net.ipv6_unspecified node node',
      )

  -- A broadcast of a message of an accepted type with the members of its class, on a node that can
  -- broadcast, if its hash is found right, reaches each peer once and joins
  -- this node's own queue at its type's priority.
  pub send_broadcast :
      (m : Message Ip) (how : Intake) (node : Node Ip)
      → intake_of m.type ≡ some how
      → class_of_body m.body ≡ how.class
      → CanBroadcast net node
      → hash_matches net (received net (addressed net m net.ipv6_unspecified node)) how.offset
        ≡ true
      → let msg = addressed net m net.ipv6_unspecified node in
        send net m net.ipv6_unspecified true node
        ≡ returns (
            remembered net msg (
              enqueue how.priority
                (received net msg)
                (transmit net (frames net (save_message net msg) node.peers) node)))
  unfolding send send_by
  send_broadcast m how node known same can right =
      let msg = addressed net m net.ipv6_unspecified node in
      let node' = transmit net (frames net (save_message net msg) node.peers) node in
      rw (
        route_data-everyone (deserialize_message net 2) (save_message net msg) node can,
        deserialize_message-save_message net law 1 msg how node' known same,
        receive_right (deserialize_message net 1) how (received net msg) node' right,
      )

  -- A message of an accepted type with the members of its class whose hash a node that can broadcast
  -- finds wrong is not queued. A request for it goes out to every peer, not
  -- only to the one that passed the message on, and joins this node's own queue.
  pub deserialize_message_wrong :
      (m : Message Ip) (how : Intake) (node : Node Ip)
      → intake_of m.type ≡ some how
      → class_of_body m.body ≡ how.class
      → CanBroadcast net node
      → hash_matches net (received net m) how.offset ≡ false
      → let request = request_of net m node in
        deserialize_message net 2 (save_message net m) node
        ≡ returns (
            remembered net request (
              enqueue resend_priority
                (received net request)
                (transmit net (frames net (save_message net request) node.peers) node)))
  deserialize_message_wrong m how node known same can wrong =
      deserialize_message-save_message net law 1 m how node known same
      ∙ receive_wrong 0 how (received net m) node wrong refl can
