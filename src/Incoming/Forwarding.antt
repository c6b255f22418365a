-- ===== src/Incoming/Forwarding.antt =====
-- Where a message that arrives goes on to.
use cpe400_peer_2_peer_file.Base.{
  ℕ, ◌≤◌, Bool, true, false, not, ◌||◌, List, [], ◌∷◌, map, some, Eq, ◌==◌, if◌then◌else◌, length,
  select, ◌≡◌, refl, append-nil, ◌∙◌, arith,
}
use cpe400_peer_2_peer_file.Base.Outcome.{returns}
use cpe400_peer_2_peer_file.Platform.{Platform, IsLawful}
use cpe400_peer_2_peer_file.Messages.{Message}
use cpe400_peer_2_peer_file.Messages.Archive.{Archive}
use cpe400_peer_2_peer_file.Messages.Wire.{
  class_of_body, save_message, load_header-save_message, received,
}
use cpe400_peer_2_peer_file.Node.{Node, Peer, enqueue}
use cpe400_peer_2_peer_file.Routing.{
  Intake, intake_of, Deliver, copies, is_this_node, has_link, transmit, forward_to_all, route_data,
  hash_matches, deserialize_message,
}
use cpe400_peer_2_peer_file.Routing.Local.{intake_of-known, deserialize_message-save_message}
use cpe400_peer_2_peer_file.Routing.Laws.{receive_right}
use cpe400_peer_2_peer_file.Incoming.{process_message}

module _ {Ip : Type 0} ⦃ip_eq : Eq Ip⦄ (net : Platform Ip) where
  -- The addresses of the peers but for one.
  abbrev pub others : Ip → List (Peer Ip) → List Ip
  others source peers = select (λ a. not (a == source)) (map (λ peer. peer.remote_ip) peers)

  -- Whom a message for an address goes on to, when it comes from a peer.
  abbrev pub passes_to : Ip → Ip → Node Ip → List Ip
  passes_to destination source node =
      if destination == net.ipv6_unspecified || destination == net.ipv4_unspecified
      then others source node.peers
      else if is_this_node net destination node
      then []
      else if has_link net destination node.peers
      then destination ∷ []
      else others source node.peers

  -- Whether this node takes the message in itself.
  abbrev pub takes_in : Ip → Node Ip → Bool
  takes_in destination node =
      (destination == net.ipv6_unspecified || destination == net.ipv4_unspecified)
      || (is_this_node net destination node || not (has_link net destination node.peers))

  -- The node after the message went on to some addresses.
  abbrev pub passed : Archive → List Ip → Node Ip → Node Ip
  passed data' addresses node = transmit net (map (λ a. (a, data')) addresses) node

  copies-others :
      (data' : Archive) (source : Ip) (peers : List (Peer Ip))
      → copies net data' source peers ≡ map (λ a. (a, data')) (others source peers)
  copies-others data' source [] = refl
  copies-others data' source (peer ∷ rest) = ground (arith, copies-others data' source rest)

  route_data_routes :
      (deliver : Deliver net) (data' : Archive) (destination source : Ip) (node : Node Ip)
      (priority : ℕ) (m : Message Ip)
      → ((n : Node Ip) → deliver data' n ≡ returns (enqueue priority m n))
      → is_this_node net source node ≡ false
      → let node' = passed data' (passes_to destination source node) node in
        route_data net deliver data' destination source node
        ≡ returns (if takes_in destination node then enqueue priority m node' else node')
  unfolding route_data forward_to_all
  route_data_routes deliver data' destination source node priority m delivers other = ground (
    arith,
    copies-others data' source node.peers,
    append-nil node.sent,
    delivers node,
    delivers (transmit net (copies net data' source node.peers) node),
  )

module _ {Ip : Type 0} ⦃ip_eq : Eq Ip⦄ (net : Platform Ip) (law : IsLawful net) where
  read_header :
      (m : Message Ip) {how : Intake} (remote : Ip) (node : Node Ip)
      → intake_of m.type ≡ some how
      → net.message_size ≤ length (net.archive_bytes (save_message net m))
      → process_message net remote (save_message net m) node
        ≡ route_data net
            (deserialize_message net 2)
            (save_message net m)
            m.receiver_node
            remote
            node
  unfolding process_message
  read_header m remote node known long =
      ground (arith, load_header-save_message net law m, intake_of-known m.type known)

  -- A message of an accepted type, with the members of its class, from a peer that is not this node
  -- itself: if its hash is right and it is not shorter than a Message object, it goes on to the
  -- addresses that passes_to gives, and it is queued here where takes_in says so.
  pub process_message_routes :
      (m : Message Ip) (how : Intake) (remote : Ip) (node : Node Ip)
      → intake_of m.type ≡ some how
      → class_of_body m.body ≡ how.class
      → hash_matches net (received net m) how.offset ≡ true
      → is_this_node net remote node ≡ false
      → net.message_size ≤ length (net.archive_bytes (save_message net m))
      → let node' =
          passed net (save_message net m) (passes_to net m.receiver_node remote node) node in
        process_message net remote (save_message net m) node
        ≡ returns (
            if takes_in net m.receiver_node node
            then enqueue how.priority (received net m) node'
            else node')
  process_message_routes m how remote node known same right other long =
      let data' = save_message net m in
      let delivers : (n : Node Ip)
          → deserialize_message net 2 data' n ≡ returns (enqueue how.priority (received net m) n) =
        λ n.
          deserialize_message-save_message net law 1 m how n known same
          ∙ receive_right net law (deserialize_message net 1) how (received net m) n right in
      read_header m remote node known long
      ∙ route_data_routes net (deserialize_message net 2) data' m.receiver_node remote node
          how.priority (received net m) delivers other
