-- ===== src/Incoming/Keeps.antt =====
-- What arrives leaves the files of a node, its folders and its progress in connecting alone.
use cpe400_peer_2_peer_file.Base.{Eq, arith, Option-cases, inl, inr}
use cpe400_peer_2_peer_file.Platform.{Platform}
use cpe400_peer_2_peer_file.Messages.Archive.{Archive}
use cpe400_peer_2_peer_file.Messages.Wire.{load_header}
use cpe400_peer_2_peer_file.Node.{Node}
use cpe400_peer_2_peer_file.Routing.{deserialize_message}
use cpe400_peer_2_peer_file.Routing.Keeps.{Keeps, route_data-Keeps, deserialize_message-Keeps}
use cpe400_peer_2_peer_file.Incoming.{process_message}

module _ {Ip : Type 0} ⦃ip_eq : Eq Ip⦄ (net : Platform Ip) where
  -- Peer::processMessage, if it returns.
  pub process_message-Keeps :
      (remote : Ip) (data' : Archive) (node : Node Ip)
      → Keeps net node (process_message net remote data' node)
  unfolding process_message
  process_message-Keeps remote data' node = elim (Option-cases (load_header net data')) [
    | inl missing ↦ ground arith
    | inr ((m, rest), found) ↦ ground (
      arith,
      route_data-Keeps net (deserialize_message net 2) data' m.receiver_node remote node
          (deserialize_message-Keeps net 2 data'),
      route_data-Keeps net (deserialize_message net 2) data' m.receiver_node m.sender_node node
          (deserialize_message-Keeps net 2 data'),
    )
  ]
