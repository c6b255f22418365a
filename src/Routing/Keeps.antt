-- ===== src/Routing/Keeps.antt =====
-- Sending and receiving leave the files of a node, its folders and its progress in connecting alone.
use cpe400_peer_2_peer_file.Base.{
  ℕ, zero, suc, Bool, true, [], ◌∷◌, Option, none, some, Eq, if◌then◌else◌, ◌≡◌, arith,
  Option-cases, inl, inr,
}
use cpe400_peer_2_peer_file.Base.Outcome.{Outcome, returns}
use cpe400_peer_2_peer_file.Platform.{Platform}
use cpe400_peer_2_peer_file.Messages.{Message}
use cpe400_peer_2_peer_file.Messages.Archive.{Archive, octet, number, bytes, text, count}
use cpe400_peer_2_peer_file.Messages.Wire.{type_of_code, load_message, save_message}
use cpe400_peer_2_peer_file.Node.{Node}
use cpe400_peer_2_peer_file.Routing.{
  Intake, intake_of, Deliver, transmit, copies, forward_to_all, route_data, addressed, send_by,
  resend_of, receive, load_and_receive, deserialize_message, send,
}

module _ {Ip : Type 0} ⦃ip_eq : Eq Ip⦄ (net : Platform Ip) where
  -- What stays, if the call returns.
  pub record Same (before after : Node Ip) : Type 0 where
    pub same_disk : after.disk ≡ before.disk
    pub same_folders : after.folders ≡ before.folders
    pub same_received : after.received_initial_files ≡ before.received_initial_files
    pub same_total : after.total_initial_files ≡ before.total_initial_files
    pub same_now : after.now ≡ before.now

  abbrev pub Keeps : Node Ip → Outcome (Node Ip) → Type 0
  Keeps node (returns after) = Same node after
  Keeps node _ = Unit {0}

  pub route_data-Keeps :
      (deliver : Deliver net) (data' : Archive) (destination source : Ip) (node : Node Ip)
      → ((n : Node Ip) → Keeps n (deliver data' n))
      → Keeps node (route_data net deliver data' destination source node)
  unfolding route_data forward_to_all
  route_data-Keeps deliver data' destination source node keeps =
      ground (arith, keeps node, keeps (transmit net (copies net data' source node.peers) node))

  send_by-Keeps :
      (deliver : Deliver net) (m : Message Ip) (destination : Ip) (to_self : Bool) (node : Node Ip)
      → ((data' : Archive) (n : Node Ip) → Keeps n (deliver data' n))
      → Keeps node (send_by net deliver m destination to_self node)
  unfolding send_by
  send_by-Keeps deliver m destination to_self node keeps =
      let data' = save_message net (addressed net m destination node) in
      ground (
        arith,
        route_data-Keeps deliver data' destination
            (if to_self then net.ipv6_unspecified else net.ipv6_loopback) node (keeps data'),
      )

  receive-Keeps :
      (deliver : Deliver net) (how : Intake) (m : Message Ip) (node : Node Ip)
      → ((data' : Archive) (n : Node Ip) → Keeps n (deliver data' n))
      → Keeps node (receive net deliver how m node)
  unfolding receive
  receive-Keeps deliver how m node keeps =
      ground (arith, send_by-Keeps deliver (resend_of net m) m.sender_node true node keeps)

  load_and_receive-Keeps :
      (deliver : Deliver net) (how : Option Intake) (data' : Archive) (node : Node Ip)
      → ((data' : Archive) (n : Node Ip) → Keeps n (deliver data' n))
      → Keeps node (load_and_receive net deliver how data' node)
  unfolding load_and_receive
  load_and_receive-Keeps deliver none data' node keeps = tt
  load_and_receive-Keeps deliver (some how) data' node keeps =
      elim (Option-cases (load_message net how.class data')) [
        | inl missing ↦ rw (missing, load_and_receive) tt
        | inr ((m, rest), found) ↦
            rw (found, load_and_receive) (receive-Keeps deliver how m node keeps)
      ]

  pub deserialize_message-Keeps :
      (depth : ℕ) (data' : Archive) (node : Node Ip)
      → Keeps node (deserialize_message net depth data' node)
  unfolding deserialize_message
  deserialize_message-Keeps zero data' node = tt
  deserialize_message-Keeps (suc depth) [] node = tt
  deserialize_message-Keeps (suc depth) (octet code ∷ data') node =
      load_and_receive-Keeps (deserialize_message net depth) (intake_of (type_of_code code))
        (octet code ∷ data') node (deserialize_message-Keeps depth)
  deserialize_message-Keeps (suc depth) (number n ∷ data') node = tt
  deserialize_message-Keeps (suc depth) (bytes n ∷ data') node = tt
  deserialize_message-Keeps (suc depth) (text n ∷ data') node = tt
  deserialize_message-Keeps (suc depth) (count n ∷ data') node = tt

  -- What PeerManager::send leaves alone: files, folders, progress in connecting, and the time.
  pub send-Keeps :
      (m : Message Ip) (destination : Ip) (to_self : Bool) (node : Node Ip)
      → Keeps node (send net m destination to_self node)
  unfolding send
  send-Keeps m destination to_self node =
      send_by-Keeps (deserialize_message net 2) m destination to_self node
        (deserialize_message-Keeps 2)
