-- ===== src/Handlers/Links.antt =====
-- processResendRequestMessage, processLinkLostMessage and processDisconnectMessage
-- (message_manager.cpp).
pub mod Peers
use cpe400_peer_2_peer_file.Base.{
  ℕ, Bool, true, false, not, ◌&&◌, List, [], ◌∷◌, Option, none, some, Eq, ◌==◌, eqb, if◌then◌else◌,
}
use cpe400_peer_2_peer_file.Base.Outcome.{
  Outcome, returns, throws, undefined, unrecognized_type, ◌>>=◌,
}
use cpe400_peer_2_peer_file.Paths.{FilePath}
use cpe400_peer_2_peer_file.Platform.{Platform}
use cpe400_peer_2_peer_file.Messages.{
  MessageType, invalid, resend_request, unlock, disconnect, unknown, plain_body, file_body, fits,
  Message,
}
use cpe400_peer_2_peer_file.Disk.{enumerate_all_files}
use cpe400_peer_2_peer_file.Node.{Node, Peer, fresh_peer, is_finished_connecting}
use cpe400_peer_2_peer_file.Routing.{send}
use cpe400_peer_2_peer_file.Handlers.Files.{Handled}

-- The types with a case in the switch of processResendRequestMessage.
abbrev pub is_resendable : MessageType → Bool
is_resendable invalid = false
is_resendable resend_request = false
is_resendable (unknown n) = false
is_resendable _ = true

module _ {Ip : Type 0} where
  -- The first old message with a hash.
  unfoldable pub find_old : ℕ → List (Message Ip) → Option (Message Ip)
  find_old requested [] = none
  find_old requested (m ∷ rest) =
      if eqb m.message_hash requested then some m else find_old requested rest

  -- vector::erase from the front: each peer is assigned the next one, and the last one goes. The
  -- assignment moves the socket, and leaves the cached address and port where they are.
  unfoldable pub shift_down : List (Peer Ip) → List (Peer Ip)
  shift_down [] = []
  shift_down (peer ∷ []) = []
  shift_down (peer ∷ next ∷ rest) = record peer { socket = next.socket } ∷ shift_down (next ∷ rest)

  -- vector::insert at the front, where there is room, as after an erasure: the last peer is
  -- constructed anew, with no cached address, and all others are assigned.
  unfoldable pub insert_front : Ip × ℕ → List (Peer Ip) → List (Peer Ip)
  insert_front socket [] = fresh_peer socket ∷ []
  insert_front socket (peer ∷ rest) =
      record peer { socket = socket } ∷ insert_front peer.socket rest

module _ {Ip : Type 0} ⦃ip_eq : Eq Ip⦄ (net : Platform Ip) where
  unfoldable pub resend_found : Option (Message Ip) → Ip → Node Ip → Handled Ip
  resend_found none destination node = returns (true, node)
  resend_found (some m) destination node =
      if not (is_resendable m.type)
      then throws unrecognized_type
      else if not (fits m.type m.body)
      then undefined
      else (send net m destination true node >>= λ node'. returns (true, node'))

  -- processResendRequestMessage
  unfoldable pub process_resend_request_message : Message Ip → ℕ → Ip → Node Ip → Handled Ip
  unfolding resend_found
  process_resend_request_message request requested_hash original_destination node =
      if request.originator_node == node.ip
      then returns (true, node)
      else resend_found (find_old requested_hash node.old_messages) original_destination node

  -- The first peer that answers an address is erased from the vector.
  unfoldable pub erase_peer : Ip → List (Peer Ip) → List (Peer Ip)
  erase_peer a [] = []
  erase_peer a (peer ∷ rest) =
      let later = erase_peer a rest in
      if peer.remote_ip == a then shift_down (peer ∷ rest) else peer ∷ later

  abbrev pub has_peer : Ip → List (Peer Ip) → Bool
  has_peer a [] = false
  has_peer a (peer ∷ rest) = if peer.remote_ip == a then true else has_peer a rest

  -- The first backup that is valid and can be connected to, and the backups without it.
  unfoldable pub pick_backup : List (Ip × ℕ) → Option ((Ip × ℕ) × List (Ip × ℕ))
  pick_backup [] = none
  pick_backup ((ip, port) ∷ rest) =
      let later = pick_backup rest in
      if net.is_valid ip && net.reachable ip port
      then some ((ip, port), rest)
      else elim later [ none ↦ none | some (chosen, others) ↦ some (chosen, (ip, port) ∷ others) ]

  -- The loss of the gateway: a backup takes its place, with its socket at the front of the peers.
  replace_gateway : Node Ip → Node Ip
  replace_gateway node = elim (pick_backup node.backup_peers) [
    | none ↦ record node { gateway_ip = net.ipv6_unspecified }
    | some ((ip, port), others) ↦ record node {
      gateway_ip = ip;
      peers = insert_front (ip, port) node.peers;
      backup_peers = others;
    }
  ]

  abbrev pub disconnect_message : Ip → Message Ip
  disconnect_message removed = record {
    type = disconnect;
    receiver_node = net.ipv6_unspecified;
    sender_node = net.ipv6_unspecified;
    originator_node = removed;
    message_hash = 0;
    body = plain_body;
  }

  -- The part of processLinkLostMessage under the write lock.
  unfoldable pub unlink : Ip → Node Ip → Node Ip
  unfolding replace_gateway
  unlink removed node =
      let node' = record node { peers = erase_peer removed node.peers } in
      if removed == node.gateway_ip then replace_gateway node' else node'

  -- processLinkLostMessage
  unfoldable pub process_link_lost_message : Message Ip → Node Ip → Handled Ip
  process_link_lost_message m node =
      if not (has_peer m.originator_node node.peers)
      then returns (true, node)
      else if net.is_valid m.originator_node
      then (send net (disconnect_message m.originator_node) net.ipv6_unspecified true
            (unlink m.originator_node node)
          >>= λ node'. returns (true, node'))
      else returns (true, unlink m.originator_node node)

  -- The loop over the backups: after an erasure the index goes on, past the element that moved up.
  unfoldable pub erase_backups : Ip → List (Ip × ℕ) → List (Ip × ℕ)
  erase_backups a [] = []
  erase_backups a (b ∷ []) = if b.0 == a then [] else b ∷ []
  erase_backups a (b ∷ c ∷ rest) =
      let hit = c ∷ erase_backups a rest in
      let miss = b ∷ erase_backups a (c ∷ rest) in if b.0 == a then hit else miss

  -- The unlock on behalf of the node that left. Its time stamp is never set: it is the epoch.
  abbrev pub unlock_message : FilePath → Ip → Message Ip
  unlock_message path originator = record {
    type = unlock;
    receiver_node = net.ipv6_unspecified;
    sender_node = net.ipv6_unspecified;
    originator_node = originator;
    message_hash = 0;
    body = file_body path 0;
  }

  unfoldable pub unlock_all : List FilePath → Ip → Node Ip → Outcome (Node Ip)
  unlock_all [] originator node = returns node
  unlock_all (path ∷ paths) originator node =
      send net (unlock_message path originator) net.ipv6_loopback true node >>= λ node'.
      unlock_all paths originator node'

  -- processDisconnectMessage
  unfoldable pub process_disconnect_message : Message Ip → Node Ip → Handled Ip
  unfolding unlock_all
  process_disconnect_message m node =
      if not (is_finished_connecting node)
      then returns (false, node)
      else (let node' = record node {
        backup_peers = erase_backups m.originator_node node.backup_peers;
      } in
          enumerate_all_files node'.folders node'.disk >>= λ paths.
          unlock_all paths m.originator_node node' >>= λ node''. returns (true, node''))
