-- ===== src/Accept/Welcome.antt =====
-- What the peers that connect are told, and what the node asks for them.
use cpe400_peer_2_peer_file.Base.{
  true, false, List, [], ◌∷◌, ◌++◌, Eq, ◌≡◌, refl, sym, ap, ◌∙◌, ◌≢◌, All, append_assoc, append-nil,
  arith,
}
use cpe400_peer_2_peer_file.Base.Outcome.{returns}
use cpe400_peer_2_peer_file.Platform.{Platform}
use cpe400_peer_2_peer_file.Messages.{Message}
use cpe400_peer_2_peer_file.Messages.Archive.{Archive}
use cpe400_peer_2_peer_file.Messages.Wire.{save_message}
use cpe400_peer_2_peer_file.Node.{Node, Peer, enqueue}
use cpe400_peer_2_peer_file.Routing.{
  is_this_node, has_link, transmit, addressed, disconnect_priority,
}
use cpe400_peer_2_peer_file.Routing.Laws.{remembered, send_linked}
use cpe400_peer_2_peer_file.Accept.{
  backups_of, connect_message, sync_request, accept_connection, Poll, poll_failed, not_ready,
  accept_failed, accepted, listen, run_listener,
}

module _ {Ip : Type 0} ⦃ip_eq : Eq Ip⦄ (net : Platform Ip) where
  -- Another node's address.
  abbrev pub IsRemote : Node Ip → Ip → Type 0
  IsRemote node ip =
      (ip ≢ net.ipv6_unspecified) × (ip ≢ net.ipv4_unspecified) × (is_this_node net ip node ≡ false)

  -- A node with one more peer.
  abbrev with_peer : Peer Ip → Node Ip → Node Ip
  with_peer peer node = record node { peers = node.peers ++ peer ∷ [] }

  -- What a new peer is told: the addresses of the peers before it, and the folders.
  abbrev pub welcome : List (Peer Ip) → Peer Ip → Node Ip → Message Ip
  welcome earlier peer node =
      addressed net (connect_message net (backups_of net earlier) node.folders) peer.remote_ip node

  has_link-append :
      (peer : Peer Ip) (peers : List (Peer Ip))
      → has_link net peer.remote_ip (peers ++ peer ∷ []) ≡ true
  has_link-append peer [] = ground arith
  has_link-append peer (p ∷ peers) = ground (arith, has_link-append peer peers)

  -- A connection from another node adds a peer, tells it of those before it, and queues a request to
  -- send it all files.
  abbrev welcomed : Peer Ip → Node Ip → Node Ip
  welcomed peer node =
      let msg = welcome node.peers peer node in
      enqueue disconnect_priority (sync_request net peer.remote_ip) (
        remembered net msg
          (transmit net ((peer.remote_ip, save_message net msg) ∷ []) (with_peer peer node)))

  accept_connection_welcomes :
      (peer : Peer Ip) (node : Node Ip)
      → IsRemote node peer.remote_ip
      → accept_connection net peer node ≡ returns (welcomed peer node)
  unfolding accept_connection
  accept_connection_welcomes peer node (h6, h4, other) =
      rw
        (send_linked net (connect_message net (backups_of net node.peers) node.folders)
          peer.remote_ip true (with_peer peer node) h6 h4 other (has_link-append peer node.peers))
        refl

  abbrev pub connections : List (Poll net) → List (Peer Ip)
  connections [] = []
  connections (poll_failed ∷ polls) = connections polls
  connections (not_ready ∷ polls) = connections polls
  connections (accept_failed ∷ polls) = connections polls
  connections (accepted peer ∷ polls) = peer ∷ connections polls

  -- Nothing fails, and who connects is another node.
  abbrev pub IsGood : Node Ip → Poll net → Type 0
  IsGood node poll_failed = ⊥
  IsGood node not_ready = Unit
  IsGood node accept_failed = ⊥
  IsGood node (accepted peer) = IsRemote node peer.remote_ip

  IsGood-welcomed :
      (peer : Peer Ip) (node : Node Ip) (polls : List (Poll net))
      → All (IsGood node) polls
      → All (IsGood (welcomed peer node)) polls
  IsGood-welcomed peer node [] h = h
  IsGood-welcomed peer node (poll_failed ∷ polls) h = absurd h.0
  IsGood-welcomed peer node (not_ready ∷ polls) h = (tt, IsGood-welcomed peer node polls h.1)
  IsGood-welcomed peer node (accept_failed ∷ polls) h = absurd h.0
  IsGood-welcomed peer node (accepted other ∷ polls) h = (h.0, IsGood-welcomed peer node polls h.1)

  -- One frame for each new peer, after some earlier ones.
  abbrev pub welcomes : List (Peer Ip) → List (Peer Ip) → Node Ip → List (Ip × Archive)
  welcomes earlier [] node = []
  welcomes earlier (peer ∷ rest) node =
      (peer.remote_ip, save_message net (welcome earlier peer node))
      ∷ welcomes (earlier ++ peer ∷ []) rest node

  welcomes-welcomed :
      (earlier rest : List (Peer Ip)) (peer : Peer Ip) (node : Node Ip)
      → welcomes earlier rest (welcomed peer node) ≡ welcomes earlier rest node
  welcomes-welcomed earlier [] peer node = refl
  welcomes-welcomed earlier (p ∷ rest) peer node =
      ap (◌∷◌ (p.remote_ip, save_message net (welcome earlier p node)))
        (welcomes-welcomed (earlier ++ p ∷ []) rest peer node)

  -- The thread adds the new peers to the others in their order, and sends each one message, which has
  -- the addresses of the peers before it; the files of the node stay.
  abbrev pub Welcomes : List (Poll net) → Node Ip → Type 0
  Welcomes polls node =
      (node' : Node Ip) × (run_listener net true true true polls node ≡ returns node')
      × (node'.peers ≡ node.peers ++ connections polls)
      × (node'.sent ≡ node.sent ++ welcomes node.peers (connections polls) node)
      × (node'.disk ≡ node.disk)

  -- If nothing fails, and all who connect are other nodes, the listening thread adds them to the
  -- peers in their order, and sends each one message, which has the addresses of the peers before it;
  -- the files of the node stay.
  pub listen-Welcomes :
      (polls : List (Poll net)) (node : Node Ip) → All (IsGood node) polls → Welcomes polls node
  unfolding run_listener listen
  listen-Welcomes [] node h =
      (node, refl, sym (append-nil node.peers), sym (append-nil node.sent), refl)
  listen-Welcomes (poll_failed ∷ polls) node h = absurd h.0
  listen-Welcomes (not_ready ∷ polls) node h = listen-Welcomes polls node h.1
  listen-Welcomes (accept_failed ∷ polls) node h = absurd h.0
  listen-Welcomes (accepted peer ∷ polls) node h =
      let (node', runs, peers, sent, disk) =
        listen-Welcomes polls (welcomed peer node) (IsGood-welcomed peer node polls h.1) in
      let all = connections polls in
      (
        node',
        rw (accept_connection_welcomes peer node h.0) runs,
        peers ∙ append_assoc node.peers (peer ∷ []) all,
        sent
            ∙ ground (
              arith,
              welcomes-welcomed (node.peers ++ peer ∷ []) all peer node,
              append_assoc node.sent
                  ((peer.remote_ip, save_message net (welcome node.peers peer node)) ∷ [])
                  (welcomes (node.peers ++ peer ∷ []) all node),
            ),
        disk,
      )
