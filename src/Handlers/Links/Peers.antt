-- ===== src/Handlers/Links/Peers.antt =====
-- What the loss of a peer does to the peers, the backups and the gateway.
use cpe400_peer_2_peer_file.Base.{
  ℕ, true, false, not, ◌&&◌, List, [], ◌∷◌, ◌++◌, none, some, Eq, ◌==◌, ◌≡◌, if◌then◌else◌, refl,
  ap, ◌∙◌, map, ◌≢◌, ◌⊎◌, arith, All, select,
}
use cpe400_peer_2_peer_file.Platform.{Platform}
use cpe400_peer_2_peer_file.Connection.Slots.{without_last}
use cpe400_peer_2_peer_file.Node.{Node, Peer}
use cpe400_peer_2_peer_file.Handlers.Links.{
  shift_down, insert_front, erase_peer, has_peer, pick_backup, unlink, erase_backups,
}

module _ {Ip : Type 0} where
  abbrev pub sockets : List (Peer Ip) → List (Ip × ℕ)
  sockets = map (λ peer. peer.socket)

  -- The addresses that the peers answer.
  abbrev pub answers : List (Peer Ip) → List Ip
  answers = map (λ peer. peer.remote_ip)

  abbrev pub last_of : List (Ip × ℕ) → Ip → Ip
  last_of [] default = default
  last_of ((ip, port) ∷ rest) default = last_of rest ip

  shift_down-sockets :
      (peer : Peer Ip) (rest : List (Peer Ip)) → sockets (shift_down (peer ∷ rest)) ≡ sockets rest
  unfolding shift_down
  shift_down-sockets peer [] = refl
  shift_down-sockets peer (next ∷ rest) = ap (◌∷◌ next.socket) (shift_down-sockets next rest)

  shift_down-answers :
      (peers : List (Peer Ip)) → answers (shift_down peers) ≡ without_last (answers peers)
  unfolding shift_down
  shift_down-answers [] = refl
  shift_down-answers (peer ∷ []) = refl
  shift_down-answers (peer ∷ next ∷ rest) =
      ap (◌∷◌ peer.remote_ip) (shift_down-answers (next ∷ rest))

  insert_front-sockets :
      (socket : Ip × ℕ) (peers : List (Peer Ip))
      → sockets (insert_front socket peers) ≡ socket ∷ sockets peers
  unfolding insert_front
  insert_front-sockets socket [] = refl
  insert_front-sockets socket (peer ∷ rest) =
      ap (◌∷◌ socket) (insert_front-sockets peer.socket rest)

  insert_front-answers :
      (socket : Ip × ℕ) (peers : List (Peer Ip)) (default : Ip)
      → answers (insert_front socket peers)
        ≡ answers peers ++ last_of (sockets (insert_front socket peers)) default ∷ []
  unfolding insert_front
  insert_front-answers socket [] default = refl
  insert_front-answers socket (peer ∷ rest) default =
      ap (◌∷◌ peer.remote_ip) (insert_front-answers peer.socket rest socket.0)

module _ {Ip : Type 0} ⦃ip_eq : Eq Ip⦄ (net : Platform Ip) where
  abbrev pub without : Ip → List (Ip × ℕ) → List (Ip × ℕ)
  without a = select (λ b. not (b.0 == a))

  -- No two neighbours in the list are both at the address.
  abbrev pub Apart : Ip → List (Ip × ℕ) → Type 0
  Apart a [] = Unit {0}
  Apart a (b ∷ []) = Unit {0}
  Apart a (b ∷ c ∷ rest) = ((b.0 ≢ a) ⊎ (c.0 ≢ a)) × Apart a (c ∷ rest)

  Apart-tail : (a : Ip) (b : Ip × ℕ) (rest : List (Ip × ℕ)) → Apart a (b ∷ rest) → Apart a rest
  Apart-tail a b [] h = tt
  Apart-tail a b (c ∷ rest) h = h.1

  -- The backups at the address of a node that left are erased, and no others, if no two of them stand
  -- next to one another.
  pub erase_backups-without :
      (a : Ip) (backups : List (Ip × ℕ))
      → Apart a backups
      → erase_backups net a backups ≡ without a backups
  unfolding erase_backups
  erase_backups-without a [] h = refl
  erase_backups-without a (b ∷ []) h = ground arith
  erase_backups-without a (b ∷ c ∷ rest) h = ground (
    arith,
    erase_backups-without a (c ∷ rest) h.1,
    erase_backups-without a rest (Apart-tail a c rest h.1),
  )

  -- Of two backups at that address that stand next to one another at the front, the second stays.
  pub erase_backups_adjacent :
      (a : Ip) (port port' : ℕ) (rest : List (Ip × ℕ))
      → erase_backups net a ((a, port) ∷ (a, port') ∷ rest) ≡ (a, port') ∷ erase_backups net a rest
  unfolding erase_backups
  erase_backups_adjacent a port port' rest = ground arith

  -- A backup that the loop tries and passes over.
  abbrev pub IsUseless : Ip × ℕ → Type 0
  IsUseless b = (net.is_valid b.0 && net.reachable b.0 b.1) ≡ false

  pick_backup-first :
      (before : List (Ip × ℕ)) (ip : Ip) (port : ℕ) (after : List (Ip × ℕ))
      → All IsUseless before
      → (net.is_valid ip && net.reachable ip port) ≡ true
      → pick_backup net (before ++ (ip, port) ∷ after) ≡ some ((ip, port), before ++ after)
  unfolding pick_backup
  pick_backup-first [] ip port after h good = rw good
  pick_backup-first (b ∷ before) ip port after h good =
      rw (h.0, pick_backup-first before ip port after h.1 good)

  pick_backup-none :
      (backups : List (Ip × ℕ)) → All IsUseless backups → pick_backup net backups ≡ none
  unfolding pick_backup
  pick_backup-none [] h = refl
  pick_backup-none (b ∷ rest) h = rw (h.0, pick_backup-none rest h.1)

  -- The sockets without that of the first peer that answers an address.
  abbrev pub sockets_without : Ip → List (Peer Ip) → List (Ip × ℕ)
  sockets_without a [] = []
  sockets_without a (peer ∷ rest) =
      if peer.remote_ip == a then sockets rest else peer.socket ∷ sockets_without a rest

  erase_peer-sockets :
      (a : Ip) (peers : List (Peer Ip)) → sockets (erase_peer net a peers) ≡ sockets_without a peers
  unfolding erase_peer
  erase_peer-sockets a [] = refl
  erase_peer-sockets a (peer ∷ rest) =
      ground (arith, shift_down-sockets peer rest, erase_peer-sockets a rest)

  erase_peer-answers :
      (a : Ip) (peers : List (Peer Ip))
      → has_peer net a peers ≡ true
      → answers (erase_peer net a peers) ≡ without_last (answers peers)
  unfolding erase_peer
  erase_peer-answers a [] h = cc
  erase_peer-answers a (peer ∷ []) h = ground (arith, shift_down-answers (peer ∷ []))
  erase_peer-answers a (peer ∷ next ∷ rest) h =
      ground (arith, shift_down-answers (peer ∷ next ∷ rest), erase_peer-answers a (next ∷ rest))

  -- The loss of a peer that is not the gateway: the socket of the first peer that answers its address
  -- goes, and the other sockets stay in their order. But of the addresses that the peers answer the
  -- last one goes, whichever peer is lost. Nothing else of the node changes.
  pub unlink_other :
      (removed : Ip) (node : Node Ip)
      → has_peer net removed node.peers ≡ true
      → removed ≢ node.gateway_ip
      → (peers : List (Peer Ip)) × (unlink net removed node ≡ record node { peers = peers })
        × (sockets peers ≡ sockets_without removed node.peers)
        × (answers peers ≡ without_last (answers node.peers))
  unfolding unlink
  unlink_other removed node there other = (
    erase_peer net removed node.peers,
    ground arith,
    erase_peer-sockets removed node.peers,
    erase_peer-answers removed node.peers there,
  )

  -- The loss of the gateway, when one of the backups is valid and can be connected to. The first such
  -- backup becomes the gateway, is no backup any more, and its socket stands first, before those of
  -- the remaining peers. But the addresses that the peers answer do not move with the sockets: all
  -- but the last peer of before answer what they answered, in their places, and the last peer of now
  -- answers the address of its socket. Nothing else of the node changes.
  pub unlink_gateway :
      (node : Node Ip) (before : List (Ip × ℕ)) (ip : Ip) (port : ℕ) (after : List (Ip × ℕ))
      → has_peer net node.gateway_ip node.peers ≡ true
      → node.backup_peers ≡ before ++ (ip, port) ∷ after
      → All IsUseless before
      → (net.is_valid ip && net.reachable ip port) ≡ true
      → (peers : List (Peer Ip)) × (unlink net node.gateway_ip node
          ≡ record node { gateway_ip = ip; peers = peers; backup_peers = before ++ after })
        × (sockets peers ≡ (ip, port) ∷ sockets_without node.gateway_ip node.peers)
        × (answers peers ≡ without_last (answers node.peers) ++ (last_of (sockets peers) ip) ∷ [])
  unfolding unlink
  unlink_gateway node before ip port after there e useless good =
      let left = erase_peer net node.gateway_ip node.peers in
      (
        insert_front (ip, port) left,
        ground (arith, e, pick_backup-first before ip port after useless good),
        insert_front-sockets (ip, port) left
            ∙ ap (λ rest. (ip, port) ∷ rest) (erase_peer-sockets node.gateway_ip node.peers),
        insert_front-answers (ip, port) left ip
            ∙ ap (λ front. front ++ last_of (sockets (insert_front (ip, port) left)) ip ∷ [])
                (erase_peer-answers node.gateway_ip node.peers there),
      )

  -- The loss of the gateway when no backup is of use: there is no gateway, and the backups stay.
  unlink_isolated :
      (node : Node Ip)
      → All IsUseless node.backup_peers
      → unlink net node.gateway_ip node ≡ record node {
        gateway_ip = net.ipv6_unspecified;
        peers = erase_peer net node.gateway_ip node.peers;
      }
  unfolding unlink
  unlink_isolated node useless = ground (arith, pick_backup-none node.backup_peers useless)
