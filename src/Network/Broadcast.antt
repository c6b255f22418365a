-- ===== src/Network/Broadcast.antt =====
-- A broadcast from one node of a tree reaches each of the others.
use cpe400_peer_2_peer_file.Base.{
  ℕ, ◌+◌, ◌≤◌, true, List, [], ◌∷◌, ◌++◌, map, Eq, ◌==◌, eqb, if◌then◌else◌, ◌≡◌, refl, sym, ap,
  ◌∙◌, arith, append-nil,
}
use cpe400_peer_2_peer_file.Base.Outcome.{returns}
use cpe400_peer_2_peer_file.Platform.{Platform, IsLawful}
use cpe400_peer_2_peer_file.Messages.{Message}
use cpe400_peer_2_peer_file.Messages.Archive.{Archive}
use cpe400_peer_2_peer_file.Messages.Wire.{class_of_body, save_message, received}
use cpe400_peer_2_peer_file.Node.{Node, Peer, Prio, enqueue}
use cpe400_peer_2_peer_file.Routing.{Intake, transmit, addressed, send}
use cpe400_peer_2_peer_file.Routing.Laws.{frames, remembered, CanBroadcast, send_broadcast}
use cpe400_peer_2_peer_file.Network.{Nodes, put, frames_of, run}
use cpe400_peer_2_peer_file.Network.Trees.{
  Forest, bare, tree, roots, size, IsWired, frames_to, entries, HasQueued, HasQueued-append,
  IsWired-same, IsTaken, entry, forest-Spreads,
}

module _ {Ip : Type 0} ⦃ip_eq : Eq Ip⦄ where
  -- How often an address occurs.
  abbrev pub occurrences : Ip → Forest Ip → ℕ
  occurrences b bare = 0
  occurrences b (tree a children siblings) =
      (if b == a then 1 else 0) + (occurrences b children + occurrences b siblings)

  entries_once :
      (net : Platform Ip) (e : Prio Ip) (b : Ip) (forest : Forest Ip)
      → occurrences b forest ≤ 1
      → entries net e b forest ≡ (if eqb (occurrences b forest) 0 then [] else e ∷ [])
  entries_once net e b bare h = refl
  entries_once net e b (tree a children siblings) h = ground (
    arith,
    h,
    entries_once net e b children (omega (arith, h)),
    entries_once net e b siblings (omega (arith, h)),
  )

module _ {Ip : Type 0} ⦃ip_eq : Eq Ip⦄ (net : Platform Ip) (law : IsLawful net) where
  -- The network is a tree with the node at an address as its root: its peers, and those of the others
  -- but for the one at the parent, are at the addresses of the children.
  abbrev pub IsTree : Nodes net → Ip → Forest Ip → Type 0
  IsTree nodes source forest =
      (map (λ peer. peer.remote_ip) (nodes source).peers ≡ roots forest)
      × IsWired net nodes source forest

  -- The message is sent, and wherever it arrives it is passed on, until no more arrives. Then each node
  -- of the tree has queued it once, and no other node has.
  abbrev pub Reaches : Message Ip → Intake → Nodes net → Ip → Forest Ip → ℕ → Type 0
  Reaches m how nodes source forest fuel =
      let msg = addressed net m net.ipv6_unspecified (nodes source) in
      (sender : Node Ip) × (send net m net.ipv6_unspecified true (nodes source) ≡ returns sender)
      × (nodes' : Nodes net) × (run net (size forest + fuel) (frames_of net source sender.sent)
            (put net source sender nodes)
          ≡ returns nodes')
      × ((b : Ip)
          → (nodes' b).message_queue
            ≡ (nodes b).message_queue
              ++ (if eqb (occurrences b (tree source forest bare)) 0
                  then []
                  else entry net law msg how ∷ []))

  frames_of-frames :
      (source : Ip) (data' : Archive) (peers : List (Peer Ip))
      → frames_of net source (frames net data' peers)
        ≡ frames_to net source data' (map (λ peer. peer.remote_ip) peers)
  frames_of-frames source data' [] = refl
  frames_of-frames source data' (peer ∷ peers) =
      ap (◌∷◌ (record { from_ip = source; to_ip = peer.remote_ip; data' = data' }))
        (frames_of-frames source data' peers)

  pub frames_of-sent :
      (source : Ip) (data' : Archive) (sent : List (Ip × Archive)) (peers : List (Peer Ip))
      (addresses : List Ip)
      → sent ≡ []
      → map (λ peer. peer.remote_ip) peers ≡ addresses
      → frames_of net source (sent ++ frames net data' peers)
        ≡ frames_to net source data' addresses ++ []
  frames_of-sent source data' sent peers addresses fresh wired = rw fresh (
      frames_of-frames source data' peers
      ∙ ap (frames_to net source data') wired
      ∙ sym (append-nil (frames_to net source data' addresses)))

  pub put-sender :
      (e : Prio Ip) (source : Ip) (nodes : Nodes net) (sender : Node Ip) (b : Ip)
      → HasQueued net (e ∷ []) (nodes source) sender
      → HasQueued net (if b == source then e ∷ [] else []) (nodes b) (put net source sender nodes b)
  put-sender e source nodes sender b h = ground (arith, append-nil (nodes b).message_queue, h)

  -- In a network of nodes at different addresses, whose links are a tree with the sender as its root,
  -- a broadcast of a message of an accepted type, with the members of its class, whose hash is found
  -- right and whose data is no shorter than a Message object, from a node that can broadcast and has
  -- written nothing yet: when all frames have arrived, for which as many arrivals as there are other
  -- nodes are enough, each node of the tree has queued it exactly once, and no other node has.
  broadcast-Reaches :
      (m : Message Ip) (how : Intake) (nodes : Nodes net) (source : Ip) (forest : Forest Ip)
      (fuel : ℕ)
      → CanBroadcast net (nodes source)
      → (nodes source).sent ≡ []
      → class_of_body m.body ≡ how.class
      → IsTaken net law (addressed net m net.ipv6_unspecified (nodes source)) how
      → IsTree nodes source forest
      → ((b : Ip) → occurrences b (tree source forest bare) ≤ 1)
      → Reaches m how nodes source forest fuel
  unfolding run
  broadcast-Reaches m how nodes source forest fuel can fresh same taken wired apart =
      let msg = addressed net m net.ipv6_unspecified (nodes source) in
      let data' = save_message net msg in
      let e = entry net law msg how in
      let sender = remembered net msg (
        enqueue how.priority (received net msg)
          (transmit net (frames net data' (nodes source).peers) (nodes source))) in
      let start = put net source sender nodes in
      let first : (b : Ip)
          → HasQueued net (if b == source then e ∷ [] else []) (nodes b) (start b) =
        λ b. put-sender e source nodes sender b (refl, (refl, refl)) in
      let (nodes', runs, then_queued) =
        forest-Spreads net law msg how forest source fuel [] start taken
          (IsWired-same net nodes start source forest (λ b. (_, first b)) wired.1) in
      (
        sender,
        send_broadcast net law m how (nodes source) taken.0 same can taken.1.1.0,
        nodes',
        ap (λ frames. run net (size forest + fuel) frames start)
              (frames_of-sent source data' (nodes source).sent (nodes source).peers (roots forest)
                fresh wired.0)
            ∙ runs,
        λ b.
            (HasQueued-append net _ _ (nodes b) (start b) (nodes' b) (first b) (then_queued b)).0
            ∙ ap (λ new. (nodes b).message_queue ++ ((if b == source then e ∷ [] else []) ++ new))
                (sym (append-nil (entries net e b forest)))
            ∙ ap (λ new. (nodes b).message_queue ++ new)
                (entries_once net e b (tree source forest bare) (apart b)),
      )
