-- ===== src/Network/AnyOrder.antt =====
-- A broadcast from one node of a tree, whose frames arrive in any order.
use cpe400_peer_2_peer_file.Base.{
  ℕ, ◌≤◌, Bool, true, false, List, [], ◌∷◌, ◌++◌, map, Eq, ◌==◌, if◌then◌else◌, ◌≡◌, refl, sym, ap,
  ◌∙◌, subst, arith, append-nil, ◌⊎◌, inl, inr, ◌+◌, suc,
}
use cpe400_peer_2_peer_file.Base.Outcome.{returns}
use cpe400_peer_2_peer_file.Platform.{Platform, IsLawful}
use cpe400_peer_2_peer_file.Messages.{Message}
use cpe400_peer_2_peer_file.Messages.Wire.{class_of_body, save_message, received}
use cpe400_peer_2_peer_file.Disk.{Disk}
use cpe400_peer_2_peer_file.Node.{Node, Prio, enqueue}
use cpe400_peer_2_peer_file.Routing.{Intake, transmit, addressed, send}
use cpe400_peer_2_peer_file.Routing.Laws.{frames, remembered, CanBroadcast, send_broadcast}
use cpe400_peer_2_peer_file.Network.{Nodes, put, frames_of}
use cpe400_peer_2_peer_file.Network.Trees.{
  Forest, bare, tree, roots, size, HasQueued, IsWired-same, IsTaken, entry, frames_to,
}
use cpe400_peer_2_peer_file.Network.Broadcast.{IsTree, occurrences, frames_of-sent, put-sender}
use cpe400_peer_2_peer_file.Network.Branches.{
  Branch, frame_of, weight, outstanding, branches, weight-branches, outstanding-branches,
  map-branches, branches-IsReady,
}
use cpe400_peer_2_peer_file.Network.Arrivals.{Traffic, Reach}
use cpe400_peer_2_peer_file.Network.Reaching.{repeat, Inv}
use cpe400_peer_2_peer_file.Network.Orders.{Reach-Inv, rest-Reach}

module _ {Ip : Type 0} ⦃ip_eq : Eq Ip⦄ (net : Platform Ip) where
  -- The traffic after a node sent a message.
  abbrev pub begun : Nodes net → Ip → Node Ip → Traffic net
  begun nodes source sender = record {
    nodes = put net source sender nodes;
    flight = frames_of net source sender.sent;
  }

  repeat-flag :
      (test : Bool) (e : Prio Ip) → (if test then e ∷ [] else []) ≡ repeat (if test then 1 else 0) e
  repeat-flag true e = refl
  repeat-flag false e = refl

module _ {Ip : Type 0} ⦃ip_eq : Eq Ip⦄ (net : Platform Ip) (law : IsLawful net) where
  -- Also where the sender writes to its disk.
  pub begun-Inv :
      (m : Message Ip) (how : Intake) (nodes : Nodes net) (source : Ip) (forest : Forest Ip)
      (disk' : Disk Ip)
      → (nodes source).sent ≡ []
      → IsTree net law nodes source forest
      → let msg = addressed net m net.ipv6_unspecified (nodes source) in
        Inv net law msg how nodes
          (λ b. occurrences b (tree source forest bare))
          (size forest)
          0
          (begun net nodes source
            (record (remembered net msg (
              enqueue how.priority (received net msg) (
                transmit net
                  (frames net (save_message net msg) (nodes source).peers)
                  (nodes source)))) { disk = disk' }))
  begun-Inv m how nodes source forest disk' fresh wired =
      let msg = addressed net m net.ipv6_unspecified (nodes source) in
      let data' = save_message net msg in
      let e = entry net law msg how in
      let sender =
        record (remembered net msg (
          enqueue how.priority (received net msg)
            (transmit net (frames net data' (nodes source).peers) (nodes source)))) {
              disk = disk';
            } in
      let start = put net source sender nodes in
      let first : (b : Ip)
          → HasQueued net (if b == source then e ∷ [] else []) (nodes b) (start b) =
        λ b. put-sender net law e source nodes sender b (refl, (refl, refl)) in
      record {
        pending = branches source forest;
        on_way =
            frames_of-sent net law source data' (nodes source).sent (nodes source).peers
              (roots forest) fresh wired.0
            ∙ append-nil (frames_to net source data' (roots forest))
            ∙ sym (map-branches net data' source forest);
        ready =
            branches-IsReady net start source forest
              (IsWired-same net nodes start source forest (λ b. (_, first b)) wired.1);
        left = omega (arith, weight-branches source forest);
        counted = λ b. (
          if b == source then 1 else 0,
          ground (arith, outstanding-branches b source forest),
          subst (λ new. HasQueued net new (nodes b) (start b)) (repeat-flag net (b == source) e)
              (first b),
        );
      }

  -- No node has queued the message more than once. Either no frame is on its way any more, all nodes
  -- but the sender were reached by one frame each, and exactly the nodes of the tree have queued it; or
  -- fewer frames have arrived, and the others can still arrive, each in its turn, until none is left.
  abbrev pub IsSpreading :
      Message Ip → Intake → Nodes net → Ip → Forest Ip → ℕ → Traffic net → Type 0
  IsSpreading m how nodes source forest n s =
      let e = entry net law (addressed net m net.ipv6_unspecified (nodes source)) how in
      ((b : Ip)
        → (k : ℕ) × (k ≤ 1) × ((s.nodes b).message_queue ≡ (nodes b).message_queue ++ repeat k e))
      × (((s.flight ≡ [])
            × (n ≡ size forest)
            × ((b : Ip)
                → (s.nodes b).message_queue
                  ≡ (nodes b).message_queue ++ repeat (occurrences b (tree source forest bare)) e))
          ⊎ ((rest : ℕ) × (n + suc rest ≡ size forest)
              × ((t : Traffic net) × Reach net s (suc rest) t × (t.flight ≡ []))))

  once :
      (m : Message Ip) (how : Intake) (nodes : Nodes net) (source : Ip) (forest : Forest Ip) (n : ℕ)
      (s : Traffic net)
      → ((b : Ip) → occurrences b (tree source forest bare) ≤ 1)
      → let msg = addressed net m net.ipv6_unspecified (nodes source) in
        Inv net law msg how nodes (λ b. occurrences b (tree source forest bare)) (size forest) n s
        → (b : Ip)
        → (k : ℕ) × (k ≤ 1)
          × ((s.nodes b).message_queue
              ≡ (nodes b).message_queue ++ repeat k (entry net law msg how))
  once m how nodes source forest n s apart inv b =
      let (k, sum, (queue, rest)) = inv.counted b in (k, omega (arith, sum, apart b), queue)

  pub Inv-IsSpreading :
      (m : Message Ip) (how : Intake) (nodes : Nodes net) (source : Ip) (forest : Forest Ip) (n : ℕ)
      (s : Traffic net) (pending : List (Branch Ip))
      → let msg = addressed net m net.ipv6_unspecified (nodes source) in
        IsTaken net law msg how
        → ((b : Ip) → occurrences b (tree source forest bare) ≤ 1)
        → (inv : Inv net law msg how nodes
            (λ b. occurrences b (tree source forest bare))
            (size forest)
            n
            s)
        → inv.pending ≡ pending
        → IsSpreading m how nodes source forest n s
  Inv-IsSpreading m how nodes source forest n s [] taken apart inv none_left =
      let e = entry net law (addressed net m net.ipv6_unspecified (nodes source)) how in
      (
        once m how nodes source forest n s apart inv,
        inl (
          inv.on_way ∙ ap (map (frame_of _)) none_left,
          omega (arith, inv.left, ap weight none_left),
          λ b.
              let (k, sum, (queue, rest)) = inv.counted b in
              queue
              ∙ ap (λ k. (nodes b).message_queue ++ repeat k e)
                  (omega (arith, sum, ap (outstanding b) none_left)),
        ),
      )
  Inv-IsSpreading m how nodes source forest n s (branch ∷ pending) taken apart inv more =
      let msg = addressed net m net.ipv6_unspecified (nodes source) in
      (
        once m how nodes source forest n s apart inv,
        inr (
          size branch.children + weight pending,
          omega (arith, inv.left, ap weight more),
          rest-Reach net law msg how nodes (λ b. occurrences b (tree source forest bare))
              (size forest) (suc (size branch.children + weight pending)) n s (branch ∷ pending) inv
              taken more refl,
        ),
      )

  -- In a network of nodes at different addresses, whose links are a tree with the sender as its
  -- root, a broadcast of a message of an accepted type, with the members of its class, whose hash
  -- is found right and whose data is no shorter than a Message object, from a node that can
  -- broadcast and has written nothing yet. After n of its frames have arrived, in any order: no
  -- node has queued it more than once; and either nothing is on its way, n is the number of the
  -- other nodes, and exactly the nodes of the tree have queued it, or n is less and as many frames
  -- as there are nodes left can arrive one after another, after which nothing is on its way.
  pub Reach-IsSpreading :
      (m : Message Ip) (how : Intake) (nodes : Nodes net) (source : Ip) (forest : Forest Ip)
      (sender : Node Ip) {n : ℕ} {s : Traffic net}
      → CanBroadcast net (nodes source)
      → (nodes source).sent ≡ []
      → class_of_body m.body ≡ how.class
      → IsTaken net law (addressed net m net.ipv6_unspecified (nodes source)) how
      → IsTree net law nodes source forest
      → ((b : Ip) → occurrences b (tree source forest bare) ≤ 1)
      → send net m net.ipv6_unspecified true (nodes source) ≡ returns sender
      → Reach net (begun net nodes source sender) n s
      → IsSpreading m how nodes source forest n s
  Reach-IsSpreading m how nodes source forest sender {n} {s} can fresh same taken wired apart sends
        reach =
      let msg = addressed net m net.ipv6_unspecified (nodes source) in
      let total = λ (b : Ip). occurrences b (tree source forest bare) in
      let is_sent = send_broadcast net law m how (nodes source) taken.0 same can taken.1.1.0 in
      let inv =
        Reach-Inv net law msg how nodes total (size forest) (begun net nodes source sender) taken
          (subst
            (λ node. Inv net law msg how nodes total (size forest) 0 (begun net nodes source node))
            (cc (sends, is_sent))
            (begun-Inv m how nodes source forest (nodes source).disk fresh wired))
          reach in
      Inv-IsSpreading m how nodes source forest n s inv.pending taken apart inv refl
