-- ===== src/Network/Landing.antt =====
-- What is left when the last frame of a broadcast has arrived.
use cpe400_peer_2_peer_file.Base.{
  sym, ℕ, List, [], ◌∷◌, ◌++◌, map, Eq, path_eq, ◌≡◌, ◌≢◌, refl, ap, ◌∙◌, subst, arith,
}
use cpe400_peer_2_peer_file.Platform.{Platform, IsLawful}
use cpe400_peer_2_peer_file.Messages.{Message}
use cpe400_peer_2_peer_file.Messages.Wire.{save_message, received}
use cpe400_peer_2_peer_file.Disk.{Disk}
use cpe400_peer_2_peer_file.Node.{Node, enqueue}
use cpe400_peer_2_peer_file.Routing.{Intake, transmit, addressed}
use cpe400_peer_2_peer_file.Routing.Keeps.{Same}
use cpe400_peer_2_peer_file.Routing.Laws.{frames, remembered}
use cpe400_peer_2_peer_file.Network.Unchanged.{Reach-Same}
use cpe400_peer_2_peer_file.Network.{Nodes, put}
use cpe400_peer_2_peer_file.Network.Trees.{Forest, bare, tree, size, IsTaken, entry}
use cpe400_peer_2_peer_file.Network.Broadcast.{IsTree, occurrences}
use cpe400_peer_2_peer_file.Network.Branches.{Branch, frame_of, outstanding}
use cpe400_peer_2_peer_file.Network.Arrivals.{Traffic, Reach}
use cpe400_peer_2_peer_file.Network.Reaching.{repeat, Inv}
use cpe400_peer_2_peer_file.Network.Orders.{Reach-Inv}
use cpe400_peer_2_peer_file.Network.AnyOrder.{begun, begun-Inv}
use cpe400_peer_2_peer_file.Network.Unchanged.{Reach-Same}

module _ {Ip : Type 0} ⦃ip_eq : Eq Ip⦄ (net : Platform Ip) where
  -- A node that has sent a message to everyone, and has another disk.
  abbrev pub sent_by : Message Ip → ℕ → Disk Ip → Node Ip → Node Ip
  sent_by m priority disk' node =
      let msg = addressed net m net.ipv6_unspecified node in
      record (remembered net msg (
        enqueue priority (received net msg)
          (transmit net (frames net (save_message net msg) node.peers) node))) { disk = disk' }

module _ {Ip : Type 0} ⦃ip_eq : Eq Ip⦄ (net : Platform Ip) (law : IsLawful net) where
  -- Where nothing is on its way, each node of the tree has queued the message.
  landed-queue :
      (m : Message Ip) (how : Intake) (origin : Nodes net) (total : Ip → ℕ) (amount n : ℕ)
      (s : Traffic net) (b : Ip) (inv : Inv net law m how origin total amount n s)
      (pending : List (Branch Ip))
      → inv.pending ≡ pending
      → s.flight ≡ []
      → (s.nodes b).message_queue
        ≡ (origin b).message_queue ++ repeat (total b) (entry net law m how)
  landed-queue m how origin total amount n s b inv [] none_left landed =
      let (k, sum, (queue, rest)) = inv.counted b in
      queue
      ∙ ap (λ k. (origin b).message_queue ++ repeat k (entry net law m how))
          (omega (arith, sum, ap (outstanding b) none_left))
  landed-queue m how origin total amount n s b inv (branch ∷ pending) more landed =
      absurd (cc (landed, inv.on_way ∙ ap (map (frame_of (save_message net m))) more))

  put-other :
      (a b : Ip) (node : Node Ip) (nodes : Nodes net) → b ≢ a → put net a node nodes b ≡ nodes b
  put-other a b node nodes differ = ground arith

  -- A node that the broadcast has reached, and that had an empty queue, has queued it alone; its files
  -- are what they were.
  pub lands :
      (m : Message Ip) (how : Intake) (nodes : Nodes net) (source : Ip) (forest : Forest Ip)
      (disk' : Disk Ip) (sender : Node Ip) {n : ℕ} {s : Traffic net} (b : Ip)
      → let msg = addressed net m net.ipv6_unspecified (nodes source) in
        sender ≡ sent_by net m how.priority disk' (nodes source)
        → (nodes source).sent ≡ []
        → IsTaken net law msg how
        → IsTree net law nodes source forest
        → occurrences b (tree source forest bare) ≡ 1
        → b ≢ source
        → (nodes b).message_queue ≡ []
        → Reach net (begun net nodes source sender) n s
        → s.flight ≡ []
        → ((s.nodes b).message_queue ≡ entry net law msg how ∷ [])
          × ((s.nodes b).ip ≡ (nodes b).ip)
          × Same net (nodes b) (s.nodes b)
  lands m how nodes source forest disk' sender {n} {s} b is_sender fresh taken wired once differ
        empty reach landed =
      let msg = addressed net m net.ipv6_unspecified (nodes source) in
      let total = λ (b : Ip). occurrences b (tree source forest bare) in
      let e = entry net law msg how in
      let inv =
        Reach-Inv net law msg how nodes total (size forest) (begun net nodes source sender) taken
          (subst
            (λ node. Inv net law msg how nodes total (size forest) 0 (begun net nodes source node))
            (sym is_sender) (begun-Inv net law m how nodes source forest disk' fresh wired))
          reach in
      let (k, sum, (queue, (peers, ip))) = inv.counted b in
      (
        landed-queue msg how nodes total (size forest) n s b inv inv.pending refl landed
            ∙ ap (λ queue. queue ++ repeat (total b) e) empty
            ∙ ap (λ k. repeat k e) once,
        ip,
        subst (λ node. Same net node (s.nodes b)) (put-other source b sender nodes differ)
            (Reach-Same net reach b),
      )
