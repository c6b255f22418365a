-- ===== src/Network/Circles.antt =====
-- A message in a network whose links have a circle.
use cpe400_peer_2_peer_file.Base.{ℕ, zero, suc, false, List, [], ◌∷◌, Eq, ◌≡◌, refl, ◌∙◌}
use cpe400_peer_2_peer_file.Base.Outcome.{too_deep}
use cpe400_peer_2_peer_file.Platform.{Platform, IsLawful}
use cpe400_peer_2_peer_file.Messages.{Message}
use cpe400_peer_2_peer_file.Messages.Wire.{save_message}
use cpe400_peer_2_peer_file.Node.{Prio}
use cpe400_peer_2_peer_file.Routing.{Intake, is_this_node}
use cpe400_peer_2_peer_file.Incoming.Forwarding.{others}
use cpe400_peer_2_peer_file.Network.{Frame, Nodes, put, run}
use cpe400_peer_2_peer_file.Network.Trees.{IsTaken, taking, HasQueued, put-HasQueued, run-arrives}

module _ {Ip : Type 0} ⦃ip_eq : Eq Ip⦄ (net : Platform Ip) where
  -- But for the peers at the address of the first node, the second one has one peer, the third.
  abbrev pub IsPassing : Nodes net → Ip → Ip → Ip → Type 0
  IsPassing nodes x y z =
      (others net x (nodes y).peers ≡ z ∷ []) × (is_this_node net x (nodes y) ≡ false)

  abbrev pub IsCircle : Nodes net → Ip → Ip → Ip → Type 0
  IsCircle nodes x y z = IsPassing nodes x y z × (IsPassing nodes y z x × IsPassing nodes z x y)

  IsPassing-same :
      (nodes nodes' : Nodes net) (x y z : Ip)
      → ((b : Ip) → (new : List (Prio Ip)) × HasQueued net new (nodes b) (nodes' b))
      → IsPassing nodes x y z
      → IsPassing nodes' x y z
  IsPassing-same nodes nodes' x y z same (wired, other) =
      let (new, (queue, (peers, ip))) = same y in (rw peers wired, rw ip other)

module _ {Ip : Type 0} ⦃ip_eq : Eq Ip⦄ (net : Platform Ip) (law : IsLawful net) where
  -- In a circle of three nodes that have no other peers, a broadcast that every node takes in goes
  -- round for ever: however many arrivals there are, there are frames left.
  pub run-circle :
      (m : Message Ip) (how : Intake) (nodes : Nodes net) (x y z : Ip) (fuel : ℕ)
      (rest : List (Frame Ip))
      → IsTaken net law m how
      → IsCircle net nodes x y z
      → run net fuel (record { from_ip = x; to_ip = y; data' = save_message net m } ∷ rest) nodes
        ≡ too_deep
  unfolding run
  run-circle m how nodes x y z zero rest taken circle = refl
  run-circle m how nodes x y z (suc fuel) rest taken (first, (second, third)) =
      let nodes1 = put net y (taking net law m how (z ∷ []) (nodes y)) nodes in
      let same : (b : Ip) → (new : List (Prio Ip)) × HasQueued net new (nodes b) (nodes1 b) =
        λ b. (_, put-HasQueued net law m how y (z ∷ []) nodes b) in
      run-arrives net law m how x y (z ∷ []) nodes fuel rest taken first.0 first.1
      ∙ run-circle m how nodes1 y z x fuel rest taken (
        IsPassing-same net nodes nodes1 y z x same second,
        (
          IsPassing-same net nodes nodes1 z x y same third,
          IsPassing-same net nodes nodes1 x y z same first,
        ),
      )
