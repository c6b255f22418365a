-- ===== src/Network/Arrivals.antt =====
-- Frames that arrive in any order.
use cpe400_peer_2_peer_file.Base.{ℕ, zero, suc, List, [], ◌∷◌, ◌++◌, Eq, ◌≡◌}
use cpe400_peer_2_peer_file.Base.Outcome.{returns}
use cpe400_peer_2_peer_file.Platform.{Platform}
use cpe400_peer_2_peer_file.Node.{Node}
use cpe400_peer_2_peer_file.Incoming.{process_message}
use cpe400_peer_2_peer_file.Network.{Frame, Nodes, put, frames_of}

module _ {Ip : Type 0} ⦃ip_eq : Eq Ip⦄ (net : Platform Ip) where
  -- All nodes, and the frames on their way.
  pub record Traffic : Type 0 where
    pub nodes : Nodes net
    pub flight : List (Frame Ip)

  -- Any frame on its way may be the next to arrive. The node there keeps none of the frames that it
  -- wrote before.
  pub data Step (s t : Traffic) : Type 0 where
    arrive :
        (before after : List (Frame Ip)) (frame : Frame Ip) (node : Node Ip)
        → s.flight ≡ before ++ frame ∷ after
        → process_message net frame.from_ip frame.data' (record (s.nodes frame.to_ip) { sent = [] })
          ≡ returns node
        → t ≡ record {
          nodes = put net frame.to_ip node s.nodes;
          flight = before ++ (after ++ frames_of net frame.to_ip node.sent);
        }
        → Step s t

  -- The traffic after a number of arrivals.
  pub data Reach (start : Traffic) : ℕ → Traffic → Type 0 where
    here : Reach start zero start
    next : {n : ℕ} {s t : Traffic} → Reach start n s → Step s t → Reach start (suc n) t
