-- ===== src/Network.antt =====
-- A network of nodes: what one writes to a peer's socket, the thread of that peer gets.
pub mod Trees
pub mod Broadcast
pub mod Circles
pub mod Branches
pub mod Arrivals
pub mod Reaching
pub mod Orders
pub mod AnyOrder
pub mod Unchanged
pub mod Landing
pub mod Changes
pub mod Locking
use cpe400_peer_2_peer_file.Base.{
  ℕ, zero, suc, ◌+◌, Bool, true, false, List, [], ◌∷◌, ◌++◌, map, Eq, ◌==◌, if◌then◌else◌,
}
use cpe400_peer_2_peer_file.Base.Outcome.{Outcome, returns, too_deep, ◌>>=◌}
use cpe400_peer_2_peer_file.Platform.{Platform}
use cpe400_peer_2_peer_file.Messages.Archive.{Archive}
use cpe400_peer_2_peer_file.Node.{Node}
use cpe400_peer_2_peer_file.Incoming.{process_message}

-- Data on its way from the node at an address to the node at another.
pub record Frame (Ip : Type 0) : Type 0 where
  pub from_ip : Ip
  pub to_ip : Ip
  pub data' : Archive

module _ {Ip : Type 0} ⦃ip_eq : Eq Ip⦄ (net : Platform Ip) where
  -- The nodes by their addresses.
  abbrev pub Nodes : Type 0
  Nodes = Ip → Node Ip

  abbrev pub put : Ip → Node Ip → Nodes → Nodes
  put a node nodes b = if b == a then node else nodes b

  -- The frames that a node wrote.
  abbrev pub frames_of : Ip → List (Ip × Archive) → List (Frame Ip)
  frames_of a = map (λ (b, data'). record { from_ip = a; to_ip = b; data' = data' })

  -- Frames arrive until none is left, the newest first. The fuel bounds the arrivals.
  unfoldable pub run : ℕ → List (Frame Ip) → Nodes → Outcome Nodes
  run fuel [] nodes = returns nodes
  run zero (frame ∷ frames) nodes = too_deep
  run (suc fuel) (frame ∷ frames) nodes =
      process_message net frame.from_ip frame.data' (record (nodes frame.to_ip) { sent = [] })
      >>= λ node'.
          run fuel (frames_of frame.to_ip node'.sent ++ frames) (put frame.to_ip node' nodes)
