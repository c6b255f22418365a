-- ===== src/Life.antt =====
-- The life of a node: what its threads call, one call after another, while time passes and other
-- programs change the files.
pub mod Loading
pub mod Sending
pub mod Changing
pub mod Handling
pub mod Queued
use cpe400_peer_2_peer_file.Base.{Bool, ℕ, List, [], Eq, ◌≡◌}
use cpe400_peer_2_peer_file.Base.Outcome.{returns}
use cpe400_peer_2_peer_file.Text.{Text}
use cpe400_peer_2_peer_file.Platform.{Platform}
use cpe400_peer_2_peer_file.Messages.Archive.{Archive}
use cpe400_peer_2_peer_file.Disk.{Disk}
use cpe400_peer_2_peer_file.Node.{Node, Peer}
use cpe400_peer_2_peer_file.Incoming.{process_message, on_socket_error}
use cpe400_peer_2_peer_file.Accept.{accept_connection}
use cpe400_peer_2_peer_file.Manager.{process_next_message}
use cpe400_peer_2_peer_file.Sweep.{Event, Sweeper, sweep}
use cpe400_peer_2_peer_file.Callbacks.{callback, node_surroundings}
use cpe400_peer_2_peer_file.Startup.{join_network}

module _ {Ip : Type 0} ⦃ip_eq : Eq Ip⦄ (net : Platform Ip) where
  pub data Step (s t : Node Ip) : Type 0 where
    -- main joins a network or founds one
    joins : (remote : Ip) (port : ℕ) → join_network net remote port s ≡ returns t → Step s t
    -- the listening thread accepts a peer
    accepts : (peer : Peer Ip) → accept_connection net peer s ≡ returns t → Step s t
    -- the thread of a peer gets data, whatever it is, or an error
    gets :
        (remote : Ip) (data' : Archive) → process_message net remote data' s ≡ returns t → Step s t
    fails : (error : Text) (remote : Ip) → t ≡ (on_socket_error net error remote s).0 → Step s t
    -- the sweep calls back
    detects : (event : Event) → callback net event s ≡ returns t → Step s t
    -- a whole sweep
    sweeps :
        (total : Bool) (before after : Sweeper)
        → sweep (node_surroundings net) total before s ≡ returns (after, t)
        → Step s t
    -- the main loop takes a message
    takes : process_next_message net s ≡ returns t → Step s t
    -- time passes, and files change
    passes : (now : ℕ) (disk : Disk Ip) → t ≡ record s { now = now; disk = disk } → Step s t

  -- From a node that has nothing queued.
  pub data Reach : Node Ip → Type 0 where
    begin : {s : Node Ip} → s.message_queue ≡ [] → Reach s
    next : {s t : Node Ip} → Reach s → Step s t → Reach t
