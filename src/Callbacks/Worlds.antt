-- ===== src/Callbacks/Worlds.antt =====
-- What sending and writing preserve, the callbacks of the sweep preserve.
use cpe400_peer_2_peer_file.Base.{ℕ, true, Option, none, some, Eq}
use cpe400_peer_2_peer_file.Base.Outcome.{throws, no_such_file, Ensures, >>=-Ensures, if-Ensures}
use cpe400_peer_2_peer_file.Text.{hash}
use cpe400_peer_2_peer_file.Paths.{FilePath}
use cpe400_peer_2_peer_file.Platform.{Platform}
use cpe400_peer_2_peer_file.Messages.{MessageType, Message}
use cpe400_peer_2_peer_file.Disk.{Disk, last_write_time, read_file}
use cpe400_peer_2_peer_file.Node.{Node}
use cpe400_peer_2_peer_file.Routing.{send}
use cpe400_peer_2_peer_file.Sweep.{Event, created, modified, deleted, fast_tracked, unfast_tracked}
use cpe400_peer_2_peer_file.Callbacks.{
  should_send, send_content, send_file, on_file_created_or_modified, on_file_deleted,
  on_file_fast_tracked, on_file_unfast_tracked, callback,
}

module _ {Ip : Type 0} ⦃ip_eq : Eq Ip⦄ (net : Platform Ip) (P : Node Ip → Type 0)
    (sends : (m : Message Ip) (node : Node Ip)
      → P node
      → Ensures P (send net m net.ipv6_unspecified true node))
    (writes : (node : Node Ip) (disk : Disk Ip) → P node → P (record node { disk = disk })) where
  send_file-Ensures :
      (found : Option ℕ) (type : MessageType) (path : FilePath) (node : Node Ip)
      → P node
      → Ensures P (send_file net found type path node)
  send_file-Ensures none type path node h = tt
  send_file-Ensures (some modified_at) type path node h = sends _ node h

  send_content-Ensures :
      (path : FilePath) (modified_at : ℕ) (node : Node Ip)
      → P node
      → Ensures P (send_content net path modified_at node)
  unfolding send_content
  send_content-Ensures path modified_at node h =
      if-Ensures P (should_send path (hash (read_file net path node.disk)) node.disk) _ _
        (>>=-Ensures P _ _ _ (sends _ node h) (λ node' h'. writes node' _ h')) h

  changed-Ensures :
      (path : FilePath) (node : Node Ip)
      → P node
      → Ensures P (on_file_created_or_modified net path node)
  unfolding on_file_created_or_modified
  changed-Ensures path node h =
      elim (last_write_time path node.disk)
        as (λ found. Ensures P (elim found [
          | none ↦ throws no_such_file
          | some modified_at ↦ send_content net path modified_at node
        ])) [ none ↦ tt | some modified_at ↦ send_content-Ensures path modified_at node h ]

  -- What every message that is sent to everyone, and every change of the disk, preserves.
  pub callback-Ensures :
      (event : Event) (node : Node Ip) → P node → Ensures P (callback net event node)
  unfolding on_file_deleted on_file_fast_tracked on_file_unfast_tracked
  callback-Ensures (created path) node h = changed-Ensures path node h
  callback-Ensures (modified path) node h = changed-Ensures path node h
  callback-Ensures (deleted path) node h = sends _ node h
  callback-Ensures (fast_tracked path) node h =
      send_file-Ensures (last_write_time path node.disk) _ path node h
  callback-Ensures (unfast_tracked path) node h =
      send_file-Ensures (last_write_time path node.disk) _ path node h
