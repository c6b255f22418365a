-- ===== src/Network/Changes.antt =====
-- A change of a file, from the callback of the sweep on one node to the disks of the others.
use cpe400_peer_2_peer_file.Base.{
  ℕ, ◌+◌, ◌≤◌, true, [], ◌∷◌, none, some, Eq, path_eq, ◌≡◌, ◌≢◌, refl, arith, length,
}
use cpe400_peer_2_peer_file.Base.Outcome.{returns}
use cpe400_peer_2_peer_file.Base.Dict
use cpe400_peer_2_peer_file.Text.{Text, hash}
use cpe400_peer_2_peer_file.Paths.{FilePath, wnts_path, remove_filename, lock_file_path}
use cpe400_peer_2_peer_file.Platform.{Platform, IsLawful}
use cpe400_peer_2_peer_file.Messages.{content_change, content_body, Message}
use cpe400_peer_2_peer_file.Messages.Archive.{lexically_normal}
use cpe400_peer_2_peer_file.Messages.Wire.{received_time, content_class, save_message, received}
use cpe400_peer_2_peer_file.Disk.{File, file, file_bytes, saved_hash, read_file, write_file}
use cpe400_peer_2_peer_file.Disk.Laws.{Clear}
use cpe400_peer_2_peer_file.Node.{Node, is_finished_connecting}
use cpe400_peer_2_peer_file.Queue.{take_top}
use cpe400_peer_2_peer_file.Routing.{Intake, intake, file_priority, addressed, hash_matches}
use cpe400_peer_2_peer_file.Routing.Keeps.{Same}
use cpe400_peer_2_peer_file.Routing.Laws.{CanBroadcast, send_broadcast}
use cpe400_peer_2_peer_file.Handlers.Files.Changes.{
  rewritten, process_content_file_message_unlocked,
}
use cpe400_peer_2_peer_file.Callbacks.{
  file_time, report, should_send, send_content, on_file_created_or_modified,
}
use cpe400_peer_2_peer_file.Manager.{dispatch, next_of, process_next_message}
use cpe400_peer_2_peer_file.Network.{Nodes}
use cpe400_peer_2_peer_file.Network.Trees.{Forest, bare, tree}
use cpe400_peer_2_peer_file.Network.Broadcast.{IsTree, occurrences}
use cpe400_peer_2_peer_file.Network.Arrivals.{Traffic, Reach}
use cpe400_peer_2_peer_file.Network.AnyOrder.{begun}
use cpe400_peer_2_peer_file.Network.Landing.{sent_by, lands}

module _ {Ip : Type 0} ⦃ip_eq : Eq Ip⦄ (net : Platform Ip) where
  -- A node that has finished connecting and that has the file, writable and not locked.
  abbrev pub IsReadyFor : FilePath → Node Ip → Type 0
  IsReadyFor target node =
      (is_finished_connecting node ≡ true)
      × (Dict.lookup (lock_file_path target) node.disk ≡ none)
      × ((g : File Ip) × ((Dict.lookup target node.disk ≡ some (file g))
            × (g.perms.write.owner ≡ true)))
      × Clear (remove_filename target) node.disk

  -- A turn of the node gives the file the content, and empties the queue.
  abbrev pub GetsContent : FilePath → Text → Node Ip → Type 0
  GetsContent target content node =
      (node' : Node Ip) × (process_next_message net node ≡ returns node')
      × (node'.message_queue ≡ [])
      × ((g : File Ip) × ((Dict.lookup target node'.disk ≡ some (file g))
            × (g.content ≡ file_bytes content)))

  -- The message of a change, queued alone on a node that is ready for it.
  change-GetsContent :
      (m : Message Ip) (target : FilePath) (timestamp priority : ℕ) (content : Text)
      (node : Node Ip)
      → let change : Message Ip = record m {
        type = content_change;
        body = content_body target timestamp content;
      } in
        node.message_queue ≡ record { priority = priority; message = change } ∷ []
        → IsReadyFor target node
        → GetsContent target content node
  unfolding process_next_message next_of dispatch take_top
  change-GetsContent m target timestamp priority content node queued
        (done, unlocked, (g, (there, writable)), clear) =
      let change : Message Ip = record m {
        type = content_change;
        body = content_body target timestamp content;
      } in
      let taken = record node { message_queue = [] } in
      let (d, gives, now_there, _) =
        process_content_file_message_unlocked net change target content taken g done unlocked there
          clear in
      (
        record taken {
          disk = d;
          old_messages = net.remember change node.old_messages;
          now = node.now + net.handling_time change node.now;
        },
        rw (queued, next_of, gives) refl,
        refl,
        (rewritten net content node.now g, (now_there, ground arith)),
      )

  IsReadyFor-Same :
      (target : FilePath) (before after : Node Ip)
      → Same net before after
      → IsReadyFor target before
      → IsReadyFor target after
  IsReadyFor-Same target before after same (done, unlocked, there, clear) = (
    rw (same.same_received, same.same_total) done,
    rw same.same_disk unlocked,
    rw same.same_disk there,
    rw same.same_disk clear,
  )

module _ {Ip : Type 0} ⦃ip_eq : Eq Ip⦄ (net : Platform Ip) (law : IsLawful net) where
  -- The message of the callback, and what the sender is after it.
  abbrev pub change_of : FilePath → File Ip → Text → Message Ip
  change_of target f content =
      report net content_change (content_body target (file_time net f.modified) content)

  abbrev pub change_intake : Intake
  change_intake = intake content_class 1 file_priority

  -- It has written to its peers, has queued the message itself, and has saved the hash.
  abbrev pub changed_sender : FilePath → File Ip → Text → Node Ip → Node Ip
  changed_sender target f content node =
      sent_by net (change_of target f content) file_priority
        (write_file net node.now (wnts_path target) (saved_hash (hash content)) node.disk) node

  pub on_file_created_or_modified-sends :
      (target : FilePath) (content : Text) (f : File Ip) (node : Node Ip)
      → CanBroadcast net node
      → Dict.lookup target node.disk ≡ some (file f)
      → f.content ≡ file_bytes content
      → should_send target (hash content) node.disk ≡ true
      → let msg = addressed net (change_of target f content) net.ipv6_unspecified node in
        hash_matches net (received net msg) 1 ≡ true
        → on_file_created_or_modified net target node
          ≡ returns (changed_sender target f content node)
  unfolding on_file_created_or_modified send_content read_file
  on_file_created_or_modified-sends target content f node can there holds changed right =
      let sends =
        send_broadcast net law (change_of target f content) change_intake node refl refl can
          right in
      ground (arith, sends, changed)

  -- In a network whose links are a tree with a node as its root that can broadcast and has written
  -- nothing yet. If the callback of the sweep finds that a file of this node was changed and sends
  -- it, the message's hash is found right and its data is no shorter than a Message object, and its
  -- frames have arrived, in any order, until none is left on its way, then each other node that
  -- occurs in the tree once, had an empty queue, has finished connecting, and has the file at its
  -- path's normal form, not locked and writable by its owner, with no file in the way of its
  -- folders, gives the file the new content in its next turn, which leaves its queue empty.
  pub change-Spreads :
      (target : FilePath) (content : Text) (f : File Ip) (nodes : Nodes net) (source : Ip)
      (forest : Forest Ip) (sender : Node Ip) {n : ℕ} {s : Traffic net} (b : Ip)
      → let msg = addressed net (change_of target f content) net.ipv6_unspecified (nodes source) in
        CanBroadcast net (nodes source)
        → (nodes source).sent ≡ []
        → Dict.lookup target (nodes source).disk ≡ some (file f)
        → f.content ≡ file_bytes content
        → should_send target (hash content) (nodes source).disk ≡ true
        → hash_matches net (received net msg) 1 ≡ true
        → net.message_size ≤ length (net.archive_bytes (save_message net msg))
        → IsTree net law nodes source forest
        → occurrences b (tree source forest bare) ≡ 1
        → b ≢ source
        → (nodes b).message_queue ≡ []
        → IsReadyFor net (lexically_normal target) (nodes b)
        → on_file_created_or_modified net target (nodes source) ≡ returns sender
        → Reach net (begun net nodes source sender) n s
        → s.flight ≡ []
        → GetsContent net (lexically_normal target) content (s.nodes b)
  change-Spreads target content f nodes source forest sender {n} {s} b can fresh there holds changed
        right long wired once differ empty ready sends reach landed =
      let m = change_of target f content in
      let msg = addressed net m net.ipv6_unspecified (nodes source) in
      let is_sent =
        on_file_created_or_modified-sends target content f (nodes source) can there holds changed
          right in
      let (queued, ip, same) =
        lands net law m change_intake nodes source forest
          (changed_sender target f content (nodes source)).disk sender b (cc (sends, is_sent)) fresh
          (refl, (refl, (right, (long, refl)))) wired once differ empty reach landed in
      change-GetsContent net (received net msg) (lexically_normal target)
        (received_time (file_time net f.modified)) file_priority content (s.nodes b) queued
        (IsReadyFor-Same net (lexically_normal target) (nodes b) (s.nodes b) same ready)
