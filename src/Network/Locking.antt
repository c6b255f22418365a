-- ===== src/Network/Locking.antt =====
-- A lock of a file, from the callback of the sweep on one node to the disks of the others.
use cpe400_peer_2_peer_file.Base.{
  ℕ, ◌+◌, ◌≤◌, true, [], ◌∷◌, none, some, Eq, path_eq, ◌≡◌, ◌≢◌, refl, sym, ◌∙◌, arith, length,
}
use cpe400_peer_2_peer_file.Base.Outcome.{returns}
use cpe400_peer_2_peer_file.Base.Dict
use cpe400_peer_2_peer_file.Text.{Text}
use cpe400_peer_2_peer_file.Paths.{FilePath, remove_filename, lock_file_path}
use cpe400_peer_2_peer_file.Permissions.{no_bits}
use cpe400_peer_2_peer_file.Platform.{Platform, IsLawful}
use cpe400_peer_2_peer_file.Messages.{lock, file_body, Message}
use cpe400_peer_2_peer_file.Messages.Archive.{lexically_normal}
use cpe400_peer_2_peer_file.Messages.Wire.{received_time, file_class, save_message, received}
use cpe400_peer_2_peer_file.Disk.{File, file, set_write}
use cpe400_peer_2_peer_file.Disk.Laws.{Clear}
use cpe400_peer_2_peer_file.Node.{Node, is_finished_connecting}
use cpe400_peer_2_peer_file.Queue.{take_top}
use cpe400_peer_2_peer_file.Routing.{Intake, intake, lock_priority, addressed, hash_matches}
use cpe400_peer_2_peer_file.Routing.Keeps.{Same}
use cpe400_peer_2_peer_file.Routing.Laws.{CanBroadcast, send_broadcast}
use cpe400_peer_2_peer_file.Handlers.Files.{
  process_delete_file_message, process_content_file_message,
}
use cpe400_peer_2_peer_file.Handlers.Files.Locks.{process_lock_message_remote}
use cpe400_peer_2_peer_file.Handlers.Files.Changes.{locked_by_other}
use cpe400_peer_2_peer_file.Callbacks.{file_time, report, on_file_fast_tracked}
use cpe400_peer_2_peer_file.Manager.{dispatch, next_of, process_next_message}
use cpe400_peer_2_peer_file.Network.{Nodes}
use cpe400_peer_2_peer_file.Network.Trees.{Forest, bare, tree}
use cpe400_peer_2_peer_file.Network.Broadcast.{IsTree, occurrences}
use cpe400_peer_2_peer_file.Network.Arrivals.{Traffic, Reach}
use cpe400_peer_2_peer_file.Network.AnyOrder.{begun}
use cpe400_peer_2_peer_file.Network.Landing.{sent_by, lands}

module _ {Ip : Type 0} ⦃ip_eq : Eq Ip⦄ (net : Platform Ip) where
  -- A node that has finished connecting and that has the file, not locked.
  abbrev pub IsLockable : FilePath → File Ip → Node Ip → Type 0
  IsLockable target g node =
      (is_finished_connecting node ≡ true)
      × (Dict.lookup (lock_file_path target) node.disk ≡ none)
      × (Dict.lookup target node.disk ≡ some (file g))
      × Clear (remove_filename (lock_file_path target)) node.disk

  -- A turn of the node takes the write permissions of the file away and empties the queue; then it
  -- ignores every reported change and deletion of the file.
  abbrev pub GetsLocked : FilePath → File Ip → Node Ip → Type 0
  GetsLocked target g node =
      (node' : Node Ip) × (process_next_message net node ≡ returns node')
      × (node'.message_queue ≡ [])
      × (Dict.lookup target node'.disk ≡ some (file (set_write no_bits g)))
      × ((m : Message Ip) (content : Text)
          → (process_content_file_message net m target content node' ≡ returns (true, node'))
            × (process_delete_file_message net m target node' ≡ returns (true, node')))

  lock-GetsLocked :
      (m : Message Ip) (target : FilePath) (timestamp priority : ℕ) (g : File Ip) (node : Node Ip)
      → let held : Message Ip = record m { type = lock; body = file_body target timestamp } in
        node.message_queue ≡ record { priority = priority; message = held } ∷ []
        → m.originator_node ≢ node.ip
        → IsLockable target g node
        → GetsLocked target g node
  unfolding process_next_message next_of dispatch take_top
  lock-GetsLocked m target timestamp priority g node queued other (done, unlocked, there, clear) =
      let held : Message Ip = record m { type = lock; body = file_body target timestamp } in
      let taken = record node { message_queue = [] } in
      let (d, gives, now_there, locked) =
        process_lock_message_remote net held target timestamp taken g done other there unlocked
          clear in
      let node' = record taken {
        disk = d;
        old_messages = net.remember held node.old_messages;
        now = node.now + net.handling_time held node.now;
      } in
      (
        node',
        rw (queued, next_of, gives) refl,
        refl,
        now_there,
        λ m' content.
            locked_by_other net m' (received net held) no_bits target content node' _ done locked
              refl other,
      )

  IsLockable-Same :
      (target : FilePath) (g : File Ip) (before after : Node Ip)
      → Same net before after
      → IsLockable target g before
      → IsLockable target g after
  IsLockable-Same target g before after same (done, unlocked, there, clear) = (
    rw (same.same_received, same.same_total) done,
    rw same.same_disk unlocked,
    rw same.same_disk there,
    rw same.same_disk clear,
  )

module _ {Ip : Type 0} ⦃ip_eq : Eq Ip⦄ (net : Platform Ip) (law : IsLawful net) where
  addressed-originator :
      (m : Message Ip) (node : Node Ip)
      → m.originator_node ≡ net.ipv6_unspecified
      → (addressed net m net.ipv6_unspecified node).originator_node ≡ node.ip
  addressed-originator m node unset = ground arith

  -- The message of the callback.
  abbrev pub lock_of : FilePath → File Ip → Message Ip
  lock_of target f = report net lock (file_body target (file_time net f.modified))

  abbrev pub lock_intake : Intake
  lock_intake = intake file_class 1 lock_priority

  pub on_file_fast_tracked-sends :
      (target : FilePath) (f : File Ip) (node : Node Ip)
      → CanBroadcast net node
      → Dict.lookup target node.disk ≡ some (file f)
      → hash_matches net
          (received net (addressed net (lock_of target f) net.ipv6_unspecified node))
          1
        ≡ true
      → on_file_fast_tracked net target node
        ≡ returns (sent_by net (lock_of target f) lock_priority node.disk node)
  unfolding on_file_fast_tracked
  on_file_fast_tracked-sends target f node can there right =
      let sends = send_broadcast net law (lock_of target f) lock_intake node refl refl can right in
      ground (arith, sends)

  -- In a network whose links are a tree with a node as its root that can broadcast and has written
  -- nothing yet. If the callback of the sweep locks a file of this node, the message's hash is
  -- found right and its data is no shorter than a Message object, and its frames have arrived, in
  -- any order, until none is left on its way, then each other node that occurs in the tree once, is
  -- at another address, had an empty queue, has finished connecting, and has the file at its path's
  -- normal form, not locked, with no file in the way of the folders of its lock file, takes the
  -- write permissions of the file away in its next turn, which leaves its queue empty; then it
  -- ignores every reported change and deletion of the file.
  pub lock-Spreads :
      (target : FilePath) (f g : File Ip) (nodes : Nodes net) (source : Ip) (forest : Forest Ip)
      (sender : Node Ip) {n : ℕ} {s : Traffic net} (b : Ip)
      → let msg = addressed net (lock_of target f) net.ipv6_unspecified (nodes source) in
        CanBroadcast net (nodes source)
        → (nodes source).sent ≡ []
        → Dict.lookup target (nodes source).disk ≡ some (file f)
        → hash_matches net (received net msg) 1 ≡ true
        → net.message_size ≤ length (net.archive_bytes (save_message net msg))
        → IsTree net law nodes source forest
        → occurrences b (tree source forest bare) ≡ 1
        → b ≢ source
        → (nodes source).ip ≢ (nodes b).ip
        → (nodes b).message_queue ≡ []
        → IsLockable net (lexically_normal target) g (nodes b)
        → on_file_fast_tracked net target (nodes source) ≡ returns sender
        → Reach net (begun net nodes source sender) n s
        → s.flight ≡ []
        → GetsLocked net (lexically_normal target) g (s.nodes b)
  lock-Spreads target f g nodes source forest sender {n} {s} b can fresh there right long wired once
        differ apart empty ready sends reach landed =
      let m = lock_of target f in
      let msg = addressed net m net.ipv6_unspecified (nodes source) in
      let is_sent = on_file_fast_tracked-sends target f (nodes source) can there right in
      let (queued, ip, same) =
        lands net law m lock_intake nodes source forest (nodes source).disk sender b
          (cc (sends, is_sent)) fresh (refl, (refl, (right, (long, refl)))) wired once differ empty
          reach landed in
      lock-GetsLocked net (received net msg) (lexically_normal target)
        (received_time (file_time net f.modified)) lock_priority g (s.nodes b) queued
        (λ e. apart (sym (addressed-originator (lock_of target f) (nodes source) refl) ∙ e ∙ ip))
        (IsLockable-Same net (lexically_normal target) g (nodes b) (s.nodes b) same ready)
