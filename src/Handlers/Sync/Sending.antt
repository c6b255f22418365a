-- ===== src/Handlers/Sync/Sending.antt =====
-- What a node sends to one that joins.
use cpe400_peer_2_peer_file.Base.{
  ℕ, ◌+◌, true, false, List, [], ◌∷◌, ◌++◌, Eq, ◌≡◌, refl, sym, ◌∙◌, ap, ◌≢◌, All, length,
  append_assoc, append-nil,
}
use cpe400_peer_2_peer_file.Base.Outcome.{returns}
use cpe400_peer_2_peer_file.Paths.{FilePath, lock_file_path}
use cpe400_peer_2_peer_file.Platform.{Platform}
use cpe400_peer_2_peer_file.Messages.{Message}
use cpe400_peer_2_peer_file.Messages.Archive.{Archive}
use cpe400_peer_2_peer_file.Messages.Wire.{save_message}
use cpe400_peer_2_peer_file.Disk.{exists, enumerate_all_files}
use cpe400_peer_2_peer_file.Node.{Node, is_finished_connecting}
use cpe400_peer_2_peer_file.Routing.{is_this_node, has_link, addressed}
use cpe400_peer_2_peer_file.Routing.Laws.{send_linked}
use cpe400_peer_2_peer_file.Handlers.Sync.{
  sync_message, send_lock, send_files, process_initial_file_sync_request_message,
}

module _ {Ip : Type 0} ⦃ip_eq : Eq Ip⦄ (net : Platform Ip) where
  -- A node reaches an address through the peer that has it.
  abbrev pub IsLinkedTo : Ip → Node Ip → Type 0
  IsLinkedTo destination node =
      (destination ≢ net.ipv6_unspecified)
      × (destination ≢ net.ipv4_unspecified)
      × (is_this_node net destination node ≡ false)
      × (has_link net destination node.peers ≡ true)

  -- The message for a file, as it is sent.
  abbrev pub sync_sent : FilePath → ℕ → ℕ → Ip → Node Ip → Message Ip
  sync_sent path index total destination node =
      addressed net (sync_message net path index total node) destination node

  -- The messages for the files, from an index on.
  abbrev pub syncs : List FilePath → ℕ → ℕ → Ip → Node Ip → List (Message Ip)
  syncs [] index total destination node = []
  syncs (path ∷ paths) index total destination node =
      sync_sent path index total destination node ∷ syncs paths (index + 1) total destination node

  abbrev pub frames_for : Ip → List (Message Ip) → List (Ip × Archive)
  frames_for destination [] = []
  frames_for destination (m ∷ messages) =
      (destination, save_message net m) ∷ frames_for destination messages

  -- Some messages were sent and remembered.
  abbrev pub HasSent : List (Ip × Archive) → Node Ip → Node Ip → Type 0
  HasSent frames node node' =
      node' ≡ record node { sent = node.sent ++ frames; old_messages = node'.old_messages }

  syncs-same :
      (paths : List FilePath) (index total : ℕ) (destination : Ip) (node : Node Ip)
      (sent : List (Ip × Archive)) (old : List (Message Ip))
      → syncs paths index total destination (record node { sent = sent; old_messages = old })
        ≡ syncs paths index total destination node
  syncs-same [] index total destination node sent old = refl
  syncs-same (path ∷ paths) index total destination node sent old =
      ap (λ messages. sync_sent path index total destination node ∷ messages)
        (syncs-same paths (index + 1) total destination node sent old)

  send_files-HasSent :
      (paths : List FilePath) (index total : ℕ) (destination : Ip) (node : Node Ip)
      → IsLinkedTo destination node
      → All (λ path. exists (lock_file_path path) node.disk ≡ false) paths
      → (node' : Node Ip) × (send_files net paths index total destination node ≡ returns node')
        × HasSent (frames_for destination (syncs paths index total destination node)) node node'
  unfolding send_files send_lock
  send_files-HasSent [] index total destination node linked unlocked =
      (node, refl, ap (λ frames. record node { sent = frames }) (sym (append-nil node.sent)))
  send_files-HasSent (path ∷ paths) index total destination node linked unlocked =
      let (known6, known4, other, link) = linked in
      let m = sync_message net path index total node in
      let msg = addressed net m destination node in
      let first = send_linked net m destination true node known6 known4 other link in
      let next = record node {
        sent = node.sent ++ (destination, save_message net msg) ∷ [];
        old_messages = net.remember msg node.old_messages;
      } in
      let (node', gives, same) =
        send_files-HasSent paths (index + 1) total destination next linked unlocked.1 in
      (
        node',
        rw (first, unlocked.0, gives) refl,
        same
            ∙ ap (λ frames. record node { sent = frames; old_messages = node'.old_messages })
                (append_assoc node.sent ((destination, save_message net msg) ∷ []) _
                  ∙ ap
                      (λ messages.
                        node.sent
                        ++ (destination, save_message net msg) ∷ frames_for destination messages)
                      (syncs-same paths (index + 1) total destination node next.sent
                        next.old_messages)),
      )

  -- A node that has finished connecting, asked by a node that it is linked to, sends it one message for
  -- each of its files, in their order, where none of them is locked. Nothing else of the node changes
  -- but its record of old messages.
  pub process_initial_file_sync_request_message-HasSent :
      (m : Message Ip) (node : Node Ip) (paths : List FilePath)
      → is_finished_connecting node ≡ true
      → enumerate_all_files node.folders node.disk ≡ returns paths
      → All (λ path. exists (lock_file_path path) node.disk ≡ false) paths
      → IsLinkedTo m.originator_node node
      → (node' : Node Ip) × (process_initial_file_sync_request_message net m node
          ≡ returns (true, node'))
        × HasSent
            (frames_for m.originator_node (syncs paths 0 (length paths) m.originator_node node))
            node
            node'
  unfolding process_initial_file_sync_request_message
  process_initial_file_sync_request_message-HasSent m node paths finished found unlocked linked =
      let (node', gives, same) =
        send_files-HasSent paths 0 (length paths) m.originator_node node linked unlocked in
      (node', rw (finished, found, gives) refl, same)
