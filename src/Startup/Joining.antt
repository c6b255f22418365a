-- ===== src/Startup/Joining.antt =====
-- A node that joins a network, from the files that its gateway sends to the end of their processing.
use cpe400_peer_2_peer_file.Base.{
  ℕ, suc, ◌+◌, ◌*◌, ◌<◌, ◌≤◌, true, false, List, [], ◌∷◌, ◌++◌, map, Eq, ◌≡◌, ◌≢◌, refl, sym, ap,
  ◌∙◌, subst, All, arith, length, append_assoc, append-nil,
}
use cpe400_peer_2_peer_file.Base.Outcome.{Outcome, returns, ◌>>=◌}
use cpe400_peer_2_peer_file.Text.{Text, size_t_mod}
use cpe400_peer_2_peer_file.Paths.{FilePath, lock_file_path}
use cpe400_peer_2_peer_file.Platform.{Platform, IsLawful}
use cpe400_peer_2_peer_file.Messages.{Message}
use cpe400_peer_2_peer_file.Messages.Archive.{Archive, lexically_normal}
use cpe400_peer_2_peer_file.Messages.Wire.{sync_class, save_message, received}
use cpe400_peer_2_peer_file.Disk.{Disk, exists, read_file, enumerate_all_files}
use cpe400_peer_2_peer_file.Node.{Node, Prio, enqueue, is_finished_connecting}
use cpe400_peer_2_peer_file.Routing.{intake, lock_priority, is_this_node, hash_matches}
use cpe400_peer_2_peer_file.Incoming.{process_message}
use cpe400_peer_2_peer_file.Incoming.Forwarding.{process_message_routes, passes_to, takes_in}
use cpe400_peer_2_peer_file.Handlers.Sync.{up_to_nul, process_initial_file_sync_request_message}
use cpe400_peer_2_peer_file.Handlers.Sync.Receiving.{HasContent, Targets, HasRoom}
use cpe400_peer_2_peer_file.Handlers.Sync.Sending.{
  IsLinkedTo, sync_sent, syncs, frames_for, process_initial_file_sync_request_message-HasSent,
}
use cpe400_peer_2_peer_file.Manager.Syncing.{IsSync, AllArrived}
use cpe400_peer_2_peer_file.Startup.{process_for_a_second}
use cpe400_peer_2_peer_file.Startup.Syncing.{IsBrief, initial_sync-Completes}

module _ {Ip : Type 0} ⦃ip_eq : Eq Ip⦄ (net : Platform Ip) where
  -- Frames from one peer arrive one after another.
  abbrev pub arrive_all : Ip → List (Ip × Archive) → Node Ip → Outcome (Node Ip)
  arrive_all remote [] node = returns node
  arrive_all remote ((destination, data') ∷ frames) node =
      process_message net remote data' node >>= λ node'. arrive_all remote frames node'

  -- A message about a file whose hash is found right, with data no shorter than a Message object.
  abbrev pub IsRight : Message Ip → Type 0
  IsRight m =
      (hash_matches net (received net m) 1 ≡ true)
      × (net.message_size ≤ length (net.archive_bytes (save_message net m)))

  -- The entries of the queue that messages of the initial sync become.
  abbrev pub entries : List (Message Ip) → List (Prio Ip)
  entries = map (λ m. record { priority = lock_priority; message = received net m })

  takes_in-here : (node : Node Ip) → takes_in net node.ip node ≡ true
  takes_in-here node = ground arith

  passes_to-here :
      (remote : Ip) (node : Node Ip)
      → node.ip ≢ net.ipv6_unspecified
      → node.ip ≢ net.ipv4_unspecified
      → passes_to net node.ip remote node ≡ []
  passes_to-here remote node six four = ground arith

  -- The content of a file that the initial sync carries.
  abbrev pub carried : FilePath → Disk Ip → Text
  carried path disk = up_to_nul (read_file net path disk)

  -- The files are targets, and what is carried of them is expected.
  abbrev pub AreTargets : Targets → Disk Ip → List FilePath → Type 0
  AreTargets targets disk = All (λ path.
      (targets.is_target (lexically_normal path) ≡ true)
      × (carried path disk ≡ targets.expected (lexically_normal path)))

  -- The files are on the other disk, with the carried content.
  abbrev pub AreCopied : Disk Ip → Disk Ip → List FilePath → Type 0
  AreCopied disk disk' = All (λ path. HasContent (carried path disk) (lexically_normal path) disk')

  syncs-IsSync :
      (targets : Targets) (paths : List FilePath) (index total : ℕ) (destination : Ip)
      (sender : Node Ip)
      → AreTargets targets sender.disk paths
      → All (IsSync targets total) (entries (syncs net paths index total destination sender))
  syncs-IsSync targets [] index total destination sender all = tt
  syncs-IsSync targets (path ∷ paths) index total destination sender all = (
    (refl, (all.0.0, all.0.1, refl)),
    syncs-IsSync targets paths (index + 1) total destination sender all.1,
  )

  AllArrived-AreCopied :
      (paths : List FilePath) (index total : ℕ) (destination : Ip) (sender : Node Ip)
      (disk' : Disk Ip)
      → AllArrived disk' (entries (syncs net paths index total destination sender))
      → AreCopied sender.disk disk' paths
  AllArrived-AreCopied [] index total destination sender disk' all = tt
  AllArrived-AreCopied (path ∷ paths) index total destination sender disk' all =
      (all.0, AllArrived-AreCopied paths (index + 1) total destination sender disk' all.1)

  length-syncs :
      (paths : List FilePath) (index total : ℕ) (destination : Ip) (sender : Node Ip)
      → length (entries (syncs net paths index total destination sender)) ≡ length paths
  length-syncs [] index total destination sender = refl
  length-syncs (path ∷ paths) index total destination sender =
      ap suc (length-syncs paths (index + 1) total destination sender)

-- A node that joins, at an address that it can be told by, and the address of the node that sends.
module _ {Ip : Type 0} ⦃ip_eq : Eq Ip⦄ (net : Platform Ip) (law : IsLawful net) (own : Ip)
    (six : own ≢ net.ipv6_unspecified) (four : own ≢ net.ipv4_unspecified) (remote : Ip) where
  -- A message of the initial sync for this node is queued here.
  process_message-here :
      (path : FilePath) (index total : ℕ) (sender node : Node Ip)
      → own ≡ node.ip
      → is_this_node net remote node ≡ false
      → let m = sync_sent net path index total own sender in
        IsRight net m
        → process_message net remote (save_message net m) node
          ≡ returns (enqueue lock_priority (received net m) node)
  process_message-here path index total sender node here other right =
      let m = sync_sent net path index total own sender in
      process_message_routes net law m (intake sync_class 1 lock_priority) remote node refl refl
        right.0 other right.1
      ∙ rw
          (
            here,
            takes_in-here net node,
            passes_to-here net remote node (subst (λ a. a ≢ net.ipv6_unspecified) here six)
                (subst (λ a. a ≢ net.ipv4_unspecified) here four),
            append-nil node.sent,
          )
          refl

  arrive_all-Queued :
      (paths : List FilePath) (index total : ℕ) (sender node : Node Ip)
      → own ≡ node.ip
      → is_this_node net remote node ≡ false
      → let messages = syncs net paths index total own sender in
        All (IsRight net) messages
        → arrive_all net remote (frames_for net own messages) node
          ≡ returns (record node { message_queue = node.message_queue ++ entries net messages })
  arrive_all-Queued [] index total sender node here other right =
      ap (λ queue. returns (record node { message_queue = queue }))
        (sym (append-nil node.message_queue))
  arrive_all-Queued (path ∷ paths) index total sender node here other right =
      let m = sync_sent net path index total own sender in
      let later =
        arrive_all-Queued paths (index + 1) total sender
          (enqueue lock_priority (received net m) node) here other right.1 in
      rw (process_message-here path index total sender node here other right.0) (
        later
        ∙ ap (λ queue. returns (record node { message_queue = queue }))
            (append_assoc node.message_queue
              (record { priority = lock_priority; message = received net m } ∷ []) _))

  -- A node at an address that is not an unspecified one, with an empty queue and no files received
  -- yet, asks for the files of a node that has finished connecting, is linked to it, and has at
  -- least one file and fewer than 2 ^ 64, none of which is locked. The answer is frames; if they
  -- arrive in their order, from an address that is not taken for the joining node's own, their
  -- hashes are found right and their data is no shorter than a Message object, the files are
  -- targets, as which they are expected with their content up to the first zero byte, the joining
  -- node has room for all targets, made files can be written by their owner, and each message of
  -- the initial sync is handled in so little time that as many as the files fit in less than a
  -- second, then after a second of processing the joining node has every file, at its path's normal
  -- form, with that content, and has finished connecting. A fuel of eleven more than the files is
  -- enough.
  pub initial_sync-AreCopied :
      (created : net.created_perms.write.owner ≡ true) (targets : Targets) (m : Message Ip)
      (sender joiner : Node Ip) (path : FilePath) (paths : List FilePath) (fuel limit : ℕ)
      → IsBrief net limit
      → length (path ∷ paths) * limit < 1000000000
      → is_finished_connecting sender ≡ true
      → enumerate_all_files sender.folders sender.disk ≡ returns (path ∷ paths)
      → All (λ path. exists (lock_file_path path) sender.disk ≡ false) (path ∷ paths)
      → length (path ∷ paths) < size_t_mod
      → m.originator_node ≡ own
      → IsLinkedTo net own sender
      → own ≡ joiner.ip
      → is_this_node net remote joiner ≡ false
      → joiner.message_queue ≡ []
      → joiner.received_initial_files ≡ 0
      → All (IsRight net) (syncs net (path ∷ paths) 0 (length (path ∷ paths)) own sender)
      → AreTargets net targets sender.disk (path ∷ paths)
      → HasRoom targets joiner.disk
      → length (path ∷ paths) + 10 < fuel
      → (sender' joiner' : Node Ip) × (frames : List (Ip × Archive))
        × (process_initial_file_sync_request_message net m sender ≡ returns (true, sender'))
        × (sender'.sent ≡ sender.sent ++ frames)
        × ((arrive_all net remote frames joiner >>= λ joined.
              process_for_a_second net fuel joiner.now joined)
            ≡ returns joiner')
        × AreCopied net sender.disk joiner'.disk (path ∷ paths)
        × (is_finished_connecting joiner' ≡ true)
  initial_sync-AreCopied created targets m sender joiner path paths fuel limit brief short finished
        found unlocked few asked linked here other empty none_yet right all room enough =
      let total = length (path ∷ paths) in
      let messages = syncs net (path ∷ paths) 0 total own sender in
      let (sender', answers, has_sent) =
        process_initial_file_sync_request_message-HasSent net m sender (path ∷ paths) finished found
          unlocked (subst (λ a. IsLinkedTo net a sender) (sym asked) linked) in
      let joined : Node Ip = record joiner { message_queue = entries net messages } in
      let arrived : arrive_all net remote (frames_for net own messages) joiner ≡ returns joined =
        arrive_all-Queued (path ∷ paths) 0 total sender joiner here other right
        ∙ ap (λ queue. returns (record joiner { message_queue = queue ++ entries net messages }))
            empty in
      let long = length-syncs net (path ∷ paths) 0 total own sender in
      let (joiner', goes, _, there, done) =
        initial_sync-Completes net created targets total fuel limit joined _ _ brief
          (subst (λ k. k * limit < 1000000000) (sym long) short) refl
          (syncs-IsSync net targets (path ∷ paths) 0 total own sender all) none_yet
          (omega (arith, long)) room (omega (arith, long)) in
      (
        sender',
        joiner',
        frames_for net own messages,
        answers,
        ap (λ n. n.sent) has_sent
            ∙ ap (λ a. sender.sent ++ frames_for net a (syncs net (path ∷ paths) 0 total a sender))
                asked,
        rw arrived goes,
        AllArrived-AreCopied net (path ∷ paths) 0 total own sender joiner'.disk there,
        done ∙ ground (arith, long),
      )
