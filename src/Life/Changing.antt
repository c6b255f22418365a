-- ===== src/Life/Changing.antt =====
-- The handlers of locks, changes and deletions leave every queued message with the members of its type's class.
use cpe400_peer_2_peer_file.Base.{ℕ, true, not, Option, none, some, Eq, ◌==◌}
use cpe400_peer_2_peer_file.Base.Outcome.{Outcome, returns, Ensures, returned-Ensures, if-Ensures}
use cpe400_peer_2_peer_file.Text.{Text}
use cpe400_peer_2_peer_file.Paths.{FilePath, lock_file_path}
use cpe400_peer_2_peer_file.Permissions.{WriteBits}
use cpe400_peer_2_peer_file.Platform.{Platform}
use cpe400_peer_2_peer_file.Messages.{Message}
use cpe400_peer_2_peer_file.Disk.{Disk, exists, load_lock_file}
use cpe400_peer_2_peer_file.Node.{Node, is_finished_connecting}
use cpe400_peer_2_peer_file.Handlers.Files.{
  Handled, with_disk, process_lock_message, process_unlock_message, process_delete_file_message,
  process_content_file_message, lock_check,
}
use cpe400_peer_2_peer_file.Life.Sending.{AllFit}

module _ {Ip : Type 0} ⦃ip_eq : Eq Ip⦄ (net : Platform Ip) where
  -- The node that a handler returns.
  abbrev pub LeavesFit : Handled Ip → Type 0
  LeavesFit = Ensures (λ (processed, node). AllFit node)

  with_disk-LeavesFit :
      (node : Node Ip) (result : Outcome (Disk Ip))
      → AllFit node
      → LeavesFit (with_disk net node result)
  with_disk-LeavesFit node result h =
      returned-Ensures (λ (processed, n). AllFit n) result _ (λ disk. h)

  pub process_lock_message-LeavesFit :
      (m : Message Ip) (target : FilePath) (timestamp : ℕ) (node : Node Ip)
      → AllFit node
      → LeavesFit (process_lock_message net m target timestamp node)
  unfolding process_lock_message
  process_lock_message-LeavesFit m target timestamp node h =
      if-Ensures _ (not (is_finished_connecting node)) _ _ h (
        if-Ensures _ (not (exists target node.disk)) _ _ h (
          if-Ensures _ (not (exists (lock_file_path target) node.disk)) _ _
            (with_disk-LeavesFit node _ h) (with_disk-LeavesFit node _ h)))

  pub process_unlock_message-LeavesFit :
      (m : Message Ip) (target : FilePath) (node : Node Ip)
      → AllFit node
      → LeavesFit (process_unlock_message net m target node)
  unfolding process_unlock_message
  process_unlock_message-LeavesFit m target node h =
      if-Ensures _ (not (is_finished_connecting node)) _ _ h (
        if-Ensures _ (exists (lock_file_path target) node.disk) _ _
          (returned-Ensures _ (load_lock_file net target node.disk) _ (λ (old_lock, to_add).
            if-Ensures _ (m.originator_node == old_lock.originator_node) _ _
              (with_disk-LeavesFit node _ h) h))
          h)

  allowed-LeavesFit :
      (node : Node Ip) (change : WriteBits → Outcome (Disk Ip)) (allowed : Option WriteBits)
      → AllFit node
      → LeavesFit (elim allowed [
        | none ↦ returns (true, node)
        | some bits ↦ with_disk net node (change bits)
      ])
  allowed-LeavesFit node change none h = h
  allowed-LeavesFit node change (some bits) h = with_disk-LeavesFit node (change bits) h

  pub process_delete_file_message-LeavesFit :
      (m : Message Ip) (target : FilePath) (node : Node Ip)
      → AllFit node
      → LeavesFit (process_delete_file_message net m target node)
  unfolding process_delete_file_message
  process_delete_file_message-LeavesFit m target node h =
      if-Ensures _ (not (is_finished_connecting node)) _ _ h (
        returned-Ensures _ (lock_check net m target node) _
          (λ allowed. allowed-LeavesFit node _ allowed h))

  pub process_content_file_message-LeavesFit :
      (m : Message Ip) (target : FilePath) (content : Text) (node : Node Ip)
      → AllFit node
      → LeavesFit (process_content_file_message net m target content node)
  unfolding process_content_file_message
  process_content_file_message-LeavesFit m target content node h =
      if-Ensures _ (not (is_finished_connecting node)) _ _ h (
        returned-Ensures _ (lock_check net m target node) _
          (λ allowed. allowed-LeavesFit node _ allowed h))
