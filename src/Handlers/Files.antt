-- ===== src/Handlers/Files.antt =====
-- processLockMessage, processUnlockMessage, processDeleteFileMessage and processContentFileMessage
-- (message_manager.cpp).
pub mod Locks
pub mod Episodes
pub mod Changes
pub mod Ending
use cpe400_peer_2_peer_file.Base.{
  ℕ, Bool, true, false, not, Option, none, some, Eq, ◌==◌, ltb, if◌then◌else◌,
}
use cpe400_peer_2_peer_file.Base.Outcome.{Outcome, returns, undefined, ◌>>=◌}
use cpe400_peer_2_peer_file.Text.{Text}
use cpe400_peer_2_peer_file.Paths.{FilePath, wnts_path, remove_filename, lock_file_path}
use cpe400_peer_2_peer_file.Permissions.{WriteBits, no_bits, all_bits, is_none}
use cpe400_peer_2_peer_file.Platform.{Platform}
use cpe400_peer_2_peer_file.Messages.{Message}
use cpe400_peer_2_peer_file.Disk.{
  Disk, file_bytes, exists, write_bits, permissions_add, permissions_remove, create_directories,
  remove, write_file, load_lock_file, save_lock_file,
}
use cpe400_peer_2_peer_file.Node.{Node, is_finished_connecting}
use cpe400_peer_2_peer_file.Queue.{timestamp_of}

abbrev pub Handled : Type 0 → Type 0
Handled Ip = Outcome (Bool × Node Ip)

module _ {Ip : Type 0} ⦃ip_eq : Eq Ip⦄ (net : Platform Ip) where
  -- The node with another disk, and the message processed.
  abbrev pub with_disk : Node Ip → Outcome (Disk Ip) → Handled Ip
  with_disk node result = result >>= λ disk. returns (true, record node { disk = disk })

  -- The first lock on a file. The permissions are taken before they are saved.
  take_lock : Message Ip → FilePath → Node Ip → Outcome (Disk Ip)
  take_lock m target node =
      (if not (m.originator_node == node.ip)
        then permissions_remove target all_bits node.disk
        else returns node.disk)
      >>= λ disk. create_directories (remove_filename (lock_file_path target)) disk >>= λ disk'.
          save_lock_file net node.now (lock_file_path target) m (write_bits target disk') disk'

  -- A lock on a file that has one. The earlier message keeps it.
  contest_lock : Message Ip → FilePath → ℕ → Node Ip → Outcome (Disk Ip)
  contest_lock m target timestamp node =
      load_lock_file net target node.disk >>= λ (old_lock, old_bits).
      elim (timestamp_of old_lock.body) [
        | none ↦ undefined
        | some old_timestamp ↦
            if ltb timestamp old_timestamp
            then (create_directories (remove_filename (lock_file_path target)) node.disk >>= λ disk.
                save_lock_file net node.now (lock_file_path target) m old_bits disk)
            else returns node.disk
      ]

  -- processLockMessage
  unfoldable pub process_lock_message : Message Ip → FilePath → ℕ → Node Ip → Handled Ip
  unfolding take_lock contest_lock
  process_lock_message m target timestamp node =
      if not (is_finished_connecting node)
      then returns (false, node)
      else if not (exists target node.disk)
      then returns (true, node)
      else if not (exists (lock_file_path target) node.disk)
      then with_disk node (take_lock m target node)
      else with_disk node (contest_lock m target timestamp node)

  -- The permissions come back if the file still has none, and the lock file goes.
  release_lock : FilePath → WriteBits → Disk Ip → Outcome (Disk Ip)
  release_lock target to_add disk =
      if is_none (write_bits target disk)
      then (permissions_add target to_add disk >>= λ disk'. remove (lock_file_path target) disk')
      else returns disk

  -- processUnlockMessage
  unfoldable pub process_unlock_message : Message Ip → FilePath → Node Ip → Handled Ip
  unfolding release_lock
  process_unlock_message m target node =
      if not (is_finished_connecting node)
      then returns (false, node)
      else if exists (lock_file_path target) node.disk
      then (load_lock_file net target node.disk >>= λ (old_lock, to_add).
          if m.originator_node == old_lock.originator_node
          then with_disk node (release_lock target to_add node.disk)
          else returns (true, node))
      else returns (true, node)

  -- The lock check of the two handlers below: none where they return at once, and otherwise the
  -- permissions to add for a while.
  unfoldable pub lock_check : Message Ip → FilePath → Node Ip → Outcome (Option WriteBits)
  lock_check m target node =
      if exists (lock_file_path target) node.disk
      then (load_lock_file net target node.disk >>= λ (lock, bits). returns (
          if not (lock.originator_node == node.ip)
          then none
          else if not (lock.originator_node == m.originator_node)
          then some no_bits
          else some bits))
      else returns (some no_bits)

  delete_file_and_records : FilePath → WriteBits → Disk Ip → Outcome (Disk Ip)
  delete_file_and_records target bits disk = permissions_add target bits disk >>= λ disk'.
      remove target disk' >>= λ disk''.
      remove (lock_file_path target) disk'' >>= λ disk'''. remove (wnts_path target) disk'''

  -- processDeleteFileMessage
  unfoldable pub process_delete_file_message : Message Ip → FilePath → Node Ip → Handled Ip
  unfolding delete_file_and_records
  process_delete_file_message m target node =
      if not (is_finished_connecting node)
      then returns (false, node)
      else (lock_check m target node >>= λ allowed. elim allowed [
        | none ↦ returns (true, node)
        | some bits ↦ with_disk node (delete_file_and_records target bits node.disk)
      ])

  write_content : FilePath → Text → WriteBits → ℕ → Disk Ip → Outcome (Disk Ip)
  write_content target content bits now disk = permissions_add target bits disk >>= λ disk'.
      create_directories (remove_filename target) disk' >>= λ disk''.
      permissions_remove target bits (write_file net now target (file_bytes content) disk'')

  -- processContentFileMessage
  unfoldable pub process_content_file_message : Message Ip → FilePath → Text → Node Ip → Handled Ip
  unfolding write_content
  process_content_file_message m target content node =
      if not (is_finished_connecting node)
      then returns (false, node)
      else (lock_check m target node >>= λ allowed. elim allowed [
        | none ↦ returns (true, node)
        | some bits ↦ with_disk node (write_content target content bits node.now node.disk)
      ])
