-- ===== src/Handlers/Files/Ending.antt =====
-- The handlers of file messages, on a connected node, finish with the message and queue nothing.
use cpe400_peer_2_peer_file.Base.{
  ℕ, Bool, true, not, Option, none, some, Eq, ◌==◌, ltb, if◌then◌else◌, ◌≡◌, refl, path_eq,
}
use cpe400_peer_2_peer_file.Base.Outcome.{
  Outcome, returns, undefined, Ends, Any, >>=-Ends, if-Ends, ◌>>=◌,
}
use cpe400_peer_2_peer_file.Text.{Text}
use cpe400_peer_2_peer_file.Paths.{FilePath, wnts_path, remove_filename, lock_file_path}
use cpe400_peer_2_peer_file.Permissions.{WriteBits, all_bits, is_none}
use cpe400_peer_2_peer_file.Platform.{Platform}
use cpe400_peer_2_peer_file.Messages.{Message}
use cpe400_peer_2_peer_file.Disk.{Disk, exists, write_bits, create_directories, save_lock_file}
use cpe400_peer_2_peer_file.Disk.Ending.{
  permissions_add-Ends, permissions_remove-Ends, create_directories-Ends, remove-Ends,
  load_lock_file-Ends, save_lock_file-Ends,
}
use cpe400_peer_2_peer_file.Node.{Node, is_finished_connecting}
use cpe400_peer_2_peer_file.Queue.{timestamp_of}
use cpe400_peer_2_peer_file.Handlers.Files.{
  with_disk, take_lock, contest_lock, release_lock, lock_check, delete_file_and_records,
  write_content, process_lock_message, process_unlock_message, process_delete_file_message,
  process_content_file_message,
}

module _ {Ip : Type 0} ⦃ip_eq : Eq Ip⦄ (net : Platform Ip) where
  -- The message is processed, and nothing of the node changed but its disk.
  abbrev pub IsDone : Node Ip → Bool × Node Ip → Type 0
  IsDone node (processed, after) = (processed ≡ true) × (after ≡ record node { disk = after.disk })

  with_disk-Ends :
      (node : Node Ip) (result : Outcome (Disk Ip))
      → Ends Any result
      → Ends (IsDone node) (with_disk net node result)
  with_disk-Ends node result ends =
      >>=-Ends Any (IsDone node) result _ ends (λ disk _. (refl, refl))

  take_lock-Ends :
      (m : Message Ip) (target : FilePath) (node : Node Ip) → Ends Any (take_lock net m target node)
  unfolding take_lock
  take_lock-Ends m target node =
      >>=-Ends Any Any _ _
        (if-Ends Any (not (m.originator_node == node.ip)) _ _
          (permissions_remove-Ends target all_bits node.disk) tt)
        (λ disk _.
          >>=-Ends Any Any _ _
            (create_directories-Ends (remove_filename (lock_file_path target)) disk)
            (λ disk' _. save_lock_file-Ends net node.now (lock_file_path target) m _ disk'))

  stamped-Ends :
      (old : Option ℕ) (f : ℕ → Outcome (Disk Ip))
      → ((a : ℕ) → Ends Any (f a))
      → Ends Any (elim old [ none ↦ undefined | some a ↦ f a ])
  stamped-Ends none f ends = tt
  stamped-Ends (some a) f ends = ends a

  contest_lock-Ends :
      (m : Message Ip) (target : FilePath) (timestamp : ℕ) (node : Node Ip)
      → Ends Any (contest_lock net m target timestamp node)
  unfolding contest_lock
  contest_lock-Ends m target timestamp node =
      >>=-Ends Any Any _ _ (load_lock_file-Ends net target node.disk) (λ (old_lock, bits) _.
        stamped-Ends (timestamp_of old_lock.body)
          (λ old.
            if ltb timestamp old
            then (create_directories (remove_filename (lock_file_path target)) node.disk >>= λ disk.
                save_lock_file net node.now (lock_file_path target) m bits disk)
            else returns node.disk)
          (λ old.
            if-Ends Any (ltb timestamp old) _ _
              (>>=-Ends Any Any _ _
                (create_directories-Ends (remove_filename (lock_file_path target)) node.disk)
                (λ disk _. save_lock_file-Ends net node.now (lock_file_path target) m bits disk))
              tt))

  release_lock-Ends :
      (target : FilePath) (to_add : WriteBits) (disk : Disk Ip)
      → Ends Any (release_lock net target to_add disk)
  unfolding release_lock
  release_lock-Ends target to_add disk =
      if-Ends Any (is_none (write_bits target disk)) _ _
        (>>=-Ends Any Any _ _ (permissions_add-Ends target to_add disk)
          (λ disk' _. remove-Ends (lock_file_path target) disk'))
        tt

  delete_file_and_records-Ends :
      (target : FilePath) (bits : WriteBits) (disk : Disk Ip)
      → Ends Any (delete_file_and_records net target bits disk)
  unfolding delete_file_and_records
  delete_file_and_records-Ends target bits disk =
      >>=-Ends Any Any _ _ (permissions_add-Ends target bits disk) (λ disk' _.
        >>=-Ends Any Any _ _ (remove-Ends target disk') (λ disk'' _.
          >>=-Ends Any Any _ _ (remove-Ends (lock_file_path target) disk'')
            (λ last _. remove-Ends (wnts_path target) last)))

  write_content-Ends :
      (target : FilePath) (content : Text) (bits : WriteBits) (now : ℕ) (disk : Disk Ip)
      → Ends Any (write_content net target content bits now disk)
  unfolding write_content
  write_content-Ends target content bits now disk =
      >>=-Ends Any Any _ _ (permissions_add-Ends target bits disk) (λ disk' _.
        >>=-Ends Any Any _ _ (create_directories-Ends (remove_filename target) disk')
          (λ disk'' _. permissions_remove-Ends target bits _))

  lock_check-Ends :
      (m : Message Ip) (target : FilePath) (node : Node Ip)
      → Ends Any (lock_check net m target node)
  unfolding lock_check
  lock_check-Ends m target node =
      if-Ends Any (exists (lock_file_path target) node.disk) _ _
        (>>=-Ends Any Any _ _ (load_lock_file-Ends net target node.disk) (λ _ _. tt)) tt

  allowed-Ends :
      (node : Node Ip) (allowed : Option WriteBits) (f : WriteBits → Outcome (Disk Ip))
      → ((bits : WriteBits) → Ends Any (f bits))
      → Ends
          (IsDone node)
          (elim allowed [ none ↦ returns (true, node) | some bits ↦ with_disk net node (f bits) ])
  allowed-Ends node none f ends = (refl, refl)
  allowed-Ends node (some bits) f ends = with_disk-Ends node (f bits) (ends bits)

  pub process_lock_message-Ends :
      (m : Message Ip) (target : FilePath) (timestamp : ℕ) (node : Node Ip)
      → is_finished_connecting node ≡ true
      → Ends (IsDone node) (process_lock_message net m target timestamp node)
  unfolding process_lock_message
  process_lock_message-Ends m target timestamp node finished = rw finished (
      if-Ends (IsDone node) (not (exists target node.disk)) _ _ (refl, refl)
        (if-Ends (IsDone node) (not (exists (lock_file_path target) node.disk)) _ _
          (with_disk-Ends node _ (take_lock-Ends m target node))
          (with_disk-Ends node _ (contest_lock-Ends m target timestamp node))))

  pub process_unlock_message-Ends :
      (m : Message Ip) (target : FilePath) (node : Node Ip)
      → is_finished_connecting node ≡ true
      → Ends (IsDone node) (process_unlock_message net m target node)
  unfolding process_unlock_message
  process_unlock_message-Ends m target node finished = rw finished (
      if-Ends (IsDone node) (exists (lock_file_path target) node.disk) _ _
        (>>=-Ends Any (IsDone node) _ _ (load_lock_file-Ends net target node.disk)
          (λ (old_lock, to_add) _.
            if-Ends (IsDone node) (m.originator_node == old_lock.originator_node) _ _
              (with_disk-Ends node _ (release_lock-Ends target to_add node.disk)) (refl, refl)))
        (refl, refl))

  pub process_delete_file_message-Ends :
      (m : Message Ip) (target : FilePath) (node : Node Ip)
      → is_finished_connecting node ≡ true
      → Ends (IsDone node) (process_delete_file_message net m target node)
  unfolding process_delete_file_message
  process_delete_file_message-Ends m target node finished = rw finished (
      >>=-Ends Any (IsDone node) _ _ (lock_check-Ends m target node) (λ allowed _.
        allowed-Ends node allowed (λ bits. delete_file_and_records net target bits node.disk)
          (λ bits. delete_file_and_records-Ends target bits node.disk)))

  pub process_content_file_message-Ends :
      (m : Message Ip) (target : FilePath) (content : Text) (node : Node Ip)
      → is_finished_connecting node ≡ true
      → Ends (IsDone node) (process_content_file_message net m target content node)
  unfolding process_content_file_message
  process_content_file_message-Ends m target content node finished = rw finished (
      >>=-Ends Any (IsDone node) _ _ (lock_check-Ends m target node) (λ allowed _.
        allowed-Ends node allowed (λ bits. write_content net target content bits node.now node.disk)
          (λ bits. write_content-Ends target content bits node.now node.disk)))
