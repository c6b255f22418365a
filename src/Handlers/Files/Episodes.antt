-- ===== src/Handlers/Files/Episodes.antt =====
-- A lock followed by its unlock, and two locks that compete.
use cpe400_peer_2_peer_file.Base.{
  ℕ, true, false, none, some, Eq, path_eq, ltb, if◌then◌else◌, ◌≡◌, refl, ◌≢◌, arith, Bool-cases,
  inl, inr,
}
use cpe400_peer_2_peer_file.Base.Outcome.{returns, ◌>>=◌}
use cpe400_peer_2_peer_file.Base.Dict
use cpe400_peer_2_peer_file.Base.Dict.{lookup-insert}
use cpe400_peer_2_peer_file.Paths.{FilePath, remove_filename, lock_file_path}
use cpe400_peer_2_peer_file.Paths.Laws.{lock_file_path-ne}
use cpe400_peer_2_peer_file.Permissions.{WriteBits, no_bits, is_none}
use cpe400_peer_2_peer_file.Platform.{Platform}
use cpe400_peer_2_peer_file.Messages.{Message}
use cpe400_peer_2_peer_file.Messages.Wire.{received}
use cpe400_peer_2_peer_file.Disk.{
  lock_record, File, Entry, file, Disk, set_write, write_file, save_lock_file,
}
use cpe400_peer_2_peer_file.Disk.Laws.{Clear, create_directories-Created}
use cpe400_peer_2_peer_file.Node.{Node, is_finished_connecting}
use cpe400_peer_2_peer_file.Queue.{timestamp_of}
use cpe400_peer_2_peer_file.Handlers.Files.{Handled, process_lock_message, process_unlock_message}
use cpe400_peer_2_peer_file.Handlers.Files.Locks.{
  new_lock, AddsOnly, process_lock_message_remote, process_lock_message_local,
  process_unlock_message_bare, process_unlock_message_writable,
}

module _ {Ip : Type 0} ⦃ip_eq : Eq Ip⦄ (net : Platform Ip) where
  -- The handling of a lock, and then of an unlock of the same file.
  abbrev pub lock_then_unlock : Message Ip → ℕ → Message Ip → FilePath → Node Ip → Handled Ip
  lock_then_unlock m timestamp m' target node =
      process_lock_message net m target timestamp node >>= λ (_, node').
      process_unlock_message net m' target node'

  -- On a connected node, for an existing, unlocked file the folder of whose lock file can be made:
  -- once another node has locked the file and unlocked it again, the lock file is gone, and the file
  -- has none of its write permissions.
  pub lock_then_unlock_remote :
      (m m' : Message Ip) (target : FilePath) (timestamp : ℕ) (node : Node Ip) (f : File Ip)
      → is_finished_connecting node ≡ true
      → m.originator_node ≢ node.ip
      → m'.originator_node ≡ m.originator_node
      → Dict.lookup target node.disk ≡ some (file f)
      → Dict.lookup (lock_file_path target) node.disk ≡ none
      → Clear (remove_filename (lock_file_path target)) node.disk
      → (d : Disk Ip) × (lock_then_unlock m timestamp m' target node
          ≡ returns (true, record node { disk = d }))
        × (Dict.lookup target d ≡ some (file (set_write no_bits f)))
        × (Dict.lookup (lock_file_path target) d ≡ none)
  lock_then_unlock_remote m m' target timestamp node f done other same here unlocked clear =
      let (d, gives, there, locked) =
        process_lock_message_remote net m target timestamp node f done other here unlocked clear in
      let (d', gives', there', free) =
        process_unlock_message_bare net m' (received net m) target no_bits
          (record node { disk = d }) (set_write no_bits f) _ done there refl locked refl same in
      (d', rw gives gives', there', free)

  -- On a connected node, for an existing, unlocked, writable file the folder of whose lock file can be
  -- made: once this node has locked the file itself, an unlock changes nothing, and the lock stays.
  -- In the end all entries of the disk are as they were, no file is new but the lock file, and
  -- only folders on the way to it can be.
  pub lock_then_unlock_local :
      (m m' : Message Ip) (target : FilePath) (timestamp : ℕ) (node : Node Ip) (f : File Ip)
      → is_finished_connecting node ≡ true
      → m.originator_node ≡ node.ip
      → is_none f.perms.write ≡ false
      → Dict.lookup target node.disk ≡ some (file f)
      → Dict.lookup (lock_file_path target) node.disk ≡ none
      → Clear (remove_filename (lock_file_path target)) node.disk
      → (d : Disk Ip) × (lock_then_unlock m timestamp m' target node
          ≡ returns (true, record node { disk = d }))
        × (Dict.lookup target d ≡ some (file f))
        × (Dict.lookup (lock_file_path target) d ≡ some (new_lock net m f.perms.write node))
        × AddsOnly (lock_file_path target) node.disk d
  lock_then_unlock_local m m' target timestamp node f done own writable here unlocked clear =
      let (d, gives, there, locked, added) =
        process_lock_message_local net m target timestamp node f done own here unlocked clear in
      (
        d,
        rw gives (
            process_unlock_message_writable net m' (received net m) target f.perms.write
              (record node { disk = d }) f _ done there writable locked refl),
        there,
        locked,
        added,
      )

  -- A second lock of a locked file on a connected node, where the lock file is writable, holds a time
  -- stamp, and has a folder that can be made: the lock file keeps the message with the earlier time
  -- stamp (the one that it holds where they are equal) and the permissions that were saved first.
  pub process_lock_message_contested :
      (m old : Message Ip) (saved : WriteBits) (target : FilePath) (timestamp old_timestamp : ℕ)
      (node : Node Ip) (e : Entry Ip) (g : File Ip)
      → is_finished_connecting node ≡ true
      → Dict.lookup target node.disk ≡ some e
      → Dict.lookup (lock_file_path target) node.disk ≡ some (file g)
      → g.content ≡ lock_record old saved
      → g.perms.write.owner ≡ true
      → timestamp_of old.body ≡ some old_timestamp
      → Clear (remove_filename (lock_file_path target)) node.disk
      → (d : Disk Ip) × (process_lock_message net m target timestamp node
          ≡ returns (true, record node { disk = d }))
        × (Dict.lookup target d ≡ some e)
        × (Dict.lookup (lock_file_path target) d ≡ (
            if ltb timestamp old_timestamp
            then some (
                file
                  (record g { content = lock_record (received net m) saved; modified = node.now }))
            else some (file g)))
  unfolding process_lock_message save_lock_file write_file
  process_lock_message_contested m old saved target timestamp old_timestamp node e g done here
        locked is_lock writable stamp clear =
      let lock_path = lock_file_path target in
      let c = create_directories-Created (remove_filename lock_path) node.disk clear in
      let there = c.keeps lock_path locked in
      let kept = c.keeps target here in
      let g' : File Ip = record g {
        content = lock_record (received net m) saved;
        modified = node.now;
      } in
      let look = λ (q : FilePath). lookup-insert q lock_path (file g') c.made in
      elim (Bool-cases (ltb timestamp old_timestamp)) [
        | inl sooner ↦ (
          Dict.insert lock_path (file g') c.made,
          ground (arith, c.gives),
          ground (arith, look target, lock_file_path-ne target),
          ground (arith, look lock_path),
        )
        | inr later ↦ (node.disk, ground arith, here, ground arith)
      ]
