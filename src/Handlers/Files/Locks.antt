-- ===== src/Handlers/Files/Locks.antt =====
-- Taking, contesting and releasing the lock of a file.
use cpe400_peer_2_peer_file.Base.{
  ℕ, true, false, none, some, Eq, ◌==◌, path_eq, if◌then◌else◌, ◌≡◌, ◌∙◌, ◌≢◌, arith,
}
use cpe400_peer_2_peer_file.Base.Outcome.{returns}
use cpe400_peer_2_peer_file.Base.Dict
use cpe400_peer_2_peer_file.Base.Dict.{lookup-insert, lookup-erase}
use cpe400_peer_2_peer_file.Paths.{FilePath, remove_filename, lock_file_path}
use cpe400_peer_2_peer_file.Paths.Laws.{length-lock_file_path, lock_file_path-ne}
use cpe400_peer_2_peer_file.Permissions.{
  WriteBits, no_bits, all_bits, bits_or, bits_without, is_none,
}
use cpe400_peer_2_peer_file.Platform.{Platform}
use cpe400_peer_2_peer_file.Messages.{Message}
use cpe400_peer_2_peer_file.Messages.Wire.{received}
use cpe400_peer_2_peer_file.Disk.{
  Content, lock_record, File, Entry, directory, file, Disk, set_write, permissions_add,
  permissions_remove, create_directories, remove, write_file, save_lock_file,
}
use cpe400_peer_2_peer_file.Disk.Laws.{Clear, Clear-insert, create_directories-Created}
use cpe400_peer_2_peer_file.Disk.Folders.{
  NotFolder, create_directories-apart, create_directories-file,
}
use cpe400_peer_2_peer_file.Node.{Node, is_finished_connecting}
use cpe400_peer_2_peer_file.Handlers.Files.{process_lock_message, process_unlock_message}

bits_without-all : (a : WriteBits) → bits_without a all_bits ≡ no_bits
bits_without-all a = ground arith

module _ {Ip : Type 0} where
  -- All entries stay. What is new is the lock file, and folders on the way to it.
  abbrev pub AddsOnly : FilePath → Disk Ip → Disk Ip → Type 0
  AddsOnly lock_path before after =
      ((q : FilePath) (e : Entry Ip) → Dict.lookup q before ≡ some e → Dict.lookup q after ≡ some e)
      × ((q : FilePath) (f : File Ip)
          → q ≢ lock_path
          → Dict.lookup q after ≡ some (file f)
          → Dict.lookup q before ≡ some (file f))
      × ((q : FilePath)
          → q ≢ lock_path
          → NotFolder q (remove_filename lock_path)
          → Dict.lookup q after ≡ Dict.lookup q before)

module _ {Ip : Type 0} ⦃ip_eq : Eq Ip⦄ (net : Platform Ip) where
  -- The lock file that a message leaves.
  abbrev pub new_lock : Message Ip → WriteBits → Node Ip → Entry Ip
  new_lock m bits node = file (record {
    content = lock_record (received net m) bits;
    perms = net.created_perms;
    modified = node.now;
  })

  -- The entry of the locked file, with these write permissions, and that of its lock file.
  abbrev pub IsLocked :
      FilePath → File Ip → WriteBits → Message Ip → WriteBits → Node Ip → Disk Ip → Type 0
  IsLocked target f bits m saved node disk =
      (Dict.lookup target disk ≡ some (file (set_write bits f)))
      × (Dict.lookup (lock_file_path target) disk ≡ some (new_lock m saved node))

  -- A new file in a folder that exists.
  lookup-write_file :
      (now : ℕ) (p : FilePath) (content : Content Ip) (disk : Disk Ip) (q : FilePath)
      → Dict.lookup p disk ≡ none
      → Dict.lookup (remove_filename p) disk ≡ some directory
      → Dict.lookup q (write_file net now p content disk) ≡ (
          if q == p
          then some (file (record { content = content; perms = net.created_perms; modified = now }))
          else Dict.lookup q disk)
  unfolding write_file
  lookup-write_file now p content disk q new parent = ground (
    arith,
    lookup-insert q p
        (file (record { content = content; perms = net.created_perms; modified = now })) disk,
  )

  -- The lock file is made beside a file whose own permissions are settled.
  save_first_lock :
      (m : Message Ip) (target : FilePath) (f : File Ip) (node : Node Ip) (disk : Disk Ip)
      → Dict.lookup target disk ≡ some (file f)
      → Dict.lookup (lock_file_path target) disk ≡ none
      → Clear (remove_filename (lock_file_path target)) disk
      → (d : Disk Ip) × (create_directories (remove_filename (lock_file_path target)) disk
          ≡ returns d)
        × (Dict.lookup target d ≡ some (file f))
        × (d' : Disk Ip) × (save_lock_file net node.now (lock_file_path target) m f.perms.write d
            ≡ returns d')
        × (Dict.lookup target d' ≡ some (file f))
        × (Dict.lookup (lock_file_path target) d' ≡ some (new_lock m f.perms.write node))
        × AddsOnly (lock_file_path target) disk d'
  unfolding save_lock_file
  save_first_lock m target f node disk here unlocked clear =
      let lock_path = lock_file_path target in
      let c = create_directories-Created (remove_filename lock_path) disk clear in
      let kept = c.keeps target here in
      let free : Dict.lookup lock_path c.made ≡ none =
        c.same_longer lock_path (length-lock_file_path target) ∙ unlocked in
      let look = λ (q : FilePath).
        lookup-write_file node.now lock_path (lock_record (received net m) f.perms.write) c.made q
          free c.there in
      (
        c.made,
        c.gives,
        kept,
        write_file net node.now lock_path (lock_record (received net m) f.perms.write) c.made,
        ground (arith, c.there),
        ground (arith, look target),
        ground (arith, look lock_path),
        (
          λ q e h. ground (arith, look q, c.keeps q h),
          λ q g other h.
              create_directories-file (remove_filename lock_path) disk c.made q g c.gives
                (ground (arith, look q)),
          λ q other apart. ground (
            arith,
            look q,
            create_directories-apart (remove_filename lock_path) disk c.made q c.gives apart,
          ),
        ),
      )

  -- A lock by another node on a file that is not locked: the file loses its write permissions, and the
  -- lock file saves that it has none.
  pub process_lock_message_remote :
      (m : Message Ip) (target : FilePath) (timestamp : ℕ) (node : Node Ip) (f : File Ip)
      → is_finished_connecting node ≡ true
      → m.originator_node ≢ node.ip
      → Dict.lookup target node.disk ≡ some (file f)
      → Dict.lookup (lock_file_path target) node.disk ≡ none
      → Clear (remove_filename (lock_file_path target)) node.disk
      → (d : Disk Ip) × (process_lock_message net m target timestamp node
          ≡ returns (true, record node { disk = d }))
        × (Dict.lookup target d ≡ some (file (set_write no_bits f)))
        × (Dict.lookup (lock_file_path target) d ≡ some (new_lock m no_bits node))
  unfolding process_lock_message permissions_remove
  process_lock_message_remote m target timestamp node f done other here unlocked clear =
      let f' : File Ip = set_write no_bits f in
      let bare = Dict.insert target (file f') node.disk in
      let look = λ (q : FilePath). lookup-insert q target (file f') node.disk in
      let (d, gives, kept, d', saves, there, locked, added) =
        save_first_lock m target f' node bare (ground (arith, look target))
          (ground (arith, look (lock_file_path target)))
          (Clear-insert (remove_filename (lock_file_path target)) target node.disk f f' here
            clear) in
      (d', ground (arith, bits_without-all f.perms.write, saves), there, locked)

  -- A lock by this node on a file of its own that is not locked: the lock file saves the write
  -- permissions of the file, and nothing else is new but folders on the way to it.
  pub process_lock_message_local :
      (m : Message Ip) (target : FilePath) (timestamp : ℕ) (node : Node Ip) (f : File Ip)
      → is_finished_connecting node ≡ true
      → m.originator_node ≡ node.ip
      → Dict.lookup target node.disk ≡ some (file f)
      → Dict.lookup (lock_file_path target) node.disk ≡ none
      → Clear (remove_filename (lock_file_path target)) node.disk
      → (d : Disk Ip) × (process_lock_message net m target timestamp node
          ≡ returns (true, record node { disk = d }))
        × (Dict.lookup target d ≡ some (file f))
        × (Dict.lookup (lock_file_path target) d ≡ some (new_lock m f.perms.write node))
        × AddsOnly (lock_file_path target) node.disk d
  unfolding process_lock_message
  process_lock_message_local m target timestamp node f done own here unlocked clear =
      let (d, gives, kept, d', saves, there, locked, added) =
        save_first_lock m target f node node.disk here unlocked clear in
      (d', ground (arith, saves), there, locked, added)

  -- An unlock by the node that holds the lock, of a file that has no write permission: the saved
  -- permissions come back, and the lock file goes.
  pub process_unlock_message_bare :
      (m lock : Message Ip) (target : FilePath) (saved : WriteBits) (node : Node Ip) (f g : File Ip)
      → is_finished_connecting node ≡ true
      → Dict.lookup target node.disk ≡ some (file f)
      → is_none f.perms.write ≡ true
      → Dict.lookup (lock_file_path target) node.disk ≡ some (file g)
      → g.content ≡ lock_record lock saved
      → m.originator_node ≡ lock.originator_node
      → (d : Disk Ip) × (process_unlock_message net m target node
          ≡ returns (true, record node { disk = d }))
        × (Dict.lookup target d ≡ some (file (set_write (bits_or f.perms.write saved) f)))
        × (Dict.lookup (lock_file_path target) d ≡ none)
  unfolding process_unlock_message permissions_add remove
  process_unlock_message_bare m lock target saved node f g done here bare locked is_lock same =
      let lock_path = lock_file_path target in
      let f' : File Ip = set_write (bits_or f.perms.write saved) f in
      let disk = Dict.insert target (file f') node.disk in
      let look = λ (q : FilePath). lookup-insert q target (file f') node.disk in
      let gone = λ (q : FilePath). lookup-erase q lock_path disk in
      (
        Dict.erase lock_path disk,
        ground (arith, look lock_path, lock_file_path-ne target),
        ground (arith, look target, gone target, lock_file_path-ne target),
        ground (arith, gone lock_path),
      )

  -- An unlock of a file that still has a write permission changes nothing, whoever asks for it.
  pub process_unlock_message_writable :
      (m lock : Message Ip) (target : FilePath) (saved : WriteBits) (node : Node Ip) (f g : File Ip)
      → is_finished_connecting node ≡ true
      → Dict.lookup target node.disk ≡ some (file f)
      → is_none f.perms.write ≡ false
      → Dict.lookup (lock_file_path target) node.disk ≡ some (file g)
      → g.content ≡ lock_record lock saved
      → process_unlock_message net m target node ≡ returns (true, node)
  unfolding process_unlock_message
  process_unlock_message_writable m lock target saved node f g done here writable locked is_lock =
      ground arith
