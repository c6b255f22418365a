-- ===== src/Handlers/Files/Changes.antt =====
-- Changes of a file's content and deletions that other nodes report.
use cpe400_peer_2_peer_file.Base.{
  ℕ, true, false, none, some, Eq, ◌==◌, path_eq, if◌then◌else◌, ◌≡◌, refl, ◌∙◌, ◌≢◌, arith,
  Bool-cases, inl, inr,
}
use cpe400_peer_2_peer_file.Base.Outcome.{returns, throws, no_such_file}
use cpe400_peer_2_peer_file.Base.Dict
use cpe400_peer_2_peer_file.Base.Dict.{lookup-insert, lookup-erase}
use cpe400_peer_2_peer_file.Text.{Text}
use cpe400_peer_2_peer_file.Paths.{FilePath, wnts_path, remove_filename, lock_file_path}
use cpe400_peer_2_peer_file.Permissions.{WriteBits, no_bits, bits_or, bits_without}
use cpe400_peer_2_peer_file.Platform.{Platform}
use cpe400_peer_2_peer_file.Messages.{Message}
use cpe400_peer_2_peer_file.Disk.{
  file_bytes, lock_record, File, Entry, file, Disk, is_directory, set_write, permissions_entry,
  permissions_add, permissions_remove, write_file,
}
use cpe400_peer_2_peer_file.Disk.Laws.{Clear, Clear-insert, create_directories-Created, remove_lem}
use cpe400_peer_2_peer_file.Node.{Node, is_finished_connecting}
use cpe400_peer_2_peer_file.Handlers.Files.{
  lock_check, process_delete_file_message, process_content_file_message, write_content,
  delete_file_and_records,
}

module _ {Ip : Type 0} ⦃ip_eq : Eq Ip⦄ (net : Platform Ip) where
  -- While another node holds the lock of a file, no reported change or deletion of it has an effect,
  -- not even one that the holder of the lock reports.
  pub locked_by_other :
      (m lock : Message Ip) (saved : WriteBits) (target : FilePath) (content : Text)
      (node : Node Ip) (g : File Ip)
      → is_finished_connecting node ≡ true
      → Dict.lookup (lock_file_path target) node.disk ≡ some (file g)
      → g.content ≡ lock_record lock saved
      → lock.originator_node ≢ node.ip
      → (process_content_file_message net m target content node ≡ returns (true, node))
        × (process_delete_file_message net m target node ≡ returns (true, node))
  unfolding process_content_file_message process_delete_file_message lock_check
  locked_by_other m lock saved target content node g done locked is_lock other =
      (ground arith, ground arith)

  -- On a connected node, a reported change of a file that it does not have, and a reported deletion of one that it
  -- does not have any more, end in an exception, if the file is not locked.
  pub unlocked_missing :
      (m : Message Ip) (target : FilePath) (content : Text) (node : Node Ip)
      → is_finished_connecting node ≡ true
      → Dict.lookup (lock_file_path target) node.disk ≡ none
      → Dict.lookup target node.disk ≡ none
      → (process_content_file_message net m target content node ≡ throws no_such_file)
        × (process_delete_file_message net m target node ≡ throws no_such_file)
  unfolding process_content_file_message process_delete_file_message lock_check permissions_add
  unlocked_missing m target content node done unlocked missing = (ground arith, ground arith)

  -- The file as writing leaves it: a file that the owner may not write stays as it is.
  abbrev pub rewritten : Text → ℕ → File Ip → File Ip
  rewritten content now f =
      if f.perms.write.owner then record f { content = file_bytes content; modified = now } else f

  lookup-rewritten :
      (now : ℕ) (p : FilePath) (content : Text) (disk : Disk Ip) (f : File Ip) (q : FilePath)
      → Dict.lookup p disk ≡ some (file f)
      → Dict.lookup q (write_file net now p (file_bytes content) disk)
        ≡ (if q == p then some (file (rewritten content now f)) else Dict.lookup q disk)
  unfolding write_file
  lookup-rewritten now p content disk f q here =
      let f' : File Ip = record f { content = file_bytes content; modified = now } in
      elim (Bool-cases f.perms.write.owner) [
        | inl writable ↦ ground (arith, lookup-insert q p (file f') disk)
        | inr bare ↦ ground arith
      ]

  -- Adding permissions for a while, making the folders, writing, and taking the permissions away.
  write_content_lem :
      (target : FilePath) (content : Text) (bits : WriteBits) (now : ℕ) (disk : Disk Ip)
      (f : File Ip)
      → Dict.lookup target disk ≡ some (file f)
      → Clear (remove_filename target) disk
      → let f' = rewritten content now (set_write (bits_or f.perms.write bits) f) in
        (d : Disk Ip) × (write_content net target content bits now disk ≡ returns d)
        × (Dict.lookup target d ≡ some (file (set_write (bits_without f'.perms.write bits) f')))
        × ((q : FilePath) (e : Entry Ip)
            → q ≢ target
            → Dict.lookup q disk ≡ some e
            → Dict.lookup q d ≡ some e)
  unfolding write_content permissions_add permissions_remove
  write_content_lem target content bits now disk f here clear =
      let f₁ : File Ip = set_write (bits_or f.perms.write bits) f in
      let f₂ : File Ip = rewritten content now f₁ in
      let f₃ : File Ip = set_write (bits_without f₂.perms.write bits) f₂ in
      let disk₁ = Dict.insert target (file f₁) disk in
      let look₁ = λ (q : FilePath). lookup-insert q target (file f₁) disk in
      let c =
        create_directories-Created (remove_filename target) disk₁
          (Clear-insert (remove_filename target) target disk f f₁ here clear) in
      let kept : Dict.lookup target c.made ≡ some (file f₁) =
        c.keeps target (ground (arith, look₁ target)) in
      let disk₂ = write_file net now target (file_bytes content) c.made in
      let look₂ = λ (q : FilePath). lookup-rewritten now target content c.made f₁ q kept in
      let there : Dict.lookup target disk₂ ≡ some (file f₂) = ground (arith, look₂ target) in
      let look₃ = λ (q : FilePath). lookup-insert q target (file f₃) disk₂ in
      (
        Dict.insert target (file f₃) disk₂,
        rw (here, permissions_entry, c.gives, there) refl,
        ground (arith, look₃ target),
        λ q e differ h.
            let kept_e = c.keeps q {e = e} (ground (arith, look₁ q)) in
            ground (arith, look₃ q, look₂ q),
      )

  -- A reported change of an existing file that is not locked, on a connected node, where no file is in
  -- the way of its folders: the file gets the reported content if its owner may
  -- write it, and otherwise nothing of it changes, though the message counts as processed. Its
  -- permissions stay, and so does every other entry.
  pub process_content_file_message_unlocked :
      (m : Message Ip) (target : FilePath) (content : Text) (node : Node Ip) (f : File Ip)
      → is_finished_connecting node ≡ true
      → Dict.lookup (lock_file_path target) node.disk ≡ none
      → Dict.lookup target node.disk ≡ some (file f)
      → Clear (remove_filename target) node.disk
      → (d : Disk Ip) × (process_content_file_message net m target content node
          ≡ returns (true, record node { disk = d }))
        × (Dict.lookup target d ≡ some (file (rewritten content node.now f)))
        × ((q : FilePath) (e : Entry Ip)
            → q ≢ target
            → Dict.lookup q node.disk ≡ some e
            → Dict.lookup q d ≡ some e)
  unfolding process_content_file_message lock_check
  process_content_file_message_unlocked m target content node f done unlocked here clear =
      let (d, gives, there, kept) =
        write_content_lem target content no_bits node.now node.disk f here clear in
      (d, ground arith, there ∙ ground arith, kept)

  -- A change of a connected node's own that comes back while it holds the lock itself, with the
  -- file's write permissions saved in the lock and no file in the way of its folders: the file gets
  -- the content, if its owner may write it, and loses all the write permissions that the lock has
  -- saved.
  pub process_content_file_message_own :
      (m lock : Message Ip) (target : FilePath) (content : Text) (node : Node Ip) (f g : File Ip)
      → is_finished_connecting node ≡ true
      → Dict.lookup (lock_file_path target) node.disk ≡ some (file g)
      → g.content ≡ lock_record lock f.perms.write
      → lock.originator_node ≡ node.ip
      → m.originator_node ≡ node.ip
      → Dict.lookup target node.disk ≡ some (file f)
      → Clear (remove_filename target) node.disk
      → (d : Disk Ip) × (process_content_file_message net m target content node
          ≡ returns (true, record node { disk = d }))
        × (Dict.lookup target d ≡ some (file (set_write no_bits (rewritten content node.now f))))
  unfolding process_content_file_message lock_check
  process_content_file_message_own m lock target content node f g done locked is_lock own ours here
        clear =
      let (d, gives, there, kept) =
        write_content_lem target content f.perms.write node.now node.disk f here clear in
      (d, ground arith, there ∙ ground arith)

  -- A reported deletion of an existing file that is not locked, on a connected node, where no folder
  -- is in the place of its saved hash: the file and its saved hash are gone, and
  -- nothing else is.
  pub process_delete_file_message_unlocked :
      (m : Message Ip) (target : FilePath) (node : Node Ip) (f : File Ip)
      → is_finished_connecting node ≡ true
      → Dict.lookup (lock_file_path target) node.disk ≡ none
      → Dict.lookup target node.disk ≡ some (file f)
      → is_directory (Dict.lookup (wnts_path target) node.disk) ≡ false
      → (d : Disk Ip) × (process_delete_file_message net m target node
          ≡ returns (true, record node { disk = d }))
        × ((q : FilePath)
            → Dict.lookup q d ≡ (
                if q == target
                then none
                else if q == wnts_path target
                then none
                else Dict.lookup q node.disk))
  unfolding process_delete_file_message lock_check delete_file_and_records permissions_add
  process_delete_file_message_unlocked m target node f done unlocked here plain =
      let lock_path = lock_file_path target in
      let f₁ : File Ip = set_write (bits_or f.perms.write no_bits) f in
      let disk₁ = Dict.insert target (file f₁) node.disk in
      let look₁ = λ (q : FilePath). lookup-insert q target (file f₁) node.disk in
      let (disk₂, gives₂, look₂) = remove_lem target disk₁ (ground (arith, look₁ target)) in
      let free : Dict.lookup lock_path disk₂ ≡ none =
        ground (arith, look₁ lock_path, look₂ lock_path) in
      let (disk₃, gives₃, look₃) = remove_lem lock_path disk₂ (ground arith) in
      let (disk₄, gives₄, look₄) = remove_lem (wnts_path target) disk₃ (
        ground
          (arith, look₁ (wnts_path target), look₂ (wnts_path target), look₃ (wnts_path target))) in
      (
        disk₄,
        rw (done, unlocked, here, permissions_entry, gives₂, gives₃, gives₄) refl,
        λ q. ground (arith, look₁ q, look₂ q, look₃ q, look₄ q),
      )
