-- ===== src/Disk/Ending.antt =====
-- The operations on the file system do not meet a bound of the model.
use cpe400_peer_2_peer_file.Base.{ℕ, List, [], ◌∷◌, ◌++◌, Option, none, some, path_eq}
use cpe400_peer_2_peer_file.Base.Outcome.{Ends, Any, >>=-Ends, if-Ends}
use cpe400_peer_2_peer_file.Base.Dict
use cpe400_peer_2_peer_file.Paths.{FilePath, lock_file_path}
use cpe400_peer_2_peer_file.Permissions.{WriteBits}
use cpe400_peer_2_peer_file.Platform.{Platform}
use cpe400_peer_2_peer_file.Messages.{Message}
use cpe400_peer_2_peer_file.Disk.{
  Content, file_bytes, lock_record, saved_hash, Entry, directory, file, Disk, permissions_entry,
  permissions_add, permissions_remove, make_directory, make_directories_from, create_directories,
  has_below, remove_entry, remove, entry_lock, load_lock_file, save_lock_file, opens_entry,
  folder_files, enumerate_all_files,
}

module _ {Ip : Type 0} where
  permissions_entry-Ends :
      (e : Option (Entry Ip)) (p : FilePath) (change : WriteBits → WriteBits) (disk : Disk Ip)
      → Ends Any (permissions_entry e p change disk)
  permissions_entry-Ends none p change disk = tt
  permissions_entry-Ends (some directory) p change disk = tt
  permissions_entry-Ends (some (file f)) p change disk = tt

  pub permissions_add-Ends :
      (p : FilePath) (bits : WriteBits) (disk : Disk Ip) → Ends Any (permissions_add p bits disk)
  unfolding permissions_add
  permissions_add-Ends p bits disk = permissions_entry-Ends (Dict.lookup p disk) p _ disk

  pub permissions_remove-Ends :
      (p : FilePath) (bits : WriteBits) (disk : Disk Ip) → Ends Any (permissions_remove p bits disk)
  unfolding permissions_remove
  permissions_remove-Ends p bits disk = permissions_entry-Ends (Dict.lookup p disk) p _ disk

  make_directory-Ends :
      (e : Option (Entry Ip)) (p : FilePath) (disk : Disk Ip) → Ends Any (make_directory e p disk)
  make_directory-Ends none p disk = tt
  make_directory-Ends (some directory) p disk = tt
  make_directory-Ends (some (file f)) p disk = tt

  make_directories_from-Ends :
      (prefix rest : FilePath) (disk : Disk Ip) → Ends Any (make_directories_from prefix rest disk)
  unfolding make_directories_from
  make_directories_from-Ends prefix [] disk = tt
  make_directories_from-Ends prefix (name ∷ rest) disk =
      let here = prefix ++ name ∷ [] in
      >>=-Ends Any Any _ _ (make_directory-Ends (Dict.lookup here disk) here disk)
        (λ disk' _. make_directories_from-Ends here rest disk')

  pub create_directories-Ends :
      (p : FilePath) (disk : Disk Ip) → Ends Any (create_directories p disk)
  unfolding create_directories
  create_directories-Ends [] disk = tt
  create_directories-Ends (name ∷ rest) disk = make_directories_from-Ends [] (name ∷ rest) disk

  remove_entry-Ends :
      (e : Option (Entry Ip)) (p : FilePath) (disk : Disk Ip) → Ends Any (remove_entry e p disk)
  remove_entry-Ends none p disk = tt
  remove_entry-Ends (some directory) p disk = if-Ends Any (has_below p disk) _ _ tt tt
  remove_entry-Ends (some (file f)) p disk = tt

  pub remove-Ends : (p : FilePath) (disk : Disk Ip) → Ends Any (remove p disk)
  unfolding remove
  remove-Ends p disk = remove_entry-Ends (Dict.lookup p disk) p disk

module _ {Ip : Type 0} (net : Platform Ip) where
  entry_lock-Ends : (e : Option (Entry Ip)) → Ends Any (entry_lock net e)
  entry_lock-Ends none = tt
  entry_lock-Ends (some directory) = tt
  entry_lock-Ends (some (file f)) = locked f.content
    where
      locked : (c : Content Ip) → Ends Any (entry_lock net (some (file (record f { content = c }))))
      locked (file_bytes t) = tt
      locked (lock_record m bits) = tt
      locked (saved_hash h) = tt

  pub load_lock_file-Ends : (p : FilePath) (disk : Disk Ip) → Ends Any (load_lock_file net p disk)
  load_lock_file-Ends p disk = entry_lock-Ends (Dict.lookup (lock_file_path p) disk)

  pub save_lock_file-Ends :
      (now : ℕ) (p : FilePath) (m : Message Ip) (bits : WriteBits) (disk : Disk Ip)
      → Ends Any (save_lock_file net now p m bits disk)
  unfolding save_lock_file
  save_lock_file-Ends now p m bits disk =
      if-Ends Any (opens_entry (Dict.lookup p disk) p disk) _ _ tt tt

module _ {Ip : Type 0} where
  folder_files-Ends :
      (e : Option (Entry Ip)) (folder : FilePath) (disk : Disk Ip)
      → Ends Any (folder_files e folder disk)
  folder_files-Ends none folder disk = tt
  folder_files-Ends (some directory) folder disk = tt
  folder_files-Ends (some (file f)) folder disk = tt

  pub enumerate_all_files-Ends :
      (folders : List FilePath) (disk : Disk Ip) → Ends Any (enumerate_all_files folders disk)
  unfolding enumerate_all_files
  enumerate_all_files-Ends [] disk = tt
  enumerate_all_files-Ends (folder ∷ folders) disk =
      >>=-Ends Any Any _ _ (folder_files-Ends (Dict.lookup folder disk) folder disk)
        (λ here _. >>=-Ends Any Any _ _ (enumerate_all_files-Ends folders disk) (λ rest _. tt))
