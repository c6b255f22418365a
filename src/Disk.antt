-- ===== src/Disk.antt =====
-- The file system as the program sees it: std::filesystem and the file streams, enumerateAllFiles
-- (include_everywhere.hpp), and lock files (message_manager.cpp).
pub mod Laws
pub mod Folders
pub mod Ending
use cpe400_peer_2_peer_file.Base.{
  ℕ, zero, suc, ◌+◌, ◌*◌, Bool, true, false, not, ◌&&◌, ◌||◌, List, [], ◌∷◌, ◌++◌, Option, none,
  some, ◌==◌, path_eq, if◌then◌else◌, any, eqb, select, map,
}
use cpe400_peer_2_peer_file.Base.Outcome.{
  Outcome, returns, throws, undefined, too_deep, no_such_file, filesystem_error, archive_error,
  ◌>>=◌,
}
use cpe400_peer_2_peer_file.Base.Dict
use cpe400_peer_2_peer_file.Base.Dict.{Dict}
use cpe400_peer_2_peer_file.Text.{Text, decimal}
use cpe400_peer_2_peer_file.Paths.{FilePath, remove_filename, lock_file_path, in_wnts, below}
use cpe400_peer_2_peer_file.Permissions.{
  WriteBits, Perms, no_bits, all_bits, bits_or, bits_without, is_none,
}
use cpe400_peer_2_peer_file.Platform.{Platform}
use cpe400_peer_2_peer_file.Messages.{Message}
use cpe400_peer_2_peer_file.Messages.Archive.{number}
use cpe400_peer_2_peer_file.Messages.Wire.{save_message, received}

-- What a file holds: bytes, or what the program wrote there to read back.
pub data Content (Ip : Type 0) : Type 0 where
  file_bytes : Text → Content Ip
  -- A lock file: the message that took the lock, and the write permissions to give back
  lock_record : Message Ip → WriteBits → Content Ip
  -- The hash of a file that was last sent, in decimal
  saved_hash : ℕ → Content Ip

-- p.empty(), of a folder: the current directory
abbrev pub is_empty : FilePath → Bool
is_empty [] = true
is_empty (name ∷ rest) = false

pub record File (Ip : Type 0) : Type 0 where
  pub content : Content Ip
  pub perms : Perms
  pub modified : ℕ

pub data Entry (Ip : Type 0) : Type 0 where
  directory : Entry Ip
  file : File Ip → Entry Ip

abbrev pub Disk : Type 0 → Type 0
Disk Ip = Dict FilePath (Entry Ip)

module _ {Ip : Type 0} where
  abbrev pub is_some_entry : Option (Entry Ip) → Bool
  is_some_entry none = false
  is_some_entry (some e) = true

  -- exists(p)
  abbrev pub exists : FilePath → Disk Ip → Bool
  exists p disk = is_some_entry (Dict.lookup p disk)

  abbrev pub is_directory : Option (Entry Ip) → Bool
  is_directory (some directory) = true
  is_directory _ = false

  abbrev entry_write_bits : Option (Entry Ip) → WriteBits
  entry_write_bits (some (file f)) = f.perms.write
  entry_write_bits _ = all_bits

  -- status(p).permissions() & writePerms. Of a missing file the permissions are perms::unknown, which
  -- has every bit; directories are taken to be writable.
  abbrev pub write_bits : FilePath → Disk Ip → WriteBits
  write_bits p disk = entry_write_bits (Dict.lookup p disk)

  abbrev pub set_write : WriteBits → File Ip → File Ip
  set_write bits f = record f { perms = record { write = bits; rest = f.perms.rest } }

  -- permissions(p, …) with a function on the write bits. It throws where there is no p.
  abbrev pub permissions_entry :
      Option (Entry Ip) → FilePath → (WriteBits → WriteBits) → Disk Ip → Outcome (Disk Ip)
  permissions_entry none p change disk = throws no_such_file
  permissions_entry (some directory) p change disk = returns disk
  permissions_entry (some (file f)) p change disk =
      returns (Dict.insert p (file (set_write (change f.perms.write) f)) disk)

  unfoldable pub permissions_add : FilePath → WriteBits → Disk Ip → Outcome (Disk Ip)
  permissions_add p bits disk =
      permissions_entry (Dict.lookup p disk) p (λ old. bits_or old bits) disk

  unfoldable pub permissions_remove : FilePath → WriteBits → Disk Ip → Outcome (Disk Ip)
  permissions_remove p bits disk =
      permissions_entry (Dict.lookup p disk) p (λ old. bits_without old bits) disk

  abbrev make_directory : Option (Entry Ip) → FilePath → Disk Ip → Outcome (Disk Ip)
  make_directory none p disk = returns (Dict.insert p directory disk)
  make_directory (some directory) p disk = returns disk
  make_directory (some (file f)) p disk = throws filesystem_error

  make_directories_from : FilePath → FilePath → Disk Ip → Outcome (Disk Ip)
  make_directories_from prefix [] disk = returns disk
  make_directories_from prefix (name ∷ rest) disk =
      let here = prefix ++ name ∷ [] in
      make_directory (Dict.lookup here disk) here disk >>= λ disk'.
      make_directories_from here rest disk'

  -- create_directories(p): it throws on the empty path, and where a file stands in the way.
  unfoldable pub create_directories : FilePath → Disk Ip → Outcome (Disk Ip)
  unfolding make_directories_from
  create_directories [] disk = throws filesystem_error
  create_directories (name ∷ rest) disk = make_directories_from [] (name ∷ rest) disk

  abbrev has_below : FilePath → Disk Ip → Bool
  has_below p = any (λ (q, e). below p q)

  abbrev remove_entry : Option (Entry Ip) → FilePath → Disk Ip → Outcome (Disk Ip)
  remove_entry none p disk = returns disk
  remove_entry (some directory) p disk =
      if has_below p disk then throws filesystem_error else returns (Dict.erase p disk)
  remove_entry (some (file f)) p disk = returns (Dict.erase p disk)

  -- remove(p): nothing happens where there is no p, and a directory has to be empty.
  unfoldable pub remove : FilePath → Disk Ip → Outcome (Disk Ip)
  remove p disk = remove_entry (Dict.lookup p disk) p disk

  abbrev entry_modified : Option (Entry Ip) → Option ℕ
  entry_modified (some (file f)) = some f.modified
  entry_modified _ = none

  -- last_write_time(p), of a file; none stands for the exception of a missing one.
  abbrev pub last_write_time : FilePath → Disk Ip → Option ℕ
  last_write_time p disk = entry_modified (Dict.lookup p disk)

  abbrev managed : FilePath → FilePath × Entry Ip → Bool
  managed folder (p, directory) = false
  managed folder (p, file f) = below folder p && not (in_wnts p)

  abbrev folder_files : Option (Entry Ip) → FilePath → Disk Ip → Outcome (List FilePath)
  folder_files (some directory) folder disk =
      returns (map (λ (p, e). p) (select (managed folder) disk))
  folder_files none folder disk = throws no_such_file
  folder_files (some (file f)) folder disk = throws filesystem_error

  -- The files in the folders, at any depth, but for those in a .wnts folder. Opening a folder that
  -- does not exist throws.
  unfoldable pub enumerate_all_files : List FilePath → Disk Ip → Outcome (List FilePath)
  enumerate_all_files [] disk = returns []
  enumerate_all_files (folder ∷ folders) disk =
      folder_files (Dict.lookup folder disk) folder disk >>= λ here.
      enumerate_all_files folders disk >>= λ rest. returns (here ++ rest)

  -- Whether an output stream on p opens.
  abbrev pub opens_entry : Option (Entry Ip) → FilePath → Disk Ip → Bool
  opens_entry none p disk =
      is_directory (Dict.lookup (remove_filename p) disk) || is_empty (remove_filename p)
  opens_entry (some directory) p disk = false
  opens_entry (some (file f)) p disk = f.perms.write.owner

module _ {Ip : Type 0} (net : Platform Ip) where
  -- An output stream on p: it truncates a file that the owner may write, makes a file in a directory
  -- that exists, and otherwise fails in silence.
  abbrev pub write_entry : Option (Entry Ip) → ℕ → FilePath → Content Ip → Disk Ip → Disk Ip
  write_entry none now p content disk =
      if is_directory (Dict.lookup (remove_filename p) disk) || is_empty (remove_filename p)
      then Dict.insert p
          (file (record { content = content; perms = net.created_perms; modified = now })) disk
      else disk
  write_entry (some directory) now p content disk = disk
  write_entry (some (file f)) now p content disk =
      if f.perms.write.owner
      then Dict.insert p (file (record f { content = content; modified = now })) disk
      else disk

  unfoldable pub write_file : ℕ → FilePath → Content Ip → Disk Ip → Disk Ip
  write_file now p content disk = write_entry (Dict.lookup p disk) now p content disk

  abbrev pub bit : Bool → ℕ → ℕ
  bit b n = if b then n else 0

  -- The bytes of a file.
  abbrev pub content_bytes : Content Ip → Text
  content_bytes (file_bytes t) = t
  content_bytes (lock_record m bits) = net.archive_bytes (
      save_message net m
      ++ number (bit bits.owner 128 + (bit bits.group 16 + bit bits.others 2)) ∷ [])
  content_bytes (saved_hash h) = decimal h

  abbrev entry_bytes : Option (Entry Ip) → Text
  entry_bytes (some (file f)) = content_bytes f.content
  entry_bytes _ = []

  -- An input stream on p, read to its end; a stream that does not open gives nothing.
  unfoldable pub read_file : FilePath → Disk Ip → Text
  read_file p disk = entry_bytes (Dict.lookup p disk)

  abbrev entry_lock : Option (Entry Ip) → Outcome (Message Ip × WriteBits)
  entry_lock (some (file f)) = elim f.content [
    | lock_record m bits ↦ returns (m, bits)
    | _ ↦ throws archive_error
  ]
  entry_lock _ = throws archive_error

  -- loadLockFile
  abbrev pub load_lock_file : FilePath → Disk Ip → Outcome (Message Ip × WriteBits)
  load_lock_file p disk = entry_lock (Dict.lookup (lock_file_path p) disk)

  -- An output archive on a lock file, which throws where the stream did not open. What is read back
  -- is what an archive keeps of the message.
  unfoldable pub save_lock_file :
      ℕ → FilePath → Message Ip → WriteBits → Disk Ip → Outcome (Disk Ip)
  unfolding write_file
  save_lock_file now lock_path m bits disk =
      if opens_entry (Dict.lookup lock_path disk) lock_path disk
      then returns (write_file now lock_path (lock_record (received net m) bits) disk)
      else throws archive_error
