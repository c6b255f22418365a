-- ===== src/Handlers/Sync.antt =====
-- processInitialFileSyncMessage, processInitialFileSyncRequestMessage and processConnectMessage
-- (message_manager.cpp).
pub mod Content
pub mod Receiving
pub mod Sending
use cpe400_peer_2_peer_file.Base.{
  ℕ, ◌+◌, ◌%◌, true, false, not, List, [], ◌∷◌, Eq, eqb, if◌then◌else◌, length,
}
use cpe400_peer_2_peer_file.Base.Outcome.{Outcome, returns, ◌>>=◌}
use cpe400_peer_2_peer_file.Text.{Text, size_t_mod}
use cpe400_peer_2_peer_file.Paths.{FilePath, wnts_path, remove_filename, lock_file_path}
use cpe400_peer_2_peer_file.Platform.{Platform}
use cpe400_peer_2_peer_file.Messages.{
  Body, file_body, content_body, sync_body, initial_sync, Message,
}
use cpe400_peer_2_peer_file.Disk.{
  Disk, file_bytes, exists, create_directories, remove, enumerate_all_files, write_file, read_file,
  load_lock_file,
}
use cpe400_peer_2_peer_file.Node.{Node, is_finished_connecting}
use cpe400_peer_2_peer_file.Routing.{send}
use cpe400_peer_2_peer_file.Handlers.Files.{Handled}

-- std::getline up to a NUL byte.
unfoldable pub up_to_nul : Text → Text
up_to_nul [] = []
up_to_nul (c ∷ rest) = if eqb c 0 then [] else c ∷ up_to_nul rest

module _ {Ip : Type 0} where
  -- timestamp = …, of a FileMessage
  abbrev pub stamped : ℕ → Body Ip → Body Ip
  stamped now (file_body p t) = file_body p now
  stamped now (content_body p t c) = content_body p now c
  stamped now (sync_body p t c total index) = sync_body p now c total index
  stamped now body = body

  unfoldable pub create_all : List FilePath → Disk Ip → Outcome (Disk Ip)
  create_all [] disk = returns disk
  create_all (path ∷ paths) disk = create_directories path disk >>= λ disk'. create_all paths disk'

  -- Each file and its saved hash.
  unfoldable pub delete_all : List FilePath → Disk Ip → Outcome (Disk Ip)
  delete_all [] disk = returns disk
  delete_all (path ∷ paths) disk = remove path disk >>= λ disk'.
      remove (wnts_path path) disk' >>= λ disk''. delete_all paths disk''

module _ {Ip : Type 0} ⦃ip_eq : Eq Ip⦄ (net : Platform Ip) where
  -- processInitialFileSyncMessage
  unfoldable pub process_initial_file_sync_message : FilePath → Text → ℕ → Node Ip → Handled Ip
  process_initial_file_sync_message target content total node =
      create_directories (remove_filename target) node.disk >>= λ disk. returns (
        true,
        record node {
          total_initial_files = total;
          received_initial_files = (node.received_initial_files + 1) % size_t_mod;
          disk = write_file net node.now target (file_bytes content) disk;
        },
      )

  -- The message that carries one file to a new node.
  abbrev pub sync_message : FilePath → ℕ → ℕ → Node Ip → Message Ip
  sync_message path index total node = record {
    type = initial_sync;
    receiver_node = net.ipv6_unspecified;
    sender_node = net.ipv6_unspecified;
    originator_node = net.ipv6_unspecified;
    message_hash = 0;
    body = sync_body path node.now (up_to_nul (read_file net path node.disk)) total index;
  }

  unfoldable pub send_lock : FilePath → Ip → Node Ip → Outcome (Node Ip)
  send_lock path destination node =
      if exists (lock_file_path path) node.disk
      then (load_lock_file net path node.disk >>= λ (lock, _).
          send net (record lock { body = stamped node.now lock.body }) destination true node)
      else returns node

  -- The loop over the paths from the index on.
  unfoldable pub send_files : List FilePath → ℕ → ℕ → Ip → Node Ip → Outcome (Node Ip)
  unfolding send_lock
  send_files [] index total destination node = returns node
  send_files (path ∷ paths) index total destination node =
      send net (sync_message path index total node) destination true node >>= λ node'.
      send_lock path destination node' >>= λ node''.
      send_files paths (index + 1) total destination node''

  -- processInitialFileSyncRequestMessage
  unfoldable pub process_initial_file_sync_request_message : Message Ip → Node Ip → Handled Ip
  unfolding send_files
  process_initial_file_sync_request_message m node =
      if not (is_finished_connecting node)
      then returns (false, node)
      else (enumerate_all_files node.folders node.disk >>= λ paths.
          send_files paths 0 (length paths) m.originator_node node >>= λ node'.
          returns (true, node'))

  -- processConnectMessage
  unfoldable pub process_connect_message : List (Ip × ℕ) → List FilePath → Node Ip → Handled Ip
  process_connect_message backup_peers managed_paths node =
      create_all managed_paths node.disk >>= λ disk.
      enumerate_all_files managed_paths disk >>= λ paths. delete_all paths disk >>= λ disk'.
      returns (
        true,
        record node {
          backup_peers = backup_peers;
          folders = managed_paths;
          disk = disk';
          received_initial_files = 0;
          total_initial_files = 1;
        },
      )
