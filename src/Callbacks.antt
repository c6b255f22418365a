-- ===== src/Callbacks.antt =====
-- The callbacks of the sweep (main.cpp), which tell the network what changed.
pub mod Detection
pub mod Worlds
use cpe400_peer_2_peer_file.Base.{
  ℕ, Bool, true, false, not, Option, none, some, Eq, path_eq, eqb, if◌then◌else◌,
}
use cpe400_peer_2_peer_file.Base.Outcome.{Outcome, returns, throws, no_such_file, ◌>>=◌}
use cpe400_peer_2_peer_file.Base.Dict
use cpe400_peer_2_peer_file.Text.{Text, hash}
use cpe400_peer_2_peer_file.Paths.{FilePath, wnts_path}
use cpe400_peer_2_peer_file.Platform.{Platform}
use cpe400_peer_2_peer_file.Messages.{
  MessageType, lock, unlock, delete_file, content_change, Body, file_body, content_body, Message,
  convert_timepoint,
}
use cpe400_peer_2_peer_file.Disk.{
  Disk, Entry, file, saved_hash, exists, last_write_time, read_file, write_file,
  enumerate_all_files,
}
use cpe400_peer_2_peer_file.Node.{Node}
use cpe400_peer_2_peer_file.Routing.{send}
use cpe400_peer_2_peer_file.Sweep.{
  Event, created, modified, deleted, fast_tracked, unfast_tracked, Surroundings,
}

module _ {Ip : Type 0} where
  -- fin >> oldHash: what is no number leaves a zero.
  abbrev pub saved_number : Option (Entry Ip) → ℕ
  saved_number (some (file f)) = elim f.content [ saved_hash h ↦ h | _ ↦ 0 ]
  saved_number _ = 0

  -- Whether a file with this hash is to be sent.
  abbrev pub should_send : FilePath → ℕ → Disk Ip → Bool
  should_send path new_hash disk =
      if exists (wnts_path path) disk
      then not (eqb new_hash (saved_number (Dict.lookup (wnts_path path) disk)))
      else true

module _ {Ip : Type 0} ⦃ip_eq : Eq Ip⦄ (net : Platform Ip) where
  -- The time of a file, as a system_clock time.
  abbrev pub file_time : ℕ → ℕ
  file_time = convert_timepoint net.file_clock_in net.file_clock_out

  -- A message of the callbacks, which is sent to everyone.
  abbrev pub report : MessageType → Body Ip → Message Ip
  report type body = record {
    type = type;
    receiver_node = net.ipv6_unspecified;
    sender_node = net.ipv6_unspecified;
    originator_node = net.ipv6_unspecified;
    message_hash = 0;
    body = body;
  }

  abbrev pub broadcast : MessageType → Body Ip → Node Ip → Outcome (Node Ip)
  broadcast type body node = send net (report type body) net.ipv6_unspecified true node

  unfoldable pub send_content : FilePath → ℕ → Node Ip → Outcome (Node Ip)
  send_content path modified_at node =
      let content = read_file net path node.disk in
      if should_send path (hash content) node.disk
      then (broadcast content_change (content_body path (file_time modified_at) content) node
          >>= λ node'. returns (record node' {
            disk = write_file net node'.now (wnts_path path) (saved_hash (hash content)) node'.disk;
          }))
      else returns node

  abbrev pub send_file : Option ℕ → MessageType → FilePath → Node Ip → Outcome (Node Ip)
  send_file none type path node = throws no_such_file
  send_file (some modified_at) type path node =
      broadcast type (file_body path (file_time modified_at)) node

  -- onFileCreatedOrModified
  unfoldable pub on_file_created_or_modified : FilePath → Node Ip → Outcome (Node Ip)
  unfolding send_content
  on_file_created_or_modified path node = elim (last_write_time path node.disk) [
    | none ↦ throws no_such_file
    | some modified_at ↦ send_content path modified_at node
  ]

  -- onFileDeleted
  unfoldable pub on_file_deleted : FilePath → Node Ip → Outcome (Node Ip)
  on_file_deleted path node = broadcast delete_file (file_body path node.now) node

  -- onFileFastTracked
  unfoldable pub on_file_fast_tracked : FilePath → Node Ip → Outcome (Node Ip)
  on_file_fast_tracked path node = send_file (last_write_time path node.disk) lock path node

  -- onFileUnFastTracked
  unfoldable pub on_file_unfast_tracked : FilePath → Node Ip → Outcome (Node Ip)
  on_file_unfast_tracked path node = send_file (last_write_time path node.disk) unlock path node

  abbrev pub callback : Event → Node Ip → Outcome (Node Ip)
  callback (created path) node = on_file_created_or_modified path node
  callback (modified path) node = on_file_created_or_modified path node
  callback (deleted path) node = on_file_deleted path node
  callback (fast_tracked path) node = on_file_fast_tracked path node
  callback (unfast_tracked path) node = on_file_unfast_tracked path node

  -- The sweeper of main: the callbacks above, on the folders and the disk of the node.
  abbrev pub node_surroundings : Surroundings (Node Ip)
  node_surroundings = record {
    act = callback;
    last_write = λ path node. last_write_time path node.disk;
    enumerate = λ node. enumerate_all_files node.folders node.disk;
    now = λ node. node.now;
  }
