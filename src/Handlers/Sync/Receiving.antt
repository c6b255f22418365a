-- ===== src/Handlers/Sync/Receiving.antt =====
-- What a file of the initial sync changes on a node that joins.
use cpe400_peer_2_peer_file.Base.{
  ℕ, ◌+◌, ◌%◌, Bool, true, Option, none, some, Eq, path_eq, ◌≡◌, refl, sym, ◌∙◌, ◌≢◌, ◌⊎◌, inl, inr,
  subst, arith,
}
use cpe400_peer_2_peer_file.Base.Outcome.{returns}
use cpe400_peer_2_peer_file.Base.Dict
use cpe400_peer_2_peer_file.Base.Dict.{lookup-insert}
use cpe400_peer_2_peer_file.Text.{Text, size_t_mod}
use cpe400_peer_2_peer_file.Paths.{FilePath, remove_filename}
use cpe400_peer_2_peer_file.Platform.{Platform}
use cpe400_peer_2_peer_file.Disk.{
  File, Entry, directory, file, file_bytes, Disk, write_file, write_entry,
}
use cpe400_peer_2_peer_file.Disk.Laws.{Clear, create_directories-Created}
use cpe400_peer_2_peer_file.Disk.Folders.{
  NotFolder, create_directories-apart, create_directories-file, Clear-apart,
}
use cpe400_peer_2_peer_file.Node.{Node}
use cpe400_peer_2_peer_file.Handlers.Sync.{process_initial_file_sync_message}

module _ {Ip : Type 0} where
  -- Nothing is at a path, or a file that its owner may write.
  abbrev pub IsOpenEntry : Option (Entry Ip) → Type 0
  IsOpenEntry e =
      (e ≡ none) ⊎ ((f : File Ip) × ((e ≡ some (file f)) × (f.perms.write.owner ≡ true)))

  abbrev pub IsOpen : FilePath → Disk Ip → Type 0
  IsOpen p disk = IsOpenEntry (Dict.lookup p disk)

  -- A file that its owner may write has some bytes.
  abbrev pub HasContent : Text → FilePath → Disk Ip → Type 0
  HasContent content p disk =
      (f : File Ip) × ((Dict.lookup p disk ≡ some (file f))
        × ((f.content ≡ file_bytes content) × (f.perms.write.owner ≡ true)))

module _ {Ip : Type 0} (net : Platform Ip) (created : net.created_perms.write.owner ≡ true) where
  write_file-HasContent :
      (now : ℕ) (p : FilePath) (content : Text) (disk : Disk Ip)
      → Dict.lookup (remove_filename p) disk ≡ some directory
      → IsOpen p disk
      → HasContent content p (write_file net now p (file_bytes content) disk)
  unfolding write_file
  write_file-HasContent now p content disk folder (inl free) =
      let f : File Ip = record {
        content = file_bytes content;
        perms = net.created_perms;
        modified = now;
      } in
      (f, (ground (arith, lookup-insert p p (file f) disk), (refl, created)))
  write_file-HasContent now p content disk folder (inr (f, (there, writable))) =
      let f' : File Ip = record f { content = file_bytes content; modified = now } in
      (f', (ground (arith, lookup-insert p p (file f') disk), (refl, writable)))

module _ {Ip : Type 0} (net : Platform Ip) where
  write_file-other :
      (now : ℕ) (p : FilePath) (content : Text) (disk : Disk Ip) (q : FilePath)
      → q ≢ p
      → Dict.lookup q (write_file net now p (file_bytes content) disk) ≡ Dict.lookup q disk
  unfolding write_file
  write_file-other now p content disk q differ = other (Dict.lookup p disk)
    where
      other :
          (e : Option (Entry Ip))
          → Dict.lookup q (write_entry net e now p (file_bytes content) disk) ≡ Dict.lookup q disk
      other none =
          let f : File Ip = record {
            content = file_bytes content;
            perms = net.created_perms;
            modified = now;
          } in
          ground (arith, lookup-insert q p (file f) disk)
      other (some directory) = refl
      other (some (file f)) =
          let f' : File Ip = record f { content = file_bytes content; modified = now } in
          ground (arith, lookup-insert q p (file f') disk)

-- The files that are to arrive: which they are, what they hold, and that none is where a folder of
-- another has to be.
pub record Targets : Type 0 where
  pub expected : FilePath → Text
  pub is_target : FilePath → Bool
  pub apart :
      (t t' : FilePath)
      → is_target t ≡ true
      → is_target t' ≡ true
      → NotFolder t (remove_filename t')

module _ {Ip : Type 0} (targets : Targets) where
  -- There is room for every file.
  abbrev pub HasRoom : Disk Ip → Type 0
  HasRoom disk =
      (t : FilePath) → targets.is_target t ≡ true → Clear (remove_filename t) disk × IsOpen t disk

  -- The files that have arrived stay.
  abbrev pub Keeps : Disk Ip → Disk Ip → Type 0
  Keeps disk disk' =
      (t : FilePath)
      → targets.is_target t ≡ true
      → HasContent (targets.expected t) t disk
      → HasContent (targets.expected t) t disk'

module _ {Ip : Type 0} ⦃ip_eq : Eq Ip⦄ (net : Platform Ip)
    (created : net.created_perms.write.owner ≡ true) (targets : Targets) where
  -- What one file of the initial sync changes.
  pub record Stored (target : FilePath) (content : Text) (total : ℕ) (node : Node Ip) : Type 0 where
    pub after : Disk Ip
    pub gives :
        process_initial_file_sync_message net target content total node
        ≡ returns (
          true,
          record node {
            total_initial_files = total;
            received_initial_files = (node.received_initial_files + 1) % size_t_mod;
            disk = after;
          },
        )
    pub has_room : HasRoom targets after
    pub stored : HasContent content target after
    pub kept : Keeps targets node.disk after

  pub process_initial_file_sync_message-Stored :
      (target : FilePath) (content : Text) (total : ℕ) (node : Node Ip)
      → targets.is_target target ≡ true
      → content ≡ targets.expected target
      → HasRoom targets node.disk
      → Stored target content total node
  unfolding process_initial_file_sync_message
  process_initial_file_sync_message-Stored target content total node is_one same room =
      let down =
        create_directories-Created (remove_filename target) node.disk (room target is_one).0 in
      let after = write_file net node.now target (file_bytes content) down.made in
      let other = write_file-other net node.now target content down.made in
      let fixed = λ (t : FilePath) (one : targets.is_target t ≡ true).
        create_directories-apart (remove_filename target) node.disk down.made t down.gives
          (targets.apart t target one is_one) in
      let stored =
        write_file-HasContent net created node.now target content down.made down.there
          (subst IsOpenEntry (sym (fixed target is_one)) (room target is_one).1) in
      record {
        after = after;
        gives = rw down.gives;
        has_room = λ t one. (
          Clear-apart (remove_filename t) node.disk after target
              (λ q f differ e. (
                f,
                create_directories-file (remove_filename target) node.disk down.made q f down.gives
                    (sym (other q differ) ∙ e),
              ))
              (targets.apart target t is_one one) (room t one).0,
          elim (path_eq.dec t target) [
            | yes eq ↦
                subst (λ p. IsOpen p after) (sym eq) (inr (stored.0, (stored.1.0, stored.1.1.1)))
            | no differ ↦ subst IsOpenEntry (sym (other t differ ∙ fixed t one)) (room t one).1
          ],
        );
        stored = stored;
        kept = λ t one (f, (there, rest)). elim (path_eq.dec t target) [
          | yes eq ↦
              subst (λ p. HasContent (targets.expected p) p after) (sym eq)
                (subst (λ c. HasContent c target after) same stored)
          | no differ ↦ (f, (other t differ ∙ down.keeps t there, rest))
        ];
      }
