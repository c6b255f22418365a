-- ===== src/Tests/Files.antt =====
-- Locks and changes of files on a sample node.
use cpe400_peer_2_peer_file.Base.{
  ℕ, ◌≢◌, true, false, [], ◌∷◌, none, some, ◌==◌, path_eq, ◌≡◌, refl, arith, if◌then◌else◌,
}
use cpe400_peer_2_peer_file.Base.Outcome.{returns, throws, no_such_file}
use cpe400_peer_2_peer_file.Base.Dict
use cpe400_peer_2_peer_file.Text.{codes}
use cpe400_peer_2_peer_file.Paths.{FilePath, wnts_path, lock_file_path, remove_filename}
use cpe400_peer_2_peer_file.Permissions.{WriteBits, no_bits}
use cpe400_peer_2_peer_file.Messages.{
  Message, file_body, content_body, lock, unlock, content_change,
}
use cpe400_peer_2_peer_file.Messages.Wire.{received}
use cpe400_peer_2_peer_file.Disk.{File, Entry, file, lock_record, set_write, is_directory, Disk}
use cpe400_peer_2_peer_file.Disk.Laws.{Clear}
use cpe400_peer_2_peer_file.Node.{Node}
use cpe400_peer_2_peer_file.Handlers.Files.{
  process_lock_message, process_content_file_message, process_delete_file_message,
}
use cpe400_peer_2_peer_file.Handlers.Files.Locks.{new_lock, AddsOnly}
use cpe400_peer_2_peer_file.Handlers.Files.Episodes.{
  lock_then_unlock, lock_then_unlock_remote, lock_then_unlock_local, process_lock_message_contested,
}
use cpe400_peer_2_peer_file.Handlers.Files.Changes.{
  locked_by_other, unlocked_missing, rewritten, process_content_file_message_unlocked,
  process_content_file_message_own, process_delete_file_message_unlocked,
}
use cpe400_peer_2_peer_file.Tests.Sample.{
  sample_net, a_node, node_on, a_disk, a_file, target, message_of, number_eq, owner_bit,
}

target_here : Dict.lookup target a_disk ≡ some (file a_file)
unfolding Dict.lookup path_eq
target_here = refl

target_unlocked : Dict.lookup (lock_file_path target) a_disk ≡ none
unfolding Dict.lookup path_eq lock_file_path
target_unlocked = refl

lock_folder-Clear : Clear (remove_filename (lock_file_path target)) a_disk
unfolding Dict.lookup path_eq lock_file_path remove_filename
lock_folder-Clear = ((λ f e. cc e), ((λ f e. cc e), tt))

target_folder-Clear : Clear (remove_filename target) a_disk
unfolding Dict.lookup path_eq remove_filename
target_folder-Clear = ((λ f e. cc e), tt)

six_ne_five : (let n : ℕ = 6 in n ≢ 5)
six_ne_five e = absurd (omega (arith, e))

abbrev lock_of : ℕ → Message ℕ
lock_of a = message_of lock a (file_body target 500)

abbrev unlock_of : ℕ → Message ℕ
unlock_of a = message_of unlock a (file_body target 600)

lock_then_unlock_remote_example :
    (d : Disk ℕ) × (lock_then_unlock sample_net (lock_of 6) 500 (unlock_of 6) target a_node
      ≡ returns (true, record a_node { disk = d }))
    × (Dict.lookup target d ≡ some (file (set_write no_bits a_file)))
    × (Dict.lookup (lock_file_path target) d ≡ none)
lock_then_unlock_remote_example =
    lock_then_unlock_remote sample_net (lock_of 6) (unlock_of 6) target 500 a_node a_file refl
      six_ne_five refl target_here target_unlocked lock_folder-Clear

lock_then_unlock_local_example :
    (d : Disk ℕ) × (lock_then_unlock sample_net (lock_of 5) 500 (unlock_of 5) target a_node
      ≡ returns (true, record a_node { disk = d }))
    × (Dict.lookup target d ≡ some (file a_file))
    × (Dict.lookup (lock_file_path target) d
        ≡ some (new_lock sample_net (lock_of 5) owner_bit a_node))
    × AddsOnly (lock_file_path target) a_node.disk d
lock_then_unlock_local_example =
    lock_then_unlock_local sample_net (lock_of 5) (unlock_of 5) target 500 a_node a_file refl refl
      refl target_here target_unlocked lock_folder-Clear

-- The target is locked by a node, with these permissions to give back.
abbrev lock_file_of : ℕ → WriteBits → File ℕ
lock_file_of a bits = record {
  content = lock_record (lock_of a) bits;
  perms = record { write = owner_bit; rest = 0 };
  modified = 0;
}

abbrev locked_node : ℕ → WriteBits → Node ℕ
locked_node a bits = node_on ((lock_file_path target, file (lock_file_of a bits)) ∷ a_disk)

locked_there :
    (a : ℕ) (bits : WriteBits)
    → Dict.lookup (lock_file_path target) (locked_node a bits).disk
      ≡ some (file (lock_file_of a bits))
unfolding Dict.lookup path_eq lock_file_path
locked_there a bits = refl

locked_target :
    (a : ℕ) (bits : WriteBits) → Dict.lookup target (locked_node a bits).disk ≡ some (file a_file)
unfolding Dict.lookup path_eq lock_file_path
locked_target a bits = refl

locked_lock_folder-Clear :
    (a : ℕ) (bits : WriteBits)
    → Clear (remove_filename (lock_file_path target)) (locked_node a bits).disk
unfolding Dict.lookup path_eq lock_file_path remove_filename
locked_lock_folder-Clear a bits = ((λ f e. cc e), ((λ f e. cc e), tt))

locked_target_folder-Clear :
    (a : ℕ) (bits : WriteBits) → Clear (remove_filename target) (locked_node a bits).disk
unfolding Dict.lookup path_eq lock_file_path remove_filename
locked_target_folder-Clear a bits = ((λ f e. cc e), tt)

abbrev earlier_lock : Message ℕ
earlier_lock = message_of lock 7 (file_body target 400)

process_lock_message_contested_example :
    (d : Disk ℕ) × (process_lock_message sample_net earlier_lock target 400
        (locked_node 6 owner_bit)
      ≡ returns (true, record (locked_node 6 owner_bit) { disk = d }))
    × (Dict.lookup target d ≡ some (file a_file))
    × (Dict.lookup (lock_file_path target) d
        ≡ some (
            file (record (lock_file_of 6 owner_bit) {
              content = lock_record (received sample_net earlier_lock) owner_bit;
              modified = 1000;
            })))
process_lock_message_contested_example =
    process_lock_message_contested sample_net earlier_lock (lock_of 6) owner_bit target 400 500
      (locked_node 6 owner_bit) (file a_file) (lock_file_of 6 owner_bit) refl
      (locked_target 6 owner_bit) (locked_there 6 owner_bit) refl refl refl
      (locked_lock_folder-Clear 6 owner_bit)

abbrev change : Message ℕ
change = message_of content_change 6 (content_body target 700 (codes "cd"))

abbrev own_change : Message ℕ
own_change = message_of content_change 5 (content_body target 700 (codes "cd"))

locked_by_other_example :
    (process_content_file_message sample_net change target (codes "cd") (locked_node 6 owner_bit)
      ≡ returns (true, locked_node 6 owner_bit))
    × (process_delete_file_message sample_net change target (locked_node 6 owner_bit)
        ≡ returns (true, locked_node 6 owner_bit))
locked_by_other_example =
    locked_by_other sample_net change (lock_of 6) owner_bit target (codes "cd")
      (locked_node 6 owner_bit) (lock_file_of 6 owner_bit) refl (locked_there 6 owner_bit) refl
      six_ne_five

process_content_file_message_own_example :
    (d : Disk ℕ) × (process_content_file_message sample_net own_change target
        (codes "cd")
        (locked_node 5 owner_bit)
      ≡ returns (true, record (locked_node 5 owner_bit) { disk = d }))
    × (Dict.lookup target d
        ≡ some (file (set_write no_bits (rewritten sample_net (codes "cd") 1000 a_file))))
process_content_file_message_own_example =
    process_content_file_message_own sample_net own_change (lock_of 5) target (codes "cd")
      (locked_node 5 owner_bit) a_file (lock_file_of 5 owner_bit) refl (locked_there 5 owner_bit)
      refl refl refl (locked_target 5 owner_bit) (locked_target_folder-Clear 5 owner_bit)

unlocked_missing_example :
    (process_content_file_message sample_net change target (codes "cd") (node_on [])
      ≡ throws no_such_file)
    × (process_delete_file_message sample_net change target (node_on []) ≡ throws no_such_file)
unlocked_missing_example =
    unlocked_missing sample_net change target (codes "cd") (node_on []) refl
      (Dict.lookup-nil (lock_file_path target)) (Dict.lookup-nil target)

process_content_file_message_unlocked_example :
    (d : Disk ℕ) × (process_content_file_message sample_net change target (codes "cd") a_node
      ≡ returns (true, record a_node { disk = d }))
    × (Dict.lookup target d ≡ some (file (rewritten sample_net (codes "cd") 1000 a_file)))
    × ((q : FilePath) (e : Entry ℕ)
        → q ≢ target
        → Dict.lookup q a_disk ≡ some e
        → Dict.lookup q d ≡ some e)
process_content_file_message_unlocked_example =
    process_content_file_message_unlocked sample_net change target (codes "cd") a_node a_file refl
      target_unlocked target_here target_folder-Clear

no_saved_hash : is_directory (Dict.lookup (wnts_path target) a_disk) ≡ false
unfolding Dict.lookup path_eq wnts_path
no_saved_hash = refl

process_delete_file_message_unlocked_example :
    (d : Disk ℕ) × (process_delete_file_message sample_net change target a_node
      ≡ returns (true, record a_node { disk = d }))
    × ((q : FilePath)
        → Dict.lookup q d ≡ (
            if q == target
            then none
            else if q == wnts_path target
            then none
            else Dict.lookup q a_disk))
process_delete_file_message_unlocked_example =
    process_delete_file_message_unlocked sample_net change target a_node a_file refl target_unlocked
      target_here no_saved_hash
