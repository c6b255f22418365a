-- ===== src/Tests/Rest.antt =====
-- Peers, sockets, paths, hashes and callbacks at concrete inputs.
use mathlib.Core.List.Perm
use cpe400_peer_2_peer_file.Base.{
  ℕ, All, List, ◌≤◌, Option, none, length, ◌<◌, ◌≢◌, inl, inr, Bool, false, [], ◌∷◌, ◌++◌, some,
  eqb, ◌≡◌, refl, arith, path_eq,
}
use cpe400_peer_2_peer_file.Base.Outcome.{returns}
use cpe400_peer_2_peer_file.Base.Dict
use cpe400_peer_2_peer_file.Text.{Text, codes, hash}
use cpe400_peer_2_peer_file.Paths.{FilePath, wnts_path}
use cpe400_peer_2_peer_file.Disk.{file, saved_hash, File}
use cpe400_peer_2_peer_file.Node.{Node, Peer}
use cpe400_peer_2_peer_file.Connection
use cpe400_peer_2_peer_file.Handlers.Links.{erase_backups, unlink}
use cpe400_peer_2_peer_file.Handlers.Links.Peers.{
  without, erase_backups-without, erase_backups_adjacent, sockets, answers, last_of, unlink_gateway,
}
use cpe400_peer_2_peer_file.Callbacks.{on_file_created_or_modified}
use cpe400_peer_2_peer_file.Callbacks.Detection.{on_file_created_or_modified_permuted}
use cpe400_peer_2_peer_file.Framing.{frame, number_bytes}
use cpe400_peer_2_peer_file.Framing.{Received, receive_all, new_receiver}
use cpe400_peer_2_peer_file.Framing.Pending.{wire}
use cpe400_peer_2_peer_file.Framing.Reassembly.{receive_all-prefix, receive_all-wire}
use cpe400_peer_2_peer_file.Sweep.{sweep, Sweeper, deleted, erase_all}
use cpe400_peer_2_peer_file.Sweep.Reports.{recorder, sweep_missing}
use cpe400_peer_2_peer_file.Tests.Sample.{
  folder, sample_net, a_node, a_file, a_disk, node_on, target, number_eq, owner_bit,
}

differ : (m n : ℕ) → m < n → n ≢ m
differ m n h e = absurd (omega (arith, e, h))

erase_backups-without_example :
    erase_backups sample_net 7 ((7, 80) ∷ (8, 90) ∷ (7, 81) ∷ [])
    ≡ without sample_net 7 ((7, 80) ∷ (8, 90) ∷ (7, 81) ∷ [])
erase_backups-without_example =
    erase_backups-without sample_net 7 ((7, 80) ∷ (8, 90) ∷ (7, 81) ∷ [])
      (inr (differ 7 8 (omega arith)), (inl (differ 7 8 (omega arith)), tt))

erase_backups_adjacent_example :
    erase_backups sample_net 7 ((7, 80) ∷ (7, 81) ∷ (8, 90) ∷ [])
    ≡ (7, 81) ∷ erase_backups sample_net 7 ((8, 90) ∷ [])
erase_backups_adjacent_example = erase_backups_adjacent sample_net 7 80 81 ((8, 90) ∷ [])

-- The first backup cannot be reached, the second can. The new gateway's socket is first, and its peer
-- answers the address of the lost gateway.
unlink_gateway_example :
    (peers : List (Peer ℕ)) × (unlink sample_net 6 a_node
      ≡ record a_node { gateway_ip = 8; peers = peers; backup_peers = (7, 80) ∷ [] })
    × (sockets peers ≡ (8, 90) ∷ (7, 80) ∷ [])
    × (answers peers ≡ 6 ∷ last_of (sockets peers) 8 ∷ [])
unfolding number_eq
unlink_gateway_example =
    unlink_gateway sample_net a_node ((7, 80) ∷ []) 8 90 [] refl refl (refl, tt) refl

-- The socket opens at the third attempt.
abbrev third : ℕ → Bool
third i = eqb i 2

before_third : (j : ℕ) → j < 2 → third j ≡ false
before_third j h = ground arith

connect-opens_example : Connection.connect 5 third ≡ returns 2
connect-opens_example = Connection.connect-opens 5 2 third (omega arith) refl before_third

-- The file's content is "ab", and the saved hash is that of "ba".
abbrev hash_file : File ℕ
hash_file = record {
  content = saved_hash (hash (codes "ba"));
  perms = record { write = owner_bit; rest = 0 };
  modified = 0;
}

abbrev sent_node : Node ℕ
sent_node = node_on ((wnts_path target, file hash_file) ∷ a_disk)

sent_target : Dict.lookup target sent_node.disk ≡ some (file a_file)
unfolding Dict.lookup path_eq wnts_path
sent_target = refl

sent_hash : Dict.lookup (wnts_path target) sent_node.disk ≡ some (file hash_file)
unfolding Dict.lookup path_eq wnts_path
sent_hash = refl

on_file_created_or_modified_permuted_example :
    on_file_created_or_modified sample_net target sent_node ≡ returns sent_node
on_file_created_or_modified_permuted_example =
    on_file_created_or_modified_permuted sample_net target (codes "ba") (codes "ab") sent_node
      a_file hash_file sent_target refl sent_hash refl (Perm.swap 97 98 [])

-- Two files on the fast track, of which only the second is there.
abbrev tracked : Sweeper
tracked = record {
  timestamps = (folder, (4, 0)) ∷ (target, (5, 0)) ∷ [];
  fast_track_timestamps = (folder, (4, 0)) ∷ (target, (5, 0)) ∷ [];
  iteration = 1;
}

abbrev second_there : FilePath → Option ℕ
second_there (name ∷ other ∷ rest) = some 5
second_there _ = none

sweep_missing_example :
    sweep (recorder second_there [] 9) false tracked []
    ≡ returns (
      record {
        timestamps = erase_all (folder ∷ folder ∷ target ∷ []) tracked.timestamps;
        fast_track_timestamps =
            erase_all (folder ∷ folder ∷ target ∷ []) tracked.fast_track_timestamps;
        iteration = 2;
      },
      deleted folder ∷ deleted target ∷ [],
    )
sweep_missing_example =
    sweep_missing second_there [] 9 tracked folder (4, 0) ((target, (5, 0)) ∷ []) [] refl refl
      ((λ e. absurd (omega (arith, e))), ((λ e. absurd (omega (arith, e))), tt))

-- One message of eight bytes, which arrives in pieces.
abbrev whispers : List Text
whispers = codes "whispers" ∷ []

receive_all-prefix_example :
    (r : Received) × (receive_all (5 ∷ 20 ∷ 2 ∷ []) new_receiver (wire whispers) ≡ returns r)
    × (left : List Text) × (r.messages ++ left ≡ whispers)
receive_all-prefix_example =
    receive_all-prefix (5 ∷ 20 ∷ 2 ∷ []) whispers ((omega arith, omega arith), tt)

abbrev byte_wise : List ℕ
byte_wise = 1 ∷ 1 ∷ 1 ∷ 1 ∷ 1 ∷ 1 ∷ 1 ∷ 1 ∷ 1 ∷ 1 ∷ 1 ∷ 1 ∷ 1 ∷ 1 ∷ 1 ∷ 1 ∷ []

byte_wise_busy : All (λ available. 1 ≤ available) byte_wise
byte_wise_busy = ground arith

byte_wise_enough : length (wire whispers) ≤ length byte_wise
unfolding wire frame number_bytes
byte_wise_enough = omega arith

receive_all-wire_example :
    (r : Received) × (receive_all byte_wise new_receiver (wire whispers) ≡ returns r)
    × (r.messages ≡ whispers)
receive_all-wire_example =
    receive_all-wire byte_wise whispers ((omega arith, omega arith), tt) byte_wise_busy
      byte_wise_enough
