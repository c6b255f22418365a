-- ===== src/Tests/Joining.antt =====
-- A network of two nodes, one of which joins, and the files that it gets.
use cpe400_peer_2_peer_file.Base.{
  ℕ, All, ◌<◌, ◌≤◌, ◌+◌, ◌≢◌, Bool, true, false, List, [], ◌∷◌, ◌++◌, ◌≡◌, refl, inl, arith, ap,
  length, path_eq, name_eq, eqb,
}
use cpe400_peer_2_peer_file.Base.Outcome.{returns, ◌>>=◌}
use cpe400_peer_2_peer_file.Base.Dict
use cpe400_peer_2_peer_file.Text.{codes, hash, decimal}
use cpe400_peer_2_peer_file.Paths.{FilePath, remove_filename, lock_file_path, below, in_wnts}
use cpe400_peer_2_peer_file.Platform.{Platform, IsLawful}
use cpe400_peer_2_peer_file.Messages.{initial_sync_request, plain_body, Message, hash_message}
use cpe400_peer_2_peer_file.Messages.Archive.{Archive, lexically_normal}
use cpe400_peer_2_peer_file.Messages.Wire.{received}
use cpe400_peer_2_peer_file.Routing.{lock_priority}
use cpe400_peer_2_peer_file.Disk.{file, file_bytes, Disk, read_file, enumerate_all_files}
use cpe400_peer_2_peer_file.Disk.Folders.{NotFolder}
use cpe400_peer_2_peer_file.Node.{Node, Prio, is_finished_connecting}
use cpe400_peer_2_peer_file.Handlers.Sync.{up_to_nul, process_initial_file_sync_request_message}
use cpe400_peer_2_peer_file.Handlers.Sync.Receiving.{Targets, HasRoom}
use cpe400_peer_2_peer_file.Handlers.Sync.Sending.{sync_sent, syncs}
use cpe400_peer_2_peer_file.Manager.Syncing.{AllArrived, IsSync}
use cpe400_peer_2_peer_file.Startup.{process_for_a_second}
use cpe400_peer_2_peer_file.Startup.Joining.{arrive_all, AreCopied, IsRight, initial_sync-AreCopied}
use cpe400_peer_2_peer_file.Startup.Timing.{initial_sync-InTime}
use cpe400_peer_2_peer_file.Startup.Syncing.{initial_sync-Completes}
use cpe400_peer_2_peer_file.Tests.Sample.{
  number_eq, sample_net, a_node, a_file, a_disk, a_peer, target, message_of,
}

-- A clock that is read once more before a time is converted than after.
abbrev pub late_net : Platform ℕ
late_net = record sample_net { clock_in = 1 }

pub late_net-IsLawful : IsLawful late_net
late_net-IsLawful = record {
  ipv4_bytes = λ a h. refl;
  ipv6_bytes = λ a h. refl;
  families_differ = λ e. absurd (omega (arith, e));
}

-- Another file in the folder.
abbrev second : FilePath
second = codes "s" ∷ codes "g" ∷ []

abbrev two_files : Disk ℕ
two_files = a_disk ++ (second, file (record a_file { content = file_bytes (codes "c") })) ∷ []

abbrev gateway : Node ℕ
gateway = record a_node { now = 5000000500; disk = two_files }

abbrev joiner : Node ℕ
joiner = record a_node {
  ip = 6;
  disk = [];
  folders = [];
  received_initial_files = 0;
  peers = a_peer 5 ∷ [];
  gateway_ip = 5;
}

abbrev request : Message ℕ
request = message_of initial_sync_request 6 plain_body

abbrev has_two_names : FilePath → Bool
has_two_names (first ∷ last ∷ []) = true
has_two_names _ = false

two_names-apart :
    (t t' : FilePath)
    → has_two_names t ≡ true
    → has_two_names t' ≡ true
    → NotFolder t (remove_filename t')
unfolding remove_filename
two_names-apart (a ∷ b ∷ []) (c ∷ d ∷ []) h h' = (λ e. absurd (omega (arith, ap length e)), tt)
two_names-apart _ _ h h' = cc

abbrev sample_targets : Targets
sample_targets = record {
  expected = λ p. up_to_nul (read_file late_net p two_files);
  is_target = has_two_names;
  apart = two_names-apart;
}

empty-HasRoom : HasRoom {Ip = ℕ} sample_targets []
unfolding remove_filename Dict.lookup
empty-HasRoom (a ∷ b ∷ []) h = ((λ f e. cc, tt), inl refl)
empty-HasRoom _ h = cc

small_other : (m n : ℕ) → n < m → m ≢ n
small_other m n h e = absurd (omega (arith, e, h))

found : enumerate_all_files gateway.folders gateway.disk ≡ returns (target ∷ second ∷ [])
unfolding enumerate_all_files Dict.lookup below in_wnts path_eq name_eq
found = refl

right : All (IsRight late_net) (syncs late_net (target ∷ second ∷ []) 0 2 6 gateway)
unfolding hash_message hash decimal number_eq up_to_nul read_file Dict.lookup path_eq
    lexically_normal name_eq
right = ((refl, omega arith), ((refl, omega arith), tt))

initial_sync-AreCopied_example :
    (gateway' joiner' : Node ℕ) × (frames : List (ℕ × Archive))
    × (process_initial_file_sync_request_message late_net request gateway
        ≡ returns (true, gateway'))
    × (gateway'.sent ≡ [] ++ frames)
    × ((arrive_all late_net 5 frames joiner >>= λ joined.
          process_for_a_second late_net 13 1000 joined)
        ≡ returns joiner')
    × AreCopied late_net two_files joiner'.disk (target ∷ second ∷ [])
    × (is_finished_connecting joiner' ≡ true)
unfolding number_eq Dict.lookup path_eq name_eq lock_file_path lexically_normal
initial_sync-AreCopied_example =
    initial_sync-AreCopied late_net late_net-IsLawful 6 (small_other 6 0 (omega arith))
      (small_other 6 1 (omega arith)) 5 refl sample_targets request gateway joiner target
      (second ∷ []) 13 250 (λ m t e. omega arith) (omega arith) refl found (refl, (refl, tt))
      (omega arith) refl (small_other 6 0 (omega arith), small_other 6 1 (omega arith), refl, refl)
      refl refl refl refl right ((refl, refl), ((refl, refl), tt)) empty-HasRoom (omega arith)

-- One of the files did not arrive.
abbrev first_entry : Prio ℕ
first_entry = record {
  priority = lock_priority;
  message = received late_net (sync_sent late_net target 0 2 6 gateway);
}

abbrev one_file : List (Prio ℕ)
one_file = first_entry ∷ []

initial_sync-Completes_example :
    (node' : Node ℕ) × (process_for_a_second late_net 12 1000
        (record joiner { message_queue = one_file })
      ≡ returns node')
    × (node'.message_queue ≡ [])
    × AllArrived node'.disk one_file
    × (is_finished_connecting node' ≡ eqb 1 2)
unfolding number_eq Dict.lookup path_eq name_eq lexically_normal
initial_sync-Completes_example =
    initial_sync-Completes late_net refl sample_targets 2 12 250
      (record joiner { message_queue = one_file }) first_entry [] (λ m t e. omega arith)
      (omega arith) refl ((refl, (refl, refl, refl)), tt) refl (omega arith) empty-HasRoom
      (omega arith)

-- Each message takes longer than the second.
abbrev slow_net : Platform ℕ
slow_net = record late_net { handling_time = λ m now. 1200000000 }

abbrev second_entry : Prio ℕ
second_entry = record {
  priority = lock_priority;
  message = received late_net (sync_sent late_net second 1 2 6 gateway);
}

abbrev busy_joiner : Node ℕ
busy_joiner = record joiner { message_queue = first_entry ∷ second_entry ∷ [] }

initial_sync-InTime_example :
    (node' : Node ℕ) × (process_for_a_second slow_net 13 1000 busy_joiner ≡ returns node')
    × (1000001000 ≤ node'.now)
    × (node'.now < 2200001000)
    × All (IsSync sample_targets 2) node'.message_queue
    × (node'.received_initial_files + length node'.message_queue ≡ 2)
unfolding number_eq Dict.lookup path_eq name_eq lexically_normal
initial_sync-InTime_example =
    initial_sync-InTime slow_net refl sample_targets 2 13 1200000000 busy_joiner
      (λ m t e. omega arith) (omega arith)
      ((refl, (refl, refl, refl)), ((refl, (refl, refl, refl)), tt)) refl (omega arith)
      empty-HasRoom (omega arith)
