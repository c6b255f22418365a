-- ===== src/Startup.antt =====
-- main (main.cpp), after the command line is parsed: the folders, the first connection, and the loop of
-- sweeps and messages.
pub mod Progress
pub mod Syncing
pub mod Timing
pub mod Joining
use cpe400_peer_2_peer_file.Base.{
  ℕ, zero, suc, ◌+◌, ◌-◌, ◌/◌, ◌^◌, Bool, true, false, not, ◌&&◌, List, [], ◌∷◌, ◌++◌, Option, none,
  some, Eq, ltb, if◌then◌else◌,
}
use cpe400_peer_2_peer_file.Base.Outcome.{Outcome, returns, throws, connect_failed, too_deep, ◌>>=◌}
use cpe400_peer_2_peer_file.Paths.{FilePath}
use cpe400_peer_2_peer_file.Platform.{Platform}
use cpe400_peer_2_peer_file.Node.{Node, fresh_peer}
use cpe400_peer_2_peer_file.Manager.{process_next_message}
use cpe400_peer_2_peer_file.Sweep.{Sweeper, sweep, total_sweep_every_n}
use cpe400_peer_2_peer_file.Sweep.Setup.{setup}
use cpe400_peer_2_peer_file.Disk.{Disk, exists}
use cpe400_peer_2_peer_file.Callbacks.{node_surroundings}

module _ {Ip : Type 0} ⦃ip_eq : Eq Ip⦄ (net : Platform Ip) where
  -- The folders from the command line, or none if a network is joined.
  abbrev pub managed_folders : Ip → List FilePath → List FilePath
  managed_folders remote_ip folders = if net.is_valid remote_ip then [] else folders

  -- The first connection, or the start of a network of one node. An exception of Peer::connect that is
  -- no ZTError is not caught.
  unfoldable pub join_network : Ip → ℕ → Node Ip → Outcome (Node Ip)
  join_network remote_ip port node =
      if net.is_valid remote_ip
      then (if net.reachable remote_ip port
          then returns (record node {
            peers = node.peers ++ fresh_peer (remote_ip, port) ∷ [];
            gateway_ip = remote_ip;
          })
          else throws connect_failed)
      else returns (record node { total_initial_files = 0 })

  -- One folder, which is the empty path: what no folders on the command line are split into.
  abbrev pub is_blank : List FilePath → Bool
  is_blank ([] ∷ []) = true
  is_blank _ = false

  abbrev pub all_exist : List FilePath → Disk Ip → Bool
  all_exist [] disk = true
  all_exist (folder ∷ folders) disk = exists folder disk && all_exist folders disk

  -- The folders to manage, or none where the usage is shown, which ends the program.
  unfoldable pub check_folders : Ip → List FilePath → Disk Ip → Option (List FilePath)
  check_folders remote_ip folders disk =
      if is_blank folders && not (net.is_valid remote_ip)
      then none
      else if all_exist (managed_folders remote_ip folders) disk
      then some (managed_folders remote_ip folders)
      else none

  -- main up to its loop: the folders are checked, old records are removed, a network is joined or
  -- founded, and all files are swept.
  unfoldable pub begin :
      Ip → ℕ → List FilePath → Sweeper → Node Ip → Outcome (Option (Sweeper × Node Ip))
  begin remote_ip port folders s node = elim (check_folders remote_ip folders node.disk) [
    | none ↦ returns none
    | some managed ↦
        join_network remote_ip port
          (record node { folders = managed; disk = setup managed node.disk })
        >>= λ node'. sweep (node_surroundings net) true s node' >>= λ swept. returns (some swept)
  ]

  -- Messages are processed until a second has passed since the start. The fuel bounds the messages.
  unfoldable pub process_for_a_second : ℕ → ℕ → Node Ip → Outcome (Node Ip)
  process_for_a_second zero start node = too_deep
  process_for_a_second (suc fuel) start node =
      let rest = process_next_message net node >>= λ node'. process_for_a_second fuel start node' in
      if ltb ((node.now - start) / 10 ^ 6) 1000 then rest else returns node

  -- One round of the main loop.
  unfoldable pub main_round : ℕ → Sweeper → Node Ip → Outcome (Sweeper × Node Ip)
  main_round fuel s node = total_sweep_every_n (node_surroundings net) 10 s node >>= λ (s', node').
      process_for_a_second fuel node.now
        (record node' { now = node'.now + net.sweeping_time node.now })
      >>= λ node''. returns (s', node'')
