-- ===== src/Startup/Progress.antt =====
-- How far a node has come when the program begins.
use cpe400_peer_2_peer_file.Base.{
  ℕ, Bool, true, not, List, Option, none, some, Eq, ◌≡◌, refl, sym, ◌∙◌, arith,
}
use cpe400_peer_2_peer_file.Base.Outcome.{
  Outcome, ◌>>=◌, returns, throws, undefined, too_deep, Ensures, >>=-Ensures,
}
use cpe400_peer_2_peer_file.Paths.{FilePath}
use cpe400_peer_2_peer_file.Platform.{Platform}
use cpe400_peer_2_peer_file.Disk.{Disk}
use cpe400_peer_2_peer_file.Node.{Node, is_finished_connecting}
use cpe400_peer_2_peer_file.Routing.Keeps.{Keeps, send-Keeps}
use cpe400_peer_2_peer_file.Sweep.{Event, Sweeper, sweep}
use cpe400_peer_2_peer_file.Sweep.Setup.{setup}
use cpe400_peer_2_peer_file.Sweep.Worlds.{sweep-Ensures}
use cpe400_peer_2_peer_file.Callbacks.{callback, node_surroundings}
use cpe400_peer_2_peer_file.Callbacks.Worlds.{callback-Ensures}
use cpe400_peer_2_peer_file.Startup.{managed_folders, check_folders, join_network, begin}

module _ {Ip : Type 0} ⦃ip_eq : Eq Ip⦄ (net : Platform Ip) where
  -- What the folders and the progress of a node are.
  abbrev pub IsAt : List FilePath → Bool → Node Ip → Type 0
  IsAt folders finished node = (node.folders ≡ folders) × (is_finished_connecting node ≡ finished)

  Keeps-IsAt :
      (folders : List FilePath) (finished : Bool) (node : Node Ip) (result : Outcome (Node Ip))
      → Keeps net node result
      → IsAt folders finished node
      → Ensures (IsAt folders finished) result
  Keeps-IsAt folders finished node (returns after) same h =
      (same.same_folders ∙ h.0, rw (same.same_received, same.same_total) h.1)
  Keeps-IsAt folders finished node (throws e) same h = tt
  Keeps-IsAt folders finished node undefined same h = tt
  Keeps-IsAt folders finished node too_deep same h = tt

  callback-IsAt :
      (folders : List FilePath) (finished : Bool) (event : Event) (node : Node Ip)
      → IsAt folders finished node
      → Ensures (IsAt folders finished) (callback net event node)
  callback-IsAt folders finished =
      callback-Ensures net (IsAt folders finished)
        (λ m node h.
          Keeps-IsAt folders finished node _ (send-Keeps net m net.ipv6_unspecified true node) h)
        (λ node disk h. h)

  joined-IsAt :
      (remote_ip : Ip) (port : ℕ) (node : Node Ip)
      → node.received_initial_files ≡ 0
      → node.total_initial_files ≡ 1
      → Ensures
          (IsAt node.folders (not (net.is_valid remote_ip)))
          (join_network net remote_ip port node)
  unfolding join_network
  joined-IsAt remote_ip port node none_yet one_expected = ground arith

  -- What begin gives, where it returns.
  abbrev pub Begins : Ip → List FilePath → Option (Sweeper × Node Ip) → Type 0
  Begins remote_ip folders none = Unit
  Begins remote_ip folders (some (s, node)) =
      IsAt (managed_folders net remote_ip folders) (not (net.is_valid remote_ip)) node

  checked :
      (remote_ip : Ip) (folders managed : List FilePath) (disk : Disk Ip)
      → check_folders net remote_ip folders disk ≡ some managed
      → managed_folders net remote_ip folders ≡ managed
  unfolding check_folders
  checked remote_ip folders managed disk e = ground (arith, e)

  entered-Begins :
      (remote_ip : Ip) (port : ℕ) (folders : List FilePath) (s : Sweeper) (node : Node Ip)
      (found : Option (List FilePath))
      → node.received_initial_files ≡ 0
      → node.total_initial_files ≡ 1
      → ((managed : List FilePath)
          → found ≡ some managed
          → managed_folders net remote_ip folders ≡ managed)
      → Ensures (Begins remote_ip folders) (elim found [
        | none ↦ returns none
        | some managed ↦
            join_network net remote_ip port
              (record node { folders = managed; disk = setup managed node.disk })
            >>= λ node'.
                sweep (node_surroundings net) true s node' >>= λ swept. returns (some swept)
      ])
  entered-Begins remote_ip port folders s node none none_yet one_expected is_managed = tt
  entered-Begins remote_ip port folders s node (some managed) none_yet one_expected is_managed =
      let finished = not (net.is_valid remote_ip) in
      >>=-Ensures (IsAt managed finished) (Begins remote_ip folders) _ _
        (joined-IsAt remote_ip port
          (record node { folders = managed; disk = setup managed node.disk }) none_yet one_expected)
        (λ node' h.
          >>=-Ensures (λ (s', n). IsAt managed finished n) (Begins remote_ip folders)
            (sweep (node_surroundings net) true s node') (λ swept. returns (some swept))
            (sweep-Ensures (node_surroundings net) (IsAt managed finished)
              (callback-IsAt managed finished) true s node' h)
            (λ swept h'. (h'.0 ∙ sym (is_managed managed refl), h'.1)))

  -- If the program gets to its loop, a node that founds a network manages the folders from the command
  -- line and has finished connecting; a node that joins one manages none and has not finished.
  begin-Begins :
      (remote_ip : Ip) (port : ℕ) (folders : List FilePath) (s : Sweeper) (node : Node Ip)
      → node.received_initial_files ≡ 0
      → node.total_initial_files ≡ 1
      → Ensures (Begins remote_ip folders) (begin net remote_ip port folders s node)
  unfolding begin
  begin-Begins remote_ip port folders s node none_yet one_expected =
      entered-Begins remote_ip port folders s node (check_folders net remote_ip folders node.disk)
        none_yet one_expected (λ managed e. checked remote_ip folders managed node.disk e)
