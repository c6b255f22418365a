-- ===== src/Tests/System.antt =====
-- Locks, arriving messages, the vector of peers, sweeps and the service at concrete inputs.
use cpe400_peer_2_peer_file.Base.{
  ℕ, ◌+◌, ◌-◌, ◌*◌, ◌%◌, ◌⊎◌, true, false, ◌&&◌, List, [], ◌∷◌, map, none, some, eqb, ltb,
  if◌then◌else◌, ◌≡◌, refl, arith, path_eq,
}
use cpe400_peer_2_peer_file.Base.Outcome.{returns}
use cpe400_peer_2_peer_file.Base.Dict
use cpe400_peer_2_peer_file.Text.{codes}
use cpe400_peer_2_peer_file.Paths.{wnts_path}
use cpe400_peer_2_peer_file.Messages.{Message}
use cpe400_peer_2_peer_file.Messages.Wire.{save_message, received, message_class}
use cpe400_peer_2_peer_file.Node.{enqueue}
use cpe400_peer_2_peer_file.Routing.{intake, disconnect_priority, addressed}
use cpe400_peer_2_peer_file.Monitor.{
  SharedMutex, IsSharedMutex, Guard, move, taken, Monitor, write_lock, read_lock, release, System,
  Step, write, read, pass_on, Reach, here, next,
}
use cpe400_peer_2_peer_file.Monitor.Exclusion.{holders, mutual_exclusion}
use cpe400_peer_2_peer_file.Incoming.{process_message}
use cpe400_peer_2_peer_file.Incoming.Forwarding.{passed, process_message_routes}
use cpe400_peer_2_peer_file.Connection.Slots
use cpe400_peer_2_peer_file.Connection.Slots.{Slot, erase_cached}
use cpe400_peer_2_peer_file.Sweep.Setup
use cpe400_peer_2_peer_file.Sweep.Setup.{IsDeep, deep, setup_keeps}
use cpe400_peer_2_peer_file.Sweep.{Sweeper}
use cpe400_peer_2_peer_file.Sweep.Changes.{Reports, sweep-Reports}
use cpe400_peer_2_peer_file.ZeroTier.{network_down, ServiceNode, on_events}
use cpe400_peer_2_peer_file.ZeroTier.Joining.{networks_joined_count-on_events}
use cpe400_peer_2_peer_file.Accept.{not_ready, accepted, Poll}
use cpe400_peer_2_peer_file.Accept.Welcome.{Welcomes, listen-Welcomes}
use cpe400_peer_2_peer_file.Tests.Sample.{
  sample_net, sample_net-IsLawful, a_node, a_peer, a_disk, target, number_eq,
}
use cpe400_peer_2_peer_file.Tests.Messaging.{leave, leave_right}

-- A mutex that is how many own it and how many share it.
abbrev sample_mutex : SharedMutex (ℕ × ℕ)
sample_mutex = record {
  lock = λ (a, b). if eqb a 0 && eqb b 0 then some (1, 0) else none;
  unlock = λ (a, b). (a - 1, b);
  lock_shared = λ (a, b). if eqb a 0 then some (0, b + 1) else none;
  unlock_shared = λ (a, b). (a, b - 1);
  try_lock = λ (a, b). if eqb a 0 && eqb b 0 then some (1, 0) else none;
  try_lock_shared = λ (a, b). if eqb a 0 then some (0, b + 1) else none;
  owners = λ m. m;
}

sample_mutex-IsSharedMutex : IsSharedMutex sample_mutex
sample_mutex-IsSharedMutex = record {
  lock_free = λ m m' e. ground arith;
  lock_held = λ m m' e. ground arith;
  try_lock_free = λ m m' e. ground arith;
  try_lock_held = λ m m' e. ground arith;
  unlock_free = λ m e. ground arith;
  lock_shared_free = λ m m' e. ground arith;
  lock_shared_held = λ m m' e. ground arith;
  try_lock_shared_free = λ m m' e. ground arith;
  try_lock_shared_held = λ m m' e. ground arith;
  unlock_shared_held = λ m n e. ground arith;
}

abbrev free_monitor : Monitor ℕ (ℕ × ℕ)
free_monitor = record { content = 7; mutex = (0, 0) }

abbrev shared_by : ℕ → List Guard → System ℕ (ℕ × ℕ)
shared_by n guards = record { monitor = record { content = 7; mutex = (0, n) }; guards = guards }

-- A lock that is passed on and ends, and two that share.
sample_run :
    Reach sample_mutex free_monitor
      (shared_by 2 (taken false ∷ taken false ∷ (move (taken true)).1 ∷ []))
unfolding move write_lock read_lock release
sample_run =
    next
      (next
        (next
          (next
            (next here
              (write {m = record { content = 7; mutex = (1, 0) }} {g = taken true} refl refl))
            (pass_on [] [] (taken true) refl refl))
          (Step.leave [] ((move (taken true)).1 ∷ []) (taken true) refl refl))
        (read {m = record { content = 7; mutex = (0, 1) }} {g = taken false} refl refl))
      (read {m = record { content = 7; mutex = (0, 2) }} {g = taken false} refl refl)

mutual_exclusion_example :
    (holders true (taken false ∷ taken false ∷ (move (taken true)).1 ∷ []) ≡ 0)
    ⊎ ((holders true (taken false ∷ taken false ∷ (move (taken true)).1 ∷ []) ≡ 1)
        × (holders false (taken false ∷ taken false ∷ (move (taken true)).1 ∷ []) ≡ 0))
mutual_exclusion_example = mutual_exclusion sample_mutex sample_mutex-IsSharedMutex refl sample_run

-- A broadcast of node 6 that arrives at node 5.
abbrev arriving : Message ℕ
arriving = addressed sample_net leave 0 a_node

process_message_routes_example :
    process_message sample_net 6 (save_message sample_net arriving) a_node
    ≡ returns (
        enqueue disconnect_priority
          (received sample_net arriving)
          (passed sample_net (save_message sample_net arriving) (7 ∷ []) a_node))
unfolding number_eq
process_message_routes_example =
    process_message_routes sample_net sample_net-IsLawful arriving
      (intake message_class 0 disconnect_priority) 6 a_node refl refl leave_right refl (omega arith)

-- Three peers, whose addresses are cached.
abbrev slot : ℕ → Slot ℕ
slot a = record { socket = (a, 80); cached_ip = a; cached_port = 80 }

erase_cached_example :
    (map (λ q. q.socket) (Slots.erase 0 (slot 6 ∷ slot 7 ∷ slot 8 ∷ [])) ≡ (7, 80) ∷ (8, 80) ∷ [])
    × (map (Slots.address (λ a. ltb 3 a)) (Slots.erase 0 (slot 6 ∷ slot 7 ∷ slot 8 ∷ []))
        ≡ 6 ∷ 7 ∷ [])
erase_cached_example =
    erase_cached (λ a. ltb 3 a) 0 (slot 6 ∷ slot 7 ∷ slot 8 ∷ []) (refl, (refl, (refl, tt)))
      (omega arith)

-- A folder of two names.
inner : IsDeep (codes "s" ∷ codes "f" ∷ [])
inner = deep (codes "s") (codes "f") [] (λ e. cc e)

setup_keeps_example :
    Dict.lookup (wnts_path target) (Setup.setup (target ∷ []) a_disk)
    ≡ Dict.lookup (wnts_path target) a_disk
setup_keeps_example = setup_keeps (target ∷ []) (codes "s") (codes "f" ∷ []) a_disk (inner, tt)

-- One file that is there, and one that is tracked and gone.
abbrev one_tracked : Sweeper
one_tracked = record {
  timestamps = (codes "old" ∷ [], (4, 0)) ∷ [];
  fast_track_timestamps = [];
  iteration = 1;
}

sweep-Reports_example : Reports (λ p. 5) (target ∷ []) 9 one_tracked []
sweep-Reports_example =
    sweep-Reports (λ p. 5) (target ∷ []) 9 one_tracked [] (tt, tt) (tt, tt)
      ((λ e. absurd (omega (arith, e))), tt)

-- The service is not online.
abbrev started : ServiceNode ℕ
started = record { online = false; networks_joined_count = 0; ip = 1 }

networks_joined_count-on_events_example :
    (on_events (network_down ∷ []) started).networks_joined_count ≡ (0 + 0 + 255 * (0 + 1)) % 256
networks_joined_count-on_events_example =
    networks_joined_count-on_events (network_down ∷ []) started (omega arith)

-- Two more nodes connect.
abbrev polls : List (Poll sample_net)
polls = accepted (a_peer 8) ∷ not_ready ∷ accepted (a_peer 9) ∷ []

listen-Welcomes_example : Welcomes sample_net polls a_node
unfolding number_eq
listen-Welcomes_example = listen-Welcomes sample_net polls a_node (
  ((λ e. absurd (omega (arith, e))), (λ e. absurd (omega (arith, e))), refl),
  (tt, (((λ e. absurd (omega (arith, e))), (λ e. absurd (omega (arith, e))), refl), tt)),
)
