-- ===== src/Startup/Timing.antt =====
-- A second of processing, when it may be over before the queue is empty.
use cpe400_peer_2_peer_file.Base.{
  ℕ, suc, zero, ◌+◌, ◌-◌, ◌/◌, ◌^◌, ◌<◌, ◌≤◌, true, ltb, Bool-cases, inl, inr, List, [], ◌∷◌, Eq,
  ◌≡◌, refl, ap, arith, All, length,
}
use cpe400_peer_2_peer_file.Base.Outcome.{returns}
use cpe400_peer_2_peer_file.Text.{size_t_mod}
use cpe400_peer_2_peer_file.Platform.{Platform}
use cpe400_peer_2_peer_file.Node.{Prio, Node}
use cpe400_peer_2_peer_file.Handlers.Sync.Receiving.{Targets, HasRoom}
use cpe400_peer_2_peer_file.Manager.Syncing.{IsSync, process_next_message-Turn}
use cpe400_peer_2_peer_file.Startup.{process_for_a_second}
use cpe400_peer_2_peer_file.Startup.Syncing.{IsBrief, process_for_a_second-Idle}

module _ {Ip : Type 0} ⦃ip_eq : Eq Ip⦄ (net : Platform Ip)
    (created : net.created_perms.write.owner ≡ true) (targets : Targets) where
  -- The end of a second in which some of the files in a queue were processed.
  record Timed (limit total fuel start : ℕ) (node : Node Ip) : Type 0 where
    done : Node Ip
    gives : process_for_a_second net fuel start node ≡ returns done
    over : start + 1000000000 ≤ done.now
    soon : done.now < start + 1000000000 + limit
    sync : All (IsSync targets total) done.message_queue
    counted :
        done.received_initial_files + length done.message_queue
        ≡ node.received_initial_files + length node.message_queue

  process_for_a_second-Timed :
      (limit n fuel total start : ℕ) (node : Node Ip) (queue : List (Prio Ip))
      → IsBrief net limit
      → 100000000 ≤ limit
      → length queue ≡ n
      → n + 10 < fuel
      → node.message_queue ≡ queue
      → All (IsSync targets total) queue
      → node.received_initial_files + n < size_t_mod
      → HasRoom targets node.disk
      → start ≤ node.now
      → node.now < start + 1000000000 + limit
      → Timed limit total fuel start node
  unfolding process_for_a_second
  process_for_a_second-Timed limit n fuel total start node [] brief tenth long enough queued sync
        few room begun late =
      let rest =
        process_for_a_second-Idle net limit 10 fuel start node tenth begun late (omega arith)
          (omega arith) queued in
      record {
        done = record node { now = rest.later };
        gives = rest.waits;
        over = rest.over;
        soon = rest.soon;
        sync = rw queued tt;
        counted = refl;
      }
  process_for_a_second-Timed limit (suc n) (suc fuel) total start node (p ∷ rest) brief tenth long
        enough queued sync few room begun late =
      elim (Bool-cases (ltb ((node.now - start) / 10 ^ 6) 1000)) [
        | inl goes_on ↦
            let turn =
              process_next_message-Turn net created targets total node p rest queued sync room in
            let counted : turn.next.received_initial_files ≡ node.received_initial_files + 1 =
              omega (arith, turn.counted) in
            let (goes_on', in_time) = turn.clock limit brief in
            let later =
              process_for_a_second-Timed limit n fuel total start turn.next turn.next.message_queue
                brief tenth (omega (arith, turn.fewer)) (omega arith) refl turn.sync (omega arith)
                turn.room (omega (arith, goes_on')) (ground (arith, in_time)) in
            record {
              done = later.done;
              gives = ground (arith, turn.gives, later.gives);
              over = later.over;
              soon = later.soon;
              sync = later.sync;
              counted = omega (arith, later.counted, turn.fewer, ap length queued, counted);
            }
        | inr over ↦ record {
          done = node;
          gives = ground arith;
          over = ground arith;
          soon = late;
          sync = rw queued sync;
          counted = refl;
        }
      ]
  process_for_a_second-Timed limit zero fuel total start node (p ∷ rest) brief tenth long enough
        queued sync few room begun late =
      absurd (omega arith)
  process_for_a_second-Timed limit (suc n) zero total start node (p ∷ rest) brief tenth long enough
        queued sync few room begun late =
      absurd (omega arith)

  -- On a node that has received no files yet, whose queue holds messages of the initial sync of
  -- total files and no others, fewer than 2 ^ 64: of target files with the expected contents, none
  -- of which is where a folder of another has to be. Where there is room for all targets, made
  -- files can be written by their owner, and the handling of no message of the initial sync takes
  -- longer than a limit, which is at least the tenth of a second that the loop waits on an empty
  -- queue: the loop of the second returns, when the second is over, and later than that by less
  -- than the limit. The messages that it did not get to are still queued: with the files counted
  -- as received they are as many as the messages were. A fuel of eleven more than the messages is
  -- enough.
  pub initial_sync-InTime :
      (total fuel limit : ℕ) (node : Node Ip)
      → IsBrief net limit
      → 100000000 ≤ limit
      → All (IsSync targets total) node.message_queue
      → node.received_initial_files ≡ 0
      → length node.message_queue < size_t_mod
      → HasRoom targets node.disk
      → length node.message_queue + 10 < fuel
      → (node' : Node Ip) × (process_for_a_second net fuel node.now node ≡ returns node')
        × (node.now + 1000000000 ≤ node'.now)
        × (node'.now < node.now + 1000000000 + limit)
        × All (IsSync targets total) node'.message_queue
        × (node'.received_initial_files + length node'.message_queue ≡ length node.message_queue)
  initial_sync-InTime total fuel limit node brief tenth sync none_yet few room enough =
      let result =
        process_for_a_second-Timed limit (length node.message_queue) fuel total node.now node
          node.message_queue brief tenth refl enough refl sync (omega arith) room (omega arith)
          (omega arith) in
      (
        result.done,
        result.gives,
        result.over,
        result.soon,
        result.sync,
        omega (arith, result.counted),
      )
