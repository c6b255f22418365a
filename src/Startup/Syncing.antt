-- ===== src/Startup/Syncing.antt =====
-- A node that joins, from the files that wait in its queue to the end of their processing.
use cpe400_peer_2_peer_file.Base.{
  ℕ, suc, zero, ◌+◌, ◌*◌, ◌-◌, ◌/◌, ◌^◌, ◌<◌, ◌≤◌, true, ltb, Bool-cases, inl, inr, List, [], ◌∷◌,
  Eq, eqb, ◌≡◌, refl, ap, ◌∙◌, arith, All, length,
}
use cpe400_peer_2_peer_file.Base.Outcome.{returns}
use cpe400_peer_2_peer_file.Text.{size_t_mod}
use cpe400_peer_2_peer_file.Platform.{Platform}
use cpe400_peer_2_peer_file.Messages.{initial_sync, Message}
use cpe400_peer_2_peer_file.Node.{Prio, Node, is_finished_connecting}
use cpe400_peer_2_peer_file.Handlers.Sync.Receiving.{Targets, HasRoom, Keeps}
use cpe400_peer_2_peer_file.Manager.{next_of, process_next_message}
use cpe400_peer_2_peer_file.Manager.Syncing.{IsSync, AllArrived, process_next_message-Turn}
use cpe400_peer_2_peer_file.Startup.{process_for_a_second}

module _ {Ip : Type 0} ⦃ip_eq : Eq Ip⦄ (net : Platform Ip) where
  -- An empty queue, with so many tenths of a second, or less, left: the loop waits until they have
  -- passed.
  pub record Idle (limit fuel start : ℕ) (node : Node Ip) : Type 0 where
    pub later : ℕ
    pub waits : process_for_a_second net fuel start node ≡ returns (record node { now = later })
    pub over : start + 1000000000 ≤ later
    pub soon : later < start + 1000000000 + limit

  pub process_for_a_second-Idle :
      (limit tenths fuel start : ℕ) (node : Node Ip)
      → 100000000 ≤ limit
      → start ≤ node.now
      → node.now < start + 1000000000 + limit
      → start + 1000000000 ≤ node.now + tenths * 100000000
      → tenths < fuel
      → node.message_queue ≡ []
      → Idle limit fuel start node
  unfolding process_for_a_second process_next_message next_of
  process_for_a_second-Idle limit zero (suc fuel) start node tenth begun late close enough empty =
      record { later = node.now; waits = ground arith; over = omega arith; soon = late }
  process_for_a_second-Idle limit (suc tenths) (suc fuel) start node tenth begun late close enough
        empty =
      elim (Bool-cases (ltb ((node.now - start) / 10 ^ 6) 1000)) [
        | inl goes_on ↦
            let rest =
              process_for_a_second-Idle limit tenths fuel start
                (record node { now = node.now + 100 * 10 ^ 6 }) tenth (omega arith) (ground arith)
                (omega arith) (omega arith) empty in
            record {
              later = rest.later;
              waits = ground (arith, rest.waits);
              over = rest.over;
              soon = rest.soon;
            }
        | inr over ↦ record {
          later = node.now;
          waits = ground arith;
          over = ground arith;
          soon = late;
        }
      ]
  process_for_a_second-Idle limit tenths zero start node tenth begun late close enough empty =
      absurd (omega arith)

  -- Every message of the initial sync is handled within so many nanoseconds.
  abbrev pub IsBrief : ℕ → Type 0
  IsBrief limit = (m : Message Ip) (t : ℕ) → m.type ≡ initial_sync → net.handling_time m t ≤ limit

module _ {Ip : Type 0} ⦃ip_eq : Eq Ip⦄ (net : Platform Ip)
    (created : net.created_perms.write.owner ≡ true) (targets : Targets) where
  last_total : List (Prio Ip) → ℕ → ℕ → ℕ
  last_total [] old total = old
  last_total (p ∷ queue) old total = total

  last_total-same : (queue : List (Prio Ip)) (total : ℕ) → last_total queue total total ≡ total
  unfolding last_total
  last_total-same [] total = refl
  last_total-same (p ∷ queue) total = refl

  -- The end of a second in which the files in a queue were processed.
  record Synced (total fuel start : ℕ) (queue : List (Prio Ip)) (node : Node Ip) : Type 0 where
    done : Node Ip
    gives : process_for_a_second net fuel start node ≡ returns done
    empty : done.message_queue ≡ []
    counted : done.received_initial_files ≡ node.received_initial_files + length queue
    known : done.total_initial_files ≡ last_total queue node.total_initial_files total
    kept : Keeps targets node.disk done.disk
    arrived : AllArrived done.disk queue

  process_for_a_second-Synced :
      (limit n fuel total start : ℕ) (node : Node Ip) (queue : List (Prio Ip))
      → IsBrief net limit
      → length queue ≡ n
      → n + 10 < fuel
      → node.message_queue ≡ queue
      → All (IsSync targets total) queue
      → node.received_initial_files + n < size_t_mod
      → HasRoom targets node.disk
      → start ≤ node.now
      → node.now + n * limit < start + 1000000000
      → Synced total fuel start queue node
  unfolding process_for_a_second last_total
  process_for_a_second-Synced limit n fuel total start node [] brief long enough queued sync few
        room begun short =
      let rest =
        process_for_a_second-Idle net 100000000 10 fuel start node (omega arith) begun (omega arith)
          (omega arith) (omega arith) queued in
      record {
        done = record node { now = rest.later };
        gives = rest.waits;
        empty = queued;
        counted = omega arith;
        known = refl;
        kept = λ t one h. h;
        arrived = tt;
      }
  process_for_a_second-Synced limit (suc n) (suc fuel) total start node (p ∷ rest) brief long enough
        queued sync few room begun short =
      let turn = process_next_message-Turn net created targets total node p rest queued sync room in
      let counted : turn.next.received_initial_files ≡ node.received_initial_files + 1 =
        omega (arith, turn.counted) in
      let (goes_on, in_time) = turn.clock limit brief in
      let later =
        process_for_a_second-Synced limit n fuel total start turn.next turn.next.message_queue brief
          (omega (arith, turn.fewer)) (omega arith) refl turn.sync (omega arith) turn.room
          (omega (arith, goes_on)) (omega (arith, in_time)) in
      record {
        done = later.done;
        gives = ground (arith, turn.gives, later.gives);
        empty = later.empty;
        counted = omega (arith, later.counted, turn.fewer);
        known =
            later.known
            ∙ ap (λ k. last_total turn.next.message_queue k total) turn.known
            ∙ last_total-same turn.next.message_queue total;
        kept = λ t one h. later.kept t one (turn.kept t one h);
        arrived = turn.arrived later.done.disk later.kept later.arrived;
      }
  process_for_a_second-Synced limit zero fuel total start node (p ∷ rest) brief long enough queued
        sync few room begun short =
      absurd (omega arith)
  process_for_a_second-Synced limit (suc n) zero total start node (p ∷ rest) brief long enough
        queued sync few room begun short =
      absurd (omega arith)

  -- On a node that has received no files yet, whose queue holds messages of the initial sync of
  -- total files and no others, at least one and fewer than 2 ^ 64: of target files with the
  -- expected contents, none of which is where a folder of another has to be. Where there is room
  -- for all targets, made files can be written by their owner, and the handling of each message of
  -- the initial sync takes so little time that those in the queue fit in less than a second, a
  -- second of processing ends with an empty queue, and every file of the queue is on the disk with
  -- its content; the node has then finished connecting if and only if the messages were total. A
  -- fuel of eleven more than the messages is enough.
  pub initial_sync-Completes :
      (total fuel limit : ℕ) (node : Node Ip) (p : Prio Ip) (rest : List (Prio Ip))
      → IsBrief net limit
      → length (p ∷ rest) * limit < 1000000000
      → node.message_queue ≡ p ∷ rest
      → All (IsSync targets total) (p ∷ rest)
      → node.received_initial_files ≡ 0
      → length (p ∷ rest) < size_t_mod
      → HasRoom targets node.disk
      → length (p ∷ rest) + 10 < fuel
      → (node' : Node Ip) × (process_for_a_second net fuel node.now node ≡ returns node')
        × (node'.message_queue ≡ [])
        × AllArrived node'.disk (p ∷ rest)
        × (is_finished_connecting node' ≡ eqb (length (p ∷ rest)) total)
  unfolding last_total
  initial_sync-Completes total fuel limit node p rest brief short queued sync none_yet few room
        enough =
      let result =
        process_for_a_second-Synced limit (length (p ∷ rest)) fuel total node.now node (p ∷ rest)
          brief refl enough queued sync (omega arith) room (omega arith) (omega arith) in
      (
        result.done,
        result.gives,
        result.empty,
        result.arrived,
        ap (λ k. eqb k result.done.total_initial_files) (omega (arith, result.counted))
            ∙ ap (eqb (length (p ∷ rest))) result.known,
      )
