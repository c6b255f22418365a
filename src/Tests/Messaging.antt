-- ===== src/Tests/Messaging.antt =====
-- Messages of a sample node: sent, taken in and queued.
use cpe400_peer_2_peer_file.Base.{
  ℕ, ◌≢◌, inl, inr, true, false, [], ◌∷◌, ◌++◌, some, ◌≡◌, refl, arith,
}
use cpe400_peer_2_peer_file.Base.Outcome.{Any, Ends, returns, undefined, too_deep}
use cpe400_peer_2_peer_file.Text.{codes, hash, decimal}
use cpe400_peer_2_peer_file.Messages.{
  Message, plain_body, file_body, sync_body, lock, disconnect, initial_sync, hash_message,
  resend_request, resend_body, content_body, content_change, delete_file,
}
use cpe400_peer_2_peer_file.Messages.Archive.{number}
use cpe400_peer_2_peer_file.Messages.Wire.{
  save_message, load_message, load_message-save_message, received, message_class, sync_class,
  file_class,
}
use cpe400_peer_2_peer_file.Node.{Node, Prio, enqueue}
use cpe400_peer_2_peer_file.Queue.{take_top, prio_comp, is_file_type}
use cpe400_peer_2_peer_file.Queue.Order.{Served, IsComparable, take_top-Served, prio_comp_undefined}
use cpe400_peer_2_peer_file.Routing.{
  addressed, send, transmit, deserialize_message, intake, disconnect_priority, resend_priority,
  lock_priority, file_priority, hash_matches,
}
use cpe400_peer_2_peer_file.Routing.Local.{deserialize_message_depth}
use cpe400_peer_2_peer_file.Routing.Laws.{
  frames, remembered, request_of, send_broadcast, deserialize_message_wrong, hash_matches_exact,
  CanBroadcast,
}
use cpe400_peer_2_peer_file.Manager.Draining.{HasLeft, shut_down-Ends}
use cpe400_peer_2_peer_file.Manager.{shut_down, process_next_message, requeue_priority, drain}
use cpe400_peer_2_peer_file.Manager.Turn.{process_next_message_put_off, drain_stuck}
use cpe400_peer_2_peer_file.Incoming.{on_socket_error}
use cpe400_peer_2_peer_file.Life.{Reach, begin, next, fails, passes}
use cpe400_peer_2_peer_file.Life.Sending.{AllFit}
use cpe400_peer_2_peer_file.Life.Queued.{Reach-AllFit}
use cpe400_peer_2_peer_file.Tests.Sample.{
  sample_net, sample_net-IsLawful, a_node, target, message_of, number_eq,
}

-- Two locks of one priority, the second of them later, and the end of a connection.
abbrev lock_at : ℕ → Prio ℕ
lock_at t = record { priority = 4; message = message_of lock 6 (file_body target t) }

abbrev leaving : Prio ℕ
leaving = record { priority = 2; message = message_of disconnect 7 plain_body }

take_top-Served_example : Served (lock_at 10) (lock_at 20 ∷ leaving ∷ [])
unfolding is_file_type
take_top-Served_example =
    take_top-Served (lock_at 10) (lock_at 20 ∷ leaving ∷ []) (inr (10, refl))
      (inr (20, refl), (inl refl, tt))

-- A request to resend a message.
abbrev asking : ℕ → Prio ℕ
asking a = record { priority = 0; message = message_of resend_request a (resend_body 12 5) }

prio_comp_undefined_example :
    (prio_comp (asking 6) (asking 7) ≡ undefined) × (prio_comp (asking 7) (asking 6) ≡ undefined)
unfolding is_file_type
prio_comp_undefined_example = prio_comp_undefined (asking 6) (asking 7) refl refl refl refl

abbrev sync : Message ℕ
sync = message_of initial_sync 6 (sync_body target 3_000_000_007 (codes "ab") 2 0)

load_message-save_message_example :
    load_message sample_net sync_class (save_message sample_net sync ++ (number 1 ∷ []))
    ≡ some (received sample_net sync, number 1 ∷ [])
load_message-save_message_example =
    load_message-save_message sample_net sample_net-IsLawful sync (number 1 ∷ []) refl

abbrev pub leave : Message ℕ
leave = message_of disconnect 5 plain_body

pub a_node-CanBroadcast : CanBroadcast sample_net a_node
unfolding number_eq
a_node-CanBroadcast =
    (((λ e. absurd (omega (arith, e))), ((λ e. absurd (omega (arith, e))), tt)), refl)

pub leave_right :
    hash_matches sample_net (received sample_net (addressed sample_net leave 0 a_node)) 0 ≡ true
unfolding hash_message hash decimal number_eq
leave_right = refl

send_broadcast_example :
    send sample_net leave 0 true a_node
    ≡ returns (
        remembered sample_net (addressed sample_net leave 0 a_node) (
          enqueue disconnect_priority (received sample_net (addressed sample_net leave 0 a_node)) (
            transmit sample_net
              (frames sample_net
                (save_message sample_net (addressed sample_net leave 0 a_node))
                a_node.peers)
              a_node)))
send_broadcast_example =
    send_broadcast sample_net sample_net-IsLawful leave (intake message_class 0 disconnect_priority)
      a_node refl refl a_node-CanBroadcast leave_right

-- A message whose hash is not that of its members.
leave_wrong : hash_matches sample_net (received sample_net leave) 0 ≡ false
unfolding hash_message hash decimal number_eq
leave_wrong = refl

deserialize_message_wrong_example :
    deserialize_message sample_net 2 (save_message sample_net leave) a_node
    ≡ returns (
        remembered sample_net (request_of sample_net leave a_node) (
          enqueue resend_priority (received sample_net (request_of sample_net leave a_node)) (
            transmit sample_net
              (frames sample_net
                (save_message sample_net (request_of sample_net leave a_node))
                a_node.peers)
              a_node)))
deserialize_message_wrong_example =
    deserialize_message_wrong sample_net sample_net-IsLawful leave
      (intake message_class 0 disconnect_priority) a_node refl refl a_node-CanBroadcast leave_wrong

abbrev exact_lock : Message ℕ
exact_lock = record (message_of lock 6 (file_body target 10)) {
  message_hash = hash_message sample_net (message_of lock 6 (file_body target 10));
}

exact_right : exact_lock.message_hash ≡ hash_message sample_net exact_lock
unfolding hash_message
exact_right = refl

hash_matches_exact_example : hash_matches sample_net exact_lock 1 ≡ false
hash_matches_exact_example =
    hash_matches_exact sample_net exact_lock (intake file_class 1 lock_priority) refl exact_right

deserialize_message_depth_example :
    Ends Any (deserialize_message sample_net 7 (save_message sample_net exact_lock) a_node)
    × (deserialize_message sample_net 7 (save_message sample_net exact_lock) a_node
        ≡ deserialize_message sample_net 2 (save_message sample_net exact_lock) a_node)
deserialize_message_depth_example =
    deserialize_message_depth sample_net sample_net-IsLawful 5 (save_message sample_net exact_lock)
      a_node

-- A node that has one of two files, with the end of a connection to process.
abbrev joining_node : Node ℕ
joining_node = record a_node { total_initial_files = 2; message_queue = leaving ∷ [] }

only_one : take_top leaving [] ≡ returns (leaving, [])
unfolding take_top
only_one = refl

one_left : joining_node.message_queue ≢ []
one_left e = cc e

leaving-IsComparable : IsComparable leaving
unfolding is_file_type
leaving-IsComparable = inl refl

process_next_message_put_off_example :
    process_next_message sample_net joining_node
    ≡ returns (
        enqueue
          (requeue_priority disconnect)
          leaving.message
          (record joining_node { message_queue = []; now = 1250 }))
process_next_message_put_off_example =
    process_next_message_put_off sample_net joining_node leaving [] leaving [] refl only_one refl
      refl refl

drain_stuck_example : drain sample_net 3 joining_node ≡ too_deep
drain_stuck_example =
    drain_stuck sample_net 3 joining_node refl one_left ((refl, refl, leaving-IsComparable), tt)

-- A change and a deletion of a file wait in the queue.
abbrev change_entry : Prio ℕ
change_entry = record {
  priority = file_priority;
  message = message_of content_change 6 (content_body target 700 (codes "cd"));
}

abbrev delete_entry : Prio ℕ
delete_entry = record {
  priority = file_priority;
  message = message_of delete_file 6 (file_body target 800);
}

abbrev busy_node : Node ℕ
busy_node = record a_node { message_queue = change_entry ∷ delete_entry ∷ [] }

shut_down-Ends_example : Ends (HasLeft sample_net 0) (shut_down sample_net 3 busy_node)
shut_down-Ends_example = shut_down-Ends sample_net busy_node ((refl, refl), ((refl, refl), tt)) refl

-- A peer's connection is lost, and time passes.
abbrev told_node : Node ℕ
told_node = (on_socket_error sample_net (codes "zts_errno=107") 6 a_node).0

later_Reach : Reach sample_net (record told_node { now = 2000; disk = [] })
later_Reach = next (next (begin refl) (fails (codes "zts_errno=107") 6 refl)) (passes 2000 [] refl)

Reach-AllFit_example : AllFit (record told_node { now = 2000; disk = [] })
Reach-AllFit_example = Reach-AllFit sample_net later_Reach
