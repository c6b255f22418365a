-- ===== src/Manager.antt =====
-- MessageManager::processNextMessage (message_manager.hpp) and the destructor (message_manager.cpp).
pub mod Turn
pub mod Syncing
pub mod Draining
use cpe400_peer_2_peer_file.Base.{
  ℕ, zero, suc, ◌+◌, ◌*◌, ◌^◌, Bool, true, false, List, [], ◌∷◌, Option, none, some, Eq,
  if◌then◌else◌,
}
use cpe400_peer_2_peer_file.Base.Outcome.{
  Outcome, returns, throws, undefined, too_deep, unrecognized_type, ◌>>=◌,
}
use cpe400_peer_2_peer_file.Paths.{FilePath, lock_file_path}
use cpe400_peer_2_peer_file.Platform.{Platform}
use cpe400_peer_2_peer_file.Messages.{
  MessageType, invalid, lock, unlock, delete_file, content_change, initial_sync,
  initial_sync_request, connect, disconnect, payload, resend_request, link_lost, unknown, Body,
  plain_body, payload_body, resend_body, file_body, content_body, sync_body, connect_body, Message,
}
use cpe400_peer_2_peer_file.Disk.{
  Disk, exists, permissions_add, remove, load_lock_file, enumerate_all_files,
}
use cpe400_peer_2_peer_file.Node.{Node, Prio, enqueue}
use cpe400_peer_2_peer_file.Queue.{take_top}
use cpe400_peer_2_peer_file.Routing.{
  resend_priority, lock_priority, file_priority, connect_priority, disconnect_priority,
}
use cpe400_peer_2_peer_file.Handlers.Files.{
  Handled, process_lock_message, process_unlock_message, process_delete_file_message,
  process_content_file_message,
}
use cpe400_peer_2_peer_file.Handlers.Sync.{
  process_initial_file_sync_message, process_initial_file_sync_request_message,
  process_connect_message,
}
use cpe400_peer_2_peer_file.Handlers.Links.{
  process_resend_request_message, process_link_lost_message, process_disconnect_message,
}

-- The priority at which a message that was not processed is queued again.
abbrev pub requeue_priority : MessageType → ℕ
requeue_priority resend_request = resend_priority + 1
requeue_priority lock = lock_priority + 1
requeue_priority unlock = lock_priority + 1
requeue_priority delete_file = file_priority + 1
requeue_priority content_change = file_priority + 1
requeue_priority initial_sync = lock_priority + 1
requeue_priority initial_sync_request = lock_priority + 1
requeue_priority connect = connect_priority + 1
requeue_priority disconnect = disconnect_priority + 1
requeue_priority link_lost = resend_priority + 1
requeue_priority _ = 0

module _ {Ip : Type 0} ⦃ip_eq : Eq Ip⦄ (net : Platform Ip) where
  -- The cases of the switch. A message whose members are not those of its type's class is cast to a
  -- class that it does not have. A payload is only printed.
  unfoldable pub dispatch : MessageType → Body Ip → Message Ip → Node Ip → Handled Ip
  dispatch payload (payload_body text) m node = returns (true, node)
  dispatch resend_request (resend_body requested destination) m node =
      process_resend_request_message net m requested destination node
  dispatch lock (file_body target timestamp) m node =
      process_lock_message net m target timestamp node
  dispatch unlock (file_body target timestamp) m node = process_unlock_message net m target node
  dispatch delete_file (file_body target timestamp) m node =
      process_delete_file_message net m target node
  dispatch content_change (content_body target timestamp content) m node =
      process_content_file_message net m target content node
  dispatch initial_sync (sync_body target timestamp content total index) m node =
      process_initial_file_sync_message net target content total node
  dispatch initial_sync_request plain_body m node =
      process_initial_file_sync_request_message net m node
  dispatch connect (connect_body peers paths) m node = process_connect_message net peers paths node
  dispatch disconnect plain_body m node = process_disconnect_message net m node
  dispatch link_lost plain_body m node = process_link_lost_message net m node
  dispatch invalid body m node = throws unrecognized_type
  dispatch (unknown n) body m node = throws unrecognized_type
  dispatch _ body m node = undefined

  -- The end of processNextMessage.
  abbrev pub finish : Message Ip → Bool × Node Ip → Node Ip
  finish m (true, node) = record node { old_messages = net.remember m node.old_messages }
  finish m (false, node) = enqueue (requeue_priority m.type) m node

  -- The clock has gone on when a message has been handled.
  abbrev pub after_handling : Message Ip → Node Ip → Node Ip
  after_handling m node = record node { now = node.now + net.handling_time m node.now }

  unfoldable pub next_of : List (Prio Ip) → Node Ip → Outcome (Node Ip)
  next_of [] node = returns (record node { now = node.now + 100 * 10 ^ 6 })
  next_of (p ∷ rest) node = take_top p rest >>= λ (top, others).
      dispatch top.message.type top.message.body top.message
        (record node { message_queue = others })
      >>= λ (processed, node').
          returns (finish top.message (processed, after_handling top.message node'))

  -- processNextMessage: on an empty queue it waits for a tenth of a second.
  unfoldable pub process_next_message : Node Ip → Outcome (Node Ip)
  process_next_message node = next_of node.message_queue node

  -- The first loop of the destructor. The fuel bounds the messages; none is given for an empty queue.
  unfoldable pub drain : ℕ → Node Ip → Outcome (Node Ip)
  drain zero node = too_deep
  drain (suc fuel) node = elim node.message_queue [
    | [] ↦ returns node
    | p ∷ rest ↦ process_next_message node >>= λ node'. drain fuel node'
  ]

  -- The second loop: files whose lock file is left are unlocked.
  unfoldable pub unlock_files : List FilePath → Disk Ip → Outcome (Disk Ip)
  unlock_files [] disk = returns disk
  unlock_files (path ∷ paths) disk =
      (if exists (lock_file_path path) disk
        then (load_lock_file net path disk >>= λ (_, to_add).
            permissions_add path to_add disk >>= λ disk'. remove (lock_file_path path) disk')
        else returns disk)
      >>= λ disk'. unlock_files paths disk'

  -- ~MessageManager
  unfoldable pub shut_down : ℕ → Node Ip → Outcome (Node Ip)
  shut_down fuel node = drain fuel node >>= λ node'.
      enumerate_all_files node'.folders node'.disk >>= λ paths.
      unlock_files paths node'.disk >>= λ disk. returns (record node' { disk = disk })
