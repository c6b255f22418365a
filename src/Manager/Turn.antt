-- ===== src/Manager/Turn.antt =====
-- One turn of the message loop, and the loops that run until the queue is empty.
use cpe400_peer_2_peer_file.Base.{
  ℕ, zero, suc, Bool, true, false, List, [], ◌∷◌, ◌++◌, Eq, ◌≡◌, refl, ◌≢◌, arith, All,
}
use cpe400_peer_2_peer_file.Base.Outcome.{returns, too_deep}
use cpe400_peer_2_peer_file.Platform.{Platform}
use cpe400_peer_2_peer_file.Messages.{
  MessageType, lock, unlock, delete_file, content_change, initial_sync_request, disconnect, Body,
  fits, Message,
}
use cpe400_peer_2_peer_file.Node.{Node, Prio, enqueue, is_finished_connecting}
use cpe400_peer_2_peer_file.Queue.{take_top}
use cpe400_peer_2_peer_file.Queue.Order.{IsComparable, take_top-Served, take_top-All}
use cpe400_peer_2_peer_file.Handlers.Files.{
  process_lock_message, process_unlock_message, process_delete_file_message,
  process_content_file_message,
}
use cpe400_peer_2_peer_file.Handlers.Sync.{process_initial_file_sync_request_message}
use cpe400_peer_2_peer_file.Handlers.Links.{process_disconnect_message}
use cpe400_peer_2_peer_file.Manager.{
  requeue_priority, after_handling, dispatch, next_of, process_next_message, drain,
}

-- The messages that are put off until the node has all files of the network.
abbrev pub waits : MessageType → Bool
waits lock = true
waits unlock = true
waits delete_file = true
waits content_change = true
waits initial_sync_request = true
waits disconnect = true
waits _ = false

module _ {Ip : Type 0} ⦃ip_eq : Eq Ip⦄ (net : Platform Ip) where
  dispatch-waits :
      (type : MessageType) (body : Body Ip) (m : Message Ip) (node : Node Ip)
      → waits type ≡ true
      → fits type body ≡ true
      → is_finished_connecting node ≡ false
      → dispatch net type body m node ≡ returns (false, node)
  unfolding dispatch process_lock_message process_unlock_message process_delete_file_message
      process_content_file_message process_initial_file_sync_request_message
      process_disconnect_message
  dispatch-waits lock body m node w k h = ground arith
  dispatch-waits _ body m node w k h = ground arith

  -- A message that is put off, with the members of its class.
  abbrev pub IsWaiting : Prio Ip → Type 0
  IsWaiting p =
      (waits p.message.type ≡ true) × (fits p.message.type p.message.body ≡ true) × IsComparable p

  All-IsComparable : (queue : List (Prio Ip)) → All IsWaiting queue → All IsComparable queue
  All-IsComparable [] h = tt
  All-IsComparable (p ∷ queue) h = (h.0.2, All-IsComparable queue h.1)

  All-append :
      (P : Prio Ip → Type 0) (xs ys : List (Prio Ip)) → All P xs → All P ys → All P (xs ++ ys)
  All-append P [] ys hx hy = hy
  All-append P (x ∷ xs) ys hx hy = (hx.0, All-append P xs ys hx.1 hy)

  -- A turn of a node that has not finished connecting, when the message on top is put off: the message
  -- goes back to the queue at its type's second priority, and nothing else changes but the clock,
  -- which goes on by the time that the handling takes.
  pub process_next_message_put_off :
      (node : Node Ip) (p : Prio Ip) (rest : List (Prio Ip)) (top : Prio Ip)
      (others : List (Prio Ip))
      → node.message_queue ≡ p ∷ rest
      → take_top p rest ≡ returns (top, others)
      → is_finished_connecting node ≡ false
      → waits top.message.type ≡ true
      → fits top.message.type top.message.body ≡ true
      → process_next_message net node
        ≡ returns (
            enqueue
              (requeue_priority top.message.type)
              top.message
              (after_handling net top.message (record node { message_queue = others })))
  unfolding process_next_message next_of
  process_next_message_put_off node p rest top others queued taken unfinished w fit = rw (
    queued,
    next_of,
    taken,
    dispatch-waits top.message.type top.message.body top.message
        (record node { message_queue = others }) w fit unfinished,
  )

  append-ne-nil : (xs : List (Prio Ip)) (y : Prio Ip) → xs ++ y ∷ [] ≢ []
  append-ne-nil [] y e = cc
  append-ne-nil (x ∷ xs) y e = cc

  drain_turn :
      (fuel : ℕ)
      → ((n : Node Ip)
          → is_finished_connecting n ≡ false
          → n.message_queue ≢ []
          → All IsWaiting n.message_queue
          → drain net fuel n ≡ too_deep)
      → (node : Node Ip) (queue : List (Prio Ip)) → node.message_queue ≡ queue
      → is_finished_connecting node ≡ false
      → queue ≢ []
      → All IsWaiting queue
      → drain net (suc fuel) node ≡ too_deep
  unfolding drain
  drain_turn fuel rest_stuck node [] queued unfinished some_left waiting = absurd (some_left refl)
  drain_turn fuel rest_stuck node (p ∷ rest) queued unfinished some_left waiting =
      let served = take_top-Served p rest waiting.0.2 (All-IsComparable rest waiting.1) in
      let (top, others) =
        take_top-All IsWaiting p rest served.top served.others waiting served.result in
      let turn =
        process_next_message_put_off node p rest served.top served.others queued served.result
          unfinished top.0 top.1 in
      rw (queued, drain, turn)
        (rest_stuck _ unfinished (append-ne-nil served.others _)
          (All-append IsWaiting served.others _ others (top, tt)))

  -- A node that has not finished connecting, with only messages in its queue that are put off until it
  -- has: the loop of the destructor goes on, whatever number of turns it is given.
  pub drain_stuck :
      (fuel : ℕ) (node : Node Ip)
      → is_finished_connecting node ≡ false
      → node.message_queue ≢ []
      → All IsWaiting node.message_queue
      → drain net fuel node ≡ too_deep
  unfolding drain
  drain_stuck zero node unfinished some_left waiting = refl
  drain_stuck (suc fuel) node unfinished some_left waiting =
      drain_turn fuel (drain_stuck fuel) node node.message_queue refl unfinished some_left waiting
