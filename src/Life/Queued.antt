-- ===== src/Life/Queued.antt =====
-- What is in the queue of a node in the states that it can reach.
use cpe400_peer_2_peer_file.Base.{
  ℕ, Bool, true, false, List, [], ◌∷◌, none, some, Eq, ◌==◌, ltb, if◌then◌else◌, length, ◌≡◌, refl,
  sym, subst, arith, All,
}
use cpe400_peer_2_peer_file.Base.Outcome.{
  throws, archive_error, Ensures, >>=-Ensures, if-Ensures, eq_returns-Ensures, Ensures-eq_returns,
}
use cpe400_peer_2_peer_file.Text.{Text}
use cpe400_peer_2_peer_file.Platform.{Platform}
use cpe400_peer_2_peer_file.Messages.{Message, fits}
use cpe400_peer_2_peer_file.Messages.Archive.{Archive}
use cpe400_peer_2_peer_file.Messages.Wire.{load_header}
use cpe400_peer_2_peer_file.Node.{Node, Peer, Prio}
use cpe400_peer_2_peer_file.Queue.{take_top}
use cpe400_peer_2_peer_file.Queue.Order.{take_top-All}
use cpe400_peer_2_peer_file.Routing.{deserialize_message, disconnect_priority, route_data}
use cpe400_peer_2_peer_file.Incoming.{process_message, on_socket_error, lost_message}
use cpe400_peer_2_peer_file.Accept.{accept_connection, sync_request}
use cpe400_peer_2_peer_file.Manager.{
  requeue_priority, after_handling, finish, next_of, process_next_message,
}
use cpe400_peer_2_peer_file.Sweep.{Event}
use cpe400_peer_2_peer_file.Callbacks.{callback, node_surroundings}
use cpe400_peer_2_peer_file.Callbacks.Worlds.{callback-Ensures}
use cpe400_peer_2_peer_file.Sweep.Worlds.{sweep-Ensures}
use cpe400_peer_2_peer_file.Startup.{join_network}
use cpe400_peer_2_peer_file.Life.{
  Step, joins, accepts, gets, fails, detects, sweeps, takes, passes, Reach, begin, next,
}
use cpe400_peer_2_peer_file.Life.Sending.{
  AllFit, enqueue-AllFit, route_data-AllFit, deserialize_message-AllFit, send-AllFit,
}
use cpe400_peer_2_peer_file.Life.Handling.{dispatch-LeavesFit}

module _ {Ip : Type 0} ⦃ip_eq : Eq Ip⦄ (net : Platform Ip) where
  finish-AllFit :
      (m : Message Ip) (handled : Bool × Node Ip)
      → fits m.type m.body ≡ true
      → AllFit handled.1
      → AllFit (finish net m handled)
  finish-AllFit m (true, node) fit h = h
  finish-AllFit m (false, node) fit h = enqueue-AllFit (requeue_priority m.type) m node fit h

  next_of-AllFit :
      (queue : List (Prio Ip)) (node : Node Ip)
      → All (λ p. fits p.message.type p.message.body ≡ true) queue
      → AllFit node
      → Ensures AllFit (next_of net queue node)
  unfolding next_of
  next_of-AllFit [] node hq h = h
  next_of-AllFit (p ∷ rest) node hq h =
      >>=-Ensures
        (λ (top, others).
          (fits top.message.type top.message.body ≡ true)
          × All (λ q. fits q.message.type q.message.body ≡ true) others)
        AllFit (take_top p rest) _
        (eq_returns-Ensures _ (take_top p rest) (λ (top, others) e.
          take_top-All (λ q. fits q.message.type q.message.body ≡ true) p rest top others hq e))
        (λ (top, others) (fit, h').
          >>=-Ensures (λ (processed, n). AllFit n) AllFit _ _
            (dispatch-LeavesFit net top.message.type top.message.body top.message
              (record node { message_queue = others }) h')
            (λ (processed, node') h''.
              finish-AllFit top.message (processed, after_handling net top.message node') fit h''))

  callback-AllFit :
      (event : Event) (node : Node Ip) → AllFit node → Ensures AllFit (callback net event node)
  callback-AllFit =
      callback-Ensures net AllFit (λ m node h. send-AllFit net m net.ipv6_unspecified true node h)
        (λ node disk h. h)

  accept_connection-AllFit :
      (peer : Peer Ip) (node : Node Ip)
      → AllFit node
      → Ensures AllFit (accept_connection net peer node)
  unfolding accept_connection
  accept_connection-AllFit peer node h =
      >>=-Ensures AllFit AllFit _ _ (send-AllFit net _ peer.remote_ip true _ h) (λ node' h'.
        enqueue-AllFit disconnect_priority (sync_request net peer.remote_ip) node' refl h')

  process_message-AllFit :
      (remote : Ip) (data' : Archive) (node : Node Ip)
      → AllFit node
      → Ensures AllFit (process_message net remote data' node)
  unfolding process_message
  process_message-AllFit remote data' node h =
      if-Ensures _ (ltb (length (net.archive_bytes data')) net.message_size) _ _ tt
        (elim (load_header net data')
          as (λ header. Ensures AllFit (elim header [
            | none ↦ throws archive_error
            | some (m, rest) ↦
                route_data net (deserialize_message net 2) data' m.receiver_node
                  (if m.sender_node == net.ipv6_unspecified then remote else m.sender_node) node
          ])) [
            | none ↦ tt
            | some (m, rest) ↦
                route_data-AllFit net (deserialize_message net 2) data' m.receiver_node _ node
                  (deserialize_message-AllFit net 2) h
          ])

  on_socket_error-AllFit :
      (error : Text) (remote : Ip) (node : Node Ip)
      → AllFit node
      → AllFit (on_socket_error net error remote node).0
  unfolding on_socket_error
  on_socket_error-AllFit error remote node h =
      ground (arith, h, enqueue-AllFit disconnect_priority (lost_message net remote) node refl h)

  join_network-AllFit :
      (remote : Ip) (port : ℕ) (node : Node Ip)
      → AllFit node
      → Ensures AllFit (join_network net remote port node)
  unfolding join_network
  join_network-AllFit remote port node h =
      if-Ensures _ (net.is_valid remote) _ _ (if-Ensures _ (net.reachable remote port) _ _ h tt) h

  Step-AllFit : (s t : Node Ip) → Step net s t → AllFit s → AllFit t
  unfolding process_next_message
  Step-AllFit s t (joins remote port e) h =
      Ensures-eq_returns AllFit _ t (join_network-AllFit remote port s h) e
  Step-AllFit s t (accepts peer e) h =
      Ensures-eq_returns AllFit _ t (accept_connection-AllFit peer s h) e
  Step-AllFit s t (gets remote data' e) h =
      Ensures-eq_returns AllFit _ t (process_message-AllFit remote data' s h) e
  Step-AllFit s t (fails error remote e) h =
      subst AllFit (sym e) (on_socket_error-AllFit error remote s h)
  Step-AllFit s t (detects event e) h = Ensures-eq_returns AllFit _ t (callback-AllFit event s h) e
  Step-AllFit s t (sweeps total before after e) h =
      Ensures-eq_returns (λ (sweeper, node). AllFit node) _ (after, t)
        (sweep-Ensures (node_surroundings net) AllFit callback-AllFit total before s h) e
  Step-AllFit s t (takes e) h =
      Ensures-eq_returns AllFit _ t (next_of-AllFit s.message_queue s h h) e
  Step-AllFit s t (passes now disk e) h = subst AllFit (sym e) h

  -- In every state that a node reaches from an empty queue, by joining a network, connections, data
  -- and errors from its peers, sweeps and single callbacks of them, and turns of the main loop that
  -- return, and any change of the time and of its files by others, every queued message has the
  -- members of the class that the main loop casts a message of its type to.
  pub Reach-AllFit : {s : Node Ip} → Reach net s → AllFit s
  Reach-AllFit (begin empty) = rw empty tt
  Reach-AllFit (next {s} {t} r step) = Step-AllFit s t step (Reach-AllFit r)
