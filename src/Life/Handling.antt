-- ===== src/Life/Handling.antt =====
-- The other handlers, and the switch over all of them, leave every queued message with the members of its type's class.
use cpe400_peer_2_peer_file.Base.{
  ℕ, ◌+◌, true, not, List, [], ◌∷◌, Option, none, some, Eq, ◌==◌, arith, length,
}
use cpe400_peer_2_peer_file.Base.Outcome.{Ensures, >>=-Ensures, if-Ensures, returned-Ensures}
use cpe400_peer_2_peer_file.Text.{Text}
use cpe400_peer_2_peer_file.Paths.{FilePath, remove_filename, lock_file_path}
use cpe400_peer_2_peer_file.Platform.{Platform}
use cpe400_peer_2_peer_file.Messages.{
  MessageType, lock, unlock, delete_file, content_change, initial_sync, initial_sync_request,
  connect, disconnect, payload, resend_request, link_lost, Body, plain_body, payload_body,
  resend_body, file_body, content_body, sync_body, connect_body, fits, Message,
}
use cpe400_peer_2_peer_file.Disk.{exists, load_lock_file, enumerate_all_files, create_directories}
use cpe400_peer_2_peer_file.Node.{Node, is_finished_connecting}
use cpe400_peer_2_peer_file.Handlers.Sync.{
  process_initial_file_sync_message, process_initial_file_sync_request_message,
  process_connect_message, send_files, send_lock, create_all, delete_all,
}
use cpe400_peer_2_peer_file.Handlers.Links.{
  process_resend_request_message, process_link_lost_message, process_disconnect_message, find_old,
  is_resendable, unlink, has_peer, unlock_all, resend_found,
}
use cpe400_peer_2_peer_file.Manager.{dispatch}
use cpe400_peer_2_peer_file.Life.Sending.{AllFit, send-AllFit}
use cpe400_peer_2_peer_file.Life.Changing.{
  LeavesFit, process_lock_message-LeavesFit, process_unlock_message-LeavesFit,
  process_delete_file_message-LeavesFit, process_content_file_message-LeavesFit,
}

module _ {Ip : Type 0} ⦃ip_eq : Eq Ip⦄ (net : Platform Ip) where
  process_initial_file_sync_message-LeavesFit :
      (target : FilePath) (content : Text) (total : ℕ) (node : Node Ip)
      → AllFit node
      → LeavesFit net (process_initial_file_sync_message net target content total node)
  unfolding process_initial_file_sync_message
  process_initial_file_sync_message-LeavesFit target content total node h =
      returned-Ensures _ (create_directories (remove_filename target) node.disk) _ (λ disk. h)

  send_lock-AllFit :
      (path : FilePath) (destination : Ip) (node : Node Ip)
      → AllFit node
      → Ensures AllFit (send_lock net path destination node)
  unfolding send_lock
  send_lock-AllFit path destination node h =
      if-Ensures _ (exists (lock_file_path path) node.disk) _ _
        (returned-Ensures _ (load_lock_file net path node.disk) _
          (λ (old_lock, bits). send-AllFit net _ destination true node h))
        h

  send_files-AllFit :
      (paths : List FilePath) (index total : ℕ) (destination : Ip) (node : Node Ip)
      → AllFit node
      → Ensures AllFit (send_files net paths index total destination node)
  unfolding send_files
  send_files-AllFit [] index total destination node h = h
  send_files-AllFit (path ∷ paths) index total destination node h =
      >>=-Ensures AllFit AllFit _ _ (send-AllFit net _ destination true node h) (λ node' h'.
        >>=-Ensures AllFit AllFit _ _ (send_lock-AllFit path destination node' h')
          (λ node'' h''. send_files-AllFit paths (index + 1) total destination node'' h''))

  process_initial_file_sync_request_message-LeavesFit :
      (m : Message Ip) (node : Node Ip)
      → AllFit node
      → LeavesFit net (process_initial_file_sync_request_message net m node)
  unfolding process_initial_file_sync_request_message
  process_initial_file_sync_request_message-LeavesFit m node h =
      if-Ensures _ (not (is_finished_connecting node)) _ _ h (
        returned-Ensures _ (enumerate_all_files node.folders node.disk) _ (λ paths.
          >>=-Ensures AllFit _ _ _
            (send_files-AllFit paths 0 (length paths) m.originator_node node h) (λ node' h'. h')))

  process_connect_message-LeavesFit :
      (backup_peers : List (Ip × ℕ)) (managed_paths : List FilePath) (node : Node Ip)
      → AllFit node
      → LeavesFit net (process_connect_message net backup_peers managed_paths node)
  unfolding process_connect_message
  process_connect_message-LeavesFit backup_peers managed_paths node h =
      returned-Ensures _ (create_all managed_paths node.disk) _ (λ disk.
        returned-Ensures _ (enumerate_all_files managed_paths disk) _
          (λ paths. returned-Ensures _ (delete_all paths disk) _ (λ disk'. h)))

  resend_found-LeavesFit :
      (found : Option (Message Ip)) (destination : Ip) (node : Node Ip)
      → AllFit node
      → LeavesFit net (resend_found net found destination node)
  unfolding resend_found
  resend_found-LeavesFit none destination node h = h
  resend_found-LeavesFit (some m) destination node h =
      if-Ensures _ (not (is_resendable m.type)) _ _ tt (
        if-Ensures _ (not (fits m.type m.body)) _ _ tt
          (>>=-Ensures AllFit _ _ _ (send-AllFit net m destination true node h) (λ node' h'. h')))

  process_resend_request_message-LeavesFit :
      (m : Message Ip) (requested : ℕ) (destination : Ip) (node : Node Ip)
      → AllFit node
      → LeavesFit net (process_resend_request_message net m requested destination node)
  unfolding process_resend_request_message
  process_resend_request_message-LeavesFit m requested destination node h =
      if-Ensures _ (m.originator_node == node.ip) _ _ h
        (resend_found-LeavesFit (find_old requested node.old_messages) destination node h)

  AllFit-unlink : (removed : Ip) (node : Node Ip) → AllFit node → AllFit (unlink net removed node)
  unfolding unlink
  AllFit-unlink removed node h = ground (arith, h)

  process_link_lost_message-LeavesFit :
      (m : Message Ip) (node : Node Ip)
      → AllFit node
      → LeavesFit net (process_link_lost_message net m node)
  unfolding process_link_lost_message
  process_link_lost_message-LeavesFit m node h =
      let unlinked = AllFit-unlink m.originator_node node h in
      if-Ensures _ (not (has_peer net m.originator_node node.peers)) _ _ h (
        if-Ensures _ (net.is_valid m.originator_node) _ _
          (>>=-Ensures AllFit _ _ _ (send-AllFit net _ net.ipv6_unspecified true _ unlinked)
            (λ node' h'. h'))
          unlinked)

  unlock_all-AllFit :
      (paths : List FilePath) (originator : Ip) (node : Node Ip)
      → AllFit node
      → Ensures AllFit (unlock_all net paths originator node)
  unfolding unlock_all
  unlock_all-AllFit [] originator node h = h
  unlock_all-AllFit (path ∷ paths) originator node h =
      >>=-Ensures AllFit AllFit _ _ (send-AllFit net _ net.ipv6_loopback true node h)
        (λ node' h'. unlock_all-AllFit paths originator node' h')

  process_disconnect_message-LeavesFit :
      (m : Message Ip) (node : Node Ip)
      → AllFit node
      → LeavesFit net (process_disconnect_message net m node)
  unfolding process_disconnect_message
  process_disconnect_message-LeavesFit m node h =
      if-Ensures _ (not (is_finished_connecting node)) _ _ h (
        returned-Ensures _ (enumerate_all_files node.folders node.disk) _ (λ paths.
          >>=-Ensures AllFit _ _ _ (unlock_all-AllFit paths m.originator_node _ h)
            (λ node' h'. h')))

  -- Whatever the handler of a message does.
  pub dispatch-LeavesFit :
      (type : MessageType) (body : Body Ip) (m : Message Ip) (node : Node Ip)
      → AllFit node
      → LeavesFit net (dispatch net type body m node)
  unfolding dispatch
  dispatch-LeavesFit payload (payload_body text) m node h = h
  dispatch-LeavesFit resend_request (resend_body requested destination) m node h =
      process_resend_request_message-LeavesFit m requested destination node h
  dispatch-LeavesFit lock (file_body target timestamp) m node h =
      process_lock_message-LeavesFit net m target timestamp node h
  dispatch-LeavesFit unlock (file_body target timestamp) m node h =
      process_unlock_message-LeavesFit net m target node h
  dispatch-LeavesFit delete_file (file_body target timestamp) m node h =
      process_delete_file_message-LeavesFit net m target node h
  dispatch-LeavesFit content_change (content_body target timestamp content) m node h =
      process_content_file_message-LeavesFit net m target content node h
  dispatch-LeavesFit initial_sync (sync_body target timestamp content total index) m node h =
      process_initial_file_sync_message-LeavesFit target content total node h
  dispatch-LeavesFit initial_sync_request plain_body m node h =
      process_initial_file_sync_request_message-LeavesFit m node h
  dispatch-LeavesFit connect (connect_body peers paths) m node h =
      process_connect_message-LeavesFit peers paths node h
  dispatch-LeavesFit disconnect plain_body m node h = process_disconnect_message-LeavesFit m node h
  dispatch-LeavesFit link_lost plain_body m node h = process_link_lost_message-LeavesFit m node h
  dispatch-LeavesFit type body m node h = tt
