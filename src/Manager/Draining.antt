-- ===== src/Manager/Draining.antt =====
-- The destructor of MessageManager on a connected node ends.
use cpe400_peer_2_peer_file.Base.{
  ℕ, zero, suc, Bool, true, false, List, [], ◌∷◌, Eq, ◌≡◌, refl, sym, ap, subst, arith, All, length,
  inr, some,
}
use cpe400_peer_2_peer_file.Base.Outcome.{Outcome, Ends, Any, >>=-Ends, if-Ends}
use cpe400_peer_2_peer_file.Paths.{FilePath, lock_file_path}
use cpe400_peer_2_peer_file.Platform.{Platform}
use cpe400_peer_2_peer_file.Messages.{
  MessageType, lock, unlock, delete_file, content_change, Body, file_body, content_body, fits,
  Message,
}
use cpe400_peer_2_peer_file.Disk.{Disk, exists}
use cpe400_peer_2_peer_file.Disk.Ending.{
  permissions_add-Ends, remove-Ends, load_lock_file-Ends, enumerate_all_files-Ends,
}
use cpe400_peer_2_peer_file.Node.{Prio, Node, is_finished_connecting}
use cpe400_peer_2_peer_file.Queue.{timestamp_of}
use cpe400_peer_2_peer_file.Queue.Order.{IsComparable, take_top-Served, take_top-All}
use cpe400_peer_2_peer_file.Queue.Taking.{take_top-IsWhole}
use cpe400_peer_2_peer_file.Handlers.Files.Ending.{
  IsDone, process_lock_message-Ends, process_unlock_message-Ends, process_delete_file_message-Ends,
  process_content_file_message-Ends,
}
use cpe400_peer_2_peer_file.Manager.{
  dispatch, finish, after_handling, next_of, process_next_message, drain, unlock_files, shut_down,
}

-- The types of the messages about a file, but for the initial sync.
abbrev pub is_about_file : MessageType → Bool
is_about_file lock = true
is_about_file unlock = true
is_about_file delete_file = true
is_about_file content_change = true
is_about_file _ = false

module _ {Ip : Type 0} ⦃ip_eq : Eq Ip⦄ (net : Platform Ip) where
  -- A message about a file, with the members of its type's class.
  abbrev pub IsAboutFile : Prio Ip → Type 0
  IsAboutFile p =
      (is_about_file p.message.type ≡ true) × (fits p.message.type p.message.body ≡ true)

  about_file-stamped :
      (type : MessageType) (body : Body Ip)
      → is_about_file type ≡ true
      → fits type body ≡ true
      → (t : ℕ) × (timestamp_of body ≡ some t)
  about_file-stamped lock (file_body p t) h k = (t, refl)
  about_file-stamped unlock (file_body p t) h k = (t, refl)
  about_file-stamped delete_file (file_body p t) h k = (t, refl)
  about_file-stamped content_change (content_body p t c) h k = (t, refl)
  about_file-stamped _ _ h k = cc

  dispatch-Ends :
      (type : MessageType) (body : Body Ip) (m : Message Ip) (node : Node Ip)
      → is_about_file type ≡ true
      → fits type body ≡ true
      → is_finished_connecting node ≡ true
      → Ends (IsDone net node) (dispatch net type body m node)
  unfolding dispatch
  dispatch-Ends lock (file_body p t) m node h k done = process_lock_message-Ends net m p t node done
  dispatch-Ends unlock (file_body p t) m node h k done =
      process_unlock_message-Ends net m p node done
  dispatch-Ends delete_file (file_body p t) m node h k done =
      process_delete_file_message-Ends net m p node done
  dispatch-Ends content_change (content_body p t c) m node h k done =
      process_content_file_message-Ends net m p c node done
  dispatch-Ends _ _ m node h k done = cc

  AllAboutFile-AllComparable :
      (queue : List (Prio Ip)) → All IsAboutFile queue → All IsComparable queue
  AllAboutFile-AllComparable [] h = tt
  AllAboutFile-AllComparable (p ∷ queue) h = (
    inr (about_file-stamped p.message.type p.message.body h.0.0 h.0.1),
    AllAboutFile-AllComparable queue h.1,
  )

  -- A connected node whose queue holds so many messages about files and no others.
  abbrev pub HasLeft : ℕ → Node Ip → Type 0
  HasLeft n node =
      (length node.message_queue ≡ n)
      × All IsAboutFile node.message_queue
      × (is_finished_connecting node ≡ true)

  finish-HasLeft :
      (n : ℕ) (m : Message Ip) (taken after : Node Ip) (processed : Bool)
      → processed ≡ true
      → after ≡ record taken { disk = after.disk }
      → HasLeft n taken
      → HasLeft n (finish net m (processed, after_handling net m after))
  finish-HasLeft n m taken after true ok same left = subst (HasLeft n) (sym same) left
  finish-HasLeft n m taken after false ok same left = cc

  process_next_message-HasLeft :
      (n : ℕ) (node : Node Ip) (p : Prio Ip) (rest : List (Prio Ip))
      → node.message_queue ≡ p ∷ rest
      → HasLeft (suc n) node
      → Ends (HasLeft n) (process_next_message net node)
  unfolding process_next_message next_of
  process_next_message-HasLeft n node p rest queued (long, about, done) =
      let about' = subst (All IsAboutFile) queued about in
      let comparable = AllAboutFile-AllComparable (p ∷ rest) about' in
      let served = take_top-Served p rest comparable.0 comparable.1 in
      let (of_top, of_others) =
        take_top-All IsAboutFile p rest served.top served.others about' served.result in
      let m = served.top.message in
      let taken = record node { message_queue = served.others } in
      rw (queued, next_of, served.result)
        (>>=-Ends (IsDone net taken) (HasLeft n) _ _
          (dispatch-Ends m.type m.body m taken of_top.0 of_top.1 done)
          (λ (processed, after) (ok, same). finish-HasLeft n m taken after processed ok same (
            omega (
              arith,
              long,
              ap length queued,
              (take_top-IsWhole IsAboutFile p rest served.top served.others served.result).0,
            ),
            of_others,
            done,
          )))

  -- A test for an empty queue.
  empty-Ends :
      (Q : Node Ip → Type 0) (queue : List (Prio Ip)) (x y : Outcome (Node Ip))
      → (queue ≡ [] → Ends Q x)
      → ((p : Prio Ip) (rest : List (Prio Ip)) → queue ≡ p ∷ rest → Ends Q y)
      → Ends Q (elim queue [ [] ↦ x | p ∷ rest ↦ y ])
  empty-Ends Q [] x y is_empty more = is_empty refl
  empty-Ends Q (p ∷ rest) x y is_empty more = more p rest refl

  none_left : (n : ℕ) (node : Node Ip) → node.message_queue ≡ [] → HasLeft n node → HasLeft 0 node
  none_left n node empty (long, about, done) = (ap length empty, about, done)

  drain-Ends : (n : ℕ) (node : Node Ip) → HasLeft n node → Ends (HasLeft 0) (drain net (suc n) node)
  unfolding drain
  drain-Ends zero node left =
      empty-Ends (HasLeft 0) node.message_queue _ _ (λ empty. left)
        (λ p rest queued. absurd (omega (arith, left.0, ap length queued)))
  drain-Ends (suc n) node left =
      empty-Ends (HasLeft 0) node.message_queue _ _ (λ empty. none_left (suc n) node empty left)
        (λ p rest queued.
          >>=-Ends (HasLeft n) (HasLeft 0) _ _
            (process_next_message-HasLeft n node p rest queued left)
            (λ node' left'. drain-Ends n node' left'))

  unlock_files-Ends :
      (paths : List FilePath) (disk : Disk Ip) → Ends Any (unlock_files net paths disk)
  unfolding unlock_files
  unlock_files-Ends [] disk = tt
  unlock_files-Ends (path ∷ paths) disk =
      >>=-Ends Any Any _ _
        (if-Ends Any (exists (lock_file_path path) disk) _ _
          (>>=-Ends Any Any _ _ (load_lock_file-Ends net path disk) (λ (held, to_add) _.
            >>=-Ends Any Any _ _ (permissions_add-Ends path to_add disk)
              (λ disk' _. remove-Ends (lock_file_path path) disk')))
          tt)
        (λ disk' _. unlock_files-Ends paths disk')

  -- On a connected node whose queue holds only messages about files (locks, unlocks, deletions and
  -- changes of content), with the members of their types' classes, the destructor of the message
  -- manager does not go on for ever: with fuel of one more than the messages it ends, and if it
  -- returns, the queue is empty, and the node is still connected.
  pub shut_down-Ends :
      (node : Node Ip)
      → All IsAboutFile node.message_queue
      → is_finished_connecting node ≡ true
      → Ends (HasLeft 0) (shut_down net (suc (length node.message_queue)) node)
  unfolding shut_down
  shut_down-Ends node about done =
      >>=-Ends (HasLeft 0) (HasLeft 0) _ _
        (drain-Ends (length node.message_queue) node (refl, about, done))
        (λ node' left.
          >>=-Ends Any (HasLeft 0) _ _ (enumerate_all_files-Ends node'.folders node'.disk)
            (λ paths _.
              >>=-Ends Any (HasLeft 0) _ _ (unlock_files-Ends paths node'.disk) (λ disk _. left)))
