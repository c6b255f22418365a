-- ===== src/Life/Sending.antt =====
-- What is sent and received leaves every queued message with the members of its type's class.
use cpe400_peer_2_peer_file.Base.{
  ℕ, zero, suc, Bool, true, List, [], ◌∷◌, ◌++◌, Option, none, some, Eq, if◌then◌else◌, ◌≡◌, refl,
  arith, All,
}
use cpe400_peer_2_peer_file.Base.Outcome.{throws, archive_error, Ensures, >>=-Ensures}
use cpe400_peer_2_peer_file.Platform.{Platform}
use cpe400_peer_2_peer_file.Messages.{fits, Message}
use cpe400_peer_2_peer_file.Messages.Archive.{Archive, octet, number, bytes, text, count}
use cpe400_peer_2_peer_file.Messages.Wire.{type_of_code, load_message, save_message}
use cpe400_peer_2_peer_file.Node.{Node, Prio, enqueue}
use cpe400_peer_2_peer_file.Routing.{
  Intake, intake_of, Deliver, transmit, copies, forward_to_all, route_data, addressed, send_by,
  resend_of, receive, load_and_receive, deserialize_message, send,
}
use cpe400_peer_2_peer_file.Life.Loading.{IsFit, Yields, load_message-IsFit}

module _ {Ip : Type 0} where
  -- Every queued message has the members of its type's class.
  abbrev pub AllFit : Node Ip → Type 0
  AllFit node = All (λ p. fits p.message.type p.message.body ≡ true) node.message_queue

  All-append :
      (P : Prio Ip → Type 0) (queue : List (Prio Ip)) (p : Prio Ip)
      → All P queue
      → P p
      → All P (queue ++ p ∷ [])
  All-append P [] p h last = (last, tt)
  All-append P (q ∷ queue) p h last = (h.0, All-append P queue p h.1 last)

  pub enqueue-AllFit :
      (priority : ℕ) (m : Message Ip) (node : Node Ip)
      → fits m.type m.body ≡ true
      → AllFit node
      → AllFit (enqueue priority m node)
  enqueue-AllFit priority m node fit h =
      All-append (λ p. fits p.message.type p.message.body ≡ true) node.message_queue
        (record { priority = priority; message = m }) h fit

module _ {Ip : Type 0} ⦃ip_eq : Eq Ip⦄ (net : Platform Ip) where
  abbrev Preserves : Deliver net → Type 0
  Preserves deliver = (data' : Archive) (n : Node Ip) → AllFit n → Ensures AllFit (deliver data' n)

  pub route_data-AllFit :
      (deliver : Deliver net) (data' : Archive) (destination source : Ip) (node : Node Ip)
      → Preserves deliver
      → AllFit node
      → Ensures AllFit (route_data net deliver data' destination source node)
  unfolding route_data forward_to_all
  route_data-AllFit deliver data' destination source node keeps h = ground (
    arith,
    keeps data' node h,
    keeps data' (transmit net (copies net data' source node.peers) node) h,
  )

  send_by-AllFit :
      (deliver : Deliver net) (m : Message Ip) (destination : Ip) (to_self : Bool) (node : Node Ip)
      → Preserves deliver
      → AllFit node
      → Ensures AllFit (send_by net deliver m destination to_self node)
  unfolding send_by
  send_by-AllFit deliver m destination to_self node keeps h =
      >>=-Ensures AllFit AllFit _ _
        (route_data-AllFit deliver (save_message net (addressed net m destination node)) destination
          (if to_self then net.ipv6_unspecified else net.ipv6_loopback) node keeps h)
        (λ node' h'. h')

  receive-AllFit :
      (deliver : Deliver net) (how : Intake) (m : Message Ip) (node : Node Ip)
      → Preserves deliver
      → IsFit net m
      → AllFit node
      → Ensures AllFit (receive net deliver how m node)
  unfolding receive
  receive-AllFit deliver how m node keeps fit h = ground (
    arith,
    send_by-AllFit deliver (resend_of net m) m.sender_node true node keeps h,
    enqueue-AllFit how.priority m node fit h,
  )

  load_and_receive-AllFit :
      (deliver : Deliver net) (how : Option Intake) (data' : Archive) (node : Node Ip)
      → Preserves deliver
      → ((i : Intake) → how ≡ some i → Yields (IsFit net) (load_message net i.class data'))
      → AllFit node
      → Ensures AllFit (load_and_receive net deliver how data' node)
  unfolding load_and_receive
  load_and_receive-AllFit deliver none data' node keeps fit h = tt
  load_and_receive-AllFit deliver (some how) data' node keeps fit h =
      elim (load_message net how.class data')
          as (λ r.
            Yields (IsFit net) r
            → Ensures AllFit (elim r [
              | none ↦ throws archive_error
              | some (m, rest) ↦ receive net deliver how m node
            ])) [
              | none ↦ λ fit'. tt
              | some (m, rest) ↦ λ fit'. receive-AllFit deliver how m node keeps fit' h
            ]
        (fit how refl)

  pub deserialize_message-AllFit : (depth : ℕ) → Preserves (deserialize_message net depth)
  unfolding deserialize_message
  deserialize_message-AllFit zero data' node h = tt
  deserialize_message-AllFit (suc depth) [] node h = tt
  deserialize_message-AllFit (suc depth) (octet code ∷ data') node h =
      load_and_receive-AllFit (deserialize_message net depth) (intake_of (type_of_code code))
        (octet code ∷ data') node (deserialize_message-AllFit depth)
        (λ how known. load_message-IsFit net code how data' known) h
  deserialize_message-AllFit (suc depth) (number n ∷ data') node h = tt
  deserialize_message-AllFit (suc depth) (bytes n ∷ data') node h = tt
  deserialize_message-AllFit (suc depth) (text n ∷ data') node h = tt
  deserialize_message-AllFit (suc depth) (count n ∷ data') node h = tt

  -- Whatever is sent, to whomever.
  pub send-AllFit :
      (m : Message Ip) (destination : Ip) (to_self : Bool) (node : Node Ip)
      → AllFit node
      → Ensures AllFit (send net m destination to_self node)
  unfolding send
  send-AllFit m destination to_self node h =
      send_by-AllFit (deserialize_message net 2) m destination to_self node
        (deserialize_message-AllFit 2) h
