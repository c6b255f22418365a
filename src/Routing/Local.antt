-- ===== src/Routing/Local.antt =====
-- Data that reaches deserializeMessage: what is queued, what is asked for again, and the depth of
-- nested calls.
use cpe400_peer_2_peer_file.Base.{
  ℕ, suc, not, ◌==◌, ◌||◌, true, [], ◌∷◌, Option, none, some, Eq, ◌≡◌, refl, sym, ap, ◌∙◌, arith,
  append-nil, inl, inr, Option-cases, subst,
}
use cpe400_peer_2_peer_file.Base.Outcome.{returns, Ends, Any, if-Ends, >>=-Ends}
use cpe400_peer_2_peer_file.Text.Hash.{hash-lt}
use cpe400_peer_2_peer_file.Platform.{Platform, IsLawful}
use cpe400_peer_2_peer_file.Messages.{
  MessageType, invalid, unknown, type_code, Message, hash_message, hash_string,
}
use cpe400_peer_2_peer_file.Messages.Archive.{Archive, octet, number, bytes, text, count}
use cpe400_peer_2_peer_file.Messages.Wire.{
  type_of_code, class_of_body, resend_class, save_message, load_message, received,
  load_message-save_message,
}
use cpe400_peer_2_peer_file.Node.{Node, enqueue}
use cpe400_peer_2_peer_file.Routing.{
  Intake, intake_of, resend_priority, Deliver, forward_to_all, route_data, addressed, is_this_node,
  has_link, send_by, resend_of, hash_matches, receive, load_and_receive, deserialize_message,
  transmit, copies,
}

pub intake_of-known :
    (type : MessageType) {how : Intake}
    → intake_of type ≡ some how
    → type_of_code (type_code type) ≡ type
intake_of-known invalid e = refl
intake_of-known (unknown n) e = cc
intake_of-known _ e = refl

module _ {Ip : Type 0} ⦃ip_eq : Eq Ip⦄ (net : Platform Ip) (law : IsLawful net) where
  load_and_receive-read :
      (deliver : Deliver net) (how : Intake) (data' : Archive) (m : Message Ip) (rest : Archive)
      (node : Node Ip)
      → load_message net how.class data' ≡ some (m, rest)
      → load_and_receive net deliver (some how) data' node ≡ receive net deliver how m node
  unfolding load_and_receive
  load_and_receive-read deliver how data' m rest node e = rw (e, load_and_receive)

  -- A saved message of an accepted type, with the members of that type's class, is taken in as what
  -- an archive keeps of it.
  pub deserialize_message-save_message :
      (depth : ℕ) (m : Message Ip) (how : Intake) (node : Node Ip)
      → intake_of m.type ≡ some how
      → class_of_body m.body ≡ how.class
      → deserialize_message net (suc depth) (save_message net m) node
        ≡ receive net (deserialize_message net depth) how (received net m) node
  unfolding deserialize_message save_message
  deserialize_message-save_message depth m how node known same =
      let back : load_message net how.class (save_message net m) ≡ some (received net m, []) =
        rw (← same) (
          ap (load_message net (class_of_body m.body)) (sym (append-nil (save_message net m)))
          ∙ load_message-save_message net law m [] (intake_of-known m.type known)) in
      rw (intake_of-known m.type known, known)
        (load_and_receive-read (deserialize_message net depth) how (save_message net m)
          (received net m) [] node back)

  -- A request to resend, as send completes it, always has the right hash.
  hash_matches-resend :
      (m : Message Ip) (destination : Ip) (node : Node Ip)
      → hash_matches net (received net (addressed net (resend_of net m) destination node)) 0 ≡ true
  unfolding hash_message
  hash_matches-resend m destination node =
      let msg = addressed net (resend_of net m) destination node in
      ground (arith, hash-lt (hash_string net msg))

  pub deserialize_message-resend :
      (depth : ℕ) (m : Message Ip) (destination : Ip) (node node' : Node Ip)
      → let msg = addressed net (resend_of net m) destination node in
        deserialize_message net (suc depth) (save_message net msg) node'
        ≡ returns (enqueue resend_priority (received net msg) node')
  unfolding receive
  deserialize_message-resend depth m destination node node' =
      deserialize_message-save_message depth (addressed net (resend_of net m) destination node)
        (record { class = resend_class; offset = 0; priority = 0 }) node' refl refl
      ∙ rw (hash_matches-resend m destination node)

  -- Routing depends on the delivery of the routed data only.
  route_data-same :
      (deliver deliver' : Deliver net) (data' : Archive) (destination source : Ip) (node : Node Ip)
      → ((n : Node Ip) → deliver data' n ≡ deliver' data' n)
      → route_data net deliver data' destination source node
        ≡ route_data net deliver' data' destination source node
  unfolding route_data forward_to_all
  route_data-same deliver deliver' data' destination source node same =
      ground (arith, same node, same (transmit net (copies net data' source node.peers) node))

  receive-same :
      (d e : ℕ) (how : Intake) (m : Message Ip) (node : Node Ip)
      → receive net (deserialize_message net (suc d)) how m node
        ≡ receive net (deserialize_message net (suc e)) how m node
  unfolding receive send_by
  receive-same d e how m node =
      let msg = addressed net (resend_of net m) m.sender_node node in
      rw (
        route_data-same (deserialize_message net (suc d)) (deserialize_message net (suc e))
          (save_message net msg) m.sender_node net.ipv6_unspecified node
          (λ n.
            deserialize_message-resend d m m.sender_node node n
            ∙ sym (deserialize_message-resend e m m.sender_node node n)))

  load_and_receive-same :
      (d e : ℕ) (how : Option Intake) (data' : Archive) (node : Node Ip)
      → load_and_receive net (deserialize_message net (suc d)) how data' node
        ≡ load_and_receive net (deserialize_message net (suc e)) how data' node
  unfolding load_and_receive
  load_and_receive-same d e none data' node = refl
  load_and_receive-same d e (some how) data' node =
      elim (Option-cases (load_message net how.class data')) [
        | inl missing ↦ rw (missing, load_and_receive)
        | inr ((m, rest), found) ↦ rw (found, load_and_receive) (receive-same d e how m node)
      ]

  -- A request to resend is taken in without a deeper call.
  resend-Ends :
      (depth : ℕ) (m : Message Ip) (destination : Ip) (node node' : Node Ip)
      → let msg = addressed net (resend_of net m) destination node in
        Ends Any (deserialize_message net (suc depth) (save_message net msg) node')
  resend-Ends depth m destination node node' =
      subst (Ends Any) (sym (deserialize_message-resend depth m destination node node')) tt

  route_data-Ends :
      (deliver : Deliver net) (data' : Archive) (destination source : Ip) (node : Node Ip)
      → ((n : Node Ip) → Ends Any (deliver data' n))
      → Ends Any (route_data net deliver data' destination source node)
  unfolding route_data forward_to_all
  route_data-Ends deliver data' destination source node ends =
      let everyone = if-Ends Any (not (is_this_node net source node)) _ _ (ends _) tt in
      if-Ends Any (destination == net.ipv6_unspecified || destination == net.ipv4_unspecified) _ _
        everyone
        (if-Ends Any (is_this_node net destination node) _ _ (ends node)
          (if-Ends Any (has_link net destination node.peers) _ _ tt everyone))

  receive-Ends :
      (depth : ℕ) (how : Intake) (m : Message Ip) (node : Node Ip)
      → Ends Any (receive net (deserialize_message net (suc depth)) how m node)
  unfolding receive send_by
  receive-Ends depth how m node = if-Ends Any (hash_matches net m how.offset) _ _ tt (
      >>=-Ends Any Any _ _
        (route_data-Ends (deserialize_message net (suc depth)) _ m.sender_node net.ipv6_unspecified
          node (resend-Ends depth m m.sender_node node))
        (λ a h. tt))

  load_and_receive-Ends :
      (depth : ℕ) (how : Option Intake) (data' : Archive) (node : Node Ip)
      → Ends Any (load_and_receive net (deserialize_message net (suc depth)) how data' node)
  unfolding load_and_receive
  load_and_receive-Ends depth none data' node = tt
  load_and_receive-Ends depth (some how) data' node =
      elim (Option-cases (load_message net how.class data')) [
        | inl missing ↦ rw (missing, load_and_receive) tt
        | inr ((m, rest), found) ↦ rw (found, load_and_receive) (receive-Ends depth how m node)
      ]

  -- Whatever data arrives at whatever node, a depth of two is enough: with two or more, the bound on
  -- nested calls is not met, and the outcome does not depend on the depth.
  pub deserialize_message_depth :
      (depth : ℕ) (data' : Archive) (node : Node Ip)
      → Ends Any (deserialize_message net (suc (suc depth)) data' node)
        × (deserialize_message net (suc (suc depth)) data' node
            ≡ deserialize_message net 2 data' node)
  unfolding deserialize_message load_and_receive
  deserialize_message_depth depth [] node = (tt, refl)
  deserialize_message_depth depth (octet code ∷ data') node = (
    load_and_receive-Ends depth (intake_of (type_of_code code)) (octet code ∷ data') node,
    load_and_receive-same depth 0 (intake_of (type_of_code code)) (octet code ∷ data') node,
  )
  deserialize_message_depth depth (number n ∷ data') node = (tt, refl)
  deserialize_message_depth depth (bytes n ∷ data') node = (tt, refl)
  deserialize_message_depth depth (text n ∷ data') node = (tt, refl)
  deserialize_message_depth depth (count n ∷ data') node = (tt, refl)
