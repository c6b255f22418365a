-- ===== src/Messages/Wire.antt =====
-- messages.hpp: what each message class writes to an archive and reads back.
use cpe400_peer_2_peer_file.Base.{
  ℕ, ◌*◌, ◌/◌, [], ◌∷◌, ◌++◌, map, append_assoc, some, eqb, if◌then◌else◌, length, ◌≡◌, refl, arith,
}
use cpe400_peer_2_peer_file.Paths.{FilePath}
use cpe400_peer_2_peer_file.Platform.{Platform, IsLawful}
use cpe400_peer_2_peer_file.Messages.{
  MessageType, invalid, lock, unlock, delete_file, content_change, initial_sync,
  initial_sync_request, connect, disconnect, payload, resend_request, link_lost, unknown, type_code,
  Body, plain_body, payload_body, resend_body, file_body, content_body, sync_body, connect_body,
  Message, nanoseconds,
}
use cpe400_peer_2_peer_file.Messages.Archive.{
  Archive, octet, number, bytes, text, count, Reader, ◌>>=◌, pure, read_octet, read_number,
  read_bytes, read_text, read_count, read_many, write_many, lexically_normal, save_path, load_path,
  read_many-write_many, load_path-save_path, map_id,
}

-- (Message::Type) of a uint8_t.
abbrev pub type_of_code : ℕ → MessageType
type_of_code n =
    if eqb n 0
    then invalid
    else if eqb n 1
    then lock
    else if eqb n 2
    then unlock
    else if eqb n 3
    then delete_file
    else if eqb n 4
    then content_change
    else if eqb n 5
    then initial_sync
    else if eqb n 6
    then initial_sync_request
    else if eqb n 7
    then connect
    else if eqb n 8
    then disconnect
    else if eqb n 9
    then payload
    else if eqb n 10
    then resend_request
    else if eqb n 11
    then link_lost
    else unknown n

-- The classes that a message can be read as.
pub data Class : Type 0 where
  message_class payload_class resend_class file_class content_class sync_class connect_class : Class

abbrev pub class_of_body : {Ip : Type 0} → Body Ip → Class
class_of_body plain_body = message_class
class_of_body (payload_body t) = payload_class
class_of_body (resend_body h d) = resend_class
class_of_body (file_body p t) = file_class
class_of_body (content_body p t c) = content_class
class_of_body (sync_body p t c total index) = sync_class
class_of_body (connect_body peers paths) = connect_class

-- FileMessage::save, with the time stamp as a time_t.
abbrev save_file : FilePath → ℕ → Archive
save_file target timestamp = save_path target ++ number (timestamp / nanoseconds) ∷ []

-- FileMessage::load goes on with what the class adds.
abbrev load_file : {A : Type 0} → (FilePath → ℕ → Reader A) → Reader A
load_file more = load_path >>= λ target. read_number >>= λ tm. more target (tm * nanoseconds)

-- A time stamp is cut to the second.
abbrev pub received_time : ℕ → ℕ
received_time timestamp = timestamp / nanoseconds * nanoseconds

load_file-save_file :
    {A : Type 0} (more : FilePath → ℕ → Reader A) (p : FilePath) (t : ℕ) (ar : Archive)
    → load_file more (save_file p t ++ ar) ≡ more (lexically_normal p) (received_time t) ar
load_file-save_file more p t ar = ground (
  arith,
  append_assoc (save_path p) (number (t / nanoseconds) ∷ []) ar,
  load_path-save_path p (number (t / nanoseconds) ∷ ar),
)

module _ {Ip : Type 0} (net : Platform Ip) where
  unfoldable pub save_ip : Ip → Archive
  save_ip ip =
      octet (if net.is_ipv4 ip then net.ipv4_family else net.ipv6_family)
      ∷ bytes (net.ip_bytes ip)
      ∷ []

  unfoldable pub load_ip : Reader Ip
  load_ip = read_octet >>= λ family.
      if eqb family net.ipv4_family
      then (read_bytes >>= λ raw. pure (net.ip_of_ipv4 raw))
      else (read_bytes >>= λ raw. pure (net.ip_of_ipv6 raw))

  -- The base class: type, receiver, originator and hash. The sender is not serialised.
  abbrev save_header : Message Ip → Archive
  save_header m =
      (octet (type_code m.type) ∷ save_ip m.receiver_node)
      ++ (save_ip m.originator_node ++ number m.message_hash ∷ [])

  abbrev save_peer : Ip × ℕ → Archive
  save_peer (ip, port) = save_ip ip ++ number port ∷ []

  unfoldable pub save_members : Body Ip → Archive
  save_members plain_body = []
  save_members (payload_body t) = text t ∷ []
  save_members (resend_body requested destination) = number requested ∷ save_ip destination
  save_members (file_body target timestamp) = save_file target timestamp
  save_members (content_body target timestamp content) =
      save_file target timestamp ++ text content ∷ []
  save_members (sync_body target timestamp content total index) =
      save_file target timestamp ++ text content ∷ number total ∷ number index ∷ []
  save_members (connect_body peers paths) =
      (count (length peers) ∷ write_many save_peer peers)
      ++ (count (length paths) ∷ write_many save_path paths)

  unfoldable pub save_message : Message Ip → Archive
  save_message m = save_header m ++ save_members m.body

  -- The members of the base class; the sender is left at its initial value.
  unfoldable pub load_header : Reader (Message Ip)
  load_header = read_octet >>= λ code. load_ip >>= λ receiver. load_ip >>= λ originator.
      read_number >>= λ hash. pure (record {
        type = type_of_code code;
        receiver_node = receiver;
        sender_node = net.ipv6_unspecified;
        originator_node = originator;
        message_hash = hash;
        body = plain_body;
      })

  -- A peer of a ConnectMessage, a std::pair.
  unfoldable pub load_peer : Reader (Ip × ℕ)
  load_peer = load_ip >>= λ ip. read_number >>= λ port. pure (ip, port)

  abbrev load_content : FilePath → ℕ → Reader (Body Ip)
  load_content target timestamp =
      read_text >>= λ content. pure (content_body target timestamp content)

  abbrev load_sync : FilePath → ℕ → Reader (Body Ip)
  load_sync target timestamp = read_text >>= λ content. read_number >>= λ total.
      read_number >>= λ index. pure (sync_body target timestamp content total index)

  unfoldable pub load_members : Class → Reader (Body Ip)
  unfolding load_peer
  load_members message_class = pure plain_body
  load_members payload_class = read_text >>= λ t. pure (payload_body t)
  load_members resend_class = read_number >>= λ requested.
      load_ip >>= λ destination. pure (resend_body requested destination)
  load_members file_class = load_file λ target timestamp. pure (file_body target timestamp)
  load_members content_class = load_file load_content
  load_members sync_class = load_file load_sync
  load_members connect_class = read_count >>= λ n. read_many load_peer n >>= λ peers.
      read_count >>= λ k. read_many load_path k >>= λ paths. pure (connect_body peers paths)

  unfoldable pub load_message : Class → Reader (Message Ip)
  load_message class =
      load_header >>= λ m. load_members class >>= λ members. pure (record m { body = members })

  abbrev pub received_body : Body Ip → Body Ip
  received_body (file_body p t) = file_body (lexically_normal p) (received_time t)
  received_body (content_body p t c) = content_body (lexically_normal p) (received_time t) c
  received_body (sync_body p t c total index) =
      sync_body (lexically_normal p) (received_time t) c total index
  received_body (connect_body peers paths) = connect_body peers (map lexically_normal paths)
  received_body body = body

  abbrev pub received : Message Ip → Message Ip
  received m = record m { sender_node = net.ipv6_unspecified; body = received_body m.body }

module _ {Ip : Type 0} (net : Platform Ip) (law : IsLawful net) where
  load_ip-save_ip : (ip : Ip) (ar : Archive) → load_ip net (save_ip net ip ++ ar) ≡ some (ip, ar)
  unfolding load_ip save_ip
  load_ip-save_ip ip ar = ground (arith, law.ipv4_bytes ip, law.ipv6_bytes ip, law.families_differ)

  load_peer-save_peer :
      (peer : Ip × ℕ) (ar : Archive) → load_peer net (save_peer net peer ++ ar) ≡ some (peer, ar)
  unfolding load_peer
  load_peer-save_peer (ip, port) ar = ground (
    arith,
    append_assoc (save_ip net ip) (number port ∷ []) ar,
    load_ip-save_ip ip (number port ∷ ar),
  )

  load_members-save_members :
      (body : Body Ip) (ar : Archive)
      → load_members net (class_of_body body) (save_members net body ++ ar)
        ≡ some (received_body net body, ar)
  unfolding load_members save_members
  load_members-save_members plain_body ar = refl
  load_members-save_members (payload_body t) ar = refl
  load_members-save_members (resend_body requested destination) ar =
      ground (arith, load_ip-save_ip destination ar)
  load_members-save_members (file_body p t) ar =
      load_file-save_file (λ target timestamp. pure (file_body target timestamp)) p t ar
  load_members-save_members (content_body p t c) ar =
      rw (append_assoc (save_file p t) (text c ∷ []) ar)
        (load_file-save_file (load_content net) p t (text c ∷ ar))
  load_members-save_members (sync_body p t c total index) ar =
      rw (append_assoc (save_file p t) (text c ∷ number total ∷ number index ∷ []) ar)
        (load_file-save_file (load_sync net) p t (text c ∷ number total ∷ number index ∷ ar))
  load_members-save_members (connect_body peers paths) ar = ground (
    arith,
    append_assoc (write_many (save_peer net) peers)
        (count (length paths) ∷ write_many save_path paths) ar,
    read_many-write_many (save_peer net) (load_peer net) (λ x. x) load_peer-save_peer peers
        (count (length paths) ∷ write_many save_path paths ++ ar),
    map_id peers,
    read_many-write_many save_path load_path lexically_normal load_path-save_path paths ar,
  )

  load_header-save_header :
      (m : Message Ip) (ar : Archive)
      → type_of_code (type_code m.type) ≡ m.type
      → load_header net (save_header net m ++ ar)
        ≡ some (record m { sender_node = net.ipv6_unspecified; body = plain_body }, ar)
  unfolding load_header
  load_header-save_header m ar known =
      let rest = save_ip net m.originator_node ++ number m.message_hash ∷ [] in
      ground (
        arith,
        append_assoc (save_ip net m.receiver_node) rest ar,
        append_assoc (save_ip net m.originator_node) (number m.message_hash ∷ []) ar,
        load_ip-save_ip m.receiver_node (rest ++ ar),
        load_ip-save_ip m.originator_node (number m.message_hash ∷ ar),
      )

  -- The header of a saved message, alone.
  pub load_header-save_message :
      (m : Message Ip)
      → type_of_code (type_code m.type) ≡ m.type
      → load_header net (save_message net m)
        ≡ some (
          record m { sender_node = net.ipv6_unspecified; body = plain_body },
          save_members net m.body,
        )
  unfolding save_message
  load_header-save_message m known = load_header-save_header m (save_members net m.body) known

  -- What is saved and loaded again, as the class of its members, is the message as it was, but for the
  -- sender, which is unspecified, time stamps, which are cut to the second, and paths, which are
  -- normalised. What follows in the archive stays there.
  pub load_message-save_message :
      (m : Message Ip) (ar : Archive)
      → type_of_code (type_code m.type) ≡ m.type
      → load_message net (class_of_body m.body) (save_message net m ++ ar)
        ≡ some (received net m, ar)
  unfolding load_message save_message
  load_message-save_message m ar known = ground (
    arith,
    append_assoc (save_header net m) (save_members net m.body) ar,
    load_header-save_header m (save_members net m.body ++ ar) known,
    load_members-save_members m.body ar,
  )
