-- ===== src/Messages/Classes.antt =====
-- messages.hpp: the message classes. A message has the members of the base class and, as its body,
-- those of its own class.
use cpe400_peer_2_peer_file.Base.{ℕ, Bool, true, false, List}
use cpe400_peer_2_peer_file.Text.{Text}
use cpe400_peer_2_peer_file.Paths.{FilePath}

pub data MessageType : Type 0 where
  invalid lock unlock delete_file content_change initial_sync initial_sync_request : MessageType
  connect disconnect payload resend_request link_lost : MessageType
  -- A value of the enum's type that no enumerator has
  unknown : ℕ → MessageType

-- The value of the enumerator, a uint8_t.
abbrev pub type_code : MessageType → ℕ
type_code invalid = 0
type_code lock = 1
type_code unlock = 2
type_code delete_file = 3
type_code content_change = 4
type_code initial_sync = 5
type_code initial_sync_request = 6
type_code connect = 7
type_code disconnect = 8
type_code payload = 9
type_code resend_request = 10
type_code link_lost = 11
type_code (unknown n) = n

-- The members that a subclass adds to Message. A timestamp is in nanoseconds since the epoch.
pub data Body (Ip : Type 0) : Type 0 where
  plain_body : Body Ip
  payload_body : Text → Body Ip
  resend_body : ℕ → Ip → Body Ip
  file_body : FilePath → ℕ → Body Ip
  content_body : FilePath → ℕ → Text → Body Ip
  -- target file, timestamp, content, total, index
  sync_body : FilePath → ℕ → Text → ℕ → ℕ → Body Ip
  -- backup peers, managed paths
  connect_body : List (Ip × ℕ) → List FilePath → Body Ip

pub record Message (Ip : Type 0) : Type 0 where
  pub type : MessageType
  pub receiver_node : Ip
  pub sender_node : Ip
  pub originator_node : Ip
  pub message_hash : ℕ
  pub body : Body Ip

-- Whether an object with these members is of the class that the code takes a message of this type for.
abbrev pub fits : {Ip : Type 0} → MessageType → Body Ip → Bool
fits lock (file_body p t) = true
fits unlock (file_body p t) = true
fits delete_file (file_body p t) = true
fits content_change (content_body p t c) = true
fits initial_sync (sync_body p t c total index) = true
fits initial_sync_request plain_body = true
fits connect (connect_body peers paths) = true
fits disconnect plain_body = true
fits payload (payload_body text) = true
fits resend_request (resend_body h d) = true
fits link_lost plain_body = true
fits _ _ = false
