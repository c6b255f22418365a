-- ===== src/Queue.antt =====
-- The message queue of MessageManager (message_manager.hpp): the order PrioComp, and top and pop of
-- the std::priority_queue that uses it.
pub mod Order
pub mod Taking
use Prim.Native.Nat.{bit_and, bit_or}
use cpe400_peer_2_peer_file.Base.{
  ℕ, Bool, true, false, not, ◌&&◌, List, [], ◌∷◌, Option, none, some, eqb, ltb, if◌then◌else◌,
}
use cpe400_peer_2_peer_file.Base.Outcome.{Outcome, returns, undefined, ◌>>=◌}
use cpe400_peer_2_peer_file.Messages.{
  MessageType, lock, unlock, delete_file, content_change, initial_sync, type_code, Body, file_body,
  content_body, sync_body, Message,
}
use cpe400_peer_2_peer_file.Node.{Prio}

-- lock | unlock | deleteFile | contentChange | initialSync
abbrev pub file_types : ℕ
file_types = bit_or (type_code lock) (
    bit_or (type_code unlock)
      (bit_or (type_code delete_file) (bit_or (type_code content_change) (type_code initial_sync))))

-- type & fileTypes, as a condition
unfoldable pub is_file_type : MessageType → Bool
is_file_type type = not (eqb (bit_and (type_code type) file_types) 0)

-- The difference of the two time stamps is negative. An object that is no FileMessage has none to
-- read.
abbrev earlier : Option ℕ → Option ℕ → Outcome Bool
earlier (some a) (some b) = returns (ltb a b)
earlier _ _ = undefined

module _ {Ip : Type 0} where
  -- The time stamp of an object, if it is a FileMessage.
  abbrev pub timestamp_of : Body Ip → Option ℕ
  timestamp_of (file_body p t) = some t
  timestamp_of (content_body p t c) = some t
  timestamp_of (sync_body p t c total index) = some t
  timestamp_of _ = none

  -- PrioComp: whether a is to be served after b.
  unfoldable pub prio_comp : Prio Ip → Prio Ip → Outcome Bool
  prio_comp a b =
      if eqb a.priority b.priority && (is_file_type a.message.type && is_file_type b.message.type)
      then earlier (timestamp_of a.message.body) (timestamp_of b.message.body)
      else returns (ltb b.priority a.priority)

  -- The entry that top gives, and the others. The standard leaves open which of several entries that
  -- come after no other is on top: here it is the first of them.
  unfoldable pub take_top : Prio Ip → List (Prio Ip) → Outcome (Prio Ip × List (Prio Ip))
  take_top c [] = returns (c, [])
  take_top c (x ∷ rest) = prio_comp c x >>= λ after.
      take_top (if after then x else c) rest >>= λ (top, others).
      returns (top, (if after then c else x) ∷ others)
