-- ===== src/Messages.antt =====
-- messages.hpp: the message classes, their hash strings, and the conversion of time points.
pub mod Classes
pub mod Archive
pub mod Wire
use cpe400_peer_2_peer_file.Base.{ℕ, ◌+◌, ◌-◌, ◌/◌, ◌^◌, Bool, true, false, List, [], ◌∷◌, ◌++◌}
use cpe400_peer_2_peer_file.Text.{Text, codes, decimal, hash}
use cpe400_peer_2_peer_file.Paths.{FilePath}
use cpe400_peer_2_peer_file.Platform.{Platform}
pub use Classes.*

-- path.string(): the names with slashes between them.
abbrev pub path_string : FilePath → Text
path_string [] = []
path_string (name ∷ []) = name
path_string (name ∷ next ∷ rest) = name ++ (codes "/" ++ path_string (next ∷ rest))

abbrev pub nanoseconds : ℕ
nanoseconds = 10 ^ 9

-- convertTimepoint<system_clock::time_point>, with the readings of the time's own clock and of the
-- system's. For times after the epoch, where the result is not negative.
unfoldable pub convert_timepoint : ℕ → ℕ → ℕ → ℕ
convert_timepoint in_now out_now tp = tp + out_now - in_now

module _ {Ip : Type 0} (net : Platform Ip) where
  unfoldable pub to_time_t : ℕ → ℕ
  unfolding convert_timepoint
  to_time_t tp = convert_timepoint net.clock_in net.clock_out tp / nanoseconds

  file_string : FilePath → ℕ → Text
  unfolding to_time_t
  file_string target timestamp = path_string target ++ net.ctime (to_time_t timestamp)

  peers_string : List (Ip × ℕ) → Text
  peers_string [] = []
  peers_string ((ip, port) ∷ rest) = net.ip_text ip ++ (decimal port ++ peers_string rest)

  paths_string : List FilePath → Text
  paths_string [] = []
  paths_string (path ∷ rest) = path_string path ++ paths_string rest

  body_string : Body Ip → Text
  unfolding file_string peers_string paths_string
  body_string plain_body = []
  body_string (payload_body text) = text
  body_string (resend_body requested destination) = decimal requested ++ net.ip_text destination
  body_string (file_body target timestamp) = file_string target timestamp
  body_string (content_body target timestamp content) = file_string target timestamp ++ content
  body_string (sync_body target timestamp content total index) =
      (file_string target timestamp ++ content) ++ (decimal total ++ decimal index)
  body_string (connect_body peers paths) = peers_string peers ++ paths_string paths

  -- The virtual hashString of each class.
  unfoldable pub hash_string : Message Ip → Text
  unfolding body_string
  hash_string m =
      (decimal (type_code m.type) ++ (net.ip_text m.receiver_node ++ net.ip_text m.originator_node))
      ++ body_string m.body

  unfoldable pub hash_message : Message Ip → ℕ
  unfolding hash_string
  hash_message m = hash (hash_string m)
