-- ===== src/Platform.antt =====
-- What the program takes from code outside its repository's sources: ZeroTier's addresses and
-- connections (ztcpp), the circular buffer, and the readings of the system's clocks.
use cpe400_peer_2_peer_file.Base.{ℕ, Bool, List, ◌≡◌, true, false}
use cpe400_peer_2_peer_file.Text.{Text}
use cpe400_peer_2_peer_file.Permissions.{Perms}
use cpe400_peer_2_peer_file.Messages.Classes.{Message}
use cpe400_peer_2_peer_file.Messages.Archive.{Archive}

-- zt::IpAddress is the type Ip, and its == is that of the instance Eq Ip.
pub record Platform (Ip : Type 0) : Type 0 where
  pub ipv6_unspecified : Ip
  pub ipv4_unspecified : Ip
  pub ipv6_loopback : Ip
  pub ipv4_loopback : Ip
  pub is_valid : Ip → Bool
  -- toString()
  pub ip_text : Ip → Text
  -- getAddressFamily() == AddressFamily::IPv4
  pub is_ipv4 : Ip → Bool
  -- getIPv4AddressInNetworkOrder, getIPv6AddressInNetworkOrder and their inverses
  pub ip_bytes : Ip → Text
  pub ip_of_ipv4 : Text → Ip
  pub ip_of_ipv6 : Text → Ip
  -- The numbers behind AddressFamily::IPv4 and AddressFamily::IPv6
  pub ipv4_family : ℕ
  pub ipv6_family : ℕ
  -- std::ctime of a time_t, which depends on the time zone
  pub ctime : ℕ → Text
  -- The two readings of system_clock::now() in a call of convertTimepoint on a system_clock time, in
  -- nanoseconds, and those of file_clock and system_clock on the time of a file
  pub clock_in : ℕ
  pub clock_out : ℕ
  pub file_clock_in : ℕ
  pub file_clock_out : ℕ
  -- The permissions of a new file, which the process's umask decides
  pub created_perms : Perms
  -- The bytes of a cereal binary archive
  pub archive_bytes : Archive → Text
  -- sizeof(Message)
  pub message_size : ℕ
  -- emplace_back of the circular buffer, on its elements in the order of iteration
  pub remember : Message Ip → List (Message Ip) → List (Message Ip)
  -- The nanoseconds that the handling of a message takes, by the time at which it starts, and those
  -- that a sweep takes
  pub handling_time : Message Ip → ℕ → ℕ
  pub sweeping_time : ℕ → ℕ
  -- Whether a connection to an address and port can be opened
  pub reachable : Ip → ℕ → Bool

-- An address is rebuilt from its family and its bytes.
pub record IsLawful {Ip : Type 0} (net : Platform Ip) : Type 0 where
  pub ipv4_bytes : (a : Ip) → net.is_ipv4 a ≡ true → net.ip_of_ipv4 (net.ip_bytes a) ≡ a
  pub ipv6_bytes : (a : Ip) → net.is_ipv4 a ≡ false → net.ip_of_ipv6 (net.ip_bytes a) ≡ a
  pub families_differ : net.ipv4_family ≡ net.ipv6_family → ⊥
