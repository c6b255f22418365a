-- ===== src/ZeroTier.antt =====
-- ZeroTierNode (ztnode.hpp): the events of the ZeroTier service, and setup.
pub mod Joining
use cpe400_peer_2_peer_file.Base.{
  ℕ, ◌+◌, ◌%◌, Bool, true, false, ◌&&◌, List, [], ◌∷◌, Option, none, some, ltb, if◌then◌else◌,
}
use cpe400_peer_2_peer_file.Base.Outcome.{Outcome, returns, throws, too_deep, zt_error, ◌>>=◌}

pub data ServiceEvent (Ip : Type 0) : Type 0 where
  -- onAddressEvent with AddedIPv4 or AddedIPv6, with its details if it has them
  address_added : Option Ip → ServiceEvent Ip
  -- onNetworkEvent with ReadyIPv4, ReadyIPv6 or ReadyIPv4_IPv6
  network_ready : ServiceEvent Ip
  -- onNetworkEvent with Down
  network_down : ServiceEvent Ip
  -- onNodeEvent with Online and with Offline
  node_online node_offline : ServiceEvent Ip
  -- Every other event, which is only printed
  other_event : ServiceEvent Ip

pub record ServiceNode (Ip : Type 0) : Type 0 where
  pub online : Bool
  -- A uint8_t
  pub networks_joined_count : ℕ
  pub ip : Ip

module _ {Ip : Type 0} where
  abbrev new_ip : Option Ip → Ip → Ip
  new_ip none old = old
  new_ip (some a) old = a

  unfoldable pub on_event : ServiceEvent Ip → ServiceNode Ip → ServiceNode Ip
  on_event (address_added details) n = record n { ip = new_ip details n.ip }
  on_event network_ready n = record n {
    networks_joined_count = (n.networks_joined_count + 1) % 256;
  }
  on_event network_down n = record n {
    networks_joined_count = (n.networks_joined_count + 255) % 256;
  }
  on_event node_online n = record n { online = true }
  on_event node_offline n = record n { online = false }
  on_event other_event n = n

  unfoldable pub on_events : List (ServiceEvent Ip) → ServiceNode Ip → ServiceNode Ip
  on_events [] n = n
  on_events (e ∷ rest) n = on_events rest (on_event e n)

  -- The condition of the last loop of setup: while (networksJoinedCount <= 0).
  abbrev pub has_joined : ServiceNode Ip → Bool
  has_joined n = ltb 0 n.networks_joined_count

-- Which of the calls of setup to the library succeed.
pub record Calls : Type 0 where
  pub set_identity_from_storage : Bool
  pub allow_network_caching : Bool
  pub allow_peer_caching : Bool
  pub allow_identity_caching : Bool
  pub set_port : Bool
  pub start : Bool
  pub join : Bool

-- Those before the first loop.
abbrev pub has_started : Calls → Bool
has_started calls =
    calls.set_identity_from_storage
    && (calls.allow_network_caching
        && (calls.allow_peer_caching
            && (calls.allow_identity_caching && (calls.set_port && calls.start))))

module _ {Ip : Type 0} where
  -- A loop that sleeps until a condition holds, and the events of the sleeps that are left. The
  -- list has the events that come in each sleep.
  unfoldable pub wait_until :
      (ServiceNode Ip → Bool)
      → List (List (ServiceEvent Ip))
      → ServiceNode Ip
      → Outcome (ServiceNode Ip × List (List (ServiceEvent Ip)))
  wait_until holds [] n = if holds n then returns (n, []) else too_deep
  wait_until holds (events ∷ sleeps) n =
      let rest = wait_until holds sleeps (on_events events n) in
      if holds n then returns (n, events ∷ sleeps) else rest

  -- setup
  unfoldable pub setup :
      Calls → List (List (ServiceEvent Ip)) → ServiceNode Ip → Outcome (ServiceNode Ip)
  setup calls sleeps n =
      if has_started calls
      then (wait_until (λ m. m.online) sleeps n >>= λ (n', left).
          if calls.join
          then (wait_until has_joined left n' >>= λ (n'', none_left). returns n'')
          else throws zt_error)
      else throws zt_error
