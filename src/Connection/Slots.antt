-- ===== src/Connection/Slots.antt =====
-- The vector of peers: the cached address and port of a Peer, its move assignment, and erase
-- (peer.hpp, message_manager.cpp).
use cpe400_peer_2_peer_file.Base.{
  ℕ, zero, suc, ◌<◌, Bool, true, List, [], ◌∷◌, map, Option, none, some, eqb, if◌then◌else◌, ◌≡◌,
  refl, ap, arith, All, length,
}

-- A Peer, but for its thread and buffer: its socket, and the cached address and port of the socket.
pub record Slot (Ip : Type 0) : Type 0 where
  pub socket : Ip × ℕ
  pub cached_ip : Ip
  pub cached_port : ℕ

-- std::numeric_limits<uint16_t>::max(), which is also the initial cached port, -1
abbrev pub no_port : ℕ
no_port = 65_535

module _ {Ip : Type 0} where
  -- operator=(Peer&&): the socket moves, and the cached address and port stay where they are.
  unfoldable pub move_assign : Slot Ip → Slot Ip → Slot Ip
  move_assign p other = record p { socket = other.socket }

  -- Every element takes on the next one, and the last one goes.
  unfoldable pub shift : List (Slot Ip) → List (Slot Ip)
  shift [] = []
  shift (p ∷ []) = []
  shift (p ∷ other ∷ rest) = move_assign p other ∷ shift (other ∷ rest)

  -- peerLock->erase(peerLock->begin() + index)
  unfoldable pub erase : ℕ → List (Slot Ip) → List (Slot Ip)
  erase index [] = []
  erase zero (p ∷ slots) = shift (p ∷ slots)
  erase (suc index) (p ∷ slots) = p ∷ erase index slots

module _ {Ip : Type 0} (is_valid : Ip → Bool) where
  -- getRemoteIP: none is the ZTError of a socket that gives no address.
  unfoldable pub get_remote_ip : Option Ip → Slot Ip → Option (Ip × Slot Ip)
  get_remote_ip answer p =
      if is_valid p.cached_ip
      then some (p.cached_ip, p)
      else elim answer [ none ↦ none | some ip ↦ some (ip, record p { cached_ip = ip }) ]

  -- getRemotePort
  unfoldable pub get_remote_port : Option ℕ → Slot Ip → Option (ℕ × Slot Ip)
  get_remote_port answer p =
      if eqb p.cached_port no_port
      then elim answer [ none ↦ none | some port ↦ some (port, record p { cached_port = port }) ]
      else some (p.cached_port, p)

  -- The address that a Peer with a working socket answers.
  abbrev pub address : Slot Ip → Ip
  address p = if is_valid p.cached_ip then p.cached_ip else p.socket.0

  -- Once a valid address was given, the same one is given whatever the socket says later.
  get_remote_ip_cached :
      (ip : Ip) (answer later : Option Ip) (p q : Slot Ip)
      → is_valid ip ≡ true
      → get_remote_ip answer p ≡ some (ip, q)
      → get_remote_ip later q ≡ some (ip, q)
  unfolding get_remote_ip
  get_remote_ip_cached ip answer later p q good e = ground arith

module _ {ℓ} {A : Type ℓ} where
  abbrev pub remove_at : ℕ → List A → List A
  remove_at index [] = []
  remove_at zero (x ∷ xs) = xs
  remove_at (suc index) (x ∷ xs) = x ∷ remove_at index xs

  abbrev pub without_last : List A → List A
  without_last [] = []
  without_last (x ∷ []) = []
  without_last (x ∷ y ∷ xs) = x ∷ without_last (y ∷ xs)

module _ {Ip : Type 0} (is_valid : Ip → Bool) where
  abbrev pub IsCached : Slot Ip → Type 0
  IsCached p = is_valid p.cached_ip ≡ true

  sockets-shift :
      (p : Slot Ip) (slots : List (Slot Ip))
      → map (λ q. q.socket) (shift (p ∷ slots)) ≡ map (λ q. q.socket) slots
  unfolding shift move_assign
  sockets-shift p [] = refl
  sockets-shift p (other ∷ rest) = ap (◌∷◌ other.socket) (sockets-shift other rest)

  addresses-shift :
      (slots : List (Slot Ip))
      → All IsCached slots
      → map (address is_valid) (shift slots) ≡ without_last (map (address is_valid) slots)
  unfolding shift move_assign
  addresses-shift [] h = refl
  addresses-shift (p ∷ []) h = refl
  addresses-shift (p ∷ other ∷ rest) h = ground (arith, addresses-shift (other ∷ rest) h.1)

  sockets-erase :
      (index : ℕ) (slots : List (Slot Ip))
      → map (λ q. q.socket) (erase index slots) ≡ remove_at index (map (λ q. q.socket) slots)
  unfolding erase
  sockets-erase index [] = refl
  sockets-erase zero (p ∷ slots) = sockets-shift p slots
  sockets-erase (suc index) (p ∷ slots) = ap (◌∷◌ p.socket) (sockets-erase index slots)

  addresses-erase :
      (index : ℕ) (slots : List (Slot Ip))
      → All IsCached slots
      → index < length slots
      → map (address is_valid) (erase index slots) ≡ without_last (map (address is_valid) slots)
  unfolding erase
  addresses-erase index [] h inside = refl
  addresses-erase zero (p ∷ slots) h inside = addresses-shift (p ∷ slots) h
  addresses-erase (suc index) (p ∷ []) h inside = absurd (omega (arith, inside))
  addresses-erase (suc index) (p ∷ other ∷ rest) h inside =
      ground (arith, addresses-erase index (other ∷ rest) h.1)

  -- Erasing a peer from a vector whose addresses are all cached: the socket at the index goes, but of
  -- the addresses that the peers answer the last one goes, whatever the index. So every peer from the
  -- index on answers the address of the peer that stood there before.
  pub erase_cached :
      (index : ℕ) (slots : List (Slot Ip))
      → All IsCached slots
      → index < length slots
      → (map (λ q. q.socket) (erase index slots) ≡ remove_at index (map (λ q. q.socket) slots))
        × (map (address is_valid) (erase index slots) ≡ without_last (map (address is_valid) slots))
  erase_cached index slots h inside =
      (sockets-erase index slots, addresses-erase index slots h inside)
