-- ===== src/Connection.antt =====
-- A peer's socket: Peer::connect with its attempts, and the cached address and port (peer.hpp).
pub mod Slots
use cpe400_peer_2_peer_file.Base.{
  ℕ, zero, suc, ◌+◌, ◌-◌, ◌<◌, Bool, true, false, eqb, if◌then◌else◌, ◌≡◌, refl, sym, ap, ◌∙◌,
  arith,
}
use cpe400_peer_2_peer_file.Base.Outcome.{Outcome, returns, throws, connect_failed}
use cpe400_peer_2_peer_file.Text.{size_t_mod}

-- The number of attempts: 0 becomes the largest size_t.
abbrev pub attempt_limit : ℕ → ℕ
attempt_limit retry_attempts = if eqb retry_attempts 0 then size_t_mod - 1 else retry_attempts

-- The loop of Peer::connect from attempt i on, where opens says whether the socket is open after an
-- attempt; it counts the pauses. The first argument is the number of attempts left.
unfoldable pub try_connect : ℕ → ℕ → (ℕ → Bool) → ℕ → Outcome ℕ
try_connect zero i opens pauses = throws connect_failed
try_connect (suc left) i opens pauses =
    let pauses' = if eqb i 0 then pauses else pauses + 1 in
    let rest = try_connect left (i + 1) opens pauses' in if opens i then returns pauses' else rest

-- Peer::connect: the number of pauses made, or an exception.
unfoldable pub connect : ℕ → (ℕ → Bool) → Outcome ℕ
unfolding try_connect
connect retry_attempts opens = try_connect (attempt_limit retry_attempts) 0 opens 0

try_connect-opens :
    (left i k : ℕ) (opens : ℕ → Bool) (pauses : ℕ)
    → k < left
    → opens (i + k) ≡ true
    → ((j : ℕ) → j < k → opens (i + j) ≡ false)
    → try_connect left i opens pauses ≡ returns (pauses + (if eqb i 0 then k else k + 1))
unfolding try_connect
try_connect-opens zero i k opens pauses h good bad = elim h [ ]
try_connect-opens (suc left) i zero opens pauses h good bad =
    let same : i + 0 ≡ i = omega arith in ground (arith, ap opens same)
try_connect-opens (suc left) i (suc k) opens pauses h good bad =
    let here : i + 0 ≡ i = omega arith in
    let there : i + suc k ≡ (i + 1) + k = omega arith in
    let closed : opens i ≡ false = ap opens (sym here) ∙ bad 0 (omega arith) in
    let pauses' = if eqb i 0 then pauses else pauses + 1 in
    let rest =
      try_connect-opens left (i + 1) k opens pauses' (omega arith) (ap opens (sym there) ∙ good)
        (λ j hj.
          let shift : (i + 1) + j ≡ i + suc j = omega arith in
          ap opens shift ∙ bad (suc j) (omega arith)) in
    rw closed (ground (arith, rest))

-- If the first attempt that opens the socket is number k, counted from 0, and it is within the limit,
-- connecting succeeds after k pauses.
pub connect-opens :
    (retry_attempts k : ℕ) (opens : ℕ → Bool)
    → k < attempt_limit retry_attempts
    → opens k ≡ true
    → ((j : ℕ) → j < k → opens j ≡ false)
    → connect retry_attempts opens ≡ returns k
unfolding connect
connect-opens retry_attempts k opens h good bad =
    let shift = λ (j : ℕ). (let e : 0 + j ≡ j = omega arith in ap opens e) in
    try_connect-opens (attempt_limit retry_attempts) 0 k opens 0 h (shift k ∙ good)
      (λ j hj. shift j ∙ bad j hj)
    ∙ ap returns (omega arith)

try_connect-fails :
    (left i : ℕ) (opens : ℕ → Bool) (pauses : ℕ)
    → ((j : ℕ) → j < left → opens (i + j) ≡ false)
    → try_connect left i opens pauses ≡ throws connect_failed
unfolding try_connect
try_connect-fails zero i opens pauses bad = refl
try_connect-fails (suc left) i opens pauses bad =
    let here : i + 0 ≡ i = omega arith in
    let closed : opens i ≡ false = ap opens (sym here) ∙ bad 0 (omega arith) in
    rw closed (
      try_connect-fails left (i + 1) opens _ (λ j hj.
        let shift : (i + 1) + j ≡ i + suc j = omega arith in
        ap opens shift ∙ bad (suc j) (omega arith)))

-- If no attempt within the limit opens the socket, connecting ends in an exception.
connect-fails :
    (retry_attempts : ℕ) (opens : ℕ → Bool)
    → ((j : ℕ) → j < attempt_limit retry_attempts → opens j ≡ false)
    → connect retry_attempts opens ≡ throws connect_failed
unfolding connect
connect-fails retry_attempts opens bad =
    try_connect-fails (attempt_limit retry_attempts) 0 opens 0
      (λ j hj. (let e : 0 + j ≡ j = omega arith in ap opens e) ∙ bad j hj)
