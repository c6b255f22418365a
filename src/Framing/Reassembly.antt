-- ===== src/Framing/Reassembly.antt =====
-- The receiving loop puts the messages together again.
use cpe400_peer_2_peer_file.Base.{
  ℕ, ◌-◌, ◌≤◌, List, [], ◌∷◌, ◌++◌, Option, none, some, ◌≡◌, refl, sym, ap, ◌∙◌, inl, inr, length,
  take, length-append, append-nil, subst, arith, All,
}
use cpe400_peer_2_peer_file.Base.Outcome.{returns}
use cpe400_peer_2_peer_file.Text.{Text}
use cpe400_peer_2_peer_file.Framing.{
  frame, number_bytes, Receiver, Received, receive_all, with_message, new_receiver,
}
use cpe400_peer_2_peer_file.Framing.Sizes.{length-number_bytes}
use cpe400_peer_2_peer_file.Framing.Pieces.{length-take}
use cpe400_peer_2_peer_file.Framing.Pending.{wire, IsFramed, Pending, waiting, receive_step-Pending}

IsFramed-left :
    (message : Option Text) (left ms : List Text)
    → with_message message left ≡ ms
    → All IsFramed ms
    → All IsFramed left
IsFramed-left none left ms e h = subst (All IsFramed) (sym e) h
IsFramed-left (some m) left ms e h = (subst (All IsFramed) (sym e) h).1

with_message-append :
    (message : Option Text) (xs ys : List Text)
    → with_message message xs ++ ys ≡ with_message message (xs ++ ys)
with_message-append none xs ys = refl
with_message-append (some m) xs ys = refl

receive_all-Pending :
    (schedule : List ℕ) (r : Receiver) (stream : Text) (ms : List Text)
    → All IsFramed ms
    → Pending r stream ms
    → (s : Received) × (receive_all schedule r stream ≡ returns s)
      × (left : List Text) × (s.messages ++ left ≡ ms)
      × Pending s.receiver s.stream left
      × (All (λ available. 1 ≤ available) schedule
          → length s.stream ≤ length stream - length schedule)
unfolding receive_all
receive_all-Pending [] r stream ms framed h =
    (record { receiver = r; stream = stream; messages = [] }, refl, ms, refl, h, λ all. omega arith)
receive_all-Pending (available ∷ more) r stream ms framed h =
    let (p, gives, (left, same, pending, used)) =
      receive_step-Pending available r stream ms framed h in
    let (s, gives', left', same', pending', used') =
      receive_all-Pending more p.receiver p.stream left
        (IsFramed-left p.message left ms same framed) pending in
    (
      record {
        receiver = s.receiver;
        stream = s.stream;
        messages = with_message p.message s.messages;
      },
      rw (gives, gives') refl,
      left',
      with_message-append p.message s.messages left' ∙ ap (with_message p.message) same' ∙ same,
      pending',
      λ all. omega (arith, used all.0, used' all.1),
    )

Pending-done : (r : Receiver) (ms : List Text) → Pending r [] ms → ms ≡ []
unfolding wire frame
Pending-done r [] h = refl
Pending-done r (m ∷ ms) (inl (e, part, room, whole)) =
    let size = number_bytes 8 (length m) in
    absurd (
      omega (
        arith,
        ap length whole,
        length-append (take r.data_received r.buffer) [],
        length-take r.data_received r.buffer,
        length-append (size ++ m) (wire ms),
        length-append size m,
        length-number_bytes 8 (length m),
      ))
Pending-done r (m ∷ ms) (inr (e, room, part, whole)) = absurd (
    omega (
      arith,
      ap length whole,
      length-append (take r.data_received r.buffer) [],
      length-take r.data_received r.buffer,
      length-append m (wire ms),
    ))

-- Messages that are each no shorter than a size and have a size that is a uint64_t, sent one after
-- another: in whatever pieces they arrive, what the loop of a new peer hands on is the first of them,
-- in order, and nothing else.
pub receive_all-prefix :
    (schedule : List ℕ) (ms : List Text)
    → All IsFramed ms
    → (s : Received) × (receive_all schedule new_receiver (wire ms) ≡ returns s)
      × (left : List Text) × (s.messages ++ left ≡ ms)
receive_all-prefix schedule ms framed =
    let (s, gives, left, same, pending, used) =
      receive_all-Pending schedule new_receiver (wire ms) ms framed
        (waiting new_receiver (wire ms) ms (refl, omega arith, omega arith, refl)) in
    (s, gives, left, same)

empty : (s : Text) → length s ≤ 0 → s ≡ []
empty [] h = refl
empty (c ∷ s) h = absurd (omega (arith, h))

-- Such messages are all handed on, in order, after as many iterations as they have bytes on the
-- socket, if at least one byte is there in each iteration (it may be less than there is room for).
pub receive_all-wire :
    (schedule : List ℕ) (ms : List Text)
    → All IsFramed ms
    → All (λ available. 1 ≤ available) schedule
    → length (wire ms) ≤ length schedule
    → (s : Received) × (receive_all schedule new_receiver (wire ms) ≡ returns s) × (s.messages ≡ ms)
receive_all-wire schedule ms framed busy enough =
    let (s, gives, left, same, pending, used) =
      receive_all-Pending schedule new_receiver (wire ms) ms framed
        (waiting new_receiver (wire ms) ms (refl, omega arith, omega arith, refl)) in
    let done : s.stream ≡ [] = empty s.stream (omega (arith, used busy, enough)) in
    let none_left : left ≡ [] =
      Pending-done s.receiver left (subst (λ t. Pending s.receiver t left) done pending) in
    (s, gives, sym (append-nil s.messages) ∙ ap (λ l. s.messages ++ l) (sym none_left) ∙ same)
