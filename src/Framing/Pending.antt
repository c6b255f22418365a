-- ===== src/Framing/Pending.antt =====
-- What one iteration of the receiving loop leaves of the messages on the socket.
use cpe400_peer_2_peer_file.Base.{
  ℕ, zero, suc, ◌+◌, ◌-◌, ◌^◌, ◌≤◌, ◌<◌, min, List, [], ◌∷◌, ◌++◌, none, some, ◌≡◌, refl, sym, ap,
  ◌∙◌, ◌⊎◌, inl, inr, length, take, drop, length-append, append_assoc, arith, All, leb, Bool-cases,
}
use cpe400_peer_2_peer_file.Base.Outcome.{returns}
use cpe400_peer_2_peer_file.Text.{Text}
use cpe400_peer_2_peer_file.Framing.{
  frame, number_bytes, bytes_number, store_at, Receiver, Progress, received_bytes, receive_size,
  receive_data, receive_step, with_message, sized,
}
use cpe400_peer_2_peer_file.Framing.Sizes.{bytes_number-size, length-number_bytes}
use cpe400_peer_2_peer_file.Framing.Pieces.{
  take-drop, length-take, length-drop, length-resize, append_cancel, take-store_at, length-store_at,
}

-- The bytes of messages on a socket.
unfoldable pub wire : List Text → Text
wire [] = []
wire (m ∷ ms) = frame m ++ wire ms

-- A message that is no shorter than its size, and whose size is a uint64_t.
abbrev pub IsFramed : Text → Type 0
IsFramed m = (8 ≤ length m) × (length m < 2 ^ 64)

-- The buffer holds a part of the size, or of the data, and the stream the rest.
abbrev pub InSize : Receiver → Text → List Text → Type 0
InSize r stream ms =
    (r.data_size ≡ 0)
    × (r.data_received < 8)
    × (8 ≤ length r.buffer)
    × (take r.data_received r.buffer ++ stream ≡ wire ms)

abbrev pub InData : Receiver → Text → Text → List Text → Type 0
InData r stream m ms =
    (r.data_size ≡ length m)
    × (length r.buffer ≡ length m)
    × (r.data_received < length m)
    × (take r.data_received r.buffer ++ stream ≡ m ++ wire ms)

abbrev pub Pending : Receiver → Text → List Text → Type 0
Pending r stream [] = InSize r stream []
Pending r stream (m ∷ ms) = InSize r stream (m ∷ ms) ⊎ InData r stream m ms

-- What an iteration leaves of the messages still to come.
abbrev pub Next : ℕ → Text → List Text → Progress → Type 0
Next available stream ms p =
    (left : List Text) × (with_message p.message left ≡ ms)
    × Pending p.receiver p.stream left
    × (1 ≤ available → length p.stream ≤ length stream - 1)

-- The stored piece moves from the stream to the buffer.
piece :
    (available wanted pos : ℕ) (buffer stream whole : Text)
    → pos + wanted ≤ length buffer
    → 1 ≤ wanted
    → take pos buffer ++ stream ≡ whole
    → let new = received_bytes available wanted stream in
      (length new ≤ wanted)
      × (length (store_at pos new buffer) ≡ length buffer)
      × (take (pos + length new) (store_at pos new buffer) ++ drop (length new) stream ≡ whole)
      × (1 ≤ available → length (drop (length new) stream) ≤ length stream - 1)
piece available wanted pos buffer stream whole fits some_wanted e =
    let new = received_bytes available wanted stream in
    let short : length new ≤ wanted = omega (arith, length-take (min available wanted) stream) in
    (
      short,
      length-store_at pos new buffer (omega arith),
      ap (λ t. t ++ drop (length new) stream) (take-store_at pos new buffer (omega arith))
          ∙ append_assoc (take pos buffer) new (drop (length new) stream)
          ∙ ap (λ t. take pos buffer ++ t) (take-drop (min available wanted) stream)
          ∙ e,
      λ h.
          omega (arith, length-drop (length new) stream, length-take (min available wanted) stream),
    )

take_none : (n : ℕ) (s : Text) → n ≡ 0 → take n s ≡ []
take_none zero [] h = refl
take_none zero (c ∷ s) h = refl
take_none (suc n) s h = absurd (omega (arith, h))

pub waiting :
    (r : Receiver) (stream : Text) (ms : List Text) → InSize r stream ms → Pending r stream ms
waiting r stream [] h = h
waiting r stream (m ∷ ms) h = inl h

-- The eight bytes of a size are there.
size_arrived :
    (size rest : Text) (ms : List Text)
    → All IsFramed ms
    → length size ≡ 8
    → size ++ rest ≡ wire ms
    → (m : Text) × (left : List Text) × (ms ≡ m ∷ left)
      × (bytes_number size ≡ length m)
      × (8 ≤ length m)
      × (rest ≡ m ++ wire left)
unfolding wire frame
size_arrived size rest [] framed long e =
    absurd (omega (arith, ap length e, length-append size rest))
size_arrived size rest (m ∷ ms) framed long e =
    let front = number_bytes 8 (length m) in
    let (same, after) =
      append_cancel size front rest (m ++ wire ms) (long ∙ sym (length-number_bytes 8 (length m)))
        (e ∙ append_assoc front m (wire ms)) in
    (m, ms, refl, ap bytes_number same ∙ bytes_number-size m framed.0.1, framed.0.0, after)

in_data :
    (size : ℕ) (buffer rest m : Text) (left : List Text)
    → size ≡ length m
    → 8 ≤ length m
    → rest ≡ m ++ wire left
    → InData (sized size 0 buffer) rest m left
in_data size buffer rest m left same long e =
    (same, length-resize size buffer ∙ same, omega (arith, long), e)

receive_size-Pending :
    (available : ℕ) (r : Receiver) (stream : Text) (ms : List Text)
    → All IsFramed ms
    → InSize r stream ms
    → (p : Progress) × (receive_size available r stream ≡ returns p) × Next available stream ms p
unfolding receive_size
receive_size-Pending available r stream ms framed (none_yet, part, room, e) =
    let (few, kept, moved, used) =
      piece available (8 - r.data_received) r.data_received r.buffer stream (wire ms) (omega arith)
        (omega arith) e in
    let new = received_bytes available (8 - r.data_received) stream in
    let rest = drop (length new) stream in
    let total = r.data_received + length new in
    let buffer = store_at r.data_received new r.buffer in
    elim (Bool-cases (leb 8 total)) [
      | inl full ↦
          let exact : total ≡ 8 = ground (arith, few) in
          let size = take 8 buffer in
          let long : length size ≡ 8 = omega (arith, length-take 8 buffer, kept) in
          let (m, left, is, read, big, after) =
            size_arrived size rest ms framed long
              (ap (λ n. take n buffer ++ rest) (sym exact) ∙ moved) in
          (
            record { receiver = sized (bytes_number size) 0 buffer; stream = rest; message = none },
            ground (arith, few, exact),
            (
              m ∷ left,
              sym is,
              inr (in_data (bytes_number size) buffer rest m left read big after),
              used,
            ),
          )
      | inr short ↦ (
        record {
          receiver = record { data_size = 0; data_received = total; buffer = buffer };
          stream = rest;
          message = none;
        },
        ground (arith, few),
        (ms, refl, waiting _ rest ms (refl, ground arith, omega (arith, kept), moved), used),
      )
    ]

receive_data-Pending :
    (available : ℕ) (r : Receiver) (stream m : Text) (left : List Text)
    → 8 ≤ length m
    → InData r stream m left
    → (p : Progress) × (receive_data available r stream ≡ returns p)
      × Next available stream (m ∷ left) p
unfolding receive_data
receive_data-Pending available r stream m left big (sized_as, room, part, e) =
    let wanted = length r.buffer - r.data_received in
    let (few, kept, moved, used) =
      piece available wanted r.data_received r.buffer stream (m ++ wire left) (omega arith)
        (omega arith) e in
    let new = received_bytes available wanted stream in
    let rest = drop (length new) stream in
    let total = r.data_received + length new in
    let buffer = store_at r.data_received new r.buffer in
    elim (Bool-cases (leb r.data_size total)) [
      | inl full ↦
          let exact : total ≡ r.data_size = ground (arith, few) in
          let (same, after) =
            append_cancel (take r.data_size buffer) m rest (wire left)
              (omega (arith, length-take r.data_size buffer, kept, sized_as, room))
              (ap (λ n. take n buffer ++ rest) (sym exact) ∙ moved) in
          (
            record {
              receiver = record {
                data_size = 0;
                data_received = total - r.data_size;
                buffer = buffer;
              };
              stream = rest;
              message = some (take r.data_size buffer);
            },
            rw full refl,
            (
              left,
              ap (λ t. t ∷ left) same,
              waiting _ rest left (
                refl,
                omega (arith, exact),
                omega (arith, kept, room, big),
                ap (λ t. t ++ rest) (take_none (total - r.data_size) buffer (omega (arith, exact)))
                    ∙ after,
              ),
              used,
            ),
          )
      | inr short ↦ (
        record {
          receiver = record { data_size = r.data_size; data_received = total; buffer = buffer };
          stream = rest;
          message = none;
        },
        rw short refl,
        (m ∷ left, refl, inr (sized_as, kept ∙ room, ground arith, moved), used),
      )
    ]

step_size :
    (available : ℕ) (r : Receiver) (stream : Text)
    → r.data_size ≡ 0
    → receive_step available r stream ≡ receive_size available r stream
unfolding receive_step
step_size available r stream h = ground arith

step_data :
    (available : ℕ) (r : Receiver) (stream : Text)
    → 1 ≤ r.data_size
    → receive_step available r stream ≡ receive_data available r stream
unfolding receive_step
step_data available r stream h = ground arith

pub receive_step-Pending :
    (available : ℕ) (r : Receiver) (stream : Text) (ms : List Text)
    → All IsFramed ms
    → Pending r stream ms
    → (p : Progress) × (receive_step available r stream ≡ returns p) × Next available stream ms p
receive_step-Pending available r stream [] framed h =
    let (p, gives, next) = receive_size-Pending available r stream [] framed h in
    (p, step_size available r stream h.0 ∙ gives, next)
receive_step-Pending available r stream (m ∷ ms) framed (inl h) =
    let (p, gives, next) = receive_size-Pending available r stream (m ∷ ms) framed h in
    (p, step_size available r stream h.0 ∙ gives, next)
receive_step-Pending available r stream (m ∷ ms) framed (inr h) =
    let (p, gives, next) = receive_data-Pending available r stream m ms framed.0.0 h in
    (p, step_data available r stream (omega (arith, h.0, framed.0.0)) ∙ gives, next)
