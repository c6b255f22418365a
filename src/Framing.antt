-- ===== src/Framing.antt =====
-- The messages of a peer on its socket: Peer::send (peer.hpp) and the receiving loop of
-- Peer::threadFunction (peer.cpp). A buffer is the list of its bytes.
pub mod Sizes
pub mod Pieces
pub mod Pending
pub mod Reassembly
use cpe400_peer_2_peer_file.Base.{
  ℕ, zero, suc, ◌+◌, ◌-◌, ◌*◌, ◌/◌, ◌%◌, min, List, [], ◌∷◌, ◌++◌, Option, none, some, eqb, leb,
  ltb, if◌then◌else◌, length, take, drop,
}
use cpe400_peer_2_peer_file.Base.Outcome.{Outcome, returns, undefined, ◌>>=◌}
use cpe400_peer_2_peer_file.Text.{Text}

-- The bytes of a number, the lowest first, as on the machines that the program runs on.
unfoldable pub number_bytes : ℕ → ℕ → Text
number_bytes zero n = []
number_bytes (suc k) n = n % 256 ∷ number_bytes k (n / 256)

unfoldable pub bytes_number : Text → ℕ
bytes_number [] = 0
bytes_number (b ∷ rest) = b + 256 * bytes_number rest

-- sizeof(uint64_t)
abbrev pub size_bytes : ℕ
size_bytes = 8

-- Peer::send: the size of the data, and then the data.
unfoldable pub frame : Text → Text
frame data' = number_bytes size_bytes (length data') ++ data'

abbrev pub replicate : ℕ → ℕ → Text
replicate zero b = []
replicate (suc n) b = b ∷ replicate n b

-- buffer.resize(n)
unfoldable pub resize : ℕ → Text → Text
resize n buffer = take n buffer ++ replicate (n - length buffer) 0

-- The bytes stored at a position of the buffer.
abbrev pub store_at : ℕ → Text → Text → Text
store_at pos new buffer = take pos buffer ++ (new ++ drop (pos + length new) buffer)

-- The local variables of threadFunction, and the buffer.
pub record Receiver : Type 0 where
  pub data_size : ℕ
  pub data_received : ℕ
  pub buffer : Text

-- The buffer of a new peer has thirty bytes.
abbrev pub new_receiver : Receiver
new_receiver = record { data_size = 0; data_received = 0; buffer = replicate 30 0 }

-- After an iteration: the receiver, the bytes still to come, and the message handed on, if any.
pub record Progress : Type 0 where
  pub receiver : Receiver
  pub stream : Text
  pub message : Option Text

-- socket.receive: the bytes that are there, at most as many as are wanted. Storing them past the end
-- of the buffer is undefined.
abbrev pub received_bytes : ℕ → ℕ → Text → Text
received_bytes available wanted stream = take (min available wanted) stream

-- The size is known: the buffer takes it on.
abbrev pub sized : ℕ → ℕ → Text → Receiver
sized size data_received buffer = record {
  data_size = size;
  data_received = data_received;
  buffer = resize size buffer;
}

-- While the size is not known.
unfoldable pub receive_size : ℕ → Receiver → Text → Outcome Progress
receive_size available r stream =
    let new = received_bytes available (size_bytes - r.data_received) stream in
    let rest = drop (length new) stream in
    let total = r.data_received + length new in
    let buffer = store_at r.data_received new r.buffer in
    if ltb (length r.buffer) total
    then undefined
    else if leb size_bytes total
    then returns (record {
      receiver = sized (bytes_number (take size_bytes buffer)) (total - size_bytes) buffer;
      stream = rest;
      message = none;
    })
    else returns (record {
      receiver = record { data_size = 0; data_received = total; buffer = buffer };
      stream = rest;
      message = none;
    })

-- Once the size is known. The move of what follows the message moves no byte: the buffer ends there.
unfoldable pub receive_data : ℕ → Receiver → Text → Outcome Progress
receive_data available r stream =
    let new = received_bytes available (length r.buffer - r.data_received) stream in
    let rest = drop (length new) stream in
    let total = r.data_received + length new in
    let buffer = store_at r.data_received new r.buffer in
    if leb r.data_size total
    then returns (record {
      receiver = record { data_size = 0; data_received = total - r.data_size; buffer = buffer };
      stream = rest;
      message = some (take r.data_size buffer);
    })
    else returns (record {
      receiver = record { data_size = r.data_size; data_received = total; buffer = buffer };
      stream = rest;
      message = none;
    })

-- One iteration of the loop in which the socket is ready to be read.
unfoldable pub receive_step : ℕ → Receiver → Text → Outcome Progress
receive_step available r stream =
    if eqb r.data_size 0 then receive_size available r stream else receive_data available r stream

-- The receiver, the stream and the messages handed on, the first one first.
pub record Received : Type 0 where
  pub receiver : Receiver
  pub stream : Text
  pub messages : List Text

abbrev pub with_message : Option Text → List Text → List Text
with_message none ms = ms
with_message (some m) ms = m ∷ ms

-- The loop, over how many bytes are there in each iteration.
unfoldable pub receive_all : List ℕ → Receiver → Text → Outcome Received
receive_all [] r stream = returns (record { receiver = r; stream = stream; messages = [] })
receive_all (available ∷ more) r stream = receive_step available r stream >>= λ p.
    receive_all more p.receiver p.stream >>= λ s. returns (record {
      receiver = s.receiver;
      stream = s.stream;
      messages = with_message p.message s.messages;
    })
