-- ===== src/ByteSerializer.antt =====
-- TComm/src/CommunicationData.h, TComm/src/ByteSerializer.h and
-- TComm/src/SerialSubscriber.h (under TCommEspTest/lib/ControlLibrary/Communication).
-- A pointer to bytes is the list of the bytes that may be read from it on; a copy that would run
-- past the end of that list is `none`. The receive buffer is a function from offsets to bytes.
pub mod Header
pub mod Frame
pub mod Stream
pub mod Faults
use tcomm_tests.Common.{
  ℕ, zero, suc, ◌+◌, ◌*◌, ◌/◌, ◌%◌, Bool, ◌&&◌, ◌||◌, not, List, [], ◌∷◌, ◌++◌, Option, none, some,
  ltb, leb, ◌==◌, if◌then◌else◌, Bytes, length, take,
}

-- `class CommunicationData`; the three indices are `uint16_t`.
pub record CommunicationData : Type 0 where
  pub buffer : Bytes
  pub device_index : ℕ
  pub data_size : ℕ
  pub object_index : ℕ

-- `memcpy` of `n` bytes: `none` when the source holds fewer.
abbrev pub memcpy : Bytes → ℕ → Option Bytes
memcpy source n = if leb n (length source) then some (take n source) else none

abbrev pub low_byte : ℕ → ℕ
low_byte w = w % 256

abbrev pub high_byte : ℕ → ℕ
high_byte w = w / 256 % 256

abbrev pub start_key : ℕ
start_key = 0xDBFB

-- The eight bytes before the data: start key, device, size and object, low byte first.
abbrev pub header : CommunicationData → Bytes
header d =
    low_byte start_key
    ∷ high_byte start_key
    ∷ low_byte d.device_index
    ∷ high_byte d.device_index
    ∷ low_byte d.data_size
    ∷ high_byte d.data_size
    ∷ low_byte d.object_index
    ∷ high_byte d.object_index
    ∷ []

-- `ByteSerializer::Serialize`: what the caller's array holds afterwards.
unfoldable pub serialize : CommunicationData → Option Bytes
serialize d = elim (memcpy d.buffer d.data_size) [
  | none ↦ none
  | some body ↦ some (header d ++ body)
]

-- `SerialSubscriber::Write`: what it writes to its port, if it has one.
unfoldable pub write_port : Bool → CommunicationData → Option Bytes
unfolding serialize
write_port port d = elim (serialize d) [
  | none ↦ none
  | some to_send ↦ some (if port then to_send else [])
]

abbrev pub buffer_size : ℕ
buffer_size = 512

-- The private members of `ByteSerializer`.
pub record Deserializer : Type 0 where
  pub memory : ℕ → ℕ
  pub read_index : ℕ
  pub received : CommunicationData

-- The constructor of `ByteSerializer` clears only `readIndex`.
abbrev pub fresh : (ℕ → ℕ) → CommunicationData → Deserializer
fresh m r = record { memory = m; read_index = 0; received = r }

abbrev pub store : (ℕ → ℕ) → ℕ → ℕ → ℕ → ℕ
store m i b j = if i == j then b else m j

-- The `n` bytes from offset `i` on.
abbrev pub read_range : (ℕ → ℕ) → ℕ → ℕ → Bytes
read_range m i zero = []
read_range m i (suc n) = m i ∷ read_range m (suc i) n

-- What may be read through the pointer `buffer + 8`.
pub received_bytes : (ℕ → ℕ) → Bytes
received_bytes m = read_range m 8 504

-- The fields that a byte at index 3, 5 or 7 completes.
abbrev pub note_fields : (ℕ → ℕ) → ℕ → CommunicationData → CommunicationData
note_fields m i r = record r {
  device_index = if i == 3 then m 2 + m 3 * 256 else r.device_index;
  data_size = if i == 5 then m 4 + m 5 * 256 else r.data_size;
  object_index = if i == 7 then m 6 + m 7 * 256 else r.object_index;
}

abbrev pub wrong_key : (ℕ → ℕ) → ℕ → Bool
wrong_key m i = i == 0 && not (m 0 == 0xFB) || i == 1 && not (m 1 == 0xDB)

-- The part of `Deserialize` behind the test of the start key.
pub finish_byte : (ℕ → ℕ) → ℕ → CommunicationData → Deserializer × Option CommunicationData
finish_byte m i r =
    if i == r.data_size + 7
    then (
      record { memory = m; read_index = 0; received = record r { buffer = received_bytes m } },
      some (record r { buffer = received_bytes m }),
    )
    else (record { memory = m; read_index = (i + 1) % 65536; received = r }, none)

-- `ByteSerializer::Deserialize` on one byte: the new members and the message that is complete, if
-- any. `none` is a write behind the end of `buffer`.
unfoldable pub deserialize : Deserializer → ℕ → Option (Deserializer × Option CommunicationData)
unfolding finish_byte
deserialize s b =
    let m = store s.memory s.read_index b in
    if leb buffer_size s.read_index
    then none
    else if wrong_key m s.read_index
    then some (record { memory = m; read_index = 0; received = s.received }, none)
    else some (finish_byte m s.read_index (note_fields m s.read_index s.received))

abbrev pub cons_message :
    Option CommunicationData
    → Option (Deserializer × List CommunicationData)
    → Option (Deserializer × List CommunicationData)
cons_message out none = none
cons_message none (some (s, ds)) = some (s, ds)
cons_message (some d) (some (s, ds)) = some (s, d ∷ ds)

-- The loop of `SerialSubscriber::Read` over the bytes that the port has: the messages that it
-- injects, in order.
unfoldable pub receive : Deserializer → Bytes → Option (Deserializer × List CommunicationData)
receive s [] = some (s, [])
receive s (b ∷ bs) = elim (deserialize s b) [
  | none ↦ none
  | some (s', out) ↦ cons_message out (receive s' bs)
]
