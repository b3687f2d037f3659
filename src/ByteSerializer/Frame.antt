-- ===== src/ByteSerializer/Frame.antt =====
-- One frame: what `Serialize` writes, `Deserialize` reads back from any idle state.
use tcomm_tests.Common.{
  ℕ, zero, suc, ◌+◌, ◌*◌, ◌≤◌, ◌<◌, ◌≡◌, refl, List, [], ◌∷◌, ◌++◌, none, some, arith, Bytes, ◌∙◌,
  ap, length, take,
}
use tcomm_tests.ByteSerializer.{
  CommunicationData, fresh, store, read_range, received_bytes, deserialize, receive, cons_message,
  serialize, header, low_byte, high_byte,
}
use tcomm_tests.ByteSerializer.Header.{
  receive-step, receive-done, deserialize_continue, header_memory, receive-header,
}

-- The memory after the bytes are stored from offset `i` on.
pub write_range : (ℕ → ℕ) → ℕ → Bytes → ℕ → ℕ
write_range m i [] = m
write_range m i (x ∷ xs) = write_range (store m i x) (suc i) xs

write_range_below : (m : ℕ → ℕ) (i j : ℕ) (xs : Bytes) → j < i → write_range m i xs j ≡ m j
unfolding write_range
write_range_below m i j [] h = refl
write_range_below m i j (x ∷ xs) h =
    ground (arith, write_range_below (store m i x) (suc i) j xs (omega arith))

read_range-write_range :
    (m : ℕ → ℕ) (i : ℕ) (xs : Bytes) → read_range (write_range m i xs) i (length xs) ≡ xs
unfolding write_range
read_range-write_range m i [] = refl
read_range-write_range m i (x ∷ xs) = ground (
  arith,
  write_range_below (store m i x) (suc i) i xs (omega arith),
  read_range-write_range (store m i x) (suc i) xs,
)

take-read_range : (m : ℕ → ℕ) (i n k : ℕ) → n ≤ k → take n (read_range m i k) ≡ read_range m i n
take-read_range m i zero k h = refl
take-read_range m i (suc n) zero h = absurd (omega arith)
take-read_range m i (suc n) (suc k) h = ap (◌∷◌ (m i)) (take-read_range m (suc i) n k (omega arith))

take-received_bytes :
    (m : ℕ → ℕ) (b n : ℕ) (xs : Bytes)
    → n ≡ length xs
    → n ≤ 504
    → take n (received_bytes (write_range m 7 (b ∷ xs))) ≡ xs
unfolding received_bytes write_range
take-received_bytes m b n xs e h =
    take-read_range (write_range (store m 7 b) 8 xs) 8 n 504 h
    ∙ rw e (read_range-write_range (store m 7 b) 8 xs)

-- The message whose data stand in the receive buffer.
abbrev pub delivered : (ℕ → ℕ) → CommunicationData → CommunicationData
delivered m r = record r { buffer = received_bytes m }

-- The bytes behind the header change none of the fields.
deserialize_late :
    (m : ℕ → ℕ) (i b : ℕ) (r : CommunicationData)
    → 8 ≤ i
    → i < r.data_size + 7
    → r.data_size ≤ 504
    → deserialize (record { memory = m; read_index = i; received = r }) b
      ≡ some (record { memory = store m i b; read_index = suc i; received = r }, none)
unfolding deserialize
deserialize_late m i b r low more fits = ground arith

deserialize_last :
    (m : ℕ → ℕ) (i b : ℕ) (r : CommunicationData)
    → 8 ≤ i
    → i ≡ r.data_size + 7
    → r.data_size ≤ 504
    → let e = delivered (store m i b) r in
      deserialize (record { memory = m; read_index = i; received = r }) b
      ≡ some (fresh (store m i b) e, some e)
unfolding deserialize
deserialize_last m i b r low end fits = ground arith

receive-body :
    (m : ℕ → ℕ) (i : ℕ) (r : CommunicationData) (b : ℕ) (xs rest : Bytes)
    → 8 ≤ i
    → i + length xs ≡ r.data_size + 7
    → r.data_size ≤ 504
    → let m' = write_range m i (b ∷ xs) in
      receive (record { memory = m; read_index = i; received = r }) (b ∷ xs ++ rest)
      ≡ cons_message (some (delivered m' r)) (receive (fresh m' (delivered m' r)) rest)
unfolding write_range
receive-body m i r b [] rest low last fits =
    receive-done _ _ b rest _ (deserialize_last m i b r low (omega arith) fits)
receive-body m i r b (x ∷ xs) rest low last fits =
    receive-step _ _ b _ (deserialize_late m i b r low (omega arith) fits)
    ∙ receive-body (store m i b) (suc i) r x xs rest (omega arith) (omega arith) fits

-- The eighth byte ends the message when it carries no data.
deserialize_empty :
    (m : ℕ → ℕ) (b : ℕ) (r : CommunicationData)
    → r.data_size ≡ 0
    → let e = delivered (store m 7 b) (record r { object_index = m 6 + b * 256 }) in
      deserialize (record { memory = m; read_index = 7; received = r }) b
      ≡ some (fresh (store m 7 b) e, some e)
unfolding deserialize
deserialize_empty m b r h = ground arith

-- From the last byte of the header on.
receive-rest :
    (m : ℕ → ℕ) (r : CommunicationData) (b : ℕ) (xs rest : Bytes)
    → r.data_size ≡ length xs
    → r.data_size ≤ 504
    → let m' = write_range m 7 (b ∷ xs) in
      let e = delivered m' (record r { object_index = m 6 + b * 256 }) in
      receive (record { memory = m; read_index = 7; received = r }) (b ∷ xs ++ rest)
      ≡ cons_message (some e) (receive (fresh m' e) rest)
unfolding write_range
receive-rest m r b [] rest size fits = receive-done _ _ b rest _ (deserialize_empty m b r size)
receive-rest m r b (x ∷ xs) rest size fits =
    receive-step _ _ b _ (deserialize_continue m 7 b r (omega arith) (omega arith) (omega arith))
    ∙ receive-body (store m 7 b) 8 (record r { object_index = m 6 + b * 256 }) x xs rest
        (omega arith) (omega arith) fits

-- What fits the receive buffer: the indices are `uint16_t`, and the data has at most 504 bytes.
pub record IsFrame (d : CommunicationData) : Type 0 where
  pub device_fits : d.device_index < 65536
  pub object_fits : d.object_index < 65536
  pub data_fits : d.data_size ≤ 504
  pub data_present : d.data_size ≤ length d.buffer

-- What a message says: where it goes, and the data with their size.
abbrev pub message : CommunicationData → ℕ × ℕ × ℕ × Bytes
message d = (d.device_index, d.object_index, d.data_size, take d.data_size d.buffer)

abbrev pub frame : CommunicationData → Bytes
frame d = header d ++ take d.data_size d.buffer

pub serialize-frame : (d : CommunicationData) → IsFrame d → serialize d ≡ some (frame d)
unfolding serialize
serialize-frame d f = ground arith

length-take_eq {ℓ} : {A : Type ℓ} (n : ℕ) (xs : List A) → n ≤ length xs → length (take n xs) ≡ n
length-take_eq zero xs h = refl
length-take_eq (suc n) [] h = elim h [ ]
length-take_eq (suc n) (x ∷ xs) h = ap suc (length-take_eq n xs (omega arith))

-- A frame is read back as the message that it was made from, whatever stands in the receive buffer
-- before, and the receiver is idle again.
pub receive-frame :
    (m : ℕ → ℕ) (r d : CommunicationData)
    → IsFrame d
    → (m' : ℕ → ℕ) × (e : CommunicationData) × ((rest : Bytes)
        → receive (fresh m r) (frame d ++ rest) ≡ cons_message (some e) (receive (fresh m' e) rest))
      × (message e ≡ message d)
receive-frame m r d f =
    let xs = take d.data_size d.buffer in
    let size : length xs ≡ d.data_size = length-take_eq d.data_size d.buffer f.data_present in
    let m7 =
      header_memory m (low_byte d.device_index) (high_byte d.device_index) (low_byte d.data_size)
        (high_byte d.data_size) (low_byte d.object_index) in
    let r7 : CommunicationData = record r {
      device_index = low_byte d.device_index + high_byte d.device_index * 256;
      data_size = low_byte d.data_size + high_byte d.data_size * 256;
    } in
    let m' = write_range m7 7 (high_byte d.object_index ∷ xs) in
    let e : CommunicationData =
      delivered m'
        (record r7 { object_index = low_byte d.object_index + high_byte d.object_index * 256 }) in
    (
      m',
      e,
      λ rest.
          receive-header m r _ _ _ _ _ _
          ∙ receive-rest m7 r7 (high_byte d.object_index) xs rest (omega arith) (omega arith),
      λ i. (
        join d.device_index f.device_fits i,
        join d.object_index f.object_fits i,
        join d.data_size (omega arith) i,
        (take-received_bytes m7 (high_byte d.object_index) r7.data_size xs (omega arith)
              (omega arith))
            i,
      ),
    )
  where
    join : (w : ℕ) → w < 65536 → low_byte w + high_byte w * 256 ≡ w
    join w h = omega arith
