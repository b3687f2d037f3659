-- ===== src/ByteSerializer/Faults.antt =====
-- Two streams that the receiver does not survive or does not understand.
use tcomm_tests.Common.{
  ℕ, suc, ◌+◌, ◌*◌, ◌≤◌, ◌<◌, ◌≡◌, ◌≢◌, refl, [], ◌∷◌, ◌++◌, none, some, arith, Bytes, ◌∙◌, length,
  drop,
}
use native.Mathlib.Decide.{ℕ_discrete}
use tcomm_tests.ByteSerializer.{CommunicationData, fresh, store, deserialize, receive, header}
use tcomm_tests.ByteSerializer.Header.{receive-step, receive-header}
use tcomm_tests.ByteSerializer.Stream.{deserialize_noise, deserialize_first, deserialize_broken}

receive_past_end :
    (m : ℕ → ℕ) (i : ℕ) (r : CommunicationData) (b : ℕ) (bs : Bytes)
    → i ≡ 512
    → receive (record { memory = m; read_index = i; received = r }) (b ∷ bs) ≡ none
unfolding receive deserialize
receive_past_end m i r b bs end = rw end

deserialize_long :
    (m : ℕ → ℕ) (i b : ℕ) (r : CommunicationData)
    → 8 ≤ i
    → i < 512
    → 504 < r.data_size
    → deserialize (record { memory = m; read_index = i; received = r }) b
      ≡ some (record { memory = store m i b; read_index = suc i; received = r }, none)
unfolding deserialize
deserialize_long m i b r low high big = ground arith

receive-long :
    (m : ℕ → ℕ) (i : ℕ) (r : CommunicationData) (bs : Bytes)
    → 8 ≤ i
    → i ≤ 512
    → 504 < r.data_size
    → 512 < i + length bs
    → receive (record { memory = m; read_index = i; received = r }) bs ≡ none
receive-long m i r [] low high big enough = absurd (omega arith)
receive-long m i r (b ∷ bs) low high big enough = elim (ℕ_discrete i 512) [
  | yes end ↦ receive_past_end m i r b bs end
  | no more ↦
      receive-step _ _ b bs (deserialize_long m i b r low (omega arith) big)
      ∙ receive-long (store m i b) (suc i) r bs (omega arith) (omega arith) big (omega arith)
]

deserialize_object :
    (m : ℕ → ℕ) (b : ℕ) (r : CommunicationData)
    → 504 < r.data_size
    → deserialize (record { memory = m; read_index = 7; received = r }) b
      ≡ some (
        record {
          memory = store m 7 b;
          read_index = 8;
          received = record r { object_index = m 6 + b * 256 };
        },
        none,
      )
unfolding deserialize
deserialize_object m b r big = ground arith

-- A frame that announces more than 504 bytes makes the receiver write behind its buffer as soon as
-- 505 of them have come, whatever they are and whatever follows.
pub receive_overflow :
    (m : ℕ → ℕ) (r d : CommunicationData) (bs : Bytes)
    → 504 < d.data_size
    → d.data_size < 65536
    → 504 < length bs
    → receive (fresh m r) (header d ++ bs) ≡ none
receive_overflow m r d bs big fits enough =
    receive-header m r _ _ _ _ _ _
    ∙ receive-step _ _ _ bs (deserialize_object _ _ _ (omega arith))
    ∙ receive-long _ 8 _ bs (omega arith) (omega arith) (omega arith) (omega arith)

abbrev pub NoStart : Bytes → Type 0
NoStart [] = Unit {0}
NoStart (b ∷ bs) = (b ≢ 0xFB) × NoStart bs

receive-NoStart :
    (m : ℕ → ℕ) (r : CommunicationData) (bs : Bytes)
    → NoStart bs
    → (m' : ℕ → ℕ) × (receive (fresh m r) bs ≡ some (fresh m' r, []))
unfolding receive
receive-NoStart m r [] h = (m, refl)
receive-NoStart m r (b ∷ bs) (ne, h) =
    let (m', e) = receive-NoStart (store m 0 b) r bs h in
    (m', receive-step _ _ b bs (deserialize_noise m r b ne) ∙ e)

-- A stray start byte right before a frame costs the frame: the receiver drops the frame's own
-- start byte with it, and if no other byte of the frame is a start byte the message is lost.
pub receive_stray :
    (m : ℕ → ℕ) (r d : CommunicationData) (bs : Bytes)
    → NoStart (drop 2 (header d ++ bs))
    → (m' : ℕ → ℕ) × (receive (fresh m r) (0xFB ∷ header d ++ bs) ≡ some (fresh m' r, []))
receive_stray m r d bs h =
    let m2 = store (store m 0 0xFB) 1 0xFB in
    let (m', e) = receive-NoStart m2 r (drop 1 (header d ++ bs)) (omega arith, h) in
    (
      m',
      receive-step _ _ 0xFB _ (deserialize_first m r)
          ∙ receive-step _ _ 0xFB _ (deserialize_broken _ r 0xFB (omega arith))
          ∙ e,
    )
