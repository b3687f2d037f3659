-- ===== src/ByteSerializer/Header.antt =====
-- How the receiver takes the header of a frame.
use tcomm_tests.Common.{
  ℕ, suc, ◌+◌, ◌*◌, ◌≤◌, ◌<◌, ◌≡◌, ◌≢◌, refl, List, ◌∷◌, Option, none, some, arith, Bytes, ◌∙◌,
}
use tcomm_tests.ByteSerializer.{
  CommunicationData, Deserializer, fresh, store, deserialize, receive, cons_message, note_fields,
}

-- A byte that completes no message leaves the rest of the stream to the next state.
pub receive-step :
    (s s' : Deserializer) (b : ℕ) (bs : Bytes)
    → deserialize s b ≡ some (s', none)
    → receive s (b ∷ bs) ≡ receive s' bs
unfolding receive
receive-step s s' b bs h = rw (h, receive) (cons_message_none (receive s' bs))
  where
    cons_message_none :
        (o : Option (Deserializer × List CommunicationData)) → cons_message none o ≡ o
    cons_message_none none = refl
    cons_message_none (some (t, ds)) = refl

pub receive-done :
    (s s' : Deserializer) (b : ℕ) (bs : Bytes) (d : CommunicationData)
    → deserialize s b ≡ some (s', some d)
    → receive s (b ∷ bs) ≡ cons_message (some d) (receive s' bs)
unfolding receive
receive-done s s' b bs d h = rw (h, receive)

-- A byte behind the start key that does not complete the message is stored.
pub deserialize_continue :
    (m : ℕ → ℕ) (i b : ℕ) (r : CommunicationData)
    → 2 ≤ i
    → i < 512
    → i ≢ (note_fields (store m i b) i r).data_size + 7
    → deserialize (record { memory = m; read_index = i; received = r }) b
      ≡ some (
        record {
          memory = store m i b;
          read_index = suc i;
          received = note_fields (store m i b) i r;
        },
        none,
      )
unfolding deserialize
deserialize_continue m i b r low high more = ground arith

abbrev pub header_memory : (ℕ → ℕ) → ℕ → ℕ → ℕ → ℕ → ℕ → ℕ → ℕ
header_memory m a2 a3 a4 a5 a6 =
    store (store (store (store (store (store (store m 0 0xFB) 1 0xDB) 2 a2) 3 a3) 4 a4) 5 a5) 6 a6

deserialize_key0 :
    (m : ℕ → ℕ) (r : CommunicationData)
    → deserialize (fresh m r) 0xFB
      ≡ some (record { memory = store m 0 0xFB; read_index = 1; received = r }, none)
unfolding deserialize
deserialize_key0 m r = ground arith

deserialize_key1 :
    (m : ℕ → ℕ) (r : CommunicationData)
    → deserialize (record { memory = m; read_index = 1; received = r }) 0xDB
      ≡ some (record { memory = store m 1 0xDB; read_index = 2; received = r }, none)
unfolding deserialize
deserialize_key1 m r = ground arith

pub receive-header :
    (m : ℕ → ℕ) (r : CommunicationData) (a2 a3 a4 a5 a6 : ℕ) (bs : Bytes)
    → receive (fresh m r) (0xFB ∷ 0xDB ∷ a2 ∷ a3 ∷ a4 ∷ a5 ∷ a6 ∷ bs)
      ≡ receive
          (record {
            memory = header_memory m a2 a3 a4 a5 a6;
            read_index = 7;
            received = record r { device_index = a2 + a3 * 256; data_size = a4 + a5 * 256 };
          })
          bs
receive-header m r a2 a3 a4 a5 a6 bs =
    receive-step _ _ _ _ (deserialize_key0 m r)
    ∙ receive-step _ _ _ _ (deserialize_key1 _ r)
    ∙ receive-step _ _ _ _ (deserialize_continue _ 2 a2 _ (omega arith) (omega arith) (omega arith))
    ∙ receive-step _ _ _ _ (deserialize_continue _ 3 a3 _ (omega arith) (omega arith) (omega arith))
    ∙ receive-step _ _ _ _ (deserialize_continue _ 4 a4 _ (omega arith) (omega arith) (omega arith))
    ∙ receive-step _ _ _ _ (deserialize_continue _ 5 a5 _ (omega arith) (omega arith) (omega arith))
    ∙ receive-step _ _ _ _ (deserialize_continue _ 6 a6 _ (omega arith) (omega arith) (omega arith))
