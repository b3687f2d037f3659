-- ===== src/SerialSubscriber/Frames.antt =====
-- The messages of a subscriber over the line.
use tcomm_tests.Common.{
  ℕ, ◌≡◌, refl, List, [], ◌∷◌, ◌++◌, some, arith, Bytes, ◌∙◌, length, take, drop, take_all,
  take-append-drop, sym,
}
use tcomm_tests.ByteSerializer.{CommunicationData, Deserializer, fresh, receive, write_port}
use tcomm_tests.ByteSerializer.Frame.{IsFrame, message, frame, serialize-frame, receive-frame}
use tcomm_tests.ByteSerializer.Stream.{Delivers, Delivers-cons}
use tcomm_tests.Object.Sync.{with_tail}
use tcomm_tests.SerialSubscriber.{SerialSubscriber, write, write_all}

abbrev pub AllFrames : List CommunicationData → Type 0
AllFrames [] = Unit {0}
AllFrames (d ∷ ds) = IsFrame d × AllFrames ds

-- A subscriber with a port, at which these bytes wait.
abbrev pub at_port : Bytes → Deserializer → SerialSubscriber
at_port waiting z = record { port = some waiting; serializer = z }

write-frame :
    (w : Bytes) (z : Deserializer) (d : CommunicationData)
    → IsFrame d
    → write (at_port w z) d ≡ some (frame d)
unfolding write write_port
write-frame w z d f = rw (serialize-frame d f, write, write_port) refl

pub write_all-Delivers :
    (w : Bytes) (z : Deserializer) (ds : List CommunicationData) (m : ℕ → ℕ) (r : CommunicationData)
    → AllFrames ds
    → (bs : Bytes) × (write_all (at_port w z) ds ≡ some bs) × Delivers (receive (fresh m r) bs) ds
unfolding write_all
write_all-Delivers w z [] m r h = ([], refl, (fresh m r, [], unfold receive in refl, refl, refl))
write_all-Delivers w z (d ∷ ds) m r (ok, h) =
    let (m', e, got, same) = receive-frame m r d ok in
    let (bs, sent', rest) = write_all-Delivers w z ds m' e h in
    (
      frame d ++ bs,
      rw (write-frame w z d ok, sent', write_all),
      rw (got bs) (Delivers-cons _ e d ds same rest),
    )

-- A message that says the same as one without bytes behind its data is that one with a tail.
pub message-with_tail :
    (e d : CommunicationData)
    → d.data_size ≡ length d.buffer
    → message e ≡ message d
    → e ≡ with_tail d (drop d.data_size e.buffer)
message-with_tail e d whole same =
    let size : e.data_size ≡ d.data_size = λ i. (same i).2 in
    let bytes : take e.data_size e.buffer ≡ d.buffer =
      (λ i. (same i).3) ∙ take_all d.data_size d.buffer (omega arith) in
    let buffer : e.buffer ≡ d.buffer ++ drop d.data_size e.buffer =
      sym (take-append-drop e.data_size e.buffer) ∙ (λ i. bytes i ++ drop (size i) e.buffer) in
    λ i. record {
      buffer = buffer i;
      device_index = (same i).0;
      object_index = (same i).1;
      data_size = (same i).2;
    }
