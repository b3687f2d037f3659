-- ===== src/SerialSubscriber/Arrival.antt =====
-- An object's data at the object that they are for.
use tcomm_tests.Common.{
  ℕ, ◌≡◌, ◌≤◌, ◌<◌, refl, not, [], ◌∷◌, ◌++◌, some, arith, Bytes, length, length-append,
}
use tcomm_tests.ByteSerializer.{CommunicationData}
use tcomm_tests.ByteSerializer.Frame.{IsFrame, message}
use tcomm_tests.Object
use tcomm_tests.Object.{TemplateCommunicationObject, get_data}
use tcomm_tests.Object.Sync.{
  GoodWord, word-IsCodec, text-IsCodec, inject-get_data, word-small, text-small,
}
use tcomm_tests.Object.Types.{
  Codec, ScalarType, int, int32, uint8, uint16, float, bool, word_codec, text_codec,
  length-le_bytes,
}
use tcomm_tests.Object.Virtual
use tcomm_tests.SerialSubscriber.Frames.{message-with_tail}
use tcomm_tests.Object.Virtual.{AnyObject, word, text, abstract}

-- The object that has taken a value in.
abbrev pub taken :
    {A : Type 0} → Codec A → TemplateCommunicationObject A → A → TemplateCommunicationObject A
taken c q v = record q { value = v; value_old = v; change_received = not (c.beq v q.value) }

-- The copy of an object after the object's value has come over, a text with a zero byte behind it.
abbrev pub copied : AnyObject → AnyObject → AnyObject
copied (word t o) (word u q) = word u (taken (word_codec u) q o.value)
copied (text o) (text q) = text (taken text_codec q (o.value ++ 0 ∷ []))
copied o q = q

-- What `GetData` gives; the abstract object sends nothing.
abbrev pub data_of : AnyObject → CommunicationData
data_of (word t o) = get_data (word_codec t) o
data_of (text o) = get_data text_codec o
data_of abstract = record { buffer = []; device_index = 0; data_size = 0; object_index = 0 }

-- A value of the type, no NaN, under `uint16_t` indices; a text that fits the receive buffer.
abbrev pub IsSendable : AnyObject → Type 0
IsSendable (word t o) = GoodWord t o.value × (o.device_index < 65536) × (o.object_index < 65536)
IsSendable (text o) = (length o.value ≤ 503) × (o.device_index < 65536) × (o.object_index < 65536)
IsSendable abstract = ⊥

data_of-size : (o : AnyObject) → IsSendable o → (data_of o).data_size ≡ length (data_of o).buffer
unfolding get_data
data_of-size (word t o) s = omega (arith, word-small t o.value)
data_of-size (text o) s = omega (arith, length-append o.value (0 ∷ []), s.0)
data_of-size abstract s = refl

length-bytes : (t : ScalarType) (v : ℕ) → length ((word_codec t).bytes v) ≤ 4
length-bytes int v = omega (arith, length-le_bytes 4 v)
length-bytes int32 v = omega (arith, length-le_bytes 4 v)
length-bytes uint8 v = omega (arith, length-le_bytes 1 v)
length-bytes uint16 v = omega (arith, length-le_bytes 2 v)
length-bytes float v = omega (arith, length-le_bytes 4 v)
length-bytes bool v = omega (arith, length-le_bytes 1 v)

pub data_of-IsFrame : (o : AnyObject) → IsSendable o → IsFrame (data_of o)
unfolding get_data
data_of-IsFrame (word t o) s = record {
  device_fits = omega arith;
  object_fits = omega arith;
  data_fits = omega (arith, length-bytes t o.value);
  data_present = omega arith;
}
data_of-IsFrame (text o) s = record {
  device_fits = omega arith;
  object_fits = omega arith;
  data_fits = omega (arith, length-append o.value (0 ∷ []));
  data_present = omega arith;
}
data_of-IsFrame abstract s = elim s [ ]

pub data_of-address :
    (o : AnyObject) (d i : ℕ)
    → IsSendable o
    → Virtual.address o ≡ some (d, i)
    → ((data_of o).device_index ≡ d) × ((data_of o).object_index ≡ i)
unfolding get_data Virtual.address
data_of-address (word t o) d i s h = (ground (arith, s.1), ground (arith, s.2))
data_of-address (text o) d i s h = (ground (arith, s.1), ground (arith, s.2))
data_of-address abstract d i s h = absurd (cc h)

inject-word :
    (t : ScalarType) (q o : TemplateCommunicationObject ℕ) (d : CommunicationData)
    → Object.inject (word_codec t) q d ≡ some o
    → Virtual.inject (word t q) d ≡ some (word t o)
unfolding Virtual.inject
inject-word t q o d h = rw (h, Virtual.inject) refl

inject-text :
    (q o : TemplateCommunicationObject Bytes) (d : CommunicationData)
    → Object.inject text_codec q d ≡ some o
    → Virtual.inject (text q) d ≡ some (text o)
unfolding Virtual.inject
inject-text q o d h = rw (h, Virtual.inject) refl

-- Data that say the same as an object's data, at an object of the same type.
pub inject-copied :
    (o q : AnyObject) (e : CommunicationData)
    → IsSendable o
    → Virtual.get_type o ≡ Virtual.get_type q
    → message e ≡ message (data_of o)
    → Virtual.inject q e ≡ some (copied o q)
unfolding Virtual.get_type
inject-copied (word t o) (word u q) e s h m =
    let same : t ≡ u = cc h in
    rw (message-with_tail e _ (data_of-size (word t o) s) m, same)
      (inject-word u q _ _
        (inject-get_data (word-IsCodec u) o q _ (rw same at s.0) (word-small u o.value)))
inject-copied (word t o) (text q) e s h m = absurd (cc h)
inject-copied (word t o) abstract e s h m = absurd (cc h)
inject-copied (text o) (word u q) e s h m = absurd (cc h)
inject-copied (text o) (text q) e s h m = rw (message-with_tail e _ (data_of-size (text o) s) m) (
    inject-text q _ _
      (inject-get_data text-IsCodec o q _ tt (text-small o.value (omega (arith, s.0)))))
inject-copied (text o) abstract e s h m = absurd (cc h)
inject-copied abstract q e s h m = elim s [ ]
