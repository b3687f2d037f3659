-- ===== src/ByteSerializer/Stream.antt =====
-- A stream of frames, with line noise between them.
use tcomm_tests.Common.{
  ℕ, ◌≡◌, ◌≢◌, refl, List, [], ◌∷◌, ◌++◌, map, Option, none, some, arith, Bytes, ◌∙◌, ap,
}
use tcomm_tests.ByteSerializer.{
  CommunicationData, Deserializer, fresh, store, deserialize, receive, cons_message, serialize,
}
use tcomm_tests.ByteSerializer.Header.{receive-step}
use tcomm_tests.ByteSerializer.Frame.{IsFrame, message, frame, serialize-frame, receive-frame}

-- What a port may carry: a byte that begins no frame, a first key byte with no second one behind
-- it, or the frame of a message.
pub data Chunk : Type 0 where
  noise : ℕ → Chunk
  broken_key : ℕ → Chunk
  sent : CommunicationData → Chunk

abbrev pub IsChunk : Chunk → Type 0
IsChunk (noise b) = b ≢ 0xFB
IsChunk (broken_key b) = b ≢ 0xDB
IsChunk (sent d) = IsFrame d

abbrev pub AllChunks : List Chunk → Type 0
AllChunks [] = Unit {0}
AllChunks (c ∷ cs) = IsChunk c × AllChunks cs

-- The bytes of the chunks in order, each message by `Serialize`.
pub transmit : List Chunk → Option Bytes
transmit [] = some []
transmit (noise b ∷ cs) = elim (transmit cs) [ none ↦ none | some bs ↦ some (b ∷ bs) ]
transmit (broken_key b ∷ cs) = elim (transmit cs) [ none ↦ none | some bs ↦ some (0xFB ∷ b ∷ bs) ]
transmit (sent d ∷ cs) = elim (serialize d) [
  | none ↦ none
  | some f ↦ elim (transmit cs) [ none ↦ none | some bs ↦ some (f ++ bs) ]
]

abbrev pub messages : List Chunk → List CommunicationData
messages [] = []
messages (noise b ∷ cs) = messages cs
messages (broken_key b ∷ cs) = messages cs
messages (sent d ∷ cs) = d ∷ messages cs

-- The stream is received whole: the receiver ends idle, with these messages delivered in order.
abbrev pub Delivers :
    Option (Deserializer × List CommunicationData) → List CommunicationData → Type 0
Delivers out ds =
    (s : Deserializer) × (es : List CommunicationData) × (out ≡ some (s, es))
    × (s.read_index ≡ 0)
    × (map message es ≡ map message ds)

pub deserialize_noise :
    (m : ℕ → ℕ) (r : CommunicationData) (b : ℕ)
    → b ≢ 0xFB
    → deserialize (fresh m r) b ≡ some (fresh (store m 0 b) r, none)
unfolding deserialize
deserialize_noise m r b h = ground arith

pub deserialize_first :
    (m : ℕ → ℕ) (r : CommunicationData)
    → deserialize (fresh m r) 0xFB
      ≡ some (record { memory = store m 0 0xFB; read_index = 1; received = r }, none)
unfolding deserialize
deserialize_first m r = ground arith

pub deserialize_broken :
    (m : ℕ → ℕ) (r : CommunicationData) (b : ℕ)
    → b ≢ 0xDB
    → deserialize (record { memory = m; read_index = 1; received = r }) b
      ≡ some (fresh (store m 1 b) r, none)
unfolding deserialize
deserialize_broken m r b h = ground arith

pub Delivers-cons :
    (out : Option (Deserializer × List CommunicationData)) (e d : CommunicationData)
    (ds : List CommunicationData)
    → message e ≡ message d
    → Delivers out ds
    → Delivers (cons_message (some e) out) (d ∷ ds)
Delivers-cons out e d ds same (s, es, got, idle, all) =
    (s, e ∷ es, ap (cons_message (some e)) got, idle, λ i. same i ∷ all i)

-- A stream of messages that fit the buffer, with noise between them that is no start byte, and start
-- bytes that a wrong second byte follows: it can be written, and a receiver that was idle delivers
-- exactly the messages, in order, each with its address and its data, and is idle again. The receiver
-- may hold anything in its buffer before.
pub receive-transmit :
    (cs : List Chunk) (m : ℕ → ℕ) (r : CommunicationData)
    → AllChunks cs
    → (bs : Bytes) × (transmit cs ≡ some bs) × Delivers (receive (fresh m r) bs) (messages cs)
unfolding transmit
receive-transmit [] m r h = ([], refl, (fresh m r, [], unfold receive in refl, refl, refl))
receive-transmit (noise b ∷ cs) m r (ok, h) =
    let (bs, sent', (s, es, got, idle, all)) = receive-transmit cs (store m 0 b) r h in
    (b ∷ bs, rw sent', (s, es, receive-step _ _ b bs (deserialize_noise m r b ok) ∙ got, idle, all))
receive-transmit (broken_key b ∷ cs) m r (ok, h) =
    let (bs, sent', (s, es, got, idle, all)) =
      receive-transmit cs (store (store m 0 0xFB) 1 b) r h in
    (
      0xFB ∷ b ∷ bs,
      rw sent',
      (
        s,
        es,
        receive-step _ _ 0xFB (b ∷ bs) (deserialize_first m r)
            ∙ receive-step _ _ b bs (deserialize_broken _ r b ok)
            ∙ got,
        idle,
        all,
      ),
    )
receive-transmit (sent d ∷ cs) m r (ok, h) =
    let (m', e, got, same) = receive-frame m r d ok in
    let (bs, sent', rest) = receive-transmit cs m' e h in
    (
      frame d ++ bs,
      rw (serialize-frame d ok, sent', transmit),
      rw (got bs) (Delivers-cons _ e d (messages cs) same rest),
    )
