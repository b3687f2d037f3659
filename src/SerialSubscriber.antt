-- ===== src/SerialSubscriber.antt =====
-- TComm/src/SerialSubscriber.h (under TCommEspTest/lib/ControlLibrary/Communication), and two
-- communicators that it joins over a line. A port is the bytes that wait at it.

pub mod Arrival
pub mod Copies
pub mod Frames
pub mod Places
pub mod Injects
pub mod Passes
use tcomm_tests.Common.{
  ℕ, Bool, true, false, List, [], ◌∷◌, ◌++◌, Option, none, some, ◌==◌, if◌then◌else◌, Bytes,
}
use tcomm_tests.ByteSerializer.{CommunicationData, Deserializer, write_port, receive}
use tcomm_tests.ClockBits.{Rates}
use tcomm_tests.Communicator.{
  Communicator, Effect, writes, registers, inject_all, update_comm_objects,
}

-- The serializer is a base class; a null port is `none`.
pub record SerialSubscriber : Type 0 where
  pub port : Option Bytes
  pub serializer : Deserializer

-- `Xinit`.
abbrev pub xinit : SerialSubscriber → Option Bytes → SerialSubscriber
xinit u new_port = record u { port = new_port }

abbrev pub get_port : SerialSubscriber → Option Bytes
get_port u = u.port

pub is_attached : SerialSubscriber → Bool
is_attached u = elim u.port [ none ↦ false | some waiting ↦ true ]

-- `Write`: the bytes that it writes to its port. `none` is a read behind the end of the data.
unfoldable pub write : SerialSubscriber → CommunicationData → Option Bytes
unfolding is_attached
write u d = write_port (is_attached u) d

-- `Read`: until nothing waits; the messages that it injects, in order. `none` is a write behind the
-- end of the buffer of the serializer.
unfoldable pub read : SerialSubscriber → Option (SerialSubscriber × List CommunicationData)
read u = elim u.port [
  | none ↦ some (u, [])
  | some waiting ↦ elim (receive u.serializer waiting) [
    | none ↦ none
    | some (serializer', ds) ↦ some (record { port = some []; serializer = serializer' }, ds)
  ]
]

-- The calls of the `Write` of one subscriber, in order.
unfoldable pub messages_to : ℕ → List Effect → List CommunicationData
messages_to s [] = []
messages_to s (writes t d ∷ out) = let rest = messages_to s out in if t == s then d ∷ rest else rest
messages_to s (registers t device ∷ out) = messages_to s out

-- What these calls put on the line.
unfoldable pub write_all : SerialSubscriber → List CommunicationData → Option Bytes
write_all u [] = some []
write_all u (d ∷ ds) = elim (write u d) [
  | none ↦ none
  | some bs ↦ elim (write_all u ds) [ none ↦ none | some more ↦ some (bs ++ more) ]
]

-- The `Read` of the subscriber `t` of a communicator, with the injections.
unfoldable pub read_into :
    ℕ → SerialSubscriber → Communicator → Option (SerialSubscriber × Communicator × List Effect)
read_into t u c = elim (read u) [
  | none ↦ none
  | some (u', ds) ↦ elim (inject_all c t ds) [ none ↦ none | some (c', out) ↦ some (u', c', out) ]
]

-- A pass of the communicator `a`, whose subscriber `s` is `u`, and a `Read` of the subscriber `t` of
-- the communicator `b`, which is `v`, when the line has brought over what `u` wrote.
unfoldable pub across :
    Rates
    → ℕ
    → SerialSubscriber
    → Communicator
    → ℕ
    → SerialSubscriber
    → Communicator
    → Option (Communicator × SerialSubscriber × Communicator)
across edge s u a t v b =
    let (a', out) = update_comm_objects a edge in
    elim (write_all u (messages_to s out)) [
      | none ↦ none
      | some bs ↦ elim (read_into t (xinit v (some bs)) b) [
        | none ↦ none
        | some (v', b', more) ↦ some (a', v', b')
      ]
    ]
