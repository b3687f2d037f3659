-- ===== src/LinuxSerial.antt =====
-- TComm/src/LinuxSerial.h (under TCommEspTest/lib/ControlLibrary/Communication): a serial port. What the
-- operating system answers is an argument of each call; the settings of the line are its own.
pub mod Streams
use tcomm_tests.Common.{
  ℕ, ◌+◌, ◌-◌, ◌^◌, Bool, List, [], ◌∷◌, Option, none, some, ◌==◌, if◌then◌else◌, Bytes, length,
}
use tcomm_tests.ClientHandler.{Received, bytes_arrive, connection_ends, receive_fails}

-- The members of `HardwareSerial`; `serial_handle` is `none` for -1.
pub record LinuxSerial : Type 0 where
  pub serial_handle : Option ℕ
  pub read_buffer : Bytes

-- The handle that a call closes, if any.
abbrev pub closes : LinuxSerial → List ℕ
closes p = elim p.serial_handle [ none ↦ [] | some handle ↦ handle ∷ [] ]

-- `begin` with the handle that `open` gives, and the handles that it closes. A port that cannot be set
-- up keeps the handle all the same.
unfoldable pub begin_port : LinuxSerial → Option ℕ → LinuxSerial × List ℕ
begin_port p opened = (record p { serial_handle = opened }, closes p)

-- `available`, where `pending` is what FIONREAD leaves in its variable.
abbrev pub available : LinuxSerial → ℕ → ℕ
available p pending = pending + length p.read_buffer

-- The part of `read` that asks the operating system; `Close` keeps the handle.
unfoldable pub read_more : LinuxSerial → Received → (LinuxSerial × Option ℕ) × List ℕ
read_more p (bytes_arrive []) = ((p, none), closes p)
read_more p (bytes_arrive (b ∷ bs)) = ((record p { read_buffer = bs }, some b), [])
read_more p connection_ends = ((p, none), closes p)
read_more p receive_fails = ((p, none), closes p)

-- `read`: the next byte, or `none` for -1, and the handles that it closes.
unfoldable pub read : LinuxSerial → ℕ → Received → (LinuxSerial × Option ℕ) × List ℕ
unfolding read_more
read p pending received = elim p.read_buffer [
  | b ∷ bs ↦ ((record p { read_buffer = bs }, some b), [])
  | [] ↦
      (let more = read_more p received in
        if available p pending == 0 then ((p, none), []) else more)
]

-- `write` with what the operating system returns; an error becomes the greatest `size_t`.
unfoldable pub write : LinuxSerial → Option ℕ → ℕ
write p none = 2 ^ 64 - 1
write p (some n) = n

-- The destructor.
abbrev pub destroy : LinuxSerial → List ℕ
destroy p = closes p
