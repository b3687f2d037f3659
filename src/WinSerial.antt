-- ===== src/WinSerial.antt =====
-- TComm/src/WinSerial.h (under TCommEspTest/lib/ControlLibrary/Communication): a serial port. What the
-- operating system answers is an argument of each call; the settings of the line are its own.
use tcomm_tests.Common.{ℕ, Bool, true, false, Option, none, some, ◌==◌, if◌then◌else◌}

-- The members of `HardwareSerial`; `serial_handle` is `none` for INVALID_HANDLE_VALUE. No constructor
-- sets `read_buffer`, `read_size` and `connected`.
pub record WinSerial : Type 0 where
  pub serial_handle : Option ℕ
  pub read_buffer : ℕ
  pub read_size : ℕ
  pub connected : Bool

-- `begin` with the handle that `CreateFileA` gives.
unfoldable pub begin_port : WinSerial → Option ℕ → WinSerial
begin_port p none = record p { serial_handle = none; connected = false }
begin_port p (some handle) = record p { serial_handle = some handle; connected = true }

-- What `ReadFile` and `WriteFile` answer: success with a count (and the byte that was read), or an error, which
-- sets the count to zero.
pub data Answer : Type 0 where
  succeeds : ℕ → ℕ → Answer
  fails : ℕ → Answer

abbrev pub invalid_handle : ℕ
invalid_handle = 6

-- `available` reads at most one byte into the buffer.
unfoldable pub available : WinSerial → Answer → WinSerial × ℕ
available p (succeeds n b) =
    if p.connected
    then (record p { read_size = n; read_buffer = if n == 0 then p.read_buffer else b }, n)
    else (p, p.read_size)
available p (fails e) =
    if p.connected
    then (record p { read_size = 0; connected = if e == invalid_handle then false else true }, 0)
    else (p, p.read_size)

abbrev pub read : WinSerial → ℕ
read p = p.read_buffer

unfoldable pub write : WinSerial → Answer → WinSerial × ℕ
write p (succeeds n b) = if p.connected then (p, n) else (p, 0)
write p (fails e) =
    if p.connected
    then (record p { connected = if e == invalid_handle then false else true }, 0)
    else (p, 0)
