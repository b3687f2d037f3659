-- ===== src/LinuxSerial/Streams.antt =====
-- The port of TComm/src/LinuxSerial.h beside the connection of Communication/Media/ClientHandler.h (both
-- under TCommEspTest/lib/ControlLibrary).
use tcomm_tests.Common.{ℕ, ◌≡◌, List, [], ◌∷◌, Option, none, some, Bytes, ◌⊎◌}
use tcomm_tests.ClientHandler
use tcomm_tests.ClientHandler.{ClientHandler, is_closed}
use tcomm_tests.LinuxSerial.{LinuxSerial}

-- The connection that holds what the port holds.
abbrev pub as_client : LinuxSerial → ClientHandler
as_client p = record { client_socket = p.serial_handle; read_buffer = p.read_buffer }

abbrev pub open_port : ℕ → Bytes → LinuxSerial
open_port handle buffered = record { serial_handle = some handle; read_buffer = buffered }

-- The result of `read` on a port beside that of the same call on a connection.
pub record IsAlike (handle : ℕ) (r : (LinuxSerial × Option ℕ) × List ℕ)
    (c : ClientHandler × Option ℕ) : Type 0 where
  pub same_byte : c.1 ≡ r.0.1
  pub same_buffer : c.0.read_buffer ≡ r.0.0.read_buffer
  pub keeps_handle : r.0.0.serial_handle ≡ some handle
  pub closing :
      ((c.0.client_socket ≡ some handle) × (r.1 ≡ []))
      ⊎ ((c.0.client_socket ≡ none) × (r.1 ≡ handle ∷ []))
