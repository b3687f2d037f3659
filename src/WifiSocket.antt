-- ===== src/WifiSocket.antt =====
-- Communication/Media/WifiSocket.h (under TCommEspTest/lib/ControlLibrary): a stream that collects
-- what is written and sends it from its loop. What the network answers is an argument of the loop.
-- The credentials only go to the network's library and are left out, as are its calls
-- `WiFi.begin`, `client->stop` and `client->connect`, which change nothing here but what the network
-- answers next.
pub mod Order
pub mod Runs
use tcomm_tests.Common.{
  ℕ, ◌+◌, ◌==◌, Bool, true, false, not, ◌&&◌, ◌||◌, List, [], ◌∷◌, ◌++◌, ltb, leb, if◌then◌else◌,
  Bytes, length, take, drop,
}
use tcomm_tests.Timer.{Timer}
use tcomm_tests.Timer

-- The members of `WifiSocket`: `client` says whether the pointer is set.
pub record WifiSocket : Type 0 where
  pub client : Bool
  pub buffer : Bytes
  pub write_buffer : Bytes
  pub busy : Bool
  pub next_index_to_write : ℕ
  pub wifi_connection_timeout : Timer
  pub wifi_connected : Bool
  pub client_connected : Bool
  pub maintain_connection : Bool

-- What `send` returns: a count, or an error, which is EAGAIN or another one.
pub data SendResult : Type 0 where
  sends : ℕ → SendResult
  again : SendResult
  fails : SendResult

-- What the network answers in one call of the loop: the status of the WiFi, `client->connected()`,
-- `client->connect`, whether `select` finds the socket ready, and what `send` returns.
pub record Network : Type 0 where
  pub wifi_up : Bool
  pub client_up : Bool
  pub connects : Bool
  pub ready : Bool
  pub result : SendResult

abbrev pub is_empty : Bytes → Bool
is_empty [] = true
is_empty (b ∷ bs) = false

-- `MaintainConnection` at the time `now`.
unfoldable pub maintain : WifiSocket → Network → ℕ → WifiSocket × Bool
maintain s n now =
    if not n.wifi_up
    then (record s { wifi_connection_timeout = Timer.loop s.wifi_connection_timeout now }, false)
    else (let timeout =
          if not s.wifi_connected
          then Timer.stop s.wifi_connection_timeout
          else s.wifi_connection_timeout in
        let s' = record s {
          wifi_connection_timeout = timeout;
          wifi_connected = true;
          client = true;
          client_connected = n.client_up;
        } in
        (s', n.client_up || n.connects))

-- `Connect`.
unfoldable pub connect : WifiSocket → Network → ℕ → WifiSocket × Bool
unfolding maintain
connect s n now = maintain (record s { maintain_connection = true }) n now

-- `write`: how many bytes are taken.
unfoldable pub write : WifiSocket → Bytes → WifiSocket × ℕ
write s bs =
    if s.client_connected then (record s { buffer = s.buffer ++ bs }, length bs) else (s, 0)

-- `stop`.
unfoldable pub stop_socket : WifiSocket → WifiSocket
stop_socket s =
    if s.client
    then record s {
      client = false;
      buffer = [];
      write_buffer = [];
      busy = false;
      next_index_to_write = 0;
      client_connected = false;
    }
    else s

-- `flushBuffer` behind a call of `send`, and the bytes that the network took.
unfoldable pub after_send : WifiSocket → SendResult → WifiSocket × Bytes
unfolding stop_socket
after_send s again = (s, [])
after_send s fails = (stop_socket s, [])
after_send s (sends n) =
    let next = s.next_index_to_write + n in
    let out = take n (drop s.next_index_to_write s.write_buffer) in
    if n == 0
    then (s, [])
    else if leb (length s.write_buffer) next
    then (record s { write_buffer = []; next_index_to_write = 0; busy = false }, out)
    else (record s { next_index_to_write = next }, out)

-- `flushBuffer`.
unfoldable pub flush_buffer : WifiSocket → Network → WifiSocket × Bytes
unfolding after_send
flush_buffer s n =
    if not s.client || is_empty s.write_buffer
    then (s, [])
    else if n.ready
    then after_send (record s { busy = true }) n.result
    else (record s { busy = true }, [])

-- The part of `loop` behind `MaintainConnection`.
unfoldable pub send_pending : WifiSocket → Network → WifiSocket × Bytes
unfolding flush_buffer
send_pending s n =
    if not s.client_connected
    then (s, [])
    else if not s.busy && not (is_empty s.buffer)
    then flush_buffer (record s { write_buffer = s.write_buffer ++ s.buffer; buffer = [] }) n
    else if s.busy
    then flush_buffer s n
    else (s, [])

-- `loop`, and the bytes that the network took.
unfoldable pub loop_socket : WifiSocket → Network → ℕ → WifiSocket × Bytes
unfolding maintain send_pending
loop_socket s n now = send_pending (if s.maintain_connection then (maintain s n now).0 else s) n
