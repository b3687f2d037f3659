-- ===== src/ClientHandler.antt =====
-- Communication/Media/ClientHandler.h (under TCommEspTest/lib/ControlLibrary): the stream of one
-- connection of a socket server. What the operating system answers is an argument of each call.
pub mod Drain
use tcomm_tests.Common.{
  ℕ, ◌+◌, Bool, true, false, List, [], ◌∷◌, ◌++◌, Option, none, some, ◌==◌, if◌then◌else◌, Bytes,
  length,
}

-- The members of `ClientHandler`; `client_socket` is `none` for INVALID_SOCKET. The callback `onClose`
-- is never called.
pub record ClientHandler : Type 0 where
  pub client_socket : Option ℕ
  pub read_buffer : Bytes

-- What `recv` brings: some bytes, the end of the connection, or an error.
pub data Received : Type 0 where
  bytes_arrive : Bytes → Received
  connection_ends : Received
  receive_fails : Received

abbrev pub is_closed : ClientHandler → Bool
is_closed h = elim h.client_socket [ none ↦ true | some socket ↦ false ]

-- `Close`, and `ErrorResponse` but for what it prints.
abbrev pub close : ClientHandler → ClientHandler
close h = record h { client_socket = none }

abbrev pub error_response : ClientHandler → ClientHandler
error_response h = close h

-- `write` with what `send` returns, where `none` is an error.
unfoldable pub write : ClientHandler → Option ℕ → ClientHandler × ℕ
write h none = (error_response h, 0)
write h (some n) = (h, n)

-- `available` with the number that FIONREAD gives, where `none` is an error.
unfoldable pub available : ClientHandler → Option ℕ → ClientHandler × ℕ
available h pending = elim h.client_socket [
  | none ↦ (h, 0)
  | some socket ↦ elim pending [
    | none ↦ (error_response h, 0)
    | some n ↦ (h, n + length h.read_buffer)
  ]
]

-- The part of `read` that calls `recv`.
unfoldable pub receive_more : ClientHandler → Received → ClientHandler × Option ℕ
receive_more h (bytes_arrive []) = (close h, none)
receive_more h (bytes_arrive (b ∷ bs)) = (record h { read_buffer = bs }, some b)
receive_more h connection_ends = (close h, none)
receive_more h receive_fails = (error_response h, none)

-- `read`: the next byte, or `none` for -1.
unfoldable pub read : ClientHandler → Option ℕ → Received → ClientHandler × Option ℕ
unfolding available receive_more
read h pending received = elim h.read_buffer [
  | b ∷ bs ↦ (record h { read_buffer = bs }, some b)
  | [] ↦
      (let (h', n) = available h pending in
        let more = receive_more h' received in if n == 0 then (h', none) else more)
]
