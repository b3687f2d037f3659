-- ===== src/Examples/Clients.antt =====
-- Communication/Media/ClientHandler.h and WebSocketServer.h (under TCommEspTest/lib/ControlLibrary)
-- with a few clients.
use tcomm_tests.Common.{ℕ, ◌≡◌, refl, true, [], ◌∷◌, some, none, arith, remove_if}
use tcomm_tests.ByteSerializer.{Deserializer, fresh}
use tcomm_tests.ClientHandler
use tcomm_tests.ClientHandler.{ClientHandler}
use tcomm_tests.LinuxSerial
use tcomm_tests.ClientHandler.Drain.{read_loop, connection, Drained, read_loop-Drained}
use tcomm_tests.WebSocketServer.{WebSocketServer, handle_clients, run}
use tcomm_tests.WebSocketServer.Clients.{IsInStep, InStep, Under, closed_one, run-IsInStep}
use tcomm_tests.Examples.Devices.{home}

-- `recv` takes two bytes at a time.
abbrev two : ℕ → ℕ
two n = 2

abbrev serializer : Deserializer
serializer =
    fresh (λ i. 0) (record { buffer = []; device_index = 0; data_size = 0; object_index = 0 })

read_loop-Drained_example :
    Drained two serializer 3
      (0xFB ∷ 0xDB ∷ 0 ∷ 1 ∷ [])
      (read_loop two 5 serializer (connection two 3 (0xFB ∷ []) (0xDB ∷ 0 ∷ 1 ∷ [])))
read_loop-Drained_example =
    read_loop-Drained two (λ n h. omega arith) 5 serializer 3 (0xFB ∷ []) (0xDB ∷ 0 ∷ 1 ∷ [])
      (omega arith)

abbrev up : ClientHandler
up = record { client_socket = some 7; read_buffer = [] }

abbrev down : ClientHandler
down = record { client_socket = none; read_buffer = [] }

-- Two clients, the first of which has gone.
abbrev busy_server : WebSocketServer
busy_server = record {
  listen_socket = some 4;
  client_handlers = (10, down) ∷ (12, up) ∷ [];
  subscribers = (11, 10) ∷ (13, 12) ∷ [];
  comm = home;
  next_pointer = 14;
}

busy_server-IsInStep : IsInStep busy_server
unfolding InStep Under
busy_server-IsInStep = record {
  in_step = (refl, omega arith, (refl, omega arith, tt));
  free = (omega arith, (omega arith, tt));
}

run-IsInStep_example :
    IsInStep (run busy_server true (some 8))
    × ((run busy_server true (some 8)).client_handlers
        ≡ remove_if closed_one (handle_clients busy_server true (some 8)).client_handlers)
run-IsInStep_example = run-IsInStep busy_server true (some 8) busy_server-IsInStep
