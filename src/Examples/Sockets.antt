-- ===== src/Examples/Sockets.antt =====
-- A run of Communication/Media/WifiSocket.h (under TCommEspTest/lib/ControlLibrary).
use tcomm_tests.Common.{ℕ, ◌≡◌, refl, true, false, List, [], ◌∷◌, ◌++◌, arith}
use tcomm_tests.WifiSocket.{
  WifiSocket, Network, sends, write, loop_socket, maintain, send_pending, flush_buffer, after_send,
}
use tcomm_tests.WifiSocket.Order.{pending, IsInOrder}
use tcomm_tests.WifiSocket.Runs.{
  Event, writes, loops, AllWork, maintained, run_socket, run_socket-IsInOrder,
}

-- A socket with a connection.
abbrev socket : WifiSocket
socket = record {
  client = true;
  buffer = [];
  write_buffer = [];
  busy = false;
  next_index_to_write = 0;
  wifi_connection_timeout = record {
    p_start_timer = false;
    set_time = 5000000;
    start_time = 0;
    current_time = 0;
    start_timer = false;
    timer_done = false;
    use_micros = false;
  };
  wifi_connected = true;
  client_connected = true;
  maintain_connection = true;
}

-- A network that takes so many bytes.
abbrev takes : ℕ → Network
takes n = record {
  wifi_up = true;
  client_up = true;
  connects = true;
  ready = true;
  result = sends n;
}

abbrev calls : List Event
calls = writes (1 ∷ 2 ∷ 3 ∷ []) ∷ loops (takes 2) 10 ∷ writes (4 ∷ []) ∷ loops (takes 1) 20 ∷ []

socket-IsInOrder : IsInOrder socket
socket-IsInOrder = record { inside = omega arith; idle = λ h. refl }

calls-AllWork : AllWork socket calls
unfolding AllWork write loop_socket maintained maintain send_pending flush_buffer after_send
calls-AllWork = (omega arith, (omega arith, tt))

run_socket-IsInOrder_example :
    let (s', took, out) = run_socket socket calls in
    (out ++ pending s' ≡ pending socket ++ took) × IsInOrder s'
run_socket-IsInOrder_example = run_socket-IsInOrder socket calls socket-IsInOrder calls-AllWork
