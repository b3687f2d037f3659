-- ===== src/Examples/Starts.antt =====
-- A client's first turns with a server: TCommServer.h and TCommClient.h (under
-- TCommWinTerminal/lib/Communication and TCommEspTest/lib/ControlLibrary/Communication).
use tcomm_tests.Common.{
  ℕ, zero, suc, ◌≡◌, ◌≢◌, refl, false, [], ◌∷◌, ◌++◌, List, arith, same_bytes, length, ap,
}
use tcomm_tests.Common.Maps.{find, insert, erase}
use tcomm_tests.Object.{c_str}
use tcomm_tests.Object.Virtual
use tcomm_tests.Object.Virtual.{scalar}
use tcomm_tests.Communicator.{
  pointer_at, objects_of, get_communication_object, update_device_index, move_device,
  set_device_indices,
}
use tcomm_tests.Message.{Message, nothing}
use tcomm_tests.TCommServer.{Server, DeviceData, get_or_create_device_index, find_mac}
use tcomm_tests.TCommClient.{Client}
use tcomm_tests.Session.{laps}
use tcomm_tests.Session.Objects.{told}
use tcomm_tests.Session.Stages.{Tells}
use tcomm_tests.Session.Joins.{welcoming, at_address}
use tcomm_tests.Session.Ends.{Ended}
use tcomm_tests.Session.Starts.{starts-Ended}
use tcomm_tests.Examples.Devices.{home-find}
use tcomm_tests.Examples.Sessions.{type_name, raw, mac, server, client}
use tcomm_tests.Examples.Interrogations.{shared, shared-AreLinked}

-- A server that knows the board, and the board before it has asked.
abbrev pub waiting : Server
waiting = record server {
  message = shared;
  interrogating = false;
  mac_to_index = (mac ++ 0 ∷ [], 4) ∷ [];
}

abbrev pub new_board : Client
new_board = record (client nothing []) { message = shared }

four : 4 ≡ (get_or_create_device_index waiting (mac ++ 0 ∷ [])).1
unfolding get_or_create_device_index find_mac same_bytes
four = refl

unheard : mac ≢ mac ++ 0 ∷ []
unheard e = omega (arith, ap (λ (bs : List ℕ). length bs) e)

board-Tells : Tells type_name (at_address new_board 4)
unfolding get_communication_object pointer_at objects_of find insert erase c_str update_device_index
    move_device set_device_indices Virtual.set_device_index Virtual.get_name Virtual.get_path
    Virtual.get_type
board-Tells zero = (omega arith, omega arith, omega arith)
board-Tells (suc zero) = (omega arith, omega arith, omega arith)
board-Tells (suc (suc i)) = (omega arith, omega arith, omega arith)

starts-Ended_example :
    (m : Message) × (n : Message) × Ended type_name raw mac type_name 10
      (record (welcoming waiting (mac ++ 0 ∷ [])) { message = m })
      (record (at_address new_board 4) { message = n })
      2
      (laps type_name raw mac type_name 10 10 (record { server = waiting; client = new_board }))
starts-Ended_example =
    starts-Ended type_name raw mac type_name 10 waiting new_board (0 ∷ 1 ∷ []) 4 shared-AreLinked
      refl refl refl unheard (omega arith) refl refl home-find (λ h. cc h) (omega arith) four
      (λ h. cc h) (λ h. cc h) (omega arith) board-Tells

abbrev greeting_server : Server
greeting_server = welcoming waiting (mac ++ 0 ∷ [])

abbrev tales : List DeviceData
tales = greeting_server.temp_device_data ++ told type_name (at_address new_board 4) 0 2
