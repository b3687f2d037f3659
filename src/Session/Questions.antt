-- ===== src/Session/Questions.antt =====
-- What each side answers in an interrogation: `HandleOverhead` of TCommServer.h (under
-- TCommWinTerminal/lib/Communication/TComm/src) and of TCommClient.h (under
-- TCommEspTest/lib/ControlLibrary/Communication/TComm/src).
use tcomm_tests.Common.{
  ℕ, ◌+◌, ◌%◌, ◌<◌, ◌≡◌, ◌≢◌, refl, Bool, true, false, List, [], ◌∷◌, ◌++◌, some, arith, Bytes,
  length,
}
use tcomm_tests.Common.Maps.{find, insert-find}
use tcomm_tests.Object.{c_str}
use tcomm_tests.Object.Virtual
use tcomm_tests.Object.Virtual.{TypeInfo}
use tcomm_tests.Communicator.{
  Communicator, get_communication_object, get_object_list_size, objects_of, set_send_all_data,
}
use tcomm_tests.Message.{
  Message, nothing, request_all_data, request_object, response_object, request_list_size,
  response_list_size, end_interrogation, code, to_string,
}
use tcomm_tests.TCommServer
use tcomm_tests.TCommServer.{Server, DeviceData}
use tcomm_tests.TCommClient
use tcomm_tests.TCommClient.{Client}
use tcomm_tests.Session.Turns.{server_said, client_said}

objects_of-find :
    (d : ℕ) (m : List (ℕ × List ℕ)) (os : List ℕ) → find d m ≡ some os → objects_of d m ≡ os
unfolding objects_of
objects_of-find d m os h = rw (h, objects_of) refl

get_object_list_size-find :
    (c : Communicator) (d : ℕ) (os : List ℕ)
    → find d c.device_object_map ≡ some os
    → get_object_list_size c d ≡ (c, length os)
unfolding get_object_list_size
get_object_list_size-find c d os h =
    let same = insert-find d os c.device_object_map h in
    rw (objects_of-find d c.device_object_map os h) (rw (same) refl)

-- What the client says without changing it.
abbrev pub resaid : Message → ℕ → ℕ → Message
resaid m v k = client_said m v k m.text1.value m.text2.value m.text3.value

-- What the server says of a message that it has read.
abbrev pub reply : Server → ℕ → ℕ → Message
reply s v k = server_said s.message v k (to_string s.message.kind.value)

module _ (mac : Bytes) (type_name : TypeInfo → Bytes) (now : ℕ) (c : Client) where
  pub client_idle :
      c.message.kind.value ≡ code nothing
      → c.device_index ≢ 0
      → TCommClient.handle_overhead mac type_name now c
        ≡ record c { message = resaid c.message c.message.value.value c.message.kind.value }
  unfolding TCommClient.handle_overhead TCommClient.respond
  client_idle h ne = rw (h) (ground arith)

  pub client_size :
      (os : List ℕ)
      → c.message.kind.value ≡ code request_list_size
      → c.interrogated ≡ true
      → find c.device_index c.comm.device_object_map ≡ some os
      → TCommClient.handle_overhead mac type_name now c
        ≡ record c { message = resaid c.message (length os) (code response_list_size) }
  unfolding TCommClient.handle_overhead TCommClient.respond
  client_size os h busy at =
      rw (h) (rw (busy) (rw (get_object_list_size-find c.comm c.device_index os at) refl))

  pub client_describes :
      c.message.kind.value ≡ code request_object
      → c.interrogated ≡ true
      → let o = get_communication_object c.comm c.device_index (c.message.value.value % 65536) in
        TCommClient.handle_overhead mac type_name now c ≡ record c {
          message =
              client_said c.message c.message.value.value
                (code response_object)
                (c_str (Virtual.get_name o))
                (c_str (Virtual.get_path o))
                (type_name (Virtual.get_type o));
        }
  unfolding TCommClient.handle_overhead TCommClient.respond TCommClient.describe
  client_describes h busy = rw (h) (rw (busy) refl)

  pub client_sends_all :
      c.message.kind.value ≡ code request_all_data
      → c.interrogated ≡ true
      → TCommClient.handle_overhead mac type_name now c ≡ record c {
        comm = set_send_all_data c.comm;
        message = resaid c.message c.message.value.value (code nothing);
      }
  unfolding TCommClient.handle_overhead TCommClient.respond
  client_sends_all h busy = rw (h) (rw (busy) refl)

  pub client_ends :
      c.message.kind.value ≡ code end_interrogation
      → c.interrogated ≡ true
      → TCommClient.handle_overhead mac type_name now c ≡ record c {
        message = resaid c.message c.message.value.value (code nothing);
        interrogated = false;
        await_turn = false;
      }
  unfolding TCommClient.handle_overhead TCommClient.respond
  client_ends h busy = rw (h) (rw (busy) refl)

module _ (type_name : TypeInfo → Bytes) (raw : ℕ → Bool) (s : Server)
    (busy : s.interrogating ≡ true) (in_sequence : s.interrupted_sequence ≡ false) where
  pub server_asks_size :
      s.message.kind.value ≡ code nothing
      → s.device_list_size ≡ 0
      → TCommServer.handle_overhead type_name raw s
        ≡ some (record s {
          message = reply s s.message.value.value (code request_list_size);
          sequence_type = code request_list_size;
        })
  unfolding TCommServer.handle_overhead TCommServer.respond TCommServer.next_request
  server_asks_size h size = rw (h) (rw (busy, in_sequence, size) refl)

  pub server_takes_size :
      s.message.kind.value ≡ code response_list_size
      → TCommServer.handle_overhead type_name raw s
        ≡ some (record s {
          message = reply s s.message.value.value (code nothing);
          device_list_size = s.message.value.value % 65536;
        })
  unfolding TCommServer.handle_overhead TCommServer.respond
  server_takes_size h = rw (h) refl

  pub server_asks :
      s.message.kind.value ≡ code nothing
      → s.object_index < s.device_list_size
      → TCommServer.handle_overhead type_name raw s
        ≡ some (record s {
          message = reply s s.object_index (code request_object);
          sequence_type = code request_object;
        })
  unfolding TCommServer.handle_overhead TCommServer.respond TCommServer.next_request
  server_asks h more = rw (h) (rw (busy, in_sequence) (ground arith))

  -- The server has taken a description.
  abbrev pub with_entry : DeviceData → Server
  with_entry e = record s {
    message = reply s s.message.value.value (code nothing);
    temp_device_data = s.temp_device_data ++ e ∷ [];
    object_index = (s.object_index + 1) % 65536;
    sequence_type = code nothing;
  }

  abbrev heard_entry : DeviceData
  heard_entry = record {
    name = c_str s.message.text1.value;
    path = c_str s.message.text2.value;
    data_type = c_str s.message.text3.value;
  }

  pub server_takes :
      (e : DeviceData)
      → s.message.kind.value ≡ code response_object
      → e ≡ heard_entry
      → (s.object_index + 1) % 65536 < s.device_list_size
      → TCommServer.handle_overhead type_name raw s ≡ some (with_entry e)
  unfolding TCommServer.handle_overhead TCommServer.respond TCommServer.collect
  server_takes e h same more = rw (same, h) (rw (busy) (ground arith))

  pub server_takes_last :
      (e : DeviceData)
      → s.message.kind.value ≡ code response_object
      → e ≡ heard_entry
      → (s.object_index + 1) % 65536 ≡ s.device_list_size
      → TCommServer.handle_overhead type_name raw s
        ≡ some (TCommServer.handle_received_device_data type_name raw (with_entry e))
  unfolding TCommServer.handle_overhead TCommServer.respond TCommServer.collect
  server_takes_last e h same last = rw (same, h) (rw (busy) (ground arith))

  pub server_asks_all :
      s.message.kind.value ≡ code nothing
      → s.device_list_size ≢ 0
      → s.object_index ≡ s.device_list_size
      → s.sequence_type ≡ code nothing
      → TCommServer.handle_overhead type_name raw s
        ≡ some (record s {
          message = reply s s.message.value.value (code request_all_data);
          sequence_type = code request_all_data;
        })
  unfolding TCommServer.handle_overhead TCommServer.respond TCommServer.next_request
  server_asks_all h ne end seq = rw (h) (rw (busy, in_sequence, seq) (ground arith))

  pub server_ends :
      s.message.kind.value ≡ code nothing
      → s.device_list_size ≢ 0
      → s.object_index ≡ s.device_list_size
      → s.sequence_type ≡ code request_all_data
      → TCommServer.handle_overhead type_name raw s
        ≡ some (record s {
          message = reply s s.message.value.value (code end_interrogation);
          interrogating = false;
        })
  unfolding TCommServer.handle_overhead TCommServer.respond TCommServer.next_request
  server_ends h ne end seq = rw (h) (rw (busy, in_sequence, seq) (ground arith))
