-- ===== src/TCommClient.antt =====
-- TComm/src/TCommClient.h with what it uses of TCommBase.h (under
-- TCommEspTest/lib/ControlLibrary/Communication). The arguments are the MAC address of the board,
-- the demangled names of types, and the time in microseconds.
pub mod Join
use tcomm_tests.Common.{
  ℕ, ◌%◌, Bool, true, false, not, ◌&&◌, Option, some, ◌==◌, if◌then◌else◌, Bytes, same_bytes,
}
use tcomm_tests.Timer.{Timer, run, start, stop, done}
use tcomm_tests.Object.{c_str, set_changed, is_change_received}
use tcomm_tests.Object.Virtual
use tcomm_tests.Object.Virtual.{TypeInfo}
use tcomm_tests.Communicator.{
  Communicator, get_communication_object, get_object_list_size, update_device_index,
  set_send_all_data,
}
use tcomm_tests.Message.{
  Message, MessageType, nothing, whats_my_device_address, your_device_address_is, request_all_data,
  request_name_of_object, response_name_of_object, request_path_of_object, response_path_of_object,
  request_data_type_of_object, response_data_type_of_object, request_object, response_object,
  request_list_size, response_list_size, end_interrogation, please_be_patient, message_type,
  set_kind, set_value, set_text1, set_text2, set_text3,
}

-- The members of `TCommClient`, with the communicator that it drives.
pub record Client : Type 0 where
  pub comm : Communicator
  pub message : Message
  pub response_timeout : Timer
  pub device_index : ℕ
  pub interrogated : Bool
  pub await_turn : Bool

module _ (mac : Bytes) (type_name : TypeInfo → Bytes) (now : ℕ) where
  -- The message about the object of the client's device that the message's value names.
  unfoldable pub describe : Client → Message
  describe c =
      let o = get_communication_object c.comm c.device_index (c.message.value.value % 65536) in
      set_kind
        (set_text3
          (set_text2 (set_text1 c.message (c_str (Virtual.get_name o)))
            (c_str (Virtual.get_path o)))
          (type_name (Virtual.get_type o)))
        response_object

  -- The cases of the `switch` of `HandleOverhead`.
  unfoldable pub respond : Client → Option MessageType → Client
  unfolding describe
  respond c (some nothing) =
      if c.device_index == 0 && not c.await_turn
      then record c {
        message =
            set_kind (record c.message { text1 = set_changed (set_text1 c.message mac).text1 })
              whats_my_device_address;
      }
      else c
  respond c (some whats_my_device_address) =
      let t = start (run c.response_timeout now) in
      if done t
      then record c { response_timeout = stop t; message = set_kind c.message nothing }
      else record c { response_timeout = t }
  respond c (some your_device_address_is) =
      if same_bytes c.message.text1.value mac
      then record c {
        device_index = c.message.value.value % 65536;
        comm = update_device_index c.comm 1 (c.message.value.value % 65536);
        interrogated = true;
        message = set_kind c.message nothing;
      }
      else c
  respond c (some request_all_data) =
      if c.interrogated
      then record c { comm = set_send_all_data c.comm; message = set_kind c.message nothing }
      else c
  respond c (some request_data_type_of_object) =
      if c.interrogated
      then (let o =
            get_communication_object c.comm c.device_index (c.message.value.value % 65536) in
          record c {
            message =
                set_kind (set_text1 c.message (type_name (Virtual.get_type o)))
                  response_data_type_of_object;
          })
      else c
  respond c (some request_name_of_object) =
      if c.interrogated
      then (let o =
            get_communication_object c.comm c.device_index (c.message.value.value % 65536) in
          record c {
            message =
                set_kind (set_text1 c.message (c_str (Virtual.get_name o))) response_name_of_object;
          })
      else c
  respond c (some request_path_of_object) =
      if c.interrogated
      then (let o =
            get_communication_object c.comm c.device_index (c.message.value.value % 65536) in
          record c {
            message =
                set_kind (set_text1 c.message (c_str (Virtual.get_path o))) response_path_of_object;
          })
      else c
  respond c (some request_object) = if c.interrogated then record c { message = describe c } else c
  respond c (some request_list_size) =
      if c.interrogated
      then (let (comm, n) = get_object_list_size c.comm c.device_index in
          record c { comm = comm; message = set_kind (set_value c.message n) response_list_size })
      else c
  respond c (some end_interrogation) = record c {
    message = if c.interrogated then set_kind c.message nothing else c.message;
    interrogated = false;
    await_turn = false;
  }
  respond c (some please_be_patient) =
      if not c.interrogated
      then record c { await_turn = true; message = set_kind c.message nothing }
      else c
  respond c _ = c

  -- `HandleOverhead`.
  unfoldable pub handle_overhead : Client → Client
  unfolding respond
  handle_overhead c =
      let (kind, received) = is_change_received c.message.kind in
      respond (record c { message = record c.message { kind = kind } }) (message_type kind.value)
