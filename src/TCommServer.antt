-- ===== src/TCommServer.antt =====
-- TComm/src/TCommServer.h with what it uses of TCommBase.h (under
-- TCommWinTerminal/lib/Communication). The arguments are the demangled names of types, and what the
-- memory of a new object holds. `none` is the endless loop behind "Index error".
pub mod Devices
pub mod Interrogation
pub mod Objects
pub mod Turns
pub mod Rebuild
use tcomm_tests.Common.{
  ℕ, suc, ◌+◌, ◌%◌, Bool, true, false, not, ◌&&◌, ◌||◌, List, [], ◌∷◌, ◌++◌, Option, none, some,
  ltb, ◌==◌, if◌then◌else◌, Bytes, length, same_bytes,
}
use tcomm_tests.ResourceIndexManager.{Manager, lease_index}
use tcomm_tests.ResourceIndexManager
use tcomm_tests.Object.{c_str, is_change_received}
use tcomm_tests.Object.Types.{ScalarType, int, int32, uint8, uint16, float, bool}
use tcomm_tests.Object.Virtual
use tcomm_tests.Object.Virtual.{AnyObject, TypeInfo, scalar, string}
use tcomm_tests.Communicator.{
  Communicator, put, pointer_at, get_communication_object, get_object_list_size, remove_device,
}
use tcomm_tests.TypeRegistry.{Registry, register_type, create_object}
use tcomm_tests.Message.{
  Message, MessageType, nothing, whats_my_device_address, your_device_address_is, request_all_data,
  request_name_of_object, response_name_of_object, request_path_of_object, response_path_of_object,
  request_data_type_of_object, response_data_type_of_object, request_object, response_object,
  request_list_size, response_list_size, end_interrogation, please_be_patient, message_type, code,
  set_kind, set_value, set_text5, to_string,
}

-- `struct DeviceData`.
pub record DeviceData : Type 0 where
  pub name : Bytes
  pub path : Bytes
  pub data_type : Bytes

-- The members of `TCommServer`, with the communicator that it drives, the next free pointer of the
-- heap and the type registry.
pub record Server : Type 0 where
  pub comm : Communicator
  pub next_pointer : ℕ
  pub registry : Registry
  pub message : Message
  pub mac_to_index : List (Bytes × ℕ)
  pub temp_device_data : List DeviceData
  pub object_name : Bytes
  pub object_path : Bytes
  pub index_manager : Manager
  pub interrogating : Bool
  pub device_index : ℕ
  pub device_list_size : ℕ
  pub object_index : ℕ
  pub interrupted_sequence : Bool
  pub sequence_type : ℕ

-- `macIdToDeviceIndex.find`.
unfoldable pub find_mac : Bytes → List (Bytes × ℕ) → Option ℕ
find_mac mac [] = none
find_mac mac ((m, i) ∷ rest) = if same_bytes m mac then some i else find_mac mac rest

-- `GetOrCreateDeviceIndex`.
unfoldable pub get_or_create_device_index : Server → Bytes → Server × ℕ
get_or_create_device_index s mac = elim (find_mac mac s.mac_to_index) [
  | some i ↦ (s, i)
  | none ↦
      (let (i, manager) = lease_index s.index_manager 0 in
        (record s { index_manager = manager; mac_to_index = (mac, i) ∷ s.mac_to_index }, i))
]

-- `SetObjectName` and `SetObjectPath` of the base class; where no object is, a temporary takes it.
unfoldable pub modify_object : (AnyObject → AnyObject) → Communicator → ℕ → ℕ → Communicator
modify_object f c device index = elim (pointer_at c device index) [
  | none ↦ c
  | some p ↦ record c { heap = put c.heap p (f (c.heap p)) }
]

unfoldable pub set_object_name : Communicator → ℕ → ℕ → Bytes → Communicator
unfolding modify_object
set_object_name c device index name =
    modify_object (λ o. Virtual.set_name o (some name)) c device index

unfoldable pub set_object_path : Communicator → ℕ → ℕ → Bytes → Communicator
unfolding modify_object
set_object_path c device index path =
    modify_object (λ o. Virtual.set_path o (some path)) c device index

-- "device", the number of the device and a backslash.
abbrev pub device_prefix : ℕ → Bytes
device_prefix i = b'd' ∷ b'e' ∷ b'v' ∷ b'i' ∷ b'c' ∷ b'e' ∷ (to_string i ++ 0x5C ∷ [])

module _ (type_name : TypeInfo → Bytes) (raw : ℕ → Bool) where
  -- The constructor of `TCommServer`: register the types and lease the indices 0 and 1.
  unfoldable pub register_types : Registry → Registry
  register_types r0 =
      let r1 = register_type r0 (type_name (scalar int)) (scalar int) in
      let r2 = register_type r1 (type_name (scalar int32)) (scalar int32) in
      let r3 = register_type r2 (type_name (scalar uint8)) (scalar uint8) in
      let r4 = register_type r3 (type_name (scalar uint16)) (scalar uint16) in
      let r5 = register_type r4 (type_name (scalar float)) (scalar float) in
      let r6 = register_type r5 (type_name (scalar bool)) (scalar bool) in
      register_type r6 (type_name string) string

  unfoldable pub create : Server → Server
  unfolding register_types
  create s =
      let (i, m1) = lease_index ResourceIndexManager.create 0 in
      let (j, m2) = lease_index m1 0 in
      record s { registry = register_types s.registry; index_manager = m2 }

  -- `CreateAndRegisterObject`.
  unfoldable pub create_and_register_object :
      Registry → DeviceData → ℕ → ℕ → Communicator × ℕ → Communicator × ℕ
  create_and_register_object r entry device index (c, next) =
      let (c1, next1) = create_object r (c_str entry.data_type) device (raw next) (c, next) in
      let c2 = set_object_name c1 device index entry.name in
      (set_object_path c2 device index (device_prefix device ++ entry.path), next1)

  -- The loop over the collected data, from the index on.
  unfoldable pub create_all :
      Registry → List DeviceData → ℕ → ℕ → Communicator × ℕ → Communicator × ℕ
  unfolding create_and_register_object
  create_all r [] device index s = s
  create_all r (entry ∷ entries) device index s =
      create_all r entries device (suc index) (create_and_register_object r entry device index s)

  -- The loop that looks for a difference, from the index on.
  unfoldable pub any_change : Communicator → List DeviceData → ℕ → ℕ → Bool
  any_change c [] device index = false
  any_change c (entry ∷ entries) device index =
      let o = get_communication_object c device index in
      not (same_bytes entry.data_type (type_name (Virtual.get_type o)))
      || not (same_bytes entry.name (Virtual.get_name o))
      || not (same_bytes entry.path (Virtual.get_path o))
      || any_change c entries device (suc index)

  -- `HandleReceivedDeviceData`.
  unfoldable pub handle_received_device_data : Server → Server
  unfolding create_all any_change
  handle_received_device_data s =
      let (c, n) = get_object_list_size s.comm s.device_index in
      let has_changes =
        not (length s.temp_device_data == n) || any_change c s.temp_device_data s.device_index 0 in
      let (c', next) =
        if has_changes
        then create_all s.registry s.temp_device_data s.device_index 0
            (remove_device c s.device_index, s.next_pointer)
        else (c, s.next_pointer) in
      record s { comm = c'; next_pointer = next; temp_device_data = [] }

  -- The case `eNone`: the next question of the interrogation.
  unfoldable pub next_request : Server → Server
  next_request s =
      if not s.interrogating
      then s
      else if s.interrupted_sequence
      then record s {
        message = record s.message { kind = record s.message.kind { value = s.sequence_type } };
        interrupted_sequence = false;
      }
      else if s.device_list_size == 0
      then record s {
        message = set_kind s.message request_list_size;
        sequence_type = code request_list_size;
      }
      else if ltb s.object_index s.device_list_size
      then record s {
        message = set_kind (set_value s.message s.object_index) request_object;
        sequence_type = code request_object;
      }
      else if not (s.sequence_type == code request_all_data)
      then record s {
        message = set_kind s.message request_all_data;
        sequence_type = code request_all_data;
      }
      else record s { message = set_kind s.message end_interrogation; interrogating = false }

  -- The case `eWhatsMyDeviceAddress`.
  unfoldable pub greet : Server → Server
  unfolding get_or_create_device_index
  greet s =
      if not s.interrogating
      then (let (text1, received) = is_change_received s.message.text1 in
          let s' = record s { message = record s.message { text1 = text1 } } in
          if received
          then (let (s'', i) = get_or_create_device_index s' text1.value in
              record s'' {
                device_index = i;
                message = set_kind (set_value s''.message i) your_device_address_is;
                interrogating = true;
                object_index = 0;
                device_list_size = 0;
              })
          else s')
      else record s { interrupted_sequence = true; message = set_kind s.message please_be_patient }

  -- The case `eResponseObject`.
  unfoldable pub collect : Server → Server
  unfolding handle_received_device_data
  collect s =
      let entry : DeviceData = record {
        name = c_str s.message.text1.value;
        path = c_str s.message.text2.value;
        data_type = c_str s.message.text3.value;
      } in
      let s' = record s {
        temp_device_data = s.temp_device_data ++ entry ∷ [];
        message = set_kind s.message nothing;
        sequence_type = code nothing;
        object_index = (s.object_index + 1) % 65536;
      } in
      if ltb s'.object_index s'.device_list_size then s' else handle_received_device_data s'

  -- The case `eResponseDataTypeOfObject`, with its endless loop.
  unfoldable pub create_asked_object : Server → Option Server
  create_asked_object s =
      if s.interrogating
      then (let (c, next) =
            create_object s.registry (c_str s.message.text1.value) s.device_index
              (raw s.next_pointer) (s.comm, s.next_pointer) in
          let c1 = set_object_name c s.device_index s.object_index (c_str s.object_name) in
          let c2 = set_object_path c1 s.device_index s.object_index (c_str s.object_path) in
          let (c3, n) = get_object_list_size c2 s.device_index in
          if n == s.object_index + 1
          then some (record s {
            comm = c3;
            next_pointer = next;
            object_index = (s.object_index + 1) % 65536;
            message = set_kind s.message nothing;
            sequence_type = code nothing;
          })
          else none)
      else some (record s { message = set_kind s.message nothing; sequence_type = code nothing })

  -- The `switch` of `HandleOverhead`.
  unfoldable pub respond : Server → Option MessageType → Option Server
  unfolding next_request greet collect create_asked_object
  respond s (some nothing) = some (next_request s)
  respond s (some whats_my_device_address) = some (greet s)
  respond s (some your_device_address_is) = some s
  respond s (some request_all_data) = some s
  respond s (some request_name_of_object) = some s
  respond s (some request_path_of_object) = some s
  respond s (some request_data_type_of_object) = some s
  respond s (some request_object) = some s
  respond s (some request_list_size) = some s
  respond s (some end_interrogation) = some s
  respond s (some please_be_patient) = some s
  respond s (some response_object) = some (if s.interrogating then collect s else s)
  respond s (some response_list_size) = some (record s {
    device_list_size = s.message.value.value % 65536;
    message = set_kind s.message nothing;
  })
  respond s (some response_name_of_object) = some (
      if s.interrogating
      then record s {
        object_name = s.message.text1.value;
        message = set_kind s.message request_path_of_object;
        sequence_type = code request_path_of_object;
      }
      else record s { message = set_kind s.message nothing })
  respond s (some response_path_of_object) = some (
      if s.interrogating
      then record s {
        object_path = s.message.text1.value;
        message = set_kind s.message request_data_type_of_object;
        sequence_type = code request_data_type_of_object;
      }
      else s)
  respond s (some response_data_type_of_object) = create_asked_object s
  respond s none = some (record s { message = set_kind s.message nothing })

  -- `HandleOverhead`.
  unfoldable pub handle_overhead : Server → Option Server
  unfolding respond
  handle_overhead s =
      let (kind, received) = is_change_received s.message.kind in
      let (text4, received4) = is_change_received s.message.text4 in
      let m = set_text5 (record s.message { kind = kind; text4 = text4 }) (to_string kind.value) in
      respond (record s { message = m }) (message_type kind.value)
