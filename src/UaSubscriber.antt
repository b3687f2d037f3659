-- ===== src/UaSubscriber.antt =====
-- Communication/Media/UASubscriber.h (under TCommEspTest/lib/ControlLibrary): the objects of devices
-- as variable nodes of an OPC UA server. The server is a library's: what the subscriber asks of it is
-- a parameter (Server.antt).
pub mod Server
pub mod Ids
pub mod Variables
pub mod Paths
pub mod Values
pub mod Folders
pub mod Devices
use tcomm_tests.Common.{
  ℕ, zero, suc, ◌+◌, ◌*◌, ◌/◌, ◌%◌, Bool, true, false, not, ◌||◌, ◌&&◌, List, [], ◌∷◌, ◌++◌, Option,
  none, some, ltb, ◌==◌, if◌then◌else◌, Bytes, same_bytes, length, replicate,
}
use tcomm_tests.Common.Maps.{find, insert}
use tcomm_tests.ByteSerializer.{CommunicationData, memcpy}
use tcomm_tests.ResourceIndexManager.{Manager, lease_index, release_index, get_leased_indices}
use tcomm_tests.Object
use tcomm_tests.Object.Types.{
  ScalarType, int, int32, uint8, uint16, float, bool, word_codec, text_codec, size_of, le_value,
}
use tcomm_tests.Object.Virtual
use tcomm_tests.Object.Virtual.{
  AnyObject, TypeInfo, word, text, abstract, scalar, string, abstract_pointer,
}
use tcomm_tests.Communicator.{Communicator, get_communication_object, objects_of}
use Server.{
  same_data_type, NodeId, DataTypeId, unset, boolean, byte, uint16_id, int32_id, float_id,
  string_id, byte_string, Variant, scalar_value, text_value, bytes_value, Callback, for_value,
  for_text, Nodes, own, objects_node,
}

-- The members of `UASubscriber`, over the state of the server. `data_types` is `typeToUADType`.
pub record UaSubscriber (N : Type 0) : Type 0 where
  pub nodes : N
  pub writing_to_node : Bool
  pub folder_index_manager : Manager
  pub data_types : List (TypeInfo × DataTypeId)

-- The initial map of types. Both `int` and `int32_t` are the same type on the terminal.
abbrev pub data_type_of : TypeInfo → Option DataTypeId
data_type_of (scalar int) = some int32_id
data_type_of (scalar int32) = some int32_id
data_type_of (scalar uint8) = some byte
data_type_of (scalar uint16) = some uint16_id
data_type_of (scalar float) = some float_id
data_type_of (scalar bool) = some boolean
data_type_of string = some string_id
data_type_of abstract_pointer = none

-- `GetID`: the number of a device and of an object or a folder. The sum may carry into the bit 16,
-- which the "or" then joins with the lowest bit of the device.
unfoldable pub get_id : ℕ → ℕ → Bool → ℕ
get_id device index is_folder =
    let high = device % 0x8000 in
    let place = index + 1 in
    let joined =
      if place == 0x1_0000 then (high / 2 * 2 + 1) * 0x1_0000 else high * 0x1_0000 + place in
    if is_folder then 0x8000_0000 + joined else joined

-- `GetObjectIndexFromId`.
unfoldable pub get_object_index_from_id : ℕ → ℕ
get_object_index_from_id id = id / 0x1_0000 % 0x8000

-- `SplitPath`: what `std::getline` gives, from what it has read of the next token.
abbrev pub separator : ℕ
separator = 0x5C

unfoldable pub split_from : Bytes → Bytes → List Bytes
split_from token [] = elim token [ [] ↦ [] | b ∷ bs ↦ (b ∷ bs) ∷ [] ]
split_from token (b ∷ bs) =
    let rest = split_from [] bs in
    let longer = split_from (token ++ b ∷ []) bs in if b == separator then token ∷ rest else longer

abbrev pub split_path : Bytes → List Bytes
split_path path = split_from [] path

-- The loop that joins the components of `GetNodePath`.
unfoldable pub join_from : Bytes → List Bytes → Bytes
join_from path [] = path
join_from path (component ∷ components) = elim path [
  | [] ↦ join_from component components
  | b ∷ bs ↦ join_from (b ∷ (bs ++ separator ∷ component)) components
]

-- The value of the variable that data of an object of this type stands for; `none` is a read behind the
-- end of the data. A structure becomes as many copies of the first byte.
unfoldable pub typed_value : TypeInfo → CommunicationData → Option Variant
typed_value (scalar t) d = elim ((word_codec t).read d.buffer d.data_size) [
  | none ↦ none
  | some v ↦ some (scalar_value t v)
]
typed_value string d = elim (memcpy d.buffer d.data_size) [
  | none ↦ none
  | some bs ↦ some (text_value bs)
]
typed_value abstract_pointer d = elim d.buffer [
  | [] ↦ none
  | b ∷ bs ↦ some (bytes_value (replicate d.data_size b))
]

-- `GetObjectData`; the data of the abstract class is not set.
abbrev pub object_data : AnyObject → Option CommunicationData
object_data (word t o) = some (Object.get_data (word_codec t) o)
object_data (text o) = some (Object.get_data text_codec o)
object_data abstract = none

-- The callback for the variable of an object: `createCustomCallback`, `createCustomCallbackForString`.
abbrev pub callback_for : AnyObject → ℕ → ℕ → Callback
callback_for (word t o) device index = for_value device index (size_of t)
callback_for (text o) device index = for_text device index
callback_for abstract device index = for_value device index 0

-- `typeToUADType.find`, where a missing type is a byte string, and the subscript, which enters a
-- missing type with the value zero. The keys are pointers to types: `int` and `int32_t` are one key.
unfoldable pub same_type : TypeInfo → TypeInfo → Bool
same_type t t' = elim (data_type_of t) [
  | none ↦ elim (data_type_of t') [ none ↦ true | some d' ↦ false ]
  | some d ↦ elim (data_type_of t') [ none ↦ false | some d' ↦ same_data_type d d' ]
]

unfoldable pub find_type_entry : TypeInfo → List (TypeInfo × DataTypeId) → Option DataTypeId
unfolding same_type
find_type_entry t [] = none
find_type_entry t ((t', d) ∷ rest) = if same_type t' t then some d else find_type_entry t rest

abbrev pub or_default : Option DataTypeId → DataTypeId
or_default none = byte_string
or_default (some d) = d

unfoldable pub type_entry :
    List (TypeInfo × DataTypeId) → TypeInfo → List (TypeInfo × DataTypeId) × DataTypeId
unfolding find_type_entry
type_entry m t = elim (find_type_entry t m) [ none ↦ ((t, unset) ∷ m, unset) | some d ↦ (m, d) ]

-- How a function ends: with a value, with an exception, or not at all.
pub data Outcome (A : Type 0) : Type 0 where
  returned : A → Outcome A
  threw endless : Outcome A

module _ {N : Type 0} (server : Nodes N) where
  -- A callback with the value that was written: the data that it injects, if any.
  unfoldable pub on_after_write : Bool → Callback → Variant → Option CommunicationData
  on_after_write true callback v = none
  on_after_write false (for_value device index size) v = some (record {
    buffer = server.memory v;
    device_index = device;
    data_size = size;
    object_index = index;
  })
  on_after_write false (for_text device index) v =
      let bs = server.string_bytes v in
      some
        (record { buffer = bs; device_index = device; data_size = length bs; object_index = index })

  -- The server writes a variable and calls the callback of its node.
  unfoldable pub written :
      UaSubscriber N → NodeId → Variant → Option (UaSubscriber N × Option CommunicationData)
  unfolding on_after_write
  written s node v = elim (server.write_value s.nodes node v) [
    | none ↦ none
    | some nodes ↦ some (
      record s { nodes = nodes },
      elim (server.callback nodes node) [
        | none ↦ none
        | some callback ↦ on_after_write s.writing_to_node callback v
      ],
    )
  ]

  -- `Write`: the subscriber afterwards, and what its callbacks inject meanwhile.
  unfoldable pub write :
      Communicator
      → UaSubscriber N
      → CommunicationData
      → UaSubscriber N × Outcome (Option CommunicationData)
  unfolding written
  write c s d =
      let node = own (get_id d.device_index d.object_index false) in
      let type = Virtual.get_type (get_communication_object c d.device_index d.object_index) in
      let busy = record s { writing_to_node = true } in
      let done : UaSubscriber N × Outcome (Option CommunicationData) = elim (typed_value type d) [
        | none ↦ (busy, threw)
        | some v ↦ elim (written busy node v) [
          | none ↦ (busy, threw)
          | some (s', injected) ↦ (record s' { writing_to_node = false }, returned injected)
        ]
      ] in
      if server.exists s.nodes node then done else (s, returned none)
