-- ===== src/UaSubscriber/Server.antt =====
-- What Communication/Media/UASubscriber.h (under TCommEspTest/lib/ControlLibrary) asks of an OPC UA
-- server, which a library brings: the operations on nodes. `none` is an exception.
use tcomm_tests.Common.{ℕ, Bool, List, Option, Bytes, ◌==◌}
use tcomm_tests.Object.Types.{ScalarType}

pub record NodeId : Type 0 where
  pub namespace : ℕ
  pub identifier : ℕ

-- `{1, id}`, and the folder "Objects" of every server.
abbrev pub own : ℕ → NodeId
own id = record { namespace = 1; identifier = id }

abbrev pub objects_node : NodeId
objects_node = record { namespace = 0; identifier = 85 }

-- The data types that the subscriber uses, with the zero that a new entry of a map holds.
pub data DataTypeId : Type 0 where
  unset boolean byte uint16_id int32_id float_id string_id byte_string : DataTypeId

-- The numbers of the data types.
abbrev pub data_type_number : DataTypeId → ℕ
data_type_number unset = 0
data_type_number boolean = 1
data_type_number byte = 3
data_type_number uint16_id = 5
data_type_number int32_id = 6
data_type_number float_id = 10
data_type_number string_id = 12
data_type_number byte_string = 15

abbrev pub same_data_type : DataTypeId → DataTypeId → Bool
same_data_type a b = data_type_number a == data_type_number b

-- What a variable holds.
pub data Variant : Type 0 where
  scalar_value : ScalarType → ℕ → Variant
  text_value : Bytes → Variant
  bytes_value : Bytes → Variant

-- What the two kinds of callback capture: the object, and how many bytes to take.
pub data Callback : Type 0 where
  for_value : ℕ → ℕ → ℕ → Callback
  for_text : ℕ → ℕ → Callback

-- A server with its nodes.
pub record Nodes (N : Type 0) : Type 0 where
  pub exists : N → NodeId → Bool
  pub browse_name : N → NodeId → Option Bytes
  pub browse_parent : N → NodeId → Option NodeId
  pub browse_child : N → NodeId → Bytes → Option NodeId
  pub browse_children : N → NodeId → Option (List NodeId)
  pub data_type : N → NodeId → Option DataTypeId
  pub add_folder : N → NodeId → NodeId → Bytes → Option N
  pub add_variable : N → NodeId → NodeId → Bytes → DataTypeId → Option N
  pub set_callback : N → NodeId → Callback → Option N
  pub callback : N → NodeId → Option Callback
  pub delete_node : N → NodeId → Option N
  pub write_value : N → NodeId → Variant → Option N
  -- The bytes at the pointer of a value, and those of a string.
  pub memory : Variant → Bytes
  pub string_bytes : Variant → Bytes
