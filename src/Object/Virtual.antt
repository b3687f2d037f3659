-- ===== src/Object/Virtual.antt =====
-- The virtual functions of AbstractCommunicationObject.h, as the templates and the base class
-- override them (TemplateCommunicationObject.h, BaseCommunicationObject.h).
use tcomm_tests.Common.{ℕ, Option, none, some, [], ◌∷◌, Bytes}
use tcomm_tests.ByteSerializer.{CommunicationData}
use tcomm_tests.Object
use tcomm_tests.Object.{TemplateCommunicationObject, EnumUpdateInterval, on_change}
use tcomm_tests.Object.Types.{ScalarType, word_codec, text_codec}

-- What `typeid` names: the type of a template, or the pointer to the abstract class.
pub data TypeInfo : Type 0 where
  scalar : ScalarType → TypeInfo
  string : TypeInfo
  abstract_pointer : TypeInfo

-- A pointer to the abstract class points at one of these.
pub data AnyObject : Type 0 where
  word : ScalarType → TemplateCommunicationObject ℕ → AnyObject
  text : TemplateCommunicationObject Bytes → AnyObject
  abstract : AnyObject

pub update_word :
    ScalarType
    → TemplateCommunicationObject ℕ × Option CommunicationData
    → AnyObject × Option CommunicationData
update_word t (o, out) = (word t o, out)

pub update_text :
    TemplateCommunicationObject Bytes × Option CommunicationData
    → AnyObject × Option CommunicationData
update_text (o, out) = (text o, out)

unfoldable pub update : AnyObject → AnyObject × Option CommunicationData
unfolding update_word update_text
update (word t o) = update_word t (Object.update (word_codec t) o)
update (text o) = update_text (Object.update text_codec o)
update abstract = (abstract, none)

unfoldable pub inject : AnyObject → CommunicationData → Option AnyObject
inject (word t o) d = elim (Object.inject (word_codec t) o d) [
  | none ↦ none
  | some o' ↦ some (word t o')
]
inject (text o) d = elim (Object.inject text_codec o d) [ none ↦ none | some o' ↦ some (text o') ]
inject abstract d = some abstract

unfoldable pub set_changed : AnyObject → AnyObject
set_changed (word t o) = word t (Object.set_changed o)
set_changed (text o) = text (Object.set_changed o)
set_changed abstract = abstract

unfoldable pub set_name : AnyObject → Option Bytes → AnyObject
set_name (word t o) s = word t (Object.set_name o s)
set_name (text o) s = text (Object.set_name o s)
set_name abstract s = abstract

unfoldable pub set_path : AnyObject → Option Bytes → AnyObject
set_path (word t o) s = word t (Object.set_path o s)
set_path (text o) s = text (Object.set_path o s)
set_path abstract s = abstract

-- "abstractName" and "abstractPath".
abbrev pub abstract_name : Bytes
abstract_name =
    b'a' ∷ b'b' ∷ b's' ∷ b't' ∷ b'r' ∷ b'a' ∷ b'c' ∷ b't' ∷ b'N' ∷ b'a' ∷ b'm' ∷ b'e' ∷ []

abbrev pub abstract_path : Bytes
abstract_path =
    b'a' ∷ b'b' ∷ b's' ∷ b't' ∷ b'r' ∷ b'a' ∷ b'c' ∷ b't' ∷ b'P' ∷ b'a' ∷ b't' ∷ b'h' ∷ []

unfoldable pub get_name : AnyObject → Bytes
get_name (word t o) = o.object_name
get_name (text o) = o.object_name
get_name abstract = abstract_name

unfoldable pub get_path : AnyObject → Bytes
get_path (word t o) = o.object_path
get_path (text o) = o.object_path
get_path abstract = abstract_path

unfoldable pub get_type : AnyObject → TypeInfo
get_type (word t o) = scalar t
get_type (text o) = string
get_type abstract = abstract_pointer

unfoldable pub get_update_interval : AnyObject → EnumUpdateInterval
get_update_interval (word t o) = o.update_interval
get_update_interval (text o) = o.update_interval
get_update_interval abstract = on_change

-- `SetDeviceIndex` of the base class, and its `objectIndex`.
unfoldable pub set_device_index : AnyObject → ℕ → AnyObject
set_device_index (word t o) i = word t (record o { device_index = i })
set_device_index (text o) i = text (record o { device_index = i })
set_device_index abstract i = abstract

unfoldable pub set_object_index : AnyObject → ℕ → AnyObject
set_object_index (word t o) i = word t (record o { object_index = i })
set_object_index (text o) i = text (record o { object_index = i })
set_object_index abstract i = abstract

-- The members `deviceIndex` and `objectIndex`; the abstract object has none.
unfoldable pub address : AnyObject → Option (ℕ × ℕ)
address (word t o) = some (o.device_index, o.object_index)
address (text o) = some (o.device_index, o.object_index)
address abstract = none

-- The address that the object writes into its data.
unfoldable pub sent_address : AnyObject → Option (ℕ × ℕ)
unfolding Object.get_data
sent_address (word t o) =
    let d = Object.get_data (word_codec t) o in some (d.device_index, d.object_index)
sent_address (text o) =
    let d = Object.get_data text_codec o in some (d.device_index, d.object_index)
sent_address abstract = none
