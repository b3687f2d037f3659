-- ===== src/TypeRegistry.antt =====
-- TComm/src/TypeRegistry.h (under TCommEspTest/lib/ControlLibrary/Communication). What
-- `__cxa_demangle` makes of a type's name is an argument of what uses it; the registry maps such
-- names to the types of which it makes objects.
use tcomm_tests.Common.{
  ℕ, ◌+◌, Bool, List, [], ◌∷◌, Option, none, some, same_bytes, if◌then◌else◌, Bytes,
}
use tcomm_tests.Object
use tcomm_tests.Object.{TemplateCommunicationObject, on_change}
use tcomm_tests.Object.Types.{word_codec, text_codec}
use tcomm_tests.Object.Virtual.{
  TypeInfo, scalar, string, abstract_pointer, AnyObject, word, text, abstract,
}
use tcomm_tests.Communicator.{Communicator, put, register_object}

abbrev pub Registry : Type 0
Registry = List (Bytes × TypeInfo)

-- `registry()[name] = …`.
unfoldable pub register_type : Registry → Bytes → TypeInfo → Registry
register_type [] name t = (name, t) ∷ []
register_type ((n, u) ∷ r) name t =
    if same_bytes n name then (name, t) ∷ r else (n, u) ∷ register_type r name t

unfoldable pub find_type : Registry → Bytes → Option TypeInfo
find_type [] name = none
find_type ((n, u) ∷ r) name = if same_bytes n name then some u else find_type r name

-- Memory that no constructor has written yet: `raw` stands for what the two flags hold.
abbrev raw_object : {A : Type 0} → A → Bool → TemplateCommunicationObject A
raw_object v raw = record {
  value = v;
  value_old = v;
  changed = raw;
  change_received = raw;
  object_name = [];
  object_path = [];
  update_interval = on_change;
  object_index = 0;
  device_index = 0;
}

unfoldable pub new_object : TypeInfo → Bool → AnyObject
new_object (scalar t) raw = word t (Object.initialize (word_codec t) (raw_object 0 raw) none none)
new_object string raw = text (Object.initialize text_codec (raw_object [] raw) none none)
new_object abstract_pointer raw = abstract

-- `CreateObject`: `new` takes the next free pointer, and the constructor registers the object. A
-- name that is not registered makes nothing.
unfoldable pub create_object : Registry → Bytes → ℕ → Bool → Communicator × ℕ → Communicator × ℕ
create_object r name device raw (c, next) = elim (find_type r name) [
  | none ↦ (c, next)
  | some t ↦ (
    (register_object (record c { heap = put c.heap next (new_object t raw) }) device next).0,
    next + 1,
  )
]
