-- ===== src/Object.antt =====
-- The communication objects of TComm/src (under TCommEspTest/lib/ControlLibrary/Communication):
-- EnumUpdateInterval.h, TemplateCommunicationObject.h, AbstractCommunicationObject.h.
pub mod Types
pub mod Virtual
pub mod Sync
pub mod Texts
use tcomm_tests.Common.{
  ℕ, ◌%◌, Bool, true, false, not, ◌||◌, List, [], ◌∷◌, Option, none, some, ltb, ◌==◌, if◌then◌else◌,
  Bytes, length, take,
}
use tcomm_tests.ByteSerializer.{CommunicationData}
use Types.{Codec}

pub data EnumUpdateInterval : Type 0 where
  on_change clock_0_5hz clock_0_625hz clock_1hz clock_2hz clock_2_5hz clock_5hz clock_10hz :
      EnumUpdateInterval

-- The members of `TemplateCommunicationObject<T>` and of its base class.
pub record TemplateCommunicationObject (A : Type 0) : Type 0 where
  pub value : A
  pub value_old : A
  pub changed : Bool
  pub change_received : Bool
  pub object_name : Bytes
  pub object_path : Bytes
  pub update_interval : EnumUpdateInterval
  pub object_index : ℕ
  pub device_index : ℕ

-- The characters of a C string: up to the first zero byte.
unfoldable pub c_str : Bytes → Bytes
c_str [] = []
c_str (b ∷ bs) = let rest = b ∷ c_str bs in if b == 0 then [] else rest

abbrev pub max_name_length : ℕ
max_name_length = 99

-- `TruncateString`; a null pointer is `none`.
unfoldable pub truncate_string : Option Bytes → ℕ → Bytes
truncate_string none max_length = []
truncate_string (some s) max_length =
    let str = c_str s in if ltb max_length (length str) then take max_length str else str

module _ {A : Type 0} where
  -- `operator=` and `Set`.
  abbrev pub assign : TemplateCommunicationObject A → A → TemplateCommunicationObject A
  assign o input = record o { value = input }

  abbrev pub set_changed : TemplateCommunicationObject A → TemplateCommunicationObject A
  set_changed o = record o { changed = true }

  unfoldable pub set_name :
      TemplateCommunicationObject A → Option Bytes → TemplateCommunicationObject A
  set_name o name = record o { object_name = truncate_string name max_name_length }

  unfoldable pub set_path :
      TemplateCommunicationObject A → Option Bytes → TemplateCommunicationObject A
  set_path o path = record o { object_path = truncate_string path max_name_length }

  abbrev pub set_update_interval :
      TemplateCommunicationObject A → EnumUpdateInterval → TemplateCommunicationObject A
  set_update_interval o interval = record o { update_interval = interval }

  -- `IsChangeReceived` reads the flag and clears it.
  abbrev pub is_change_received :
      TemplateCommunicationObject A → TemplateCommunicationObject A × Bool
  is_change_received o = (record o { change_received = false }, o.change_received)

  module _ (c : Codec A) where
    -- `GetData`; the size and the two indices are `uint16_t`.
    unfoldable pub get_data : TemplateCommunicationObject A → CommunicationData
    get_data o = record {
      buffer = c.bytes o.value;
      device_index = o.device_index % 65536;
      data_size = length (c.bytes o.value) % 65536;
      object_index = o.object_index % 65536;
    }

    abbrev pub is_dirty : TemplateCommunicationObject A → Bool
    is_dirty o = o.changed || not (c.beq o.value o.value_old)

    -- `Update`: the object afterwards and the data that it hands to `WriteData`, if any.
    unfoldable pub update :
        TemplateCommunicationObject A → TemplateCommunicationObject A × Option CommunicationData
    update o =
        if is_dirty o
        then (record o { value_old = o.value; changed = false }, some (get_data o))
        else (o, none)

    -- `Inject`: `none` is a read behind the end of the data.
    unfoldable pub inject :
        TemplateCommunicationObject A → CommunicationData → Option (TemplateCommunicationObject A)
    inject o d = elim (c.read d.buffer d.data_size) [
      | none ↦ none
      | some v ↦
          some (record o { value = v; value_old = v; change_received = not (c.beq v o.value) })
    ]

    -- `Initialize`, over the members as they are in memory; a null name or path sets nothing.
    unfoldable pub initialize :
        TemplateCommunicationObject A → Option Bytes → Option Bytes → TemplateCommunicationObject A
    unfolding set_name set_path
    initialize o name path =
        let named : TemplateCommunicationObject A = elim name [
          | none ↦ o
          | some s ↦ set_name o (some s)
        ] in
        let placed : TemplateCommunicationObject A = elim path [
          | none ↦ named
          | some s ↦ set_path named (some s)
        ] in
        record placed {
          update_interval = EnumUpdateInterval.clock_5hz;
          value = c.zero_value;
          value_old = c.zero_value;
        }
