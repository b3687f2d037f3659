-- ===== src/Communicator.antt =====
-- TComm/src/Communicator.h and BaseCommunicationObject.h (under
-- TCommEspTest/lib/ControlLibrary/Communication). Objects lie on a heap, and the device map holds
-- pointers, as the owner of an object reaches it too. Subscribers are named by numbers; what they
-- are asked to do is the list of effects, in order.
pub mod Routing
pub mod Passes
pub mod Devices
pub mod Rename
use tcomm_tests.Common.{
  ℕ, ◌%◌, ◌-◌, Bool, true, false, ◌||◌, List, [], ◌∷◌, ◌++◌, map, Option, none, some, ◌==◌,
  if◌then◌else◌, length, get_elem?, remove_if,
}
use tcomm_tests.Common.Maps.{find, insert, erase}
use tcomm_tests.ByteSerializer.{CommunicationData}
use tcomm_tests.ClockBits.{Rates}
use tcomm_tests.Object.{
  EnumUpdateInterval, on_change, clock_0_5hz, clock_0_625hz, clock_1hz, clock_2hz, clock_2_5hz,
  clock_5hz, clock_10hz,
}
use tcomm_tests.Object.Virtual.{AnyObject, abstract}
use tcomm_tests.Object.Virtual

pub record Communicator : Type 0 where
  pub heap : ℕ → AnyObject
  pub device_object_map : List (ℕ × List ℕ)
  pub device_change_map : List (ℕ × Bool)
  pub sub_list : List ℕ
  pub send_all_data : Bool

-- A call of a subscriber: `Write` or `RegisterDevice`.
pub data Effect : Type 0 where
  writes : ℕ → CommunicationData → Effect
  registers : ℕ → ℕ → Effect

abbrev pub put : (ℕ → AnyObject) → ℕ → AnyObject → ℕ → AnyObject
put heap p o q = if p == q then o else heap q

unfoldable pub set_send_all_data : Communicator → Communicator
set_send_all_data c = record c { send_all_data = true }

abbrev pub is_excluded : Option ℕ → ℕ → Bool
is_excluded none s = false
is_excluded (some e) s = s == e

-- `WriteData`.
unfoldable pub write_data : Communicator → CommunicationData → Option ℕ → List Effect
write_data c d excluded = map (λ s. writes s d) (remove_if (is_excluded excluded) c.sub_list)

-- `deviceObjectMap[device]`, where a missing device reads as the empty list.
unfoldable pub objects_of : ℕ → List (ℕ × List ℕ) → List ℕ
objects_of device m = elim (find device m) [ none ↦ [] | some objects ↦ objects ]

-- The pointer at an index of a device, if both are there.
unfoldable pub pointer_at : Communicator → ℕ → ℕ → Option ℕ
unfolding objects_of
pointer_at c device index = get_elem? (objects_of device c.device_object_map) index

pub inject_at : Communicator → CommunicationData → Option ℕ → Option Communicator
inject_at c d none = some c
inject_at c d (some p) = elim (Virtual.inject (c.heap p) d) [
  | none ↦ none
  | some o ↦ some (record c { heap = put c.heap p o })
]

-- `InjectCommObject`: an address that names no object is passed over, and the data goes on to the
-- other subscribers all the same. `none` is a read behind the end of the data.
unfoldable pub inject_comm_object :
    Communicator → CommunicationData → Option ℕ → Option (Communicator × List Effect)
unfolding inject_at
inject_comm_object c d excluded =
    elim (inject_at c d (pointer_at c d.device_index d.object_index)) [
      | none ↦ none
      | some c' ↦ some (c', write_data c' d excluded)
    ]

-- `AddCommunicationObject`: the index is that of the last place.
unfoldable pub add_communication_object : Communicator → ℕ → ℕ → Communicator × ℕ
add_communication_object c device p =
    let objects = objects_of device c.device_object_map ++ p ∷ [] in
    (
      record c {
        device_object_map = insert device objects c.device_object_map;
        device_change_map = insert device true c.device_change_map;
      },
      length objects - 1,
    )

-- The constructor of `BaseCommunicationObject` for the object at the pointer. The member keeps the
-- `int`, and `AddCommunicationObject` takes a `uint16_t`.
unfoldable pub register_object : Communicator → ℕ → ℕ → Communicator × ℕ
unfolding add_communication_object
register_object c device p =
    let (c', index) = add_communication_object c (device % 65536) p in
    (
      record c' {
        heap =
            put c'.heap p
              (Virtual.set_object_index (Virtual.set_device_index (c'.heap p) device) index);
      },
      index,
    )

-- `RemoveCommunicationObject`.
unfoldable pub remove_communication_object : Communicator → ℕ → ℕ → Communicator
remove_communication_object c device p = record c {
  device_object_map =
      insert device (remove_if (λ q. q == p) (objects_of device c.device_object_map))
        c.device_object_map;
  device_change_map = insert device true c.device_change_map;
}

unfoldable pub add_subscriber : Communicator → ℕ → Communicator
add_subscriber c s = record c { sub_list = c.sub_list ++ s ∷ [] }

unfoldable pub remove_subscriber : Communicator → ℕ → Communicator
remove_subscriber c s = record c { sub_list = remove_if (λ t. t == s) c.sub_list }

-- `GetCommunicationObject`: a fresh abstract object stands for what is not there.
unfoldable pub get_communication_object : Communicator → ℕ → ℕ → AnyObject
unfolding pointer_at
get_communication_object c device index = elim (pointer_at c device index) [
  | none ↦ abstract
  | some p ↦ c.heap p
]

-- `GetObjectListSize`: the subscript enters a missing device into the map.
unfoldable pub get_object_list_size : Communicator → ℕ → Communicator × ℕ
get_object_list_size c device =
    let objects = objects_of device c.device_object_map in
    (record c { device_object_map = insert device objects c.device_object_map }, length objects)

unfoldable pub set_device_indices : (ℕ → AnyObject) → ℕ → List ℕ → ℕ → AnyObject
set_device_indices heap device [] = heap
set_device_indices heap device (p ∷ ps) =
    set_device_indices (put heap p (Virtual.set_device_index (heap p) device)) device ps

unfoldable pub move_device : Communicator → ℕ → ℕ → Option (List ℕ) → Communicator
move_device c old new none = c
move_device c old new (some objects) = record c {
  heap = set_device_indices c.heap new objects;
  device_object_map = erase old (insert new objects c.device_object_map);
}

-- `UpdateDeviceIndex`: move the list to the new key, then erase the old key.
unfoldable pub update_device_index : Communicator → ℕ → ℕ → Communicator
unfolding move_device set_device_indices
update_device_index c old new =
    let moved = move_device c old new (find old c.device_object_map) in
    record moved { device_change_map = insert new true (insert old true moved.device_change_map) }

unfoldable pub remove_device : Communicator → ℕ → Communicator
remove_device c device = elim (find device c.device_object_map) [
  | none ↦ c
  | some objects ↦ record c {
    device_object_map = erase device c.device_object_map;
    device_change_map = insert device true c.device_change_map;
  }
]

-- `RegisterDevice`.
unfoldable pub register_device : Communicator → ℕ → List Effect
register_device c device = map (λ s. registers s device) c.sub_list

-- `IsTimeToUpdate`, over the edges that the clock shows.
unfoldable pub is_time_to_update : Rates → EnumUpdateInterval → Bool
is_time_to_update edge on_change = true
is_time_to_update edge clock_10hz = edge.clock_10hz
is_time_to_update edge clock_5hz = edge.clock_5hz
is_time_to_update edge clock_2_5hz = edge.clock_2_5hz
is_time_to_update edge clock_2hz = edge.clock_2hz
is_time_to_update edge clock_1hz = edge.clock_1hz
is_time_to_update edge clock_0_625hz = edge.clock_0_625hz
is_time_to_update edge clock_0_5hz = edge.clock_0_5hz

-- The messages that one subscriber's `Read` injects, in order.
unfoldable pub inject_all :
    Communicator → ℕ → List CommunicationData → Option (Communicator × List Effect)
inject_all c s [] = some (c, [])
inject_all c s (d ∷ ds) = elim (inject_comm_object c d (some s)) [
  | none ↦ none
  | some (c', out) ↦ elim (inject_all c' s ds) [
    | none ↦ none
    | some (c'', more) ↦ some (c'', out ++ more)
  ]
]

pub read_subscribers :
    (ℕ → List CommunicationData) → Communicator → List ℕ → Option (Communicator × List Effect)
read_subscribers incoming c [] = some (c, [])
read_subscribers incoming c (s ∷ ss) = elim (inject_all c s (incoming s)) [
  | none ↦ none
  | some (c', out) ↦ elim (read_subscribers incoming c' ss) [
    | none ↦ none
    | some (c'', more) ↦ some (c'', out ++ more)
  ]
]

-- `ReadData`, where `incoming` gives what each subscriber's `Read` finds.
unfoldable pub read_data :
    (ℕ → List CommunicationData) → Communicator → Option (Communicator × List Effect)
read_data incoming c = read_subscribers incoming c c.sub_list

-- The first loop of `UpdateCommObjects`: tell the subscribers of changed devices.
unfoldable pub announce : Communicator → List (ℕ × Bool) → List (ℕ × Bool) × List Effect
announce c [] = ([], [])
announce c ((device, changed) ∷ m) =
    let (m', out) = announce c m in
    if changed
    then ((device, false) ∷ m', register_device c device ++ out)
    else ((device, changed) ∷ m', out)

abbrev pub write_update : Communicator → Option CommunicationData → List Effect
write_update c none = []
write_update c (some d) = write_data c d none

-- The body of the second loop for one object.
unfoldable pub update_object : Communicator → Rates → AnyObject → AnyObject × List Effect
update_object c edge o =
    let o' = if c.send_all_data then Virtual.set_changed o else o in
    if is_time_to_update edge (Virtual.get_update_interval o') || c.send_all_data
    then (let (o'', out) = Virtual.update o' in (o'', write_update c out))
    else (o', [])

unfoldable pub update_list : Communicator → Rates → List ℕ → Communicator × List Effect
update_list c edge [] = (c, [])
update_list c edge (p ∷ ps) =
    let (o, out) = update_object c edge (c.heap p) in
    let (c', more) = update_list (record c { heap = put c.heap p o }) edge ps in (c', out ++ more)

unfoldable pub update_devices :
    Communicator → Rates → List (ℕ × List ℕ) → Communicator × List Effect
update_devices c edge [] = (c, [])
update_devices c edge ((device, objects) ∷ m) =
    let (c', out) = update_list c edge objects in
    let (c'', more) = update_devices c' edge m in (c'', out ++ more)

-- `UpdateCommObjects`.
unfoldable pub update_comm_objects : Communicator → Rates → Communicator × List Effect
update_comm_objects c edge =
    let (changes, told) = announce c c.device_change_map in
    let (c', out) =
      update_devices (record c { device_change_map = changes }) edge c.device_object_map in
    (record c' { send_all_data = false }, told ++ out)

-- `Run`.
unfoldable pub run :
    (ℕ → List CommunicationData) → Rates → Communicator → Option (Communicator × List Effect)
run incoming edge c = elim (read_data incoming c) [
  | none ↦ none
  | some (c', out) ↦ (let (c'', more) = update_comm_objects c' edge in some (c'', out ++ more))
]
