-- ===== src/Examples/Devices.antt =====
-- Objects and a communicator of TComm/src (under TCommEspTest/lib/ControlLibrary/Communication).
use tcomm_tests.Common.{
  ◌+◌, take, ◌%◌, length, ◌<◌, ℕ, zero, suc, ◌≡◌, ◌≢◌, refl, true, false, [], ◌∷◌, ◌++◌, none, some,
  arith, Bytes, get_elem?, replicate,
}
use tcomm_tests.Common.Maps.{find}
use tcomm_tests.ByteSerializer.{CommunicationData}
use tcomm_tests.ClockBits.{Rates}
use tcomm_tests.Object.{TemplateCommunicationObject, on_change, c_str, get_data, inject}
use tcomm_tests.Object.Types.{text_codec, int}
use tcomm_tests.Object.Virtual
use tcomm_tests.Object.Virtual.{AnyObject, word, abstract}
use tcomm_tests.Object.Texts.{NoZero, relay, relay_grows, inject_wraps}
use tcomm_tests.Communicator.{
  Communicator, pointer_at, objects_of, register_object, remove_communication_object,
  update_device_index, inject_comm_object, update_comm_objects,
}
use tcomm_tests.Communicator.Routing.{Routed, inject_comm_object-Routed}
use tcomm_tests.Communicator.Passes.{update_comm_objects_settles}
use tcomm_tests.Communicator.Devices.{
  IsAddressed, register_object-IsAddressed, remove_communication_object_shifts,
}
use tcomm_tests.Communicator.Rename.{update_device_index_moves, update_device_index_same}

abbrev pub object : {A : Type 0} → A → A → ℕ → TemplateCommunicationObject A
object new old p = record {
  value = new;
  value_old = old;
  changed = false;
  change_received = false;
  object_name = b'n' ∷ [];
  object_path = b'p' ∷ [];
  update_interval = on_change;
  object_index = p;
  device_index = 1;
}

abbrev said : TemplateCommunicationObject Bytes
said = object (b'h' ∷ b'i' ∷ []) [] 0

relay_grows_example :
    (q : TemplateCommunicationObject Bytes) × (relay said (object [] [] 0 ∷ object [] [] 0 ∷ [])
      ≡ some q)
    × (q.value ≡ (b'h' ∷ b'i' ∷ []) ++ replicate 2 0)
    × (NoZero said.value → c_str q.value ≡ said.value)
relay_grows_example = relay_grows said (object [] [] 0 ∷ object [] [] 0 ∷ []) (omega arith)

-- A text of 65,535 bytes.
abbrev longest : TemplateCommunicationObject Bytes
longest = object (replicate 65535 (b'x')) [] 0

inject_wraps_example :
    let p : TemplateCommunicationObject Bytes = object [] [] 0 in
    let sent = longest.value ++ 0 ∷ [] in
    (p' : TemplateCommunicationObject Bytes) × (inject text_codec p (get_data text_codec longest)
      ≡ some p')
    × (p'.value ≡ take (length sent % 65536) sent)
    × (length p'.value ≡ (length longest.value + 1) % 65536)
inject_wraps_example = inject_wraps longest (object [] [] 0)

-- Two whole numbers under the device 1, and two subscribers.
abbrev pub home : Communicator
home = record {
  heap = λ p. word int (object 5 0 p);
  device_object_map = (1, 0 ∷ 1 ∷ []) ∷ [];
  device_change_map = (1, true) ∷ [];
  sub_list = 5 ∷ 6 ∷ [];
  send_all_data = false;
}

stands_at : (i p : ℕ) → get_elem? (0 ∷ 1 ∷ []) i ≡ some p → p ≡ i
stands_at zero p h = cc h
stands_at (suc zero) p h = cc h
stands_at (suc (suc i)) p h = absurd (cc h)

pub home-pointer : (d i p : ℕ) → pointer_at home d i ≡ some p → (d ≡ 1) × (p ≡ i)
unfolding pointer_at objects_of find
home-pointer d i p h = (ground arith, ground (arith, stands_at i p))

pub home-IsAddressed : IsAddressed home
unfolding Virtual.address
home-IsAddressed = record { address = λ d i p h. ground (arith, home-pointer d i p) }

two : CommunicationData
two = record { buffer = 2 ∷ 0 ∷ 0 ∷ 0 ∷ []; device_index = 1; data_size = 4; object_index = 1 }

inject_comm_object-Routed_example : Routed home two 5 (inject_comm_object home two (some 5))
inject_comm_object-Routed_example = inject_comm_object-Routed home two 5

abbrev pub no_edge : Rates
no_edge = record {
  clock_0_5hz = false;
  clock_0_625hz = false;
  clock_1hz = false;
  clock_2hz = false;
  clock_2_5hz = false;
  clock_5hz = false;
  clock_10hz = false;
}

update_comm_objects_settles_example :
    let c' = (update_comm_objects home no_edge).0 in update_comm_objects c' no_edge ≡ (c', [])
update_comm_objects_settles_example = update_comm_objects_settles home no_edge λ q. omega arith

home-new : (e j : ℕ) → pointer_at home e j ≢ some 7
unfolding pointer_at objects_of find
home-new e j h = ground (arith, below j)
  where
    below : (i : ℕ) → get_elem? {A = ℕ} (0 ∷ 1 ∷ []) i ≢ some 7
    below zero h' = ground arith
    below (suc zero) h' = ground arith
    below (suc (suc i)) h' = cc h'

home_first : pointer_at home 1 0 ≡ some 0
unfolding pointer_at objects_of find
home_first = refl

home_second : pointer_at home 1 1 ≡ some 1
unfolding pointer_at objects_of find
home_second = refl

pub home-find : find 1 home.device_object_map ≡ some (0 ∷ 1 ∷ [])
unfolding find
home-find = refl

home_few : length (objects_of 1 home.device_object_map) < 65536
unfolding objects_of find
home_few = omega arith

register_object-IsAddressed_example :
    let (c', i) = register_object home 1 7 in
    (pointer_at c' 1 i ≡ some 7)
    × (Virtual.sent_address (c'.heap 7) ≡ some (1, i))
    × ((e j q : ℕ)
        → pointer_at home e j ≡ some q
        → (pointer_at c' e j ≡ some q) × (c'.heap q ≡ home.heap q))
    × IsAddressed c'
register_object-IsAddressed_example =
    register_object-IsAddressed home 1 7 (omega arith) home_few home-IsAddressed (λ h. cc h)
      home-new

remove_communication_object_shifts_example :
    let c' = remove_communication_object home 1 0 in
    (pointer_at c' 1 0 ≡ some 1) × (Virtual.address (c'.heap 1) ≡ some (1, 1)) × ¬ IsAddressed c'
remove_communication_object_shifts_example =
    remove_communication_object_shifts home 1 0 0 1 home-IsAddressed home_first home_second

update_device_index_moves_example :
    let c' = update_device_index home 1 4 in
    ((i : ℕ) → pointer_at c' 4 i ≡ pointer_at home 1 i)
    × ((i : ℕ) → pointer_at c' 1 i ≡ none)
    × ((d i : ℕ) → d ≢ 1 → d ≢ 4 → pointer_at c' d i ≡ pointer_at home d i)
    × IsAddressed c'
update_device_index_moves_example =
    update_device_index_moves home 1 4 (0 ∷ 1 ∷ []) home-IsAddressed (λ h. omega (arith, h))
      home-find

update_device_index_same_example : pointer_at (update_device_index home 1 1) 1 0 ≡ none
update_device_index_same_example = update_device_index_same home 1 0
