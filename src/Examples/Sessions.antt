-- ===== src/Examples/Sessions.antt =====
-- A client and the server of TComm/src/TCommClient.h and TCommServer.h (under
-- TCommEspTest/lib/ControlLibrary/Communication).
use tcomm_tests.Common.{ℕ, ◌≡◌, ◌≢◌, ◌<◌, refl, Bool, true, false, [], ◌∷◌, none, arith, Bytes}
use tcomm_tests.ResourceIndexManager
use tcomm_tests.ResourceIndexManager.Leases.{create-Inv}
use tcomm_tests.Object.Types.{int}
use tcomm_tests.Object.Virtual.{TypeInfo, scalar, string, abstract_pointer}
use tcomm_tests.Communicator.{pointer_at}
use tcomm_tests.Communicator.Devices.{IsAddressed}
use tcomm_tests.Message.{
  Message, MessageType, nothing, your_device_address_is, request_list_size, code,
}
use tcomm_tests.TCommServer.{Server, DeviceData, get_or_create_device_index, find_mac}
use tcomm_tests.TCommServer.Devices.{KnowsMacs, Answers, get_or_create_device_index-KnowsMacs}
use tcomm_tests.TCommClient.{Client, handle_overhead}
use tcomm_tests.TCommClient.Join.{handle_overhead_silent, handle_overhead_joins, noted}
use tcomm_tests.Examples.Devices.{object, home, home-IsAddressed, home-find}

-- Names of types that differ, and memory that is clear.
abbrev pub type_name : TypeInfo → Bytes
type_name (scalar t) = b'i' ∷ []
type_name string = b's' ∷ []
type_name abstract_pointer = b'a' ∷ []

abbrev pub raw : ℕ → Bool
raw p = false

-- The message with this type, value and first text.
abbrev pub saying : MessageType → ℕ → Bytes → Message
saying t n s = record {
  value = object n 0 0;
  text1 = object s [] 1;
  text2 = object [] [] 2;
  text3 = object [] [] 3;
  text4 = object [] [] 4;
  text5 = object [] [] 5;
  kind = object (code t) 0 6;
  testtype = object 0 0 7;
  echotype = object 0 0 8;
}

abbrev pub mac : Bytes
mac = b'A' ∷ b'B' ∷ []

-- A server that interrogates the device 4 about two objects.
abbrev pub server : Server
server = record {
  comm = home;
  next_pointer = 20;
  registry = (b'i' ∷ [], scalar int) ∷ [];
  message = saying nothing 0 mac;
  mac_to_index = [];
  temp_device_data = [];
  object_name = [];
  object_path = [];
  index_manager = ResourceIndexManager.create;
  interrogating = true;
  device_index = 4;
  device_list_size = 2;
  object_index = 0;
  interrupted_sequence = false;
  sequence_type = code request_list_size;
}

abbrev entry : DeviceData
entry = record { name = b'x' ∷ []; path = b'p' ∷ []; data_type = b'i' ∷ [] }

server-KnowsMacs : KnowsMacs server
unfolding find_mac
server-KnowsMacs = record {
  manages = create-Inv;
  leased = λ m i h. absurd (cc h);
  distinct = λ m m' i h h'. absurd (cc h);
}

server-room : server.index_manager.available ≡ [] → server.index_manager.next_index < 65535
unfolding ResourceIndexManager.create
server-room h = omega arith

get_or_create_device_index-KnowsMacs_example :
    Answers server mac (get_or_create_device_index server mac)
get_or_create_device_index-KnowsMacs_example =
    get_or_create_device_index-KnowsMacs server mac server-KnowsMacs server-room

abbrev collected : Server
collected = record server { temp_device_data = entry ∷ [] }

-- A client that waits for its address, at whose board the message is read.
abbrev pub client : MessageType → Bytes → Client
client t s = record {
  comm = home;
  message = saying t 4 s;
  response_timeout = record {
    p_start_timer = false;
    set_time = 50;
    start_time = 0;
    current_time = 0;
    start_timer = false;
    timer_done = false;
    use_micros = true;
  };
  device_index = 0;
  interrogated = false;
  await_turn = false;
}

handle_overhead_silent_example :
    handle_overhead mac type_name 10 (client request_list_size [])
    ≡ noted (client request_list_size [])
handle_overhead_silent_example =
    handle_overhead_silent mac type_name 10 (client request_list_size []) request_list_size refl
      refl refl

handle_overhead_joins_example :
    let c' = handle_overhead mac type_name 10 (client your_device_address_is mac) in
    (c'.interrogated ≡ true)
    × (c'.device_index ≡ 4)
    × (c'.message.kind.value ≡ code nothing)
    × ((i : ℕ) → pointer_at c'.comm c'.device_index i ≡ pointer_at home 1 i)
    × ((i : ℕ) → pointer_at c'.comm 1 i ≡ none)
    × ((d i : ℕ) → d ≢ 1 → d ≢ c'.device_index → pointer_at c'.comm d i ≡ pointer_at home d i)
    × IsAddressed c'.comm
handle_overhead_joins_example =
    handle_overhead_joins mac type_name 10 (client your_device_address_is mac) (0 ∷ 1 ∷ []) refl
      refl (λ h. omega (arith, h)) home-IsAddressed home-find
