-- ===== src/TCommServer/Rebuild.antt =====
-- `HandleReceivedDeviceData` of TComm/src/TCommServer.h (under TCommWinTerminal/lib/Communication).
use tcomm_tests.Common.{ℕ, ◌≡◌, Bool, true, not, ◌||◌, Bytes, length, ◌==◌}
use tcomm_tests.Object.Virtual.{TypeInfo}
use tcomm_tests.Communicator.{Communicator, get_object_list_size, remove_device}
use tcomm_tests.TCommServer.{Server, any_change}

module _ (type_name : TypeInfo → Bytes) (raw : ℕ → Bool) where
  -- The communicator without the objects of the device.
  abbrev pub emptied : Server → Communicator
  emptied s = remove_device (get_object_list_size s.comm s.device_index).0 s.device_index

  -- A description differs from the object at its place, or there are more or fewer of them.
  abbrev pub Differs : Server → Type 0
  Differs s =
      let (c, n) = get_object_list_size s.comm s.device_index in
      not (length s.temp_device_data == n)
        || any_change type_name raw c s.temp_device_data s.device_index 0
      ≡ true
