-- ===== src/TCommClient/Join.antt =====
-- When a client may speak, and what its new address does to its objects: TComm/src/TCommClient.h
-- (under TCommEspTest/lib/ControlLibrary/Communication).
use tcomm_tests.Common.{
  ℕ, ◌≡◌, ◌≢◌, refl, Bool, true, false, List, none, some, arith, Bytes, same_bytes_refl,
  same_bytes_iff, ◌%◌, sym,
}
use tcomm_tests.Common.Maps.{find}
use tcomm_tests.Object.Virtual.{TypeInfo}
use tcomm_tests.Communicator.{pointer_at}
use tcomm_tests.Communicator.Devices.{IsAddressed}
use tcomm_tests.Communicator.Rename.{update_device_index_moves}
use tcomm_tests.Message.{
  MessageType, nothing, your_device_address_is, request_all_data, request_name_of_object,
  request_path_of_object, request_data_type_of_object, request_object, request_list_size,
  message_type, code,
}
use tcomm_tests.TCommClient.{Client, handle_overhead, respond}

-- The questions of an interrogation.
abbrev pub is_question : MessageType → Bool
is_question request_all_data = true
is_question request_name_of_object = true
is_question request_path_of_object = true
is_question request_data_type_of_object = true
is_question request_object = true
is_question request_list_size = true
is_question _ = false

-- The client after it has read the flag of the message's type.
abbrev pub noted : Client → Client
noted c = record c {
  message = record c.message { kind = record c.message.kind { change_received = false } };
}

module _ (mac : Bytes) (type_name : TypeInfo → Bytes) (now : ℕ) where
  respond-silent :
      (c : Client) (q : MessageType)
      → is_question q ≡ true
      → c.interrogated ≡ false
      → respond mac type_name now c (some q) ≡ c
  unfolding respond
  respond-silent c request_all_data h e = rw (e) refl
  respond-silent c request_name_of_object h e = rw (e) refl
  respond-silent c request_path_of_object h e = rw (e) refl
  respond-silent c request_data_type_of_object h e = rw (e) refl
  respond-silent c request_object h e = rw (e) refl
  respond-silent c request_list_size h e = rw (e) refl
  respond-silent c _ h e = absurd (cc h)

  -- A client that is not being interrogated answers none of the questions of an interrogation, which
  -- concern another client on the same line: it changes nothing but the flag that it has read.
  pub handle_overhead_silent :
      (c : Client) (q : MessageType)
      → message_type c.message.kind.value ≡ some q
      → is_question q ≡ true
      → c.interrogated ≡ false
      → handle_overhead mac type_name now c ≡ noted c
  unfolding handle_overhead
  handle_overhead_silent c q kind h e = rw (kind) (respond-silent (noted c) q h e)

  -- An address for another board changes nothing but the flag that the client has read.
  handle_overhead_other_mac :
      (c : Client)
      → message_type c.message.kind.value ≡ some your_device_address_is
      → c.message.text1.value ≢ mac
      → handle_overhead mac type_name now c ≡ noted c
  unfolding handle_overhead respond
  handle_overhead_other_mac c kind ne =
      rw (kind) (ground (arith, same_bytes_iff c.message.text1.value mac))

  -- An address for this board, other than 1, under which its objects stand at first: the client takes
  -- it and may be interrogated, all of its objects stand under it in the same order, none under 1,
  -- no other object moves, and every address stays right.
  pub handle_overhead_joins :
      (c : Client) (os : List ℕ)
      → message_type c.message.kind.value ≡ some your_device_address_is
      → c.message.text1.value ≡ mac
      → c.message.value.value % 65536 ≢ 1
      → IsAddressed c.comm
      → find 1 c.comm.device_object_map ≡ some os
      → let c' = handle_overhead mac type_name now c in
        (c'.interrogated ≡ true)
        × (c'.device_index ≡ c.message.value.value % 65536)
        × (c'.message.kind.value ≡ code nothing)
        × ((i : ℕ) → pointer_at c'.comm c'.device_index i ≡ pointer_at c.comm 1 i)
        × ((i : ℕ) → pointer_at c'.comm 1 i ≡ none)
        × ((d i : ℕ) → d ≢ 1 → d ≢ c'.device_index → pointer_at c'.comm d i ≡ pointer_at c.comm d i)
        × IsAddressed c'.comm
  unfolding handle_overhead respond
  handle_overhead_joins c os kind own ne a at =
      let (here, gone, rest, addressed) =
        update_device_index_moves c.comm 1 (c.message.value.value % 65536) os a (λ e. ne (sym e))
          at in
      rw (kind, own, same_bytes_refl mac) (refl, refl, refl, here, gone, rest, addressed)
