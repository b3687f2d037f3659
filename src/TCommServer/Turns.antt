-- ===== src/TCommServer/Turns.antt =====
-- Clients that ask for an address while another one is interrogated: TComm/src/TCommServer.h
-- (under TCommWinTerminal/lib/Communication).
use tcomm_tests.Common.{ℕ, zero, suc, ◌≡◌, Bool, true, false, Option, none, some, Bytes}
use tcomm_tests.Object.Virtual.{TypeInfo}
use tcomm_tests.Message.{
  MessageType, nothing, whats_my_device_address, please_be_patient, code, set_kind,
}
use tcomm_tests.TCommServer.{Server, handle_overhead}
use tcomm_tests.TCommServer.Interrogation.{Keeps, noted}

abbrev hear : Server → MessageType → Server
hear s t = record s {
  message = record s.message { kind = record s.message.kind { value = code t } };
}

-- The interrogation stands where it stood, and so do the number and the three texts of the message.
pub record Stands (s s' : Server) : Type 0 where
  pub keeps : Keeps s s'
  pub interrogates : s'.interrogating ≡ s.interrogating
  pub same_index : s'.object_index ≡ s.object_index
  pub same_size : s'.device_list_size ≡ s.device_list_size
  pub same_data : s'.temp_device_data ≡ s.temp_device_data
  pub same_sequence : s'.sequence_type ≡ s.sequence_type
  pub same_value : s'.message.value ≡ s.message.value
  pub same_text1 : s'.message.text1 ≡ s.message.text1
  pub same_text2 : s'.message.text2 ≡ s.message.text2
  pub same_text3 : s'.message.text3 ≡ s.message.text3

abbrev put_off : Server → Server
put_off s =
    let s' = noted (hear s whats_my_device_address) in
    record s' { interrupted_sequence = true; message = set_kind s'.message please_be_patient }

abbrev taken_up : Server → Server
taken_up s =
    let s' = noted (hear s nothing) in
    record s' {
      message = record s'.message { kind = record s'.message.kind { value = s.sequence_type } };
      interrupted_sequence = false;
    }

module _ (type_name : TypeInfo → Bytes) (raw : ℕ → Bool) where
  -- So many clients ask for an address, one after the other.
  unfoldable pub asked : ℕ → Server → Option Server
  asked zero s = some s
  asked (suc n) s = elim (handle_overhead type_name raw (hear s whats_my_device_address)) [
    | none ↦ none
    | some s' ↦ asked n s'
  ]

  -- A server that has told a client to be patient.
  record Told (s told : Server) : Type 0 where
    pub patience : told.message.kind.value ≡ code please_be_patient
    pub interrupted : told.interrupted_sequence ≡ true
    pub stands : Stands s told

  -- The server put off so many clients, then took the question up again.
  pub record PutOff (s : Server) (n : ℕ) : Type 0 where
    pub told : Server
    pub tells : asked n s ≡ some told
    pub patience : told.message.kind.value ≡ code please_be_patient
    pub resumed : Server
    pub resumes : handle_overhead type_name raw (hear told nothing) ≡ some resumed
    pub question : resumed.message.kind.value ≡ s.sequence_type
    pub in_sequence : resumed.interrupted_sequence ≡ false
    pub stands : Stands s resumed
