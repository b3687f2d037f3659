-- ===== src/Message.antt =====
-- The message of TComm/src/TCommBase.h (under TCommEspTest/lib/ControlLibrary/Communication): nine
-- objects of device 0 that both sides keep, in the order in which they are declared and so
-- registered, updated and sent.
pub mod Slots
pub mod Transfer
pub mod Links
use tcomm_tests.Common.{
  ℕ, zero, suc, ◌+◌, ◌-◌, ◌/◌, ◌%◌, List, [], ◌∷◌, ◌++◌, Option, none, some, ltb, leb,
  if◌then◌else◌, Bytes, get_elem?, ◌==◌, length, ◌<◌, ◌≤◌, arith,
}
use tcomm_tests.ByteSerializer.{CommunicationData}
use tcomm_tests.Object.{
  TemplateCommunicationObject, assign, update, inject, set_path, set_update_interval, on_change,
}
use tcomm_tests.Object.Types.{int, int32, word_codec, text_codec}

-- `enum MESSAGETYPE`.
pub data MessageType : Type 0 where
  nothing whats_my_device_address your_device_address_is request_all_data request_name_of_object
        response_name_of_object request_path_of_object response_path_of_object
        request_data_type_of_object response_data_type_of_object request_object response_object
        request_list_size response_list_size end_interrogation please_be_patient :
      MessageType

abbrev pub message_types : List MessageType
message_types =
    nothing ∷ whats_my_device_address ∷ your_device_address_is ∷ request_all_data
    ∷ request_name_of_object ∷ response_name_of_object ∷ request_path_of_object
    ∷ response_path_of_object ∷ request_data_type_of_object ∷ response_data_type_of_object
    ∷ request_object ∷ response_object ∷ request_list_size ∷ response_list_size ∷ end_interrogation
    ∷ please_be_patient ∷ []

-- The enumerator that a number stands for, if any, and the number of an enumerator.
abbrev pub message_type : ℕ → Option MessageType
message_type n = get_elem? message_types n

abbrev pub code : MessageType → ℕ
code nothing = 0
code whats_my_device_address = 1
code your_device_address_is = 2
code request_all_data = 3
code request_name_of_object = 4
code response_name_of_object = 5
code request_path_of_object = 6
code response_path_of_object = 7
code request_data_type_of_object = 8
code response_data_type_of_object = 9
code request_object = 10
code response_object = 11
code request_list_size = 12
code response_list_size = 13
code end_interrogation = 14
code please_be_patient = 15

-- `struct MESSAGE`. (`type` is `kind` here.)
pub record Message : Type 0 where
  pub value : TemplateCommunicationObject ℕ
  pub text1 : TemplateCommunicationObject Bytes
  pub text2 : TemplateCommunicationObject Bytes
  pub text3 : TemplateCommunicationObject Bytes
  pub text4 : TemplateCommunicationObject Bytes
  pub text5 : TemplateCommunicationObject Bytes
  pub kind : TemplateCommunicationObject ℕ
  pub testtype : TemplateCommunicationObject ℕ
  pub echotype : TemplateCommunicationObject ℕ

-- `"\\message\\"`.
abbrev message_folder : Bytes
message_folder = 0x5C ∷ b'm' ∷ b'e' ∷ b's' ∷ b's' ∷ b'a' ∷ b'g' ∷ b'e' ∷ 0x5C ∷ []

abbrev placed_at :
    {A : Type 0} → TemplateCommunicationObject A → Bytes → TemplateCommunicationObject A
placed_at o path = set_update_interval (set_path o (some (path ++ message_folder))) on_change

-- The constructor of a message, over the nine objects as their own constructors make them.
unfoldable pub new_message : Message → Bytes → Message
new_message m path = record {
  value = placed_at m.value path;
  text1 = placed_at m.text1 path;
  text2 = placed_at m.text2 path;
  text3 = placed_at m.text3 path;
  text4 = placed_at m.text4 path;
  text5 = placed_at m.text5 path;
  kind = placed_at m.kind path;
  testtype = placed_at m.testtype path;
  echotype = placed_at m.echotype path;
}

abbrev pub set_kind : Message → MessageType → Message
set_kind m t = record m { kind = assign m.kind (code t) }

abbrev pub set_value : Message → ℕ → Message
set_value m n = record m { value = assign m.value n }

abbrev pub set_text1 : Message → Bytes → Message
set_text1 m s = record m { text1 = assign m.text1 s }

abbrev pub set_text2 : Message → Bytes → Message
set_text2 m s = record m { text2 = assign m.text2 s }

abbrev pub set_text3 : Message → Bytes → Message
set_text3 m s = record m { text3 = assign m.text3 s }

abbrev pub set_text5 : Message → Bytes → Message
set_text5 m s = record m { text5 = assign m.text5 s }

abbrev sent : Option CommunicationData → List CommunicationData → List CommunicationData
sent none ds = ds
sent (some d) ds = d ∷ ds

-- `Update` of the nine objects, which are due in every run (`eOnChange`), and what they send.
unfoldable pub update_message : Message → Message × List CommunicationData
update_message m =
    let (value, d0) = update (word_codec int) m.value in
    let (text1, d1) = update text_codec m.text1 in
    let (text2, d2) = update text_codec m.text2 in
    let (text3, d3) = update text_codec m.text3 in
    let (text4, d4) = update text_codec m.text4 in
    let (text5, d5) = update text_codec m.text5 in
    let (kind, d6) = update (word_codec int32) m.kind in
    let (testtype, d7) = update (word_codec int32) m.testtype in
    let (echotype, d8) = update (word_codec int32) m.echotype in
    (
      record {
        value = value;
        text1 = text1;
        text2 = text2;
        text3 = text3;
        text4 = text4;
        text5 = text5;
        kind = kind;
        testtype = testtype;
        echotype = echotype;
      },
      sent d0 (sent d1 (sent d2 (sent d3 (sent d4 (sent d5 (sent d6 (sent d7 (sent d8 [])))))))),
    )

abbrev replaced {ℓ} : {A : Type ℓ} → Option A → (A → Message) → Option Message
replaced none f = none
replaced (some a) f = some (f a)

-- `Inject` into the object of device 0 that the data names; another index names no object here.
inject_index : Message → CommunicationData → ℕ → Option Message
inject_index m d zero = replaced (inject (word_codec int) m.value d) λ o. record m { value = o }
inject_index m d (suc zero) = replaced (inject text_codec m.text1 d) λ o. record m { text1 = o }
inject_index m d (suc (suc zero)) =
    replaced (inject text_codec m.text2 d) λ o. record m { text2 = o }
inject_index m d (suc (suc (suc zero))) =
    replaced (inject text_codec m.text3 d) λ o. record m { text3 = o }
inject_index m d (suc (suc (suc (suc zero)))) =
    replaced (inject text_codec m.text4 d) λ o. record m { text4 = o }
inject_index m d (suc (suc (suc (suc (suc zero))))) =
    replaced (inject text_codec m.text5 d) λ o. record m { text5 = o }
inject_index m d (suc (suc (suc (suc (suc (suc zero)))))) =
    replaced (inject (word_codec int32) m.kind d) λ o. record m { kind = o }
inject_index m d (suc (suc (suc (suc (suc (suc (suc zero))))))) =
    replaced (inject (word_codec int32) m.testtype d) λ o. record m { testtype = o }
inject_index m d (suc (suc (suc (suc (suc (suc (suc (suc zero)))))))) =
    replaced (inject (word_codec int32) m.echotype d) λ o. record m { echotype = o }
inject_index m d (suc (suc (suc (suc (suc (suc (suc (suc (suc n))))))))) = some m

-- What an incoming message changes of these nine; another device's objects are elsewhere.
unfoldable pub inject_message : Message → CommunicationData → Option Message
unfolding inject_index
inject_message m d = if d.device_index == 0 then inject_index m d d.object_index else some m

unfoldable pub inject_messages : Message → List CommunicationData → Option Message
inject_messages m [] = some m
inject_messages m (d ∷ ds) = elim (inject_message m d) [
  | none ↦ none
  | some m' ↦ inject_messages m' ds
]

-- `std::to_string`; an `int` is its bit pattern of 32 bits.
pub decimal : ℕ → ℕ → Bytes → Bytes
decimal zero n out = out
decimal (suc fuel) n out =
    let digit = b'0' + n % 10 in
    let rest = decimal fuel (n / 10) (digit ∷ out) in if leb n 9 then digit ∷ out else rest

-- Ten digits are enough below 2 ^ 32.
unfoldable pub to_string : ℕ → Bytes
unfolding decimal
to_string n =
    if ltb n 0x8000_0000 then decimal 10 n [] else b'-' ∷ decimal 10 (0x1_0000_0000 - n) []

length-decimal-le : (fuel n : ℕ) (out : Bytes) → length (decimal fuel n out) ≤ fuel + length out
unfolding decimal
length-decimal-le zero n out = omega arith
length-decimal-le (suc fuel) n out =
    ground (arith, length-decimal-le fuel (n / 10) ((b'0' + n % 10) ∷ out))

pub to_string-short : (n : ℕ) → length (to_string n) < 65535
unfolding to_string
to_string-short n =
    ground (arith, length-decimal-le 10 n [], length-decimal-le 10 (0x1_0000_0000 - n) [])
