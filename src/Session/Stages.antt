-- ===== src/Session/Stages.antt =====
-- The questions and answers of an interrogation one at a time: TCommServer.h and TCommClient.h
-- (under TCommWinTerminal/lib/Communication and TCommEspTest/lib/ControlLibrary/Communication).
use tcomm_tests.Common.{
  ℕ, suc, ◌+◌, ◌%◌, ◌<◌, ◌≡◌, ◌≢◌, refl, Bool, true, false, List, [], ◌∷◌, ◌++◌, some, arith, Bytes,
  length, ◌∙◌, sym, ap,
}
use tcomm_tests.Common.Maps.{find}
use tcomm_tests.Object.{c_str}
use tcomm_tests.Object.Texts.{c_str-c_str}
use tcomm_tests.Object.Virtual
use tcomm_tests.Object.Virtual.{TypeInfo}
use tcomm_tests.Communicator.{get_communication_object, set_send_all_data}
use tcomm_tests.Message.{
  Message, nothing, request_all_data, request_object, response_object, request_list_size,
  response_list_size, end_interrogation, code,
}
use tcomm_tests.Message.Transfer.{deliver}
use tcomm_tests.Message.Links.{AreLinked}
use tcomm_tests.TCommServer.{Server, DeviceData}
use tcomm_tests.TCommClient.{Client}
use tcomm_tests.Session.{Session}
use tcomm_tests.Session.Laps.{Lap, heard, lap_of, lap_idle}
use tcomm_tests.Session.Turns.{resaid-Says, FitsWith}
use tcomm_tests.Session.Questions.{
  reply, client_size, client_describes, client_sends_all, client_ends, server_asks_size,
  server_takes_size, server_asks, server_takes, server_asks_all, server_ends,
}

-- What the client tells of one of its objects.
abbrev pub description : (TypeInfo → Bytes) → Client → ℕ → DeviceData
description type_name c index =
    let o = get_communication_object c.comm c.device_index index in
    record {
      name = c_str (Virtual.get_name o);
      path = c_str (Virtual.get_path o);
      data_type = c_str (type_name (Virtual.get_type o));
    }

-- The texts of these descriptions are short enough to be sent.
abbrev pub Tells : (TypeInfo → Bytes) → Client → Type 0
Tells type_name c =
    (index : ℕ)
    → let o = get_communication_object c.comm c.device_index index in
      (length (c_str (Virtual.get_name o)) < 65535)
      × (length (c_str (Virtual.get_path o)) < 65535)
      × (length (type_name (Virtual.get_type o)) < 65535)

-- The description that the message holds.
abbrev pub entry_of : Message → DeviceData
entry_of m = record {
  name = c_str m.text1.value;
  path = c_str m.text2.value;
  data_type = c_str m.text3.value;
}

abbrev entry : Bytes → Bytes → Bytes → DeviceData
entry a b d = record { name = a; path = b; data_type = d }

entry-cong : {a a' b b' d d' : Bytes} → a ≡ a' → b ≡ b' → d ≡ d' → entry a b d ≡ entry a' b' d'
entry-cong e f g = cc (e, f, g)

module _ (server_type_name : TypeInfo → Bytes) (raw : ℕ → Bool) (mac : Bytes)
    (type_name : TypeInfo → Bytes) (now : ℕ) where
  module _ (s : Server) (c : Client) (os : List ℕ) (busy : s.interrogating ≡ true)
      (in_sequence : s.interrupted_sequence ≡ false) (interrogated : c.interrogated ≡ true)
      (addressed : c.device_index ≢ 0)
      (registered : find c.device_index c.comm.device_object_map ≡ some os) where
    -- The interrogation at a question: the number of objects, as far as the server knows it, the index
    -- of the next one, the descriptions, and what the server has put last.
    abbrev pub at_question : ℕ → ℕ → List DeviceData → ℕ → Message → Message → Session
    at_question size index entries sequence m n = record {
      server = record s {
        message = m;
        device_list_size = size;
        object_index = index;
        temp_device_data = entries;
        sequence_type = sequence;
      };
      client = record c { message = n };
    }

    -- The server asks for the number of objects.
    pub lap-size :
        (m n : Message) (index : ℕ) (entries : List DeviceData) (sequence : ℕ)
        → AreLinked m n
        → m.kind.value ≡ code nothing
        → length os < 65536
        → Lap server_type_name raw mac type_name now
            (at_question 0 index entries sequence m n)
            (at_question 0 index entries (code request_list_size))
            (λ h. (h.kind.value ≡ code response_list_size) × (h.value.value ≡ length os))
    lap-size m n index entries sequence l idle few =
        let t = at_question 0 index entries sequence m n in
        let asks = server_asks_size server_type_name raw t.server busy in_sequence idle refl in
        let fits : FitsWith m.value.value (code request_list_size) = (l.fits.value, omega arith) in
        let e =
          heard server_type_name raw mac type_name now t _ m.value.value (code request_list_size) l
            fits asks refl in
        lap_of server_type_name raw mac type_name now t _ m.value.value (code request_list_size) _
          (length os) (code response_list_size) _ _ _ l fits asks refl
          (omega (arith, few), omega arith) (resaid-Says _ _ e.linked)
          (client_size mac type_name now
            (record c {
              message = deliver (reply t.server m.value.value (code request_list_size)) n;
            })
            os e.heard_kind interrogated registered)
          refl (λ h same back. rw (same) (back.heard_kind, back.heard_value))

    -- The server takes the number, and the client has nothing to say.
    pub lap-takes_size :
        (m n : Message) (size index : ℕ) (entries : List DeviceData) (sequence : ℕ)
        → AreLinked m n
        → m.kind.value ≡ code response_list_size
        → m.value.value ≡ length os
        → length os < 65536
        → Lap server_type_name raw mac type_name now
            (at_question size index entries sequence m n)
            (at_question (length os) index entries sequence)
            (λ h. h.kind.value ≡ code nothing)
    lap-takes_size m n size index entries sequence l kind value few =
        let t = at_question size index entries sequence m n in
        let same : m.value.value % 65536 ≡ length os = omega (arith, value, few) in
        let takes =
          rw (same) at (server_takes_size server_type_name raw t.server busy in_sequence kind) in
        lap_idle server_type_name raw mac type_name now t _ m.value.value l l.fits.value takes refl
          addressed

    -- The server asks for an object, and the client describes it.
    pub lap-asks :
        (m n : Message) (size index : ℕ) (entries : List DeviceData) (sequence : ℕ)
        → AreLinked m n
        → m.kind.value ≡ code nothing
        → index < size
        → size < 65536
        → Tells type_name c
        → Lap server_type_name raw mac type_name now
            (at_question size index entries sequence m n)
            (at_question size index entries (code request_object))
            (λ h.
              (h.kind.value ≡ code response_object) × (entry_of h ≡ description type_name c index))
    lap-asks m n size index entries sequence l idle more few tells =
        let t = at_question size index entries sequence m n in
        let asks = server_asks server_type_name raw t.server busy in_sequence idle more in
        let fits : FitsWith index (code request_object) = (omega (arith, more, few), omega arith) in
        let e =
          heard server_type_name raw mac type_name now t _ index (code request_object) l fits asks
            refl in
        let n' = deliver (reply t.server index (code request_object)) n in
        let same : n'.value.value % 65536 ≡ index = omega (arith, e.heard_value, more, few) in
        let o = get_communication_object c.comm c.device_index (n'.value.value % 65536) in
        lap_of server_type_name raw mac type_name now t _ index (code request_object) _
          n'.value.value (code response_object) (c_str (Virtual.get_name o))
          (c_str (Virtual.get_path o)) (type_name (Virtual.get_type o)) l fits asks refl
          (omega (arith, e.heard_value, more, few), omega arith)
          (let (name, path, data_type) = tells (n'.value.value % 65536) in
            (λ dirty. name, λ dirty. path, λ dirty. data_type))
          (client_describes mac type_name now (record c { message = n' }) e.heard_kind interrogated)
          refl
          (λ h is back. rw (is) (
            back.heard_kind,
            entry-cong (back.heard_text1 ∙ c_str-c_str (Virtual.get_name o))
                  (back.heard_text2 ∙ c_str-c_str (Virtual.get_path o)) back.heard_text3
                ∙ ap (description type_name c) same,
          ))

    -- The server takes a description, and the client has nothing to say.
    pub lap-takes :
        (m n : Message) (size index : ℕ) (entries : List DeviceData) (sequence : ℕ) (e : DeviceData)
        → AreLinked m n
        → m.kind.value ≡ code response_object
        → entry_of m ≡ e
        → suc index < size
        → size < 65536
        → Lap server_type_name raw mac type_name now
            (at_question size index entries sequence m n)
            (at_question size (suc index) (entries ++ e ∷ []) (code nothing))
            (λ h. h.kind.value ≡ code nothing)
    lap-takes m n size index entries sequence e l kind is more few =
        let t = at_question size index entries sequence m n in
        let next : (index + 1) % 65536 ≡ suc index = omega (arith, more, few) in
        let takes = rw (next) at (
          server_takes server_type_name raw t.server busy in_sequence e kind (sym is)
            (rw (next) more)) in
        lap_idle server_type_name raw mac type_name now t _ m.value.value l l.fits.value takes refl
          addressed

    -- The server asks for all data, and the client will send it.
    pub lap-all :
        (m n : Message) (size : ℕ) (entries : List DeviceData)
        → AreLinked m n
        → m.kind.value ≡ code nothing
        → size ≢ 0
        → Lap server_type_name raw mac type_name now
            (at_question size size entries (code nothing) m n)
            (λ h k. record (at_question size size entries (code request_all_data) h k) {
              client = record c { comm = set_send_all_data c.comm; message = k };
            })
            (λ h. h.kind.value ≡ code nothing)
    lap-all m n size entries l idle some_objects =
        let t = at_question size size entries (code nothing) m n in
        let asks =
          server_asks_all server_type_name raw t.server busy in_sequence idle some_objects refl
            refl in
        let fits : FitsWith m.value.value (code request_all_data) = (l.fits.value, omega arith) in
        let e =
          heard server_type_name raw mac type_name now t _ m.value.value (code request_all_data) l
            fits asks refl in
        let n' = deliver (reply t.server m.value.value (code request_all_data)) n in
        lap_of server_type_name raw mac type_name now t _ m.value.value (code request_all_data) _
          n'.value.value (code nothing) _ _ _ l fits asks refl
          (rw (e.heard_value) l.fits.value, omega arith) (resaid-Says _ _ e.linked)
          (client_sends_all mac type_name now (record c { message = n' }) e.heard_kind interrogated)
          refl (λ h is back. rw (is) back.heard_kind)

    -- The server ends the interrogation, and so does the client.
    pub lap-ends :
        (m n : Message) (size : ℕ) (entries : List DeviceData)
        → AreLinked m n
        → m.kind.value ≡ code nothing
        → size ≢ 0
        → Lap server_type_name raw mac type_name now
            (at_question size size entries (code request_all_data) m n)
            (λ h k. record {
              server = record (at_question size size entries (code request_all_data) h k).server {
                interrogating = false;
              };
              client = record c { message = k; interrogated = false; await_turn = false };
            })
            (λ h. h.kind.value ≡ code nothing)
    lap-ends m n size entries l idle some_objects =
        let t = at_question size size entries (code request_all_data) m n in
        let asks =
          server_ends server_type_name raw t.server busy in_sequence idle some_objects refl refl in
        let fits : FitsWith m.value.value (code end_interrogation) = (l.fits.value, omega arith) in
        let e =
          heard server_type_name raw mac type_name now t _ m.value.value (code end_interrogation) l
            fits asks refl in
        let n' = deliver (reply t.server m.value.value (code end_interrogation)) n in
        lap_of server_type_name raw mac type_name now t _ m.value.value (code end_interrogation) _
          n'.value.value (code nothing) _ _ _ l fits asks refl
          (rw (e.heard_value) l.fits.value, omega arith) (resaid-Says _ _ e.linked)
          (client_ends mac type_name now (record c { message = n' }) e.heard_kind interrogated) refl
          (λ h is back. rw (is) back.heard_kind)
