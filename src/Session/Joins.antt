-- ===== src/Session/Joins.antt =====
-- A client asks for its address, and the server greets it: TCommServer.h and TCommClient.h (under
-- TCommWinTerminal/lib/Communication and TCommEspTest/lib/ControlLibrary/Communication).
use tcomm_tests.Common.{
  ℕ, ◌<◌, length, ◌%◌, ◌≡◌, ◌≢◌, refl, Bool, true, false, not, if◌then◌else◌, [], ◌∷◌, ◌++◌, some,
  Bytes, ◌∙◌, sym, ap, inl, inr, Option-cases, Bool-cases, same_bytes, same_bytes_iff,
  same_bytes_refl,
}
use tcomm_tests.Object.{is_dirty}
use tcomm_tests.Object.Types.{text_codec}
use tcomm_tests.Object.Virtual.{TypeInfo}
use tcomm_tests.Communicator.{update_device_index}
use tcomm_tests.Message.{
  Message, nothing, whats_my_device_address, your_device_address_is, code, to_string,
  to_string-short, message_type, set_kind, set_value,
}
use tcomm_tests.Message.Transfer.{TextsFit, deliver}
use tcomm_tests.Message.Links.{AreLinked, AreEdits, settled-TextFits, after, after-value}
use tcomm_tests.TCommServer
use tcomm_tests.TCommServer.{Server, find_mac, get_or_create_device_index}
use tcomm_tests.TCommClient
use tcomm_tests.TCommClient.{Client}
use tcomm_tests.Session.Questions.{reply, resaid}

-- The message of a client that asks for its address.
abbrev pub asking : Message → Bytes → Message
asking m mac = record m {
  kind = record m.kind { value = code whats_my_device_address; change_received = false };
  text1 = record m.text1 { value = mac; changed = true };
}

-- The message of a server that gives an address out.
abbrev pub greeting : Message → ℕ → Message
greeting m i = record m {
  value = record m.value { value = i };
  kind = record m.kind { value = code your_device_address_is; change_received = false };
  text1 = record m.text1 { change_received = false };
  text4 = record m.text4 { change_received = false };
  text5 = record m.text5 { value = to_string m.kind.value };
}

-- A server that has greeted the board with this MAC address.
abbrev pub welcoming : Server → Bytes → Server
welcoming s mac =
    let (s', i) = get_or_create_device_index s mac in
    record s' { device_index = i; interrogating = true; object_index = 0; device_list_size = 0 }

-- A client that has taken its address.
abbrev pub at_address : Client → ℕ → Client
at_address c i = record c {
  device_index = i;
  comm = update_device_index c.comm 1 i;
  interrogated = true;
}

-- The index does not depend on the message, and the message and the sequence stay.
pub get_or_create_device_index-rest :
    (s : Server) (mac : Bytes) (m : Message)
    → let (s', i) = get_or_create_device_index s mac in
      (get_or_create_device_index (record s { message = m }) mac ≡ (record s' { message = m }, i))
      × (s'.interrupted_sequence ≡ s.interrupted_sequence)
unfolding get_or_create_device_index
get_or_create_device_index-rest s mac m = elim (Option-cases (find_mac mac s.mac_to_index)) [
  | inl e ↦ rw (get_or_create_device_index, e) (refl, refl)
  | inr (i, e) ↦ rw (get_or_create_device_index, e) (refl, refl)
]

pub if_true : {A : Type 0} (x y : A) (b : Bool) → b ≡ true → (if b then x else y) ≡ x
if_true x y true h = refl
if_true x y false h = absurd (cc h)

pub if_not : {A : Type 0} (x y : A) (b : Bool) → b ≡ false → (if not b then x else y) ≡ x
if_not x y false h = refl
if_not x y true h = absurd (cc h)

module _ (type_name : TypeInfo → Bytes) (raw : ℕ → Bool) (s : Server)
    (idle : s.interrogating ≡ false) where
  pub server_waits :
      s.message.kind.value ≡ code nothing
      → TCommServer.handle_overhead type_name raw s
        ≡ some (record s { message = reply s s.message.value.value s.message.kind.value })
  unfolding TCommServer.handle_overhead TCommServer.respond TCommServer.next_request
  server_waits h = rw h (rw idle refl)

  pub server_greets :
      s.message.kind.value ≡ code whats_my_device_address
      → s.message.text1.change_received ≡ true
      → let i = (get_or_create_device_index s s.message.text1.value).1 in
        TCommServer.handle_overhead type_name raw s
        ≡ some (record (welcoming s s.message.text1.value) { message = greeting s.message i })
  unfolding TCommServer.handle_overhead TCommServer.respond TCommServer.greet
  server_greets h news =
      let m : Message = record s.message {
        kind = record s.message.kind { change_received = false };
        text1 = record s.message.text1 { change_received = false };
        text4 = record s.message.text4 { change_received = false };
        text5 = record s.message.text5 { value = to_string s.message.kind.value };
      } in
      let heard : Server = record s { message = record m { text1 = s.message.text1 } } in
      ap (λ k. TCommServer.respond type_name raw heard (message_type k)) h
      ∙ ap some (
          if_not _ _ s.interrogating idle
          ∙ if_true _ _ s.message.text1.change_received news
          ∙ ap
              (λ (g : Server × ℕ). record g.0 {
                device_index = g.1;
                message = set_kind (set_value g.0.message g.1) your_device_address_is;
                interrogating = true;
                object_index = 0;
                device_list_size = 0;
              })
              ((get_or_create_device_index-rest s s.message.text1.value m).0))

module _ (mac : Bytes) (type_name : TypeInfo → Bytes) (now : ℕ) (c : Client) where
  pub client_asks :
      c.message.kind.value ≡ code nothing
      → c.device_index ≡ 0
      → c.await_turn ≡ false
      → TCommClient.handle_overhead mac type_name now c
        ≡ record c { message = asking c.message mac }
  unfolding TCommClient.handle_overhead TCommClient.respond
  client_asks h new ready = rw h (rw (new, ready) refl)

  pub client_takes :
      c.message.kind.value ≡ code your_device_address_is
      → c.message.text1.value ≡ mac
      → TCommClient.handle_overhead mac type_name now c
        ≡ record (at_address c (c.message.value.value % 65536)) {
          message = resaid c.message c.message.value.value (code nothing);
        }
  unfolding TCommClient.handle_overhead TCommClient.respond
  client_takes h own = rw h (rw (own, same_bytes_refl mac) refl)

pub asking-AreEdits : (m : Message) (mac : Bytes) → AreEdits m (asking m mac)
asking-AreEdits m mac = record {
  value = record { old = refl; index = refl };
  text1 = record { old = refl; index = refl };
  text2 = record { old = refl; index = refl };
  text3 = record { old = refl; index = refl };
  text4 = record { old = refl; index = refl };
  text5 = record { old = refl; index = refl };
  kind = record { old = refl; index = refl };
  testtype = record { old = refl; index = refl };
  echotype = record { old = refl; index = refl };
}

pub greeting-AreEdits : (m : Message) (i : ℕ) → AreEdits m (greeting m i)
greeting-AreEdits m i = record {
  value = record { old = refl; index = refl };
  text1 = record { old = refl; index = refl };
  text2 = record { old = refl; index = refl };
  text3 = record { old = refl; index = refl };
  text4 = record { old = refl; index = refl };
  text5 = record { old = refl; index = refl };
  kind = record { old = refl; index = refl };
  testtype = record { old = refl; index = refl };
  echotype = record { old = refl; index = refl };
}

pub asking-TextsFit :
    (m n : Message) (mac : Bytes) → AreLinked m n → length mac < 65535 → TextsFit (asking n mac)
asking-TextsFit m n mac l short = record {
  text1 = λ dirty. short;
  text2 = settled-TextFits n.text2 l.agreed.text2.there;
  text3 = settled-TextFits n.text3 l.agreed.text3.there;
  text4 = settled-TextFits n.text4 l.agreed.text4.there;
  text5 = settled-TextFits n.text5 l.agreed.text5.there;
}

pub greeting-TextsFit : (m n : Message) (i : ℕ) → AreLinked m n → TextsFit (greeting m i)
greeting-TextsFit m n i l = record {
  text1 = settled-TextFits m.text1 l.agreed.text1.here;
  text2 = settled-TextFits m.text2 l.agreed.text2.here;
  text3 = settled-TextFits m.text3 l.agreed.text3.here;
  text4 = settled-TextFits m.text4 l.agreed.text4.here;
  text5 = λ dirty. to_string-short m.kind.value;
}

-- What the server has of a client that asks: the address with a zero byte, as a change if it did not
-- hold that before.
pub asking-heard :
    (m n : Message) (mac : Bytes)
    → n.text1.value ≢ mac ++ 0 ∷ []
    → let text1 = (deliver (asking m mac) (after n)).text1 in
      (text1.value ≡ mac ++ 0 ∷ []) × (text1.change_received ≡ true)
unfolding deliver
asking-heard m n mac new =
    (refl, ap not (differ (after n).text1.value λ e. new (sym (after-value n).2 ∙ e)))
  where
    differ : (bs : Bytes) → bs ≢ mac ++ 0 ∷ [] → same_bytes (mac ++ 0 ∷ []) bs ≡ false
    differ bs ne = elim (Bool-cases (same_bytes (mac ++ 0 ∷ []) bs)) [
      | inl e ↦ absurd (ne (sym ((same_bytes_iff (mac ++ 0 ∷ []) bs).0 e)))
      | inr e ↦ e
    ]

-- The greeting leaves the client its own first text.
pub greeting-heard :
    (m n : Message) (i : ℕ) → AreLinked m n → (deliver (greeting m i) n).text1.value ≡ n.text1.value
unfolding deliver
greeting-heard m n i l =
    let o = m.text1 in
    let clean : is_dirty text_codec o ≡ false =
      rw (l.agreed.text1.here.unforced, l.agreed.text1.here.sent_last, same_bytes_refl o.value)
        refl in
    rw clean refl
