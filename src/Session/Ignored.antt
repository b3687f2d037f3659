-- ===== src/Session/Ignored.antt =====
-- A request that the server does not take for one: TCommServer.h and TCommClient.h
-- (under TCommWinTerminal/lib/Communication and TCommEspTest/lib/ControlLibrary/Communication).
use tcomm_tests.Common.{
  ℕ, ◌≡◌, refl, Bool, true, false, not, [], ◌∷◌, ◌++◌, some, Bytes, ◌∙◌, ap, inl, inr, Bool-cases,
  same_bytes, same_bytes_refl, if◌then◌else◌,
}
use tcomm_tests.Timer.{Timer, start, stop, done}
use tcomm_tests.Timer
use tcomm_tests.Object.{TemplateCommunicationObject, is_dirty, update}
use tcomm_tests.Object.Types.{Codec, text_codec}
use tcomm_tests.Object.Virtual.{TypeInfo}
use tcomm_tests.Message.{
  to_string-short, Message, update_message, nothing, whats_my_device_address, code, message_type,
}
use tcomm_tests.Message.Transfer.{TextsFit, deliver}
use tcomm_tests.Message.Links.{settled-TextFits, AreLinked, AreEdits, after, after-value}
use tcomm_tests.TCommServer
use tcomm_tests.TCommServer.{Server}
use tcomm_tests.TCommClient
use tcomm_tests.TCommClient.{Client}
use tcomm_tests.Session.Questions.{reply, resaid}
use tcomm_tests.Session.Joins.{asking, if_not}

update-change_received :
    {A : Type 0} (c : Codec A) (o : TemplateCommunicationObject A)
    → (update c o).0.change_received ≡ o.change_received
unfolding update
update-change_received c o = elim (Bool-cases (is_dirty c o)) [
  | inl dirty ↦ rw dirty refl
  | inr clean ↦ rw clean refl
]

-- A first text that is sent to a server that holds it.
pub asking-unheard :
    (m n : Message) (mac : Bytes)
    → n.text1.value ≡ mac ++ 0 ∷ []
    → let text1 = (deliver (asking m mac) (after n)).text1 in
      (text1.value ≡ mac ++ 0 ∷ []) × (text1.change_received ≡ false)
unfolding deliver
asking-unheard m n mac held = (
  refl,
  ap (λ bs. not (same_bytes (mac ++ 0 ∷ []) bs)) ((after-value n).2 ∙ held)
      ∙ ap not (same_bytes_refl (mac ++ 0 ∷ [])),
)

-- The server's message after a request that it does not take for one.
abbrev pub ignoring : Server → Message
ignoring s = record (reply s s.message.value.value s.message.kind.value) {
  text1 = record s.message.text1 { change_received = false };
}

pub after-unread : (s : Server) → (after (ignoring s)).text1.change_received ≡ false
unfolding update_message
after-unread s = update-change_received text_codec (ignoring s).text1

-- A first text that is not sent leaves the other side's as it is.
pub settled-text1 :
    (m n : Message)
    → AreLinked m n
    → (m' : Message) → m'.text1 ≡ m.text1
    → (p : Message) → (deliver m' p).text1 ≡ p.text1
unfolding deliver
settled-text1 m n l m' same p =
    let clean : is_dirty text_codec m.text1 ≡ false =
      rw
        (l.agreed.text1.here.unforced, l.agreed.text1.here.sent_last, same_bytes_refl m.text1.value)
        refl in
    rw (ap (λ (o : TemplateCommunicationObject Bytes). is_dirty text_codec o) same ∙ clean) refl

pub ignoring-AreEdits : (s : Server) → AreEdits s.message (ignoring s)
ignoring-AreEdits s = record {
  value = record { old = refl; index = refl };
  text1 = record { old = refl; index = refl };
  text2 = record { old = refl; index = refl };
  text3 = record { old = refl; index = refl };
  text4 = record { old = refl; index = refl };
  text5 = record { old = refl; index = refl };
  kind = record { old = refl; index = refl };
  testtype = record { old = refl; index = refl };
  echotype = record { old = refl; index = refl };
}

pub if_false : {A : Type 0} (x y : A) (b : Bool) → b ≡ false → (if b then x else y) ≡ y
if_false x y false h = refl
if_false x y true h = absurd (cc h)

pub server_ignores :
    (type_name : TypeInfo → Bytes) (raw : ℕ → Bool) (s : Server)
    → s.interrogating ≡ false
    → s.message.kind.value ≡ code whats_my_device_address
    → s.message.text1.change_received ≡ false
    → TCommServer.handle_overhead type_name raw s ≡ some (record s { message = ignoring s })
unfolding TCommServer.handle_overhead TCommServer.respond TCommServer.greet
server_ignores type_name raw s free asked unread =
    let heard : Server = record s {
      message = reply s s.message.value.value s.message.kind.value;
    } in
    ap (λ k. TCommServer.respond type_name raw heard (message_type k)) asked
    ∙ ap some
        (if_not _ _ s.interrogating free ∙ if_false _ _ s.message.text1.change_received unread)

pub ignoring-TextsFit : (s : Server) (n : Message) → AreLinked s.message n → TextsFit (ignoring s)
ignoring-TextsFit s n l = record {
  text1 = settled-TextFits s.message.text1 l.agreed.text1.here;
  text2 = settled-TextFits s.message.text2 l.agreed.text2.here;
  text3 = settled-TextFits s.message.text3 l.agreed.text3.here;
  text4 = settled-TextFits s.message.text4 l.agreed.text4.here;
  text5 = λ dirty. to_string-short s.message.kind.value;
}

-- The client while its request stands: only its timer runs, or it takes the request back.
abbrev pub waited : Client → ℕ → Client
waited c now =
    let t = start (Timer.run c.response_timeout now) in
    if done t
    then record c {
      response_timeout = stop t;
      message = resaid c.message c.message.value.value (code nothing);
    }
    else record c {
      response_timeout = t;
      message = resaid c.message c.message.value.value c.message.kind.value;
    }

pub client_waits :
    (mac : Bytes) (type_name : TypeInfo → Bytes) (now : ℕ) (c : Client)
    → c.message.kind.value ≡ code whats_my_device_address
    → TCommClient.handle_overhead mac type_name now c ≡ waited c now
unfolding TCommClient.handle_overhead TCommClient.respond
client_waits mac type_name now c asked =
    let heard : Client = record c {
      message = resaid c.message c.message.value.value c.message.kind.value;
    } in
    ap (λ k. TCommClient.respond mac type_name now heard (message_type k)) asked
