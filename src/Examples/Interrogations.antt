-- ===== src/Examples/Interrogations.antt =====
-- A whole interrogation between TComm/src/TCommServer.h and TCommClient.h (under
-- TCommWinTerminal/lib/Communication and TCommEspTest/lib/ControlLibrary/Communication).
use tcomm_tests.Common.{ℕ, zero, suc, ◌≡◌, refl, true, [], ◌∷◌, List, some, arith, same_bytes, sym}
use tcomm_tests.Common.Maps.{find}
use tcomm_tests.Object.{TemplateCommunicationObject, c_str}
use tcomm_tests.Object.Types.{int}
use tcomm_tests.Object.Virtual
use tcomm_tests.Object.Virtual.{TypeInfo, scalar}
use tcomm_tests.Communicator.{pointer_at, objects_of, get_communication_object}
use tcomm_tests.Message.{Message, nothing}
use tcomm_tests.Message.Slots.{Agree, whole}
use tcomm_tests.Message.Transfer.{IsIndexed, Fits, TextsFit}
use tcomm_tests.Message.Links.{AreLinked, AreEdits, IsEdit, Exchanged, edited-Exchanged}
use tcomm_tests.TypeRegistry.{find_type}
use tcomm_tests.TCommServer.{Server, DeviceData}
use tcomm_tests.TCommServer.Objects.{Known}
use tcomm_tests.TCommClient.{Client}
use tcomm_tests.Session.{laps}
use tcomm_tests.Session.Objects.{told}
use tcomm_tests.Session.Stages.{Tells}
use tcomm_tests.Session.Ends.{Ended, laps-Ended}
use tcomm_tests.Examples.Devices.{object, home-find}
use tcomm_tests.Examples.Sessions.{type_name, raw, mac, server, client}

-- An object of a message.
abbrev pub slot : {A : Type 0} → A → A → ℕ → TemplateCommunicationObject A
slot new old i = record (object new old i) { device_index = 0 }

-- A message that both sides hold.
abbrev pub shared : Message
shared = record {
  value = slot 4 4 0;
  text1 = slot mac mac 1;
  text2 = slot [] [] 2;
  text3 = slot [] [] 3;
  text4 = slot [] [] 4;
  text5 = slot [] [] 5;
  kind = slot 0 0 6;
  testtype = slot 0 0 7;
  echotype = slot 0 0 8;
}

settled_pair : {A B : Type 0} (view : A → B) (v : A) (i : ℕ) → Agree view (slot v v i) (slot v v i)
settled_pair view v i = record {
  same = refl;
  here = record { sent_last = refl; unforced = refl };
  there = record { sent_last = refl; unforced = refl };
}

shared-IsIndexed : IsIndexed shared
shared-IsIndexed = record {
  value = refl;
  text1 = refl;
  text2 = refl;
  text3 = refl;
  text4 = refl;
  text5 = refl;
  kind = refl;
  testtype = refl;
  echotype = refl;
}

pub shared-AreLinked : AreLinked shared shared
shared-AreLinked = record {
  agreed = record {
    value = settled_pair whole 4 0;
    text1 = settled_pair c_str mac 1;
    text2 = settled_pair c_str [] 2;
    text3 = settled_pair c_str [] 3;
    text4 = settled_pair c_str [] 4;
    text5 = settled_pair c_str [] 5;
    kind = settled_pair whole 0 6;
    testtype = settled_pair whole 0 7;
    echotype = settled_pair whole 0 8;
  };
  here = shared-IsIndexed;
  there = shared-IsIndexed;
  fits = record {
    value = omega arith;
    kind = omega arith;
    testtype = omega arith;
    echotype = omega arith;
  };
}

-- The same message with a new value and first text.
abbrev edited : Message
edited = record shared { value = slot 9 4 0; text1 = slot (b'C' ∷ []) mac 1 }

same_object : {A : Type 0} (o : TemplateCommunicationObject A) → IsEdit o o
same_object o = record { old = refl; index = refl }

shared-AreEdits : AreEdits shared edited
shared-AreEdits = record {
  value = record { old = refl; index = refl };
  text1 = record { old = refl; index = refl };
  text2 = same_object shared.text2;
  text3 = same_object shared.text3;
  text4 = same_object shared.text4;
  text5 = same_object shared.text5;
  kind = same_object shared.kind;
  testtype = same_object shared.testtype;
  echotype = same_object shared.echotype;
}

edited-Fits : Fits edited
edited-Fits = record {
  value = omega arith;
  kind = omega arith;
  testtype = omega arith;
  echotype = omega arith;
}

edited-TextsFit : TextsFit edited
edited-TextsFit = record {
  text1 = λ dirty. omega arith;
  text2 = λ dirty. omega arith;
  text3 = λ dirty. omega arith;
  text4 = λ dirty. omega arith;
  text5 = λ dirty. omega arith;
}

edited-Exchanged_example : Exchanged edited shared
edited-Exchanged_example =
    edited-Exchanged shared edited shared shared-AreLinked shared-AreEdits edited-Fits
      edited-TextsFit

-- The server before its first question, and the client with its two objects.
abbrev asking : Server
asking = record server { message = shared; device_list_size = 0 }

abbrev asked : Client
asked = record (client nothing []) { message = shared; device_index = 1; interrogated = true }

asked-Tells : Tells type_name asked
unfolding get_communication_object pointer_at objects_of find c_str Virtual.get_name
    Virtual.get_path Virtual.get_type
asked-Tells zero = (omega arith, omega arith, omega arith)
asked-Tells (suc zero) = (omega arith, omega arith, omega arith)
asked-Tells (suc (suc i)) = (omega arith, omega arith, omega arith)

laps-Ended_example :
    Ended type_name raw mac type_name 10 asking asked 2
      (laps type_name raw mac type_name 10 8 (record { server = asking; client = asked }))
laps-Ended_example =
    laps-Ended type_name raw mac type_name 10 asking asked (0 ∷ 1 ∷ []) refl refl refl (λ h. cc h)
      home-find shared-AreLinked refl refl refl (λ h. cc h) (omega arith) asked-Tells

abbrev stories : List DeviceData
stories = told type_name asked 0 2

abbrev pub story : DeviceData
story = record { name = b'n' ∷ []; path = b'p' ∷ []; data_type = b'i' ∷ [] }

story-type : find_type asking.registry (c_str story.data_type) ≡ some (scalar int)
unfolding find_type c_str same_bytes
story-type = refl

pub two-Known : Known type_name raw asking.registry 4 (story ∷ story ∷ [])
two-Known zero e h =
    let same : story ≡ e = cc h in (scalar int, rw (sym same) story-type, λ h'. cc h')
two-Known (suc zero) e h =
    let same : story ≡ e = cc h in (scalar int, rw (sym same) story-type, λ h'. cc h')
two-Known (suc (suc k)) e h = absurd (cc h)
