-- ===== src/Examples/Deadlock.antt =====
-- A board that asks a second time: TCommServer.h and TCommClient.h (under
-- TCommWinTerminal/lib/Communication and TCommEspTest/lib/ControlLibrary/Communication).
use tcomm_tests.Common.{arith, refl, [], ◌∷◌, ◌++◌}
use tcomm_tests.Message.{Message}
use tcomm_tests.TCommServer.{Server}
use tcomm_tests.Session.{Session, laps_at}
use tcomm_tests.Session.Deadlock.{Reaches, stays_unheard}
use tcomm_tests.Message.Links.{AreLinked}
use tcomm_tests.Message.Slots.{Agree}
use tcomm_tests.Object.{c_str}
use tcomm_tests.Examples.Sessions.{type_name, raw, mac}
use tcomm_tests.Examples.Interrogations.{shared, shared-AreLinked, slot}
use tcomm_tests.Examples.Starts.{waiting, new_board}

-- The server has the first text as it arrived from the board, with its zero byte.
abbrev heard : Message
heard = record shared { text1 = slot (mac ++ 0 ∷ []) (mac ++ 0 ∷ []) 1 }

heard-text1 : Agree c_str heard.text1 shared.text1
unfolding c_str
heard-text1 = record {
  same = refl;
  here = record { sent_last = refl; unforced = refl };
  there = record { sent_last = refl; unforced = refl };
}

heard-AreLinked : AreLinked heard shared
heard-AreLinked =
    let l = shared-AreLinked in
    record {
      agreed = record {
        value = l.agreed.value;
        text1 = heard-text1;
        text2 = l.agreed.text2;
        text3 = l.agreed.text3;
        text4 = l.agreed.text4;
        text5 = l.agreed.text5;
        kind = l.agreed.kind;
        testtype = l.agreed.testtype;
        echotype = l.agreed.echotype;
      };
      here = record {
        value = refl;
        text1 = refl;
        text2 = refl;
        text3 = refl;
        text4 = refl;
        text5 = refl;
        kind = refl;
        testtype = refl;
        echotype = refl;
      };
      there = l.there;
      fits = record {
        value = l.fits.value;
        kind = l.fits.kind;
        testtype = l.fits.testtype;
        echotype = l.fits.echotype;
      };
    }

abbrev deaf : Server
deaf = record waiting { message = heard }

abbrev here : Session
here = record { server = deaf; client = new_board }

stays_unheard_example :
    Reaches type_name raw mac type_name here
      (laps_at type_name raw mac type_name (10 ∷ 700 ∷ 90000 ∷ 5 ∷ []) here)
stays_unheard_example =
    stays_unheard type_name raw mac type_name (10 ∷ 700 ∷ 90000 ∷ 5 ∷ []) deaf new_board
      heard-AreLinked refl refl refl (omega arith) refl refl
