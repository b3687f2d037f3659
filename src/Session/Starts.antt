-- ===== src/Session/Starts.antt =====
-- From a client without an address to its objects at the server: TCommServer.h and TCommClient.h
-- (under TCommWinTerminal/lib/Communication and TCommEspTest/lib/ControlLibrary/Communication).
use tcomm_tests.Common.{
  ℕ, suc, ◌+◌, ◌*◌, ◌%◌, ◌<◌, ◌≡◌, ◌≢◌, refl, Bool, true, false, List, [], ◌∷◌, ◌++◌, Option, some,
  arith, Bytes, length, ◌∙◌, sym, ap,
}
use tcomm_tests.Common.Maps.{find}
use tcomm_tests.Object.Virtual.{TypeInfo}
use tcomm_tests.Communicator.Rename.{update_device_index-find}
use tcomm_tests.Message.{
  Message, nothing, whats_my_device_address, code, to_string, to_string-short,
}
use tcomm_tests.Message.Transfer.{Fits, deliver}
use tcomm_tests.Message.Links.{AreLinked, AreLinked-sym, after, after-value}
use tcomm_tests.TCommServer.{Server, get_or_create_device_index}
use tcomm_tests.TCommClient.{Client}
use tcomm_tests.Session.{Session, laps}
use tcomm_tests.Session.Turns.{
  spoken, server_turn-spoken, server_turn-edited, client_turn-edited, client_said-AreEdits,
  client_said-TextsFit, resaid-Says,
}
use tcomm_tests.Session.Laps.{run, laps-turns}
use tcomm_tests.Session.Questions.{reply, resaid}
use tcomm_tests.Session.Stages.{Tells}
use tcomm_tests.Session.Joins.{
  asking, greeting, welcoming, at_address, get_or_create_device_index-rest, server_waits,
  server_greets, client_asks, client_takes, asking-AreEdits, greeting-AreEdits, asking-TextsFit,
  greeting-TextsFit, asking-heard, greeting-heard,
}
use tcomm_tests.Session.Ends.{Ended, laps-Ended}

module _ (server_type_name : TypeInfo → Bytes) (raw : ℕ → Bool) (mac : Bytes)
    (type_name : TypeInfo → Bytes) (now : ℕ) where
  abbrev go : ℕ → Server → Client → Option Session
  go j s c = run server_type_name raw mac type_name now j (record { server = s; client = c })

  -- The client has asked for its address, which is news to the server.
  record Asked (s : Server) (c : Client) : Type 0 where
    pub here : Message
    pub there : Message
    pub runs :
        (j : ℕ) → go (suc j) s c ≡ go j (record s { message = here }) (record c { message = there })
    pub linked : AreLinked here there
    pub kind : here.kind.value ≡ code whats_my_device_address
    pub text1 : here.text1.value ≡ mac ++ 0 ∷ []
    pub news : here.text1.change_received ≡ true
    pub own : there.text1.value ≡ mac

  lap-asks_address :
      (s : Server) (c : Client)
      → AreLinked s.message c.message
      → s.message.kind.value ≡ code nothing
      → s.interrogating ≡ false
      → c.device_index ≡ 0
      → c.await_turn ≡ false
      → s.message.text1.value ≢ mac ++ 0 ∷ []
      → length mac < 65535
      → Asked s c
  lap-asks_address s c l idle free new ready unheard short =
      let t : Session = record { server = s; client = c } in
      let m = reply s s.message.value.value s.message.kind.value in
      let (turn, e) =
        server_turn-spoken server_type_name raw mac type_name now t (record s { message = m })
          s.message.value.value s.message.kind.value (to_string s.message.kind.value) l
          (l.fits.value, l.fits.kind) (to_string-short s.message.kind.value)
          (server_waits server_type_name raw s free idle) refl in
      let n = deliver m c.message in
      let t' = spoken server_type_name raw mac type_name now (record s { message = m }) c in
      let n_fits = (AreLinked-sym (after m) n e.linked).fits in
      let fits : Fits (asking n mac) = record {
        value = n_fits.value;
        kind = omega arith;
        testtype = n_fits.testtype;
        echotype = n_fits.echotype;
      } in
      let (turn', e') =
        client_turn-edited server_type_name raw mac type_name now t'
          (record c { message = asking n mac }) e.linked
          (client_asks mac type_name now t'.client (e.heard_kind ∙ idle) new ready)
          (asking-AreEdits n mac) fits (asking-TextsFit (after m) n mac e.linked short) in
      let (text1, news) = asking-heard n m mac unheard in
      record {
        here = deliver (asking n mac) (after m);
        there = after (asking n mac);
        runs = λ j. laps-turns server_type_name raw mac type_name now j t t' _ turn turn';
        linked = AreLinked-sym (after (asking n mac)) (deliver (asking n mac) (after m)) e'.linked;
        kind = e'.heard_kind;
        text1 = text1;
        news = news;
        own = (after-value (asking n mac)).2;
      }

  -- The server has given an address out, and the client has taken it.
  record Joined (s : Server) (c : Client) (i : ℕ) (s' : Server) : Type 0 where
    pub here : Message
    pub there : Message
    pub runs :
        (j : ℕ)
        → go (suc j) s c
          ≡ go j (record s' { message = here }) (record (at_address c i) { message = there })
    pub linked : AreLinked here there
    pub idle : here.kind.value ≡ code nothing

  lap-gives_address :
      (s : Server) (c : Client) (i : ℕ)
      → AreLinked s.message c.message
      → s.message.kind.value ≡ code whats_my_device_address
      → s.message.text1.change_received ≡ true
      → c.message.text1.value ≡ mac
      → s.interrogating ≡ false
      → i ≡ (get_or_create_device_index s s.message.text1.value).1
      → i < 65536
      → Joined s c i (welcoming s s.message.text1.value)
  lap-gives_address s c i l asked news own free is few =
      let t : Session = record { server = s; client = c } in
      let k = (get_or_create_device_index s s.message.text1.value).1 in
      let small : k < 65536 = rw (sym is) few in
      let m = greeting s.message k in
      let s' : Server = record (welcoming s s.message.text1.value) { message = m } in
      let fits : Fits m = record {
        value = omega (arith, small);
        kind = omega arith;
        testtype = l.fits.testtype;
        echotype = l.fits.echotype;
      } in
      let (turn, e) =
        server_turn-edited server_type_name raw mac type_name now t s' l
          (server_greets server_type_name raw s free asked news) (greeting-AreEdits s.message k)
          fits (greeting-TextsFit s.message c.message k l) in
      let n = deliver m c.message in
      let n_fits = (AreLinked-sym (after m) n e.linked).fits in
      let t' = spoken server_type_name raw mac type_name now s' c in
      let same : n.value.value % 65536 ≡ i = omega (arith, e.heard_value, is, few) in
      let c' : Client = record (at_address c (n.value.value % 65536)) {
        message = resaid n n.value.value (code nothing);
      } in
      let (turn', e') =
        client_turn-edited server_type_name raw mac type_name now t' c' e.linked
          (client_takes mac type_name now t'.client e.heard_kind
            (greeting-heard s.message c.message k l ∙ own))
          (client_said-AreEdits n n.value.value (code nothing) n.text1.value n.text2.value
            n.text3.value)
          (record {
            value = n_fits.value;
            kind = omega arith;
            testtype = n_fits.testtype;
            echotype = n_fits.echotype;
          })
          (client_said-TextsFit (after m) n n.value.value (code nothing) n.text1.value n.text2.value
            n.text3.value e.linked (resaid-Says (after m) n e.linked)) in
      let here = deliver c'.message (after m) in
      let there = after c'.message in
      record {
        here = here;
        there = there;
        runs = λ j.
            laps-turns server_type_name raw mac type_name now j t t' _ turn turn'
            ∙ ap
                (λ d.
                  go j (record s' { message = here }) (record (at_address c d) { message = there }))
                same;
        linked = AreLinked-sym there here e'.linked;
        idle = e'.heard_kind;
      }

  welcoming-message :
      (s : Server) (m m' : Message) (x y : Bytes)
      → x ≡ y
      → record (welcoming (record s { message = m }) x) { message = m' }
        ≡ record (welcoming s y) { message = m' }
  welcoming-message s m m' x y e =
      ap
        (λ (g : Server × ℕ). record g.0 {
          device_index = g.1;
          interrogating = true;
          object_index = 0;
          device_list_size = 0;
          message = m';
        })
        (ap (get_or_create_device_index (record s { message = m })) e
          ∙ (get_or_create_device_index-rest s y m).0)

  -- A client without an address, whose board the server greets in two laps.
  record Started (s : Server) (c : Client) (i : ℕ) : Type 0 where
    pub here : Message
    pub there : Message
    pub runs :
        (j : ℕ)
        → go (suc (suc j)) s c
          ≡ go j
              (record (welcoming s (mac ++ 0 ∷ [])) { message = here })
              (record (at_address c i) { message = there })
    pub linked : AreLinked here there
    pub idle : here.kind.value ≡ code nothing

  starts :
      (s : Server) (c : Client) (i : ℕ)
      → AreLinked s.message c.message
      → s.message.kind.value ≡ code nothing
      → s.interrogating ≡ false
      → c.device_index ≡ 0
      → c.await_turn ≡ false
      → s.message.text1.value ≢ mac ++ 0 ∷ []
      → length mac < 65535
      → i ≡ (get_or_create_device_index s (mac ++ 0 ∷ [])).1
      → i < 65536
      → Started s c i
  starts s c i l idle free new ready unheard short is few =
      let a = lap-asks_address s c l idle free new ready unheard short in
      let same : i
          ≡ (get_or_create_device_index (record s { message = a.here }) a.here.text1.value).1 =
        is
        ∙ sym (
            ap (λ (g : Server × ℕ). g.1)
              (ap (get_or_create_device_index (record s { message = a.here })) a.text1
                ∙ (get_or_create_device_index-rest s (mac ++ 0 ∷ []) a.here).0)) in
      let g =
        lap-gives_address (record s { message = a.here }) (record c { message = a.there }) i
          a.linked a.kind a.news a.own free same few in
      record {
        here = g.here;
        there = g.there;
        runs = λ j.
            a.runs (suc j)
            ∙ g.runs j
            ∙ ap (λ v. go j v (record (at_address c i) { message = g.there }))
                (welcoming-message s a.here g.here a.here.text1.value (mac ++ 0 ∷ []) a.text1);
        linked = g.linked;
        idle = g.idle;
      }

  module _ (s : Server) (c : Client) (os : List ℕ) (i : ℕ) (linked : AreLinked s.message c.message)
      (idle : s.message.kind.value ≡ code nothing) (free : s.interrogating ≡ false)
      (in_sequence : s.interrupted_sequence ≡ false)
      (unheard : s.message.text1.value ≢ mac ++ 0 ∷ []) (short : length mac < 65535)
      (new : c.device_index ≡ 0) (ready : c.await_turn ≡ false)
      (there : find 1 c.comm.device_object_map ≡ some os) (some_objects : length os ≢ 0)
      (few : length os < 65536) (is : i ≡ (get_or_create_device_index s (mac ++ 0 ∷ [])).1)
      (real : i ≢ 0) (other : i ≢ 1) (small : i < 65536)
      (tells : Tells type_name (at_address c i)) where
    begun : Started s c i
    begun = starts s c i linked idle free new ready unheard short is small

    abbrev greeter : Server
    greeter = record (welcoming s (mac ++ 0 ∷ [])) { message = begun.here }

    abbrev guest : Client
    guest = record (at_address c i) { message = begun.there }

    run_on : go (2 * length os + 6) s c ≡ go (2 * length os + 4) greeter guest
    run_on =
        let count : 2 * length os + 6 ≡ suc (suc (2 * length os + 4)) = omega arith in
        ap (λ j. go j s c) count ∙ begun.runs (2 * length os + 4)

    greeter-in_sequence : greeter.interrupted_sequence ≡ false
    greeter-in_sequence =
        (get_or_create_device_index-rest s (mac ++ 0 ∷ []) s.message).1 ∙ in_sequence

    guest-find : find i guest.comm.device_object_map ≡ some os
    guest-find = update_device_index-find c.comm 1 i os (λ e. other (sym e)) there

    -- A client that has no address yet and may speak, with between one and 65,535 objects under the
    -- device 1; texts of at most 65,534 bytes for its MAC address and for the name, the path and the
    -- type of each object that it has at the index below; a server that interrogates nobody, is in sequence, and does not already hold what
    -- the client says for its first text; a message on which both agree and that says nothing; and
    -- an index of 16 bits, other than 0 and 1, that the server has or makes for the client's MAC
    -- address. After two laps for each object and six more the client has asked for its address,
    -- has taken that index and keeps it, may speak, and its interrogation has ended on both sides: the server has made of
    -- its communicator what `HandleReceivedDeviceData` makes of the descriptions that it held and,
    -- behind them, those of all the client's objects in their order. No turn fails.
    pub starts-Ended :
        (m : Message) × (n : Message) × Ended server_type_name raw mac type_name now
          (record (welcoming s (mac ++ 0 ∷ [])) { message = m })
          (record (at_address c i) { message = n })
          (length os)
          (laps server_type_name raw mac type_name now
            (2 * length os + 6)
            (record { server = s; client = c }))
    starts-Ended = (
      begun.here,
      begun.there,
      rw run_on (
          laps-Ended server_type_name raw mac type_name now greeter guest os refl
            greeter-in_sequence refl real guest-find begun.linked begun.idle refl refl some_objects
            few tells),
    )
