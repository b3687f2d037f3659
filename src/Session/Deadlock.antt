-- ===== src/Session/Deadlock.antt =====
-- A client that the server does not hear: TCommServer.h and TCommClient.h (under
-- TCommWinTerminal/lib/Communication and TCommEspTest/lib/ControlLibrary/Communication).
use tcomm_tests.Common.{
  length, ℕ, ◌≡◌, ◌⊎◌, refl, Bool, false, [], ◌∷◌, ◌++◌, Option, some, arith, Bytes, ◌∙◌, ap, inl,
  inr, Bool-cases, List, ◌<◌, ◌^◌,
}
use tcomm_tests.Timer.{Timer, start, stop, done}
use tcomm_tests.Timer
use tcomm_tests.Object.{TemplateCommunicationObject}
use tcomm_tests.Object.Virtual.{TypeInfo}
use tcomm_tests.Message.{
  to_string-short, Message, nothing, whats_my_device_address, code, to_string,
}
use tcomm_tests.Message.Transfer.{Fits, deliver}
use tcomm_tests.Message.Links.{AreLinked, AreLinked-sym, Exchanged, after, after-value}
use tcomm_tests.TCommServer.{Server}
use tcomm_tests.TCommClient
use tcomm_tests.TCommClient.{Client}
use tcomm_tests.Session.{Session, laps, laps_at, server_turn}
use tcomm_tests.Session.Turns.{
  server_said-TextsFit, client_said-TextsFit, resaid-Says, spoken, answered, server_said-AreEdits,
  client_said-AreEdits, server_turn-edited, client_turn-edited,
}
use tcomm_tests.Session.Laps.{laps-turns}
use tcomm_tests.Session.Questions.{reply, resaid}
use tcomm_tests.Session.Joins.{
  asking-TextsFit, asking, asking-AreEdits, server_waits, client_asks, if_true,
}
use tcomm_tests.Session.Ignored.{
  ignoring-TextsFit, asking-unheard, settled-text1, ignoring, ignoring-AreEdits, after-unread,
  server_ignores, client_waits, if_false,
}

module _ (server_type_name : TypeInfo → Bytes) (raw : ℕ → Bool) (mac : Bytes)
    (type_name : TypeInfo → Bytes) where
  -- A client without an address, and a server that holds the text of its request and does not
  -- interrogate it.
  pub record InVain (s : Server) (c : Client) : Type 0 where
    pub linked : AreLinked s.message c.message
    pub free : s.interrogating ≡ false
    pub new : c.device_index ≡ 0
    pub ready : c.await_turn ≡ false
    pub short : length mac < 65535
    pub held : s.message.text1.value ≡ mac ++ 0 ∷ []
    pub stage :
        (s.message.kind.value ≡ code nothing)
        ⊎ ((s.message.kind.value ≡ code whats_my_device_address)
            × (s.message.text1.change_received ≡ false))

  -- Where a session comes to, in which the server has changed in its message alone.
  pub record Reaches (t : Session) (result : Option Session) : Type 0 where
    pub final : Session
    pub reached : result ≡ some final
    pub same : final.server ≡ record t.server { message = final.server.message }
    pub still : InVain final.server final.client

  lap_idle :
      (now : ℕ) (t : Session)
      → InVain t.server t.client
      → t.server.message.kind.value ≡ code nothing
      → Reaches t (laps server_type_name raw mac type_name now 1 t)
  unfolding laps
  lap_idle now t v idle =
      let s = t.server in
      let c = t.client in
      let m = reply s s.message.value.value s.message.kind.value in
      let (turn, e) =
        server_turn-edited server_type_name raw mac type_name now t (record s { message = m })
          v.linked (server_waits server_type_name raw s v.free idle)
          (server_said-AreEdits s.message s.message.value.value s.message.kind.value
            (to_string s.message.kind.value))
          (record {
            value = v.linked.fits.value;
            kind = v.linked.fits.kind;
            testtype = v.linked.fits.testtype;
            echotype = v.linked.fits.echotype;
          })
          (server_said-TextsFit s.message c.message s.message.value.value s.message.kind.value
            (to_string s.message.kind.value) v.linked (to_string-short s.message.kind.value)) in
      let n = deliver m c.message in
      let t' = spoken server_type_name raw mac type_name now (record s { message = m }) c in
      let n_fits = (AreLinked-sym (after m) n e.linked).fits in
      let fits : Fits (asking n mac) = record {
        value = n_fits.value;
        kind = omega arith;
        testtype = n_fits.testtype;
        echotype = n_fits.echotype;
      } in
      let (turn', e') =
        client_turn-edited server_type_name raw mac type_name now t'
          (record c { message = asking n mac }) e.linked
          (client_asks mac type_name now t'.client (e.heard_kind ∙ idle) v.new v.ready)
          (asking-AreEdits n mac) fits (asking-TextsFit (after m) n mac e.linked v.short) in
      let (text1, unread) = asking-unheard n m mac v.held in
      record {
        final =
            answered server_type_name raw mac type_name now t'.server
              (record c { message = asking n mac });
        reached = laps-turns server_type_name raw mac type_name now 0 t t' _ turn turn';
        same = refl;
        still = record {
          linked =
              AreLinked-sym (after (asking n mac)) (deliver (asking n mac) (after m)) e'.linked;
          free = v.free;
          new = v.new;
          ready = v.ready;
          short = v.short;
          held = text1;
          stage = inr (e'.heard_kind, unread);
        };
      }

  -- The server's turn while the request stands.
  lap_ignored :
      (now : ℕ) (t : Session)
      → InVain t.server t.client
      → t.server.message.kind.value ≡ code whats_my_device_address
      → t.server.message.text1.change_received ≡ false
      → let m = ignoring t.server in
        (server_turn server_type_name raw mac type_name now t
          ≡ some (
              spoken server_type_name raw mac type_name now
                (record t.server { message = m })
                t.client))
        × Exchanged m t.client.message
  lap_ignored now t v asked unread =
      server_turn-edited server_type_name raw mac type_name now t
        (record t.server { message = ignoring t.server }) v.linked
        (server_ignores server_type_name raw t.server v.free asked unread)
        (ignoring-AreEdits t.server)
        (record {
          value = v.linked.fits.value;
          kind = v.linked.fits.kind;
          testtype = v.linked.fits.testtype;
          echotype = v.linked.fits.echotype;
        })
        (ignoring-TextsFit t.server t.client.message v.linked)

  -- The client's turn while the request stands: what it says is this kind and nothing new.
  lap_stands :
      (now : ℕ) (t : Session)
      → InVain t.server t.client
      → t.server.message.kind.value ≡ code whats_my_device_address
      → t.server.message.text1.change_received ≡ false
      → (n : Message) → n ≡ deliver (ignoring t.server) t.client.message
      → (c : Client) (k : ℕ)
      → TCommClient.handle_overhead mac type_name now (record t.client { message = n }) ≡ c
      → c.message ≡ resaid n n.value.value k
      → c.device_index ≡ 0
      → c.await_turn ≡ false
      → k < 256 ^ 4
      → (k ≡ code nothing) ⊎ (k ≡ code whats_my_device_address)
      → Reaches t (laps server_type_name raw mac type_name now 1 t)
  unfolding laps
  lap_stands now t v asked unread n is c k handled said new ready small kinds =
      let m = ignoring t.server in
      let (turn, e) = lap_ignored now t v asked unread in
      let back : AreLinked (after m) n = rw is e.linked in
      let n_fits = (AreLinked-sym (after m) n back).fits in
      let t' : Session = record {
        server = record t.server { message = after m };
        client = record t.client { message = n };
      } in
      let turn_is : server_turn server_type_name raw mac type_name now t ≡ some t' = rw is turn in
      let (turn', e') =
        client_turn-edited server_type_name raw mac type_name now t' c back handled
          (rw said
            (client_said-AreEdits n n.value.value k n.text1.value n.text2.value n.text3.value))
          (rw said (record {
            value = n_fits.value;
            kind = small;
            testtype = n_fits.testtype;
            echotype = n_fits.echotype;
          }))
          (rw said (
            client_said-TextsFit (after m) n n.value.value k n.text1.value n.text2.value
              n.text3.value back (resaid-Says (after m) n back))) in
      let text1 =
        ap (λ (o : TemplateCommunicationObject Bytes). o)
          (settled-text1 n (after m) (AreLinked-sym (after m) n back) c.message
            (ap (λ (x : Message). x.text1) said) (after m)) in
      record {
        final = answered server_type_name raw mac type_name now t'.server c;
        reached = laps-turns server_type_name raw mac type_name now 0 t t' _ turn_is turn';
        same = refl;
        still = record {
          short = v.short;
          linked = AreLinked-sym (after c.message) (deliver c.message (after m)) e'.linked;
          free = v.free;
          new = new;
          ready = ready;
          held =
              ap (λ (o : TemplateCommunicationObject Bytes). o.value) text1
              ∙ (after-value m).2
              ∙ v.held;
          stage = elim kinds [
            | inl h ↦ inl (e'.heard_kind ∙ ap (λ (x : Message). x.kind.value) said ∙ h)
            | inr h ↦ inr (
              e'.heard_kind ∙ ap (λ (x : Message). x.kind.value) said ∙ h,
              ap (λ (o : TemplateCommunicationObject Bytes). o.change_received) text1
                  ∙ after-unread t.server,
            )
          ];
        };
      }

  lap_stood :
      (now : ℕ) (t : Session)
      → InVain t.server t.client
      → t.server.message.kind.value ≡ code whats_my_device_address
      → t.server.message.text1.change_received ≡ false
      → Reaches t (laps server_type_name raw mac type_name now 1 t)
  lap_stood now t v asked unread =
      let n = deliver (ignoring t.server) t.client.message in
      let (turn, e) = lap_ignored now t v asked unread in
      let there : Client = record t.client { message = n } in
      let asking_still : n.kind.value ≡ code whats_my_device_address = e.heard_kind ∙ asked in
      let waits = client_waits mac type_name now there asking_still in
      let timer = start (Timer.run t.client.response_timeout now) in
      elim (Bool-cases (done timer)) [
        | inl late ↦
            lap_stands now t v asked unread n refl
              (record there {
                response_timeout = stop timer;
                message = resaid n n.value.value (code nothing);
              })
              (code nothing) (waits ∙ if_true _ _ (done timer) late) refl v.new v.ready
              (omega arith) (inl refl)
        | inr soon ↦
            lap_stands now t v asked unread n refl
              (record there {
                response_timeout = timer;
                message = resaid n n.value.value n.kind.value;
              })
              n.kind.value (waits ∙ if_false _ _ (done timer) soon) refl v.new v.ready
              (rw asking_still (omega arith)) (inr asking_still)
      ]

  lap-InVain :
      (now : ℕ) (t : Session)
      → InVain t.server t.client
      → Reaches t (laps server_type_name raw mac type_name now 1 t)
  lap-InVain now t v = elim v.stage [
    | inl idle ↦ lap_idle now t v idle
    | inr h ↦ lap_stood now t v h.0 h.1
  ]

  laps_at-reached :
      (now : ℕ) (later : List ℕ) (t t' : Session)
      → laps server_type_name raw mac type_name now 1 t ≡ some t'
      → laps_at server_type_name raw mac type_name (now ∷ later) t
        ≡ laps_at server_type_name raw mac type_name later t'
  unfolding laps_at
  laps_at-reached now later t t' h = rw (h, laps_at) refl

  laps_at-InVain :
      (times : List ℕ) (t : Session)
      → InVain t.server t.client
      → Reaches t (laps_at server_type_name raw mac type_name times t)
  unfolding laps_at
  laps_at-InVain [] t v = record { final = t; reached = refl; same = refl; still = v }
  laps_at-InVain (now ∷ later) t v =
      let r = lap-InVain now t v in
      let rest = laps_at-InVain later r.final r.still in
      record {
        final = rest.final;
        reached = laps_at-reached now later t r.final r.reached ∙ rest.reached;
        same =
            rest.same
            ∙ ap (λ (s : Server). record s { message = rest.final.server.message }) r.same;
        still = rest.still;
      }

  -- A client that has no address yet and may speak; a server that interrogates nobody; a message on
  -- which both agree, that says nothing, and whose first text at the server is already what the
  -- client says for its request, its MAC address, of at most 65,534 bytes, with a zero byte. However many laps both take, at
  -- whatever times: no turn fails, the server has changed in its message alone, it interrogates
  -- nobody, and the client still has no address.
  pub stays_unheard :
      (times : List ℕ) (s : Server) (c : Client)
      → AreLinked s.message c.message
      → s.message.kind.value ≡ code nothing
      → s.interrogating ≡ false
      → s.message.text1.value ≡ mac ++ 0 ∷ []
      → length mac < 65535
      → c.device_index ≡ 0
      → c.await_turn ≡ false
      → let t : Session = record { server = s; client = c } in
        Reaches t (laps_at server_type_name raw mac type_name times t)
  stays_unheard times s c linked idle free held short new ready =
      laps_at-InVain times (record { server = s; client = c })
        (record {
          linked = linked;
          free = free;
          new = new;
          ready = ready;
          short = short;
          held = held;
          stage = inl idle;
        })
