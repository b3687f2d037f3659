-- ===== src/Session/Turns.antt =====
-- One turn of each side: TCommServer.h and TCommClient.h (under TCommWinTerminal/lib/Communication
-- and TCommEspTest/lib/ControlLibrary/Communication).
use tcomm_tests.Common.{ℕ, length, ◌<◌, ◌^◌, ◌≡◌, refl, Bool, false, some, Bytes}
use tcomm_tests.Object.Virtual.{TypeInfo}
use tcomm_tests.Message.{Message}
use tcomm_tests.Message.Transfer.{Fits, TextsFit, TextFits, deliver}
use tcomm_tests.Message.Links.{
  AreLinked, AreLinked-sym, AreEdits, Exchanged, edited-Exchanged, after, settled-TextFits,
}
use tcomm_tests.TCommServer
use tcomm_tests.TCommServer.{Server}
use tcomm_tests.TCommClient
use tcomm_tests.TCommClient.{Client}
use tcomm_tests.Session.{Session, server_turn, client_turn}

-- What a side of the interrogation makes of its message: a value and a kind, and the texts it sets.
abbrev pub server_said : Message → ℕ → ℕ → Bytes → Message
server_said m v k text5 = record m {
  value = record m.value { value = v };
  kind = record m.kind { value = k; change_received = false };
  text4 = record m.text4 { change_received = false };
  text5 = record m.text5 { value = text5 };
}

abbrev pub client_said : Message → ℕ → ℕ → Bytes → Bytes → Bytes → Message
client_said m v k text1 text2 text3 = record m {
  value = record m.value { value = v };
  kind = record m.kind { value = k; change_received = false };
  text1 = record m.text1 { value = text1 };
  text2 = record m.text2 { value = text2 };
  text3 = record m.text3 { value = text3 };
}

pub server_said-AreEdits :
    (m : Message) (v k : ℕ) (text5 : Bytes) → AreEdits m (server_said m v k text5)
server_said-AreEdits m v k text5 = record {
  value = record { old = refl; index = refl };
  text1 = record { old = refl; index = refl };
  text2 = record { old = refl; index = refl };
  text3 = record { old = refl; index = refl };
  text4 = record { old = refl; index = refl };
  text5 = record { old = refl; index = refl };
  kind = record { old = refl; index = refl };
  testtype = record { old = refl; index = refl };
  echotype = record { old = refl; index = refl };
}

pub client_said-AreEdits :
    (m : Message) (v k : ℕ) (text1 text2 text3 : Bytes)
    → AreEdits m (client_said m v k text1 text2 text3)
client_said-AreEdits m v k text1 text2 text3 = record {
  value = record { old = refl; index = refl };
  text1 = record { old = refl; index = refl };
  text2 = record { old = refl; index = refl };
  text3 = record { old = refl; index = refl };
  text4 = record { old = refl; index = refl };
  text5 = record { old = refl; index = refl };
  kind = record { old = refl; index = refl };
  testtype = record { old = refl; index = refl };
  echotype = record { old = refl; index = refl };
}

-- What the client says for a text is short enough to be sent, or nothing new.
abbrev pub Says : Message → Bytes → Bytes → Bytes → Type 0
Says m text1 text2 text3 =
    TextFits (record m.text1 { value = text1 })
    × TextFits (record m.text2 { value = text2 })
    × TextFits (record m.text3 { value = text3 })

pub resaid-Says : (m n : Message) → AreLinked m n → Says n n.text1.value n.text2.value n.text3.value
resaid-Says m n l = (
  settled-TextFits n.text1 l.agreed.text1.there,
  settled-TextFits n.text2 l.agreed.text2.there,
  settled-TextFits n.text3 l.agreed.text3.there,
)

pub server_said-TextsFit :
    (m n : Message) (v k : ℕ) (text5 : Bytes)
    → AreLinked m n
    → length text5 < 65535
    → TextsFit (server_said m v k text5)
server_said-TextsFit m n v k text5 l short = record {
  text1 = settled-TextFits m.text1 l.agreed.text1.here;
  text2 = settled-TextFits m.text2 l.agreed.text2.here;
  text3 = settled-TextFits m.text3 l.agreed.text3.here;
  text4 = settled-TextFits m.text4 l.agreed.text4.here;
  text5 = λ dirty. short;
}

pub client_said-TextsFit :
    (m n : Message) (v k : ℕ) (text1 text2 text3 : Bytes)
    → AreLinked m n
    → Says n text1 text2 text3
    → TextsFit (client_said n v k text1 text2 text3)
client_said-TextsFit m n v k text1 text2 text3 l says = record {
  text1 = says.0;
  text2 = says.1;
  text3 = says.2;
  text4 = settled-TextFits n.text4 l.agreed.text4.there;
  text5 = settled-TextFits n.text5 l.agreed.text5.there;
}

-- What a message with this value and kind needs to fit.
abbrev pub FitsWith : ℕ → ℕ → Type 0
FitsWith v k = (v < 256 ^ 4) × (k < 256 ^ 4)

server_said-Exchanged :
    (m m' n : Message) (v k : ℕ) (text5 : Bytes)
    → AreLinked m n
    → FitsWith v k
    → length text5 < 65535
    → m' ≡ server_said m v k text5
    → Exchanged m' n
server_said-Exchanged m m' n v k text5 l fits short said = rw (said) (
    edited-Exchanged m (server_said m v k text5) n l (server_said-AreEdits m v k text5)
      (record {
        value = fits.0;
        kind = fits.1;
        testtype = l.fits.testtype;
        echotype = l.fits.echotype;
      })
      (server_said-TextsFit m n v k text5 l short))

client_said-Exchanged :
    (m m' n : Message) (v k : ℕ) (text1 text2 text3 : Bytes)
    → AreLinked m n
    → FitsWith v k
    → Says m text1 text2 text3
    → m' ≡ client_said m v k text1 text2 text3
    → Exchanged m' n
client_said-Exchanged m m' n v k text1 text2 text3 l fits says said = rw (said) (
    edited-Exchanged m (client_said m v k text1 text2 text3) n l
      (client_said-AreEdits m v k text1 text2 text3)
      (record {
        value = fits.0;
        kind = fits.1;
        testtype = l.fits.testtype;
        echotype = l.fits.echotype;
      })
      (client_said-TextsFit n m v k text1 text2 text3 (AreLinked-sym m n l) says))

module _ (server_type_name : TypeInfo → Bytes) (raw : ℕ → Bool) (mac : Bytes)
    (type_name : TypeInfo → Bytes) (now : ℕ) where
  -- After the server's turn, and after the client's.
  abbrev pub spoken : Server → Client → Session
  spoken s c = record {
    server = record s { message = after s.message };
    client = record c { message = deliver s.message c.message };
  }

  abbrev pub answered : Server → Client → Session
  answered s c = record {
    server = record s { message = deliver c.message s.message };
    client = record c { message = after c.message };
  }

  pub server_turn-spoken :
      (t : Session) (s : Server) (v k : ℕ) (text5 : Bytes)
      → AreLinked t.server.message t.client.message
      → FitsWith v k
      → length text5 < 65535
      → TCommServer.handle_overhead server_type_name raw t.server ≡ some s
      → s.message ≡ server_said t.server.message v k text5
      → (server_turn server_type_name raw mac type_name now t ≡ some (spoken s t.client))
        × Exchanged s.message t.client.message
  unfolding server_turn
  server_turn-spoken t s v k text5 l fits short handled said =
      let e =
        server_said-Exchanged t.server.message s.message t.client.message v k text5 l fits short
          said in
      (rw (handled, server_turn) (rw (e.injected) refl), e)

  pub client_turn-answered :
      (t : Session) (v k : ℕ) (text1 text2 text3 : Bytes)
      → AreLinked t.server.message t.client.message
      → FitsWith v k
      → Says t.client.message text1 text2 text3
      → let c = TCommClient.handle_overhead mac type_name now t.client in
        c.message ≡ client_said t.client.message v k text1 text2 text3
        → (client_turn server_type_name raw mac type_name now t ≡ some (answered t.server c))
          × Exchanged c.message t.server.message
  unfolding client_turn
  client_turn-answered t v k text1 text2 text3 l fits says said =
      let c = TCommClient.handle_overhead mac type_name now t.client in
      let e =
        client_said-Exchanged t.client.message c.message t.server.message v k text1 text2 text3
          (AreLinked-sym t.server.message t.client.message l) fits says said in
      (rw (e.injected, client_turn) refl, e)

  pub server_turn-edited :
      (t : Session) (s : Server)
      → AreLinked t.server.message t.client.message
      → TCommServer.handle_overhead server_type_name raw t.server ≡ some s
      → AreEdits t.server.message s.message
      → Fits s.message
      → TextsFit s.message
      → (server_turn server_type_name raw mac type_name now t ≡ some (spoken s t.client))
        × Exchanged s.message t.client.message
  unfolding server_turn
  server_turn-edited t s l handled edits fits texts =
      let e = edited-Exchanged t.server.message s.message t.client.message l edits fits texts in
      (rw (handled, server_turn) (rw (e.injected) refl), e)

  client_turn-handled :
      (t : Session)
      → AreLinked t.server.message t.client.message
      → let c = TCommClient.handle_overhead mac type_name now t.client in
        AreEdits t.client.message c.message
        → Fits c.message
        → TextsFit c.message
        → (client_turn server_type_name raw mac type_name now t ≡ some (answered t.server c))
          × Exchanged c.message t.server.message
  unfolding client_turn
  client_turn-handled t l edits fits texts =
      let c = TCommClient.handle_overhead mac type_name now t.client in
      let back = AreLinked-sym t.server.message t.client.message l in
      let e = edited-Exchanged t.client.message c.message t.server.message back edits fits texts in
      (rw (e.injected, client_turn) refl, e)

  pub client_turn-edited :
      (t : Session) (c : Client)
      → AreLinked t.server.message t.client.message
      → TCommClient.handle_overhead mac type_name now t.client ≡ c
      → AreEdits t.client.message c.message
      → Fits c.message
      → TextsFit c.message
      → (client_turn server_type_name raw mac type_name now t ≡ some (answered t.server c))
        × Exchanged c.message t.server.message
  client_turn-edited t c l handled edits fits texts =
      rw handled at
        (client_turn-handled t l (rw handled edits) (rw handled fits) (rw handled texts))
