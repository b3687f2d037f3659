-- ===== src/Session/Laps.antt =====
-- The laps of an interrogation, one question and its answer at a time: TCommServer.h and TCommClient.h
-- (under TCommWinTerminal/lib/Communication and TCommEspTest/lib/ControlLibrary/Communication).
use tcomm_tests.Common.{
  ℕ, suc, length, ◌<◌, ◌^◌, ◌≡◌, ◌≢◌, refl, Bool, Option, some, arith, Bytes, ◌∙◌, ap,
}
use tcomm_tests.Object.Virtual.{TypeInfo}
use tcomm_tests.Message.{Message, nothing, code, to_string, to_string-short}
use tcomm_tests.Message.Transfer.{deliver}
use tcomm_tests.Message.Links.{AreLinked, AreLinked-sym, Exchanged, after}
use tcomm_tests.TCommServer
use tcomm_tests.TCommServer.{Server, DeviceData}
use tcomm_tests.TCommClient
use tcomm_tests.TCommClient.{Client}
use tcomm_tests.Session.{Session, server_turn, client_turn, laps}
use tcomm_tests.Session.Turns.{
  server_said, client_said, Says, resaid-Says, FitsWith, spoken, answered, server_turn-spoken,
  client_turn-answered,
}
use tcomm_tests.Session.Questions.{reply, client_idle}

module _ (server_type_name : TypeInfo → Bytes) (raw : ℕ → Bool) (mac : Bytes)
    (type_name : TypeInfo → Bytes) (now : ℕ) where
  abbrev pub run : ℕ → Session → Option Session
  run j t = laps server_type_name raw mac type_name now j t

  pub laps-turns :
      (j : ℕ) (t t' t'' : Session)
      → server_turn server_type_name raw mac type_name now t ≡ some t'
      → client_turn server_type_name raw mac type_name now t' ≡ some t''
      → run (suc j) t ≡ run j t''
  unfolding laps
  laps-turns j t t' t'' h h' = rw (h, laps) (rw (h', laps) refl)

  -- What a lap comes to: both sides of the new session, and what the client has said.
  pub record Lap (t : Session) (next : Message → Message → Session) (answer : Message → Type 0)
      : Type 0 where
    pub here : Message
    pub there : Message
    pub runs : (j : ℕ) → run (suc j) t ≡ run j (next here there)
    pub linked : AreLinked here there
    pub answers : answer here

  -- A question and its answer.
  lap :
      (t : Session) (s : Server) (v k : ℕ) (text5 : Bytes) (c : Client) (v' k' : ℕ)
      (text1 text2 text3 : Bytes)
      → AreLinked t.server.message t.client.message
      → FitsWith v k
      → length text5 < 65535
      → TCommServer.handle_overhead server_type_name raw t.server ≡ some s
      → s.message ≡ server_said t.server.message v k text5
      → FitsWith v' k'
      → Says (deliver s.message t.client.message) text1 text2 text3
      → TCommClient.handle_overhead mac type_name now
          (spoken server_type_name raw mac type_name now s t.client).client
        ≡ c
      → c.message ≡ client_said (deliver s.message t.client.message) v' k' text1 text2 text3
      → ((j : ℕ)
          → run (suc j) t
            ≡ run j (
                answered server_type_name raw mac type_name now
                  (record s { message = after s.message })
                  c))
        × Exchanged c.message (after s.message)
  lap t s v k text5 c v' k' text1 text2 text3 linked fits short handled said fits' says handled'
        said' =
      let (turn, e) =
        server_turn-spoken server_type_name raw mac type_name now t s v k text5 linked fits short
          handled said in
      let t' = spoken server_type_name raw mac type_name now s t.client in
      let (turn', e') =
        client_turn-answered server_type_name raw mac type_name now t' v' k' text1 text2 text3
          e.linked fits' says (rw (handled') said') in
      (
        λ j.
            laps-turns j t t' (answered server_type_name raw mac type_name now t'.server c) turn
              (rw (handled') at turn'),
        (rw (handled') at e'),
      )

  pub heard :
      (t : Session) (s' : Server) (v k : ℕ)
      → AreLinked t.server.message t.client.message
      → FitsWith v k
      → TCommServer.handle_overhead server_type_name raw t.server ≡ some s'
      → s'.message ≡ reply t.server v k
      → Exchanged s'.message t.client.message
  heard t s' v k linked fits handled said =
      (server_turn-spoken server_type_name raw mac type_name now t s' v k
        (to_string t.server.message.kind.value) linked fits
        (to_string-short t.server.message.kind.value) handled said).1

  pub lap_of :
      (t : Session) (s' : Server) (v k : ℕ) (c' : Client) (v' k' : ℕ) (text1 text2 text3 : Bytes)
      {answer : Message → Type 0}
      → AreLinked t.server.message t.client.message
      → FitsWith v k
      → TCommServer.handle_overhead server_type_name raw t.server ≡ some s'
      → s'.message ≡ reply t.server v k
      → FitsWith v' k'
      → Says (deliver s'.message t.client.message) text1 text2 text3
      → TCommClient.handle_overhead mac type_name now
          (spoken server_type_name raw mac type_name now s' t.client).client
        ≡ c'
      → c'.message ≡ client_said (deliver s'.message t.client.message) v' k' text1 text2 text3
      → ((h : Message)
          → h ≡ deliver c'.message (after s'.message)
          → Exchanged c'.message (after s'.message)
          → answer h)
      → Lap t
          (λ m n. record { server = record s' { message = m }; client = record c' { message = n } })
          answer
  lap_of t s' v k c' v' k' text1 text2 text3 l fits handled said fits' says handled' said' answer =
      let (runs, back) =
        lap t s' v k (to_string t.server.message.kind.value) c' v' k' text1 text2 text3 l fits
          (to_string-short t.server.message.kind.value) handled said fits' says handled' said' in
      record {
        here = deliver c'.message (after s'.message);
        there = after c'.message;
        runs = runs;
        linked =
            AreLinked-sym (after c'.message) (deliver c'.message (after s'.message)) back.linked;
        answers = answer (deliver c'.message (after s'.message)) refl back;
      }

  pub lap_idle :
      (t : Session) (s' : Server) (v : ℕ)
      → AreLinked t.server.message t.client.message
      → v < 256 ^ 4
      → TCommServer.handle_overhead server_type_name raw t.server ≡ some s'
      → s'.message ≡ reply t.server v (code nothing)
      → t.client.device_index ≢ 0
      → Lap t
          (λ m n. record {
            server = record s' { message = m };
            client = record t.client { message = n };
          })
          (λ h. h.kind.value ≡ code nothing)
  lap_idle t s' v l fits handled said addressed =
      let fits' : FitsWith v (code nothing) = (fits, omega arith) in
      let e = heard t s' v (code nothing) l fits' handled said in
      let n' = deliver s'.message t.client.message in
      let kind : n'.kind.value ≡ code nothing =
        e.heard_kind ∙ ap (λ (m : Message). m.kind.value) said in
      let value : n'.value.value ≡ v = e.heard_value ∙ ap (λ (m : Message). m.value.value) said in
      lap_of t s' v (code nothing) _ n'.value.value n'.kind.value _ _ _ l fits' handled said
        (rw (value) fits, rw (kind) (omega arith)) (resaid-Says (after s'.message) n' e.linked)
        (client_idle mac type_name now (record t.client { message = n' }) kind addressed) refl
        (λ h is back. rw (is) (back.heard_kind ∙ kind))
