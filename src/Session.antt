-- ===== src/Session.antt =====
-- A server and a client at the two ends of a link: `HandleOverhead` of TCommServer.h (under
-- TCommWinTerminal/lib/Communication/TComm/src) and of TCommClient.h (under
-- TCommEspTest/lib/ControlLibrary/Communication/TComm/src), with the messages that carry the two.
-- Each side handles its message and updates it, and the other side injects what is sent.
pub mod Turns
pub mod Starts
pub mod Questions
pub mod Laps
pub mod Stages
pub mod Objects
pub mod Ignored
pub mod Deadlock
pub mod Ends
pub mod Joins
use tcomm_tests.Common.{ℕ, zero, suc, Bool, Option, none, some, Bytes, List, [], ◌∷◌}
use tcomm_tests.Object.Virtual.{TypeInfo}
use tcomm_tests.Message.{update_message, inject_messages}
use tcomm_tests.TCommServer
use tcomm_tests.TCommServer.{Server}
use tcomm_tests.TCommClient
use tcomm_tests.TCommClient.{Client}

pub record Session : Type 0 where
  pub server : Server
  pub client : Client

-- The names of types at the server and what its memory holds, the client's MAC address, its names of
-- types, and its time.
module _ (server_type_name : TypeInfo → Bytes) (raw : ℕ → Bool) (mac : Bytes)
    (type_name : TypeInfo → Bytes) (now : ℕ) where
  unfoldable pub server_turn : Session → Option Session
  server_turn t = elim (TCommServer.handle_overhead server_type_name raw t.server) [
    | none ↦ none
    | some s ↦
        (let (message, sent) = update_message s.message in
          elim (inject_messages t.client.message sent) [
            | none ↦ none
            | some heard ↦ some (record {
              server = record s { message = message };
              client = record t.client { message = heard };
            })
          ])
  ]

  unfoldable pub client_turn : Session → Option Session
  client_turn t =
      let c = TCommClient.handle_overhead mac type_name now t.client in
      let (message, sent) = update_message c.message in
      elim (inject_messages t.server.message sent) [
        | none ↦ none
        | some heard ↦ some (record {
          server = record t.server { message = heard };
          client = record c { message = message };
        })
      ]

  -- Both take a turn, so many times.
  unfoldable pub laps : ℕ → Session → Option Session
  unfolding server_turn client_turn
  laps zero t = some t
  laps (suc n) t = elim (server_turn t) [
    | none ↦ none
    | some t' ↦ elim (client_turn t') [ none ↦ none | some t'' ↦ laps n t'' ]
  ]

-- One such lap at each of these times.
unfoldable pub laps_at :
    (TypeInfo → Bytes) → (ℕ → Bool) → Bytes → (TypeInfo → Bytes) → List ℕ → Session → Option Session
laps_at server_type_name raw mac type_name [] t = some t
laps_at server_type_name raw mac type_name (now ∷ later) t =
    elim (laps server_type_name raw mac type_name now 1 t) [
      | none ↦ none
      | some t' ↦ laps_at server_type_name raw mac type_name later t'
    ]
