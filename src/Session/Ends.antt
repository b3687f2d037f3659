-- ===== src/Session/Ends.antt =====
-- An interrogation from its first question to its last: TCommServer.h and TCommClient.h (under
-- TCommWinTerminal/lib/Communication and TCommEspTest/lib/ControlLibrary/Communication).
use tcomm_tests.Common.{
  ℕ, suc, ◌+◌, ◌*◌, ◌<◌, ◌≡◌, ◌≢◌, refl, Bool, true, false, List, [], ◌++◌, Option, some, arith,
  Bytes, length, ◌∙◌, ap,
}
use tcomm_tests.Common.Maps.{find}
use tcomm_tests.Object.Virtual.{TypeInfo}
use tcomm_tests.Communicator.{set_send_all_data}
use tcomm_tests.Message.{nothing, request_list_size, code}
use tcomm_tests.Message.Links.{AreLinked}
use tcomm_tests.TCommServer.{Server}
use tcomm_tests.TCommServer.Objects.{Filled}
use tcomm_tests.TCommServer.Rebuild.{emptied}
use tcomm_tests.TCommClient.{Client}
use tcomm_tests.Session.{Session, laps}
use tcomm_tests.Session.Objects.{told, received, mirrored, stage, count, some-Told}
use tcomm_tests.Session.Stages.{Tells, lap-size, lap-takes_size, lap-all, lap-ends}

module _ (server_type_name : TypeInfo → Bytes) (raw : ℕ → Bool) (mac : Bytes)
    (type_name : TypeInfo → Bytes) (now : ℕ) where
  -- An interrogation that has ended.
  pub record Ended (s : Server) (c : Client) (size : ℕ) (r : Option Session) : Type 0 where
    pub final : Session
    pub result : r ≡ some final
    pub server_idle : final.server.interrogating ≡ false
    pub client_idle : final.client.interrogated ≡ false
    pub addressed : final.client.device_index ≡ c.device_index
    pub known : final.server.mac_to_index ≡ s.mac_to_index
    pub server_address : final.server.device_index ≡ s.device_index
    pub may_speak : final.client.await_turn ≡ false
    pub mirrors :
        final.server.comm
        ≡ (received server_type_name raw s (s.temp_device_data ++ told type_name c 0 size)).comm
    pub next_pointer :
        final.server.next_pointer
        ≡ (received server_type_name raw s
            (s.temp_device_data ++ told type_name c 0 size)).next_pointer
    pub taken : final.server.temp_device_data ≡ []
    pub sends_all : final.client.comm ≡ set_send_all_data c.comm
    pub linked : AreLinked final.server.message final.client.message

  -- The objects of the client, mirrored.
  pub record Mirrored (s : Server) (c : Client) (size : ℕ) (r : Option Session) : Type 0 where
    pub final : Session
    pub result : r ≡ some final
    pub filled :
        Filled server_type_name raw s.registry s.device_index
          (s.temp_device_data ++ told type_name c 0 size)
          0
          (emptied server_type_name raw s)
          s.next_pointer
          final.server.comm
          final.server.next_pointer

  module _ (s : Server) (c : Client) (os : List ℕ) (busy : s.interrogating ≡ true)
      (in_sequence : s.interrupted_sequence ≡ false) (interrogated : c.interrogated ≡ true)
      (addressed : c.device_index ≢ 0)
      (registered : find c.device_index c.comm.device_object_map ≡ some os) where
    from_start :
        s.device_list_size ≡ 0
        → s.object_index ≡ 0
        → laps server_type_name raw mac type_name now
            (2 * length os + 4)
            (record { server = s; client = c })
          ≡ laps server_type_name raw mac type_name now
              (2 * length os + 4)
              (stage c s 0 0 s.temp_device_data s.sequence_type s.message c.message)
    from_start no_size first =
        let go = λ (size index : ℕ).
          laps server_type_name raw mac type_name now (2 * length os + 4)
            (stage c s size index s.temp_device_data s.sequence_type s.message c.message) in
        ap (λ size. go size s.object_index) no_size ∙ ap (go 0) first

    laps-zero : (t : Session) → laps server_type_name raw mac type_name now 0 t ≡ some t
    unfolding laps
    laps-zero t = refl

    -- A server that is about to put the first question of an interrogation, no other client having
    -- interrupted it, a client that is interrogated, has an address other than 0 and between one and
    -- 65,535 objects under it, whose names, paths and names of types take at most 65,534 bytes, and a
    -- message on which both agree: after two laps for each object and four
    -- more, in each of which the server takes a turn and then the client does, the interrogation has
    -- ended on both sides. The server has then made of its communicator what
    -- `HandleReceivedDeviceData` makes of the descriptions that it held before and, behind them, those of
    -- all the client's objects in their order, and holds none any more; the client will send all its
    -- data, and both agree on the message again. The client keeps its address and may speak, and the
    -- server the device that it has interrogated and the indices that it has given out. No turn fails.
    pub laps-Ended :
        AreLinked s.message c.message
        → s.message.kind.value ≡ code nothing
        → s.device_list_size ≡ 0
        → s.object_index ≡ 0
        → length os ≢ 0
        → length os < 65536
        → Tells type_name c
        → Ended s c (length os) (
            laps server_type_name raw mac type_name now
              (2 * length os + 4)
              (record { server = s; client = c }))
    unfolding set_send_all_data
    laps-Ended l idle no_size first ne few tells =
        let n = length os in
        let start = s.temp_device_data in
        let size =
          lap-size server_type_name raw mac type_name now s c os busy in_sequence interrogated
            addressed registered s.message c.message 0 start s.sequence_type l idle few in
        let (kind, value) = size.answers in
        let takes =
          lap-takes_size server_type_name raw mac type_name now s c os busy in_sequence interrogated
            addressed registered size.here size.there 0 0 start (code request_list_size) size.linked
            kind value few in
        let all =
          some-Told server_type_name raw mac type_name now s c os busy in_sequence interrogated
            addressed registered takes.here takes.there n start (code request_list_size)
            takes.linked takes.answers ne few tells in
        let s' = mirrored server_type_name raw s (start ++ told type_name c 0 n) in
        let c' : Client = record c { comm = set_send_all_data c.comm } in
        let asks =
          lap-all server_type_name raw mac type_name now s' c os busy in_sequence interrogated
            addressed registered all.here all.there n [] all.linked all.idle ne in
        let ends =
          lap-ends server_type_name raw mac type_name now s' c' os busy in_sequence interrogated
            addressed registered asks.here asks.there n [] asks.linked asks.answers ne in
        record {
          final = _;
          result =
              from_start no_size first
              ∙ count server_type_name raw mac type_name now s c os busy in_sequence interrogated
                  addressed registered (2 * n + 4) (suc (suc (2 * n + 2)))
                  (stage c s 0 0 start s.sequence_type s.message c.message) (omega arith)
              ∙ size.runs (suc (2 * n + 2))
              ∙ takes.runs (2 * n + 2)
              ∙ all.runs 2
              ∙ asks.runs 1
              ∙ ends.runs 0
              ∙ laps-zero _;
          server_idle = refl;
          client_idle = refl;
          addressed = refl;
          known = refl;
          server_address = refl;
          may_speak = refl;
          mirrors = refl;
          next_pointer = refl;
          taken = refl;
          sends_all = refl;
          linked = ends.linked;
        }
