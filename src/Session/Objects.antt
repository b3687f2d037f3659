-- ===== src/Session/Objects.antt =====
-- The questions for all objects of a client, and what comes of them: TCommServer.h and TCommClient.h (under
-- TCommWinTerminal/lib/Communication and TCommEspTest/lib/ControlLibrary/Communication).
use tcomm_tests.Common.{
  ℕ, zero, suc, ◌+◌, ◌*◌, ◌%◌, ◌<◌, ◌≡◌, ◌≢◌, refl, Bool, true, false, List, [], ◌∷◌, ◌++◌, some,
  arith, Bytes, ◌∙◌, sym, ap,
}
use mathlib.Core.List.{append_assoc}
use tcomm_tests.Common.Maps.{find}
use tcomm_tests.Object.Virtual.{TypeInfo}
use tcomm_tests.Message.{Message, nothing, request_object, response_object, code}
use tcomm_tests.Message.Links.{AreLinked}
use tcomm_tests.TCommServer
use tcomm_tests.TCommServer.{Server, DeviceData}
use tcomm_tests.TCommClient.{Client}
use tcomm_tests.Session.{Session, laps}
use tcomm_tests.Session.Questions.{server_takes_last}
use tcomm_tests.Session.Laps.{Lap, lap_idle}
use tcomm_tests.Session.Stages.{Tells, entry_of, description, lap-asks, lap-takes}

-- What the client tells of its objects, from an index on.
unfoldable pub told : (TypeInfo → Bytes) → Client → ℕ → ℕ → List DeviceData
told type_name c index zero = []
told type_name c index (suc left) =
    description type_name c index ∷ told type_name c (suc index) left

-- The interrogation at a question, with the server's other members and the client's.
abbrev pub stage : Client → Server → ℕ → ℕ → List DeviceData → ℕ → Message → Message → Session
stage c b size index entries sequence m n = record {
  server = record b {
    message = m;
    device_list_size = size;
    object_index = index;
    temp_device_data = entries;
    sequence_type = sequence;
  };
  client = record c { message = n };
}

module _ (server_type_name : TypeInfo → Bytes) (raw : ℕ → Bool) where
  -- What the server makes of all descriptions.
  abbrev pub received : Server → List DeviceData → Server
  received s entries =
      TCommServer.handle_received_device_data server_type_name raw
        (record s { temp_device_data = entries })

  abbrev pub mirrored : Server → List DeviceData → Server
  mirrored s entries = record s {
    comm = (received s entries).comm;
    next_pointer = (received s entries).next_pointer;
  }

module _ (server_type_name : TypeInfo → Bytes) (raw : ℕ → Bool) (mac : Bytes)
    (type_name : TypeInfo → Bytes) (now : ℕ) where
  module _ (s : Server) (c : Client) (os : List ℕ) (busy : s.interrogating ≡ true)
      (in_sequence : s.interrupted_sequence ≡ false) (interrogated : c.interrogated ≡ true)
      (addressed : c.device_index ≢ 0)
      (registered : find c.device_index c.comm.device_object_map ≡ some os) where
    lap-takes_last :
        (m n : Message) (size index : ℕ) (entries : List DeviceData) (sequence : ℕ) (e : DeviceData)
        → AreLinked m n
        → m.kind.value ≡ code response_object
        → entry_of m ≡ e
        → suc index ≡ size
        → size < 65536
        → Lap server_type_name raw mac type_name now
            (stage c s size index entries sequence m n)
            (stage c
              (mirrored server_type_name raw s (entries ++ e ∷ []))
              size
              size
              []
              (code nothing))
            (λ h. h.kind.value ≡ code nothing)
    unfolding TCommServer.handle_received_device_data
    lap-takes_last m n size index entries sequence e l kind is last few =
        let t = stage c s size index entries sequence m n in
        let next : (index + 1) % 65536 ≡ size = omega (arith, last, few) in
        let takes =
          rw (next) at (
            server_takes_last server_type_name raw t.server busy in_sequence e kind (sym is)
              next) in
        lap_idle server_type_name raw mac type_name now t _ m.value.value l l.fits.value takes refl
          addressed

    abbrev pub RunsTo : ℕ → Session → ℕ → Session → Type 0
    RunsTo k t j t' =
        laps server_type_name raw mac type_name now k t
        ≡ laps server_type_name raw mac type_name now j t'

    pub count : (k k' : ℕ) (t : Session) → k ≡ k' → RunsTo k t k' t
    count k k' t e = ap (λ i. laps server_type_name raw mac type_name now i t) e

    -- The questions for the objects that are left, with the last of them.
    pub record Told (left : ℕ) (t : Session) (entries : List DeviceData) (size : ℕ) : Type 0 where
      pub here : Message
      pub there : Message
      pub runs :
          (j : ℕ)
          → RunsTo (2 * left + j) t j (
              stage c
                (mirrored server_type_name raw s entries)
                size
                size
                []
                (code nothing)
                here
                there)
      pub linked : AreLinked here there
      pub idle : here.kind.value ≡ code nothing

    all-Told :
        (m n : Message) (size index left : ℕ) (entries : List DeviceData) (sequence : ℕ)
        → AreLinked m n
        → m.kind.value ≡ code nothing
        → index + suc left ≡ size
        → size < 65536
        → Tells type_name c
        → Told
            (suc left)
            (stage c s size index entries sequence m n)
            (entries ++ told type_name c index (suc left))
            size
    unfolding told
    all-Told m n size index zero entries sequence l idle at few tells =
        let asks =
          lap-asks server_type_name raw mac type_name now s c os busy in_sequence interrogated
            addressed registered m n size index entries sequence l idle (omega (arith, at)) few
            tells in
        let (kind, is) = asks.answers in
        let takes =
          lap-takes_last asks.here asks.there size index entries (code request_object)
            (description type_name c index) asks.linked kind is (omega (arith, at)) few in
        record {
          here = takes.here;
          there = takes.there;
          runs = λ j.
              count (2 * 1 + j) (suc (suc j)) (stage c s size index entries sequence m n)
                (omega arith)
              ∙ asks.runs (suc j)
              ∙ takes.runs j;
          linked = takes.linked;
          idle = takes.answers;
        }
    all-Told m n size index (suc left) entries sequence l idle at few tells =
        let asks =
          lap-asks server_type_name raw mac type_name now s c os busy in_sequence interrogated
            addressed registered m n size index entries sequence l idle (omega (arith, at)) few
            tells in
        let (kind, is) = asks.answers in
        let takes =
          lap-takes server_type_name raw mac type_name now s c os busy in_sequence interrogated
            addressed registered asks.here asks.there size index entries (code request_object)
            (description type_name c index) asks.linked kind is (omega (arith, at)) few in
        let rest =
          all-Told takes.here takes.there size (suc index) left
            (entries ++ description type_name c index ∷ []) (code nothing) takes.linked
            takes.answers (omega (arith, at)) few tells in
        record {
          here = rest.here;
          there = rest.there;
          runs = λ j.
              count (2 * suc (suc left) + j) (suc (suc (2 * suc left + j)))
                (stage c s size index entries sequence m n) (omega arith)
              ∙ asks.runs (suc (2 * suc left + j))
              ∙ takes.runs (2 * suc left + j)
              ∙ rest.runs j
              ∙ ap
                  (λ es. laps server_type_name raw mac type_name now j (
                    stage c (mirrored server_type_name raw s es) size size [] (code nothing)
                      rest.here rest.there))
                  (append_assoc entries (description type_name c index ∷ [])
                    (told type_name c (suc index) (suc left)));
          linked = rest.linked;
          idle = rest.idle;
        }

    pub some-Told :
        (m n : Message) (size : ℕ) (entries : List DeviceData) (sequence : ℕ)
        → AreLinked m n
        → m.kind.value ≡ code nothing
        → size ≢ 0
        → size < 65536
        → Tells type_name c
        → Told size
            (stage c s size 0 entries sequence m n)
            (entries ++ told type_name c 0 size)
            size
    some-Told m n zero entries sequence l idle ne few tells = absurd (ne refl)
    some-Told m n (suc left) entries sequence l idle ne few tells =
        all-Told m n (suc left) 0 left entries sequence l idle (omega arith) few tells
