-- ===== src/TCommServer/Interrogation.antt =====
-- How the server goes through the objects of a client: TComm/src/TCommServer.h (under
-- TCommWinTerminal/lib/Communication).
use tcomm_tests.Common.{
  ℕ, suc, ◌+◌, ◌%◌, ◌<◌, ◌≡◌, refl, Bool, true, false, List, [], ◌∷◌, ◌++◌, map, Option, none, some,
  arith, Bytes, length, ◌∙◌,
}
use mathlib.Core.List.{append_assoc}
use tcomm_tests.Object.{c_str}
use tcomm_tests.Object.Virtual.{TypeInfo}
use tcomm_tests.Message.{
  nothing, code, response_object, request_object, set_kind, set_value, set_text5, to_string,
}
use tcomm_tests.TCommServer.{
  Server, DeviceData, collect, next_request, respond, handle_overhead, handle_received_device_data,
}

-- The answer of a client to a question for an object, as it stands in the message when it is injected.
abbrev pub heard : Server → DeviceData → Server
heard s e = record s {
  message = record s.message {
    text1 = record s.message.text1 { value = e.name };
    text2 = record s.message.text2 { value = e.path };
    text3 = record s.message.text3 { value = e.data_type };
    kind = record s.message.kind { value = code response_object };
  };
}

abbrev pub clean : DeviceData → DeviceData
clean e = record { name = c_str e.name; path = c_str e.path; data_type = c_str e.data_type }

-- The server is about to ask for the object at `object_index`, with so many left to ask for.
pub record IsAsking (s : Server) (left : ℕ) : Type 0 where
  pub interrogates : s.interrogating ≡ true
  pub in_sequence : s.interrupted_sequence ≡ false
  pub may_ask : s.message.kind.value ≡ code nothing
  pub remaining : s.object_index + left ≡ s.device_list_size
  pub fits : s.device_list_size < 65536

-- What the questions leave alone.
pub record Keeps (s s' : Server) : Type 0 where
  pub comm : s'.comm ≡ s.comm
  pub next_pointer : s'.next_pointer ≡ s.next_pointer
  pub registry : s'.registry ≡ s.registry
  pub device_index : s'.device_index ≡ s.device_index
  pub mac_to_index : s'.mac_to_index ≡ s.mac_to_index
  pub index_manager : s'.index_manager ≡ s.index_manager

-- `HandleOverhead` before its `switch`.
abbrev pub noted : Server → Server
noted s = record s {
  message =
      set_text5
        (record s.message {
          kind = record s.message.kind { change_received = false };
          text4 = record s.message.text4 { change_received = false };
        })
        (to_string s.message.kind.value);
}

module _ (type_name : TypeInfo → Bytes) (raw : ℕ → Bool) where
  -- The server asks, the client answers, and the server takes the answer.
  unfoldable pub round : Server → DeviceData → Option Server
  round s e = elim (handle_overhead type_name raw s) [
    | none ↦ none
    | some s' ↦ handle_overhead type_name raw (heard s' e)
  ]

  unfoldable pub rounds : Server → List DeviceData → Option Server
  rounds s [] = some s
  rounds s (e ∷ es) = elim (round s e) [ none ↦ none | some s' ↦ rounds s' es ]

  abbrev asked : Server → Server
  asked s = record (noted s) {
    message = set_kind (set_value (noted s).message s.object_index) request_object;
    sequence_type = code request_object;
  }

  abbrev taken : Server → Server
  taken s = record s {
    temp_device_data =
        s.temp_device_data
        ++ (clean (record {
          name = s.message.text1.value;
          path = s.message.text2.value;
          data_type = s.message.text3.value;
        }))
          ∷ [];
    message = set_kind s.message nothing;
    sequence_type = code nothing;
    object_index = (s.object_index + 1) % 65536;
  }

  handle_overhead-asks :
      (s : Server) (left : ℕ)
      → IsAsking s (suc left)
      → handle_overhead type_name raw s ≡ some (asked s)
  unfolding handle_overhead respond next_request
  handle_overhead-asks s left a = rw (a.may_ask, a.interrogates, a.in_sequence) (ground arith)

  handle_overhead-more :
      (s : Server) (e : DeviceData) (left : ℕ)
      → IsAsking s (suc (suc left))
      → handle_overhead type_name raw (heard (asked s) e) ≡ some (taken (noted (heard (asked s) e)))
  unfolding handle_overhead respond collect
  handle_overhead-more s e left a = rw (a.interrogates) (ground arith)

  handle_overhead-last :
      (s : Server) (e : DeviceData)
      → IsAsking s 1
      → handle_overhead type_name raw (heard (asked s) e)
        ≡ some (handle_received_device_data type_name raw (taken (noted (heard (asked s) e))))
  unfolding handle_overhead respond collect
  handle_overhead-last s e a = rw (a.interrogates) (ground arith)

  round-more :
      (s : Server) (e : DeviceData) (left : ℕ)
      → IsAsking s (suc (suc left))
      → round s e ≡ some (taken (noted (heard (asked s) e)))
  unfolding round
  round-more s e left a =
      rw (handle_overhead-asks s (suc left) a, round) (handle_overhead-more s e left a)

  round-last :
      (s : Server) (e : DeviceData)
      → IsAsking s 1
      → round s e
        ≡ some (handle_received_device_data type_name raw (taken (noted (heard (asked s) e))))
  unfolding round
  round-last s e a = rw (handle_overhead-asks s 0 a, round) (handle_overhead-last s e a)

  next-IsAsking :
      (s : Server) (e : DeviceData) (left : ℕ)
      → IsAsking s (suc left)
      → IsAsking (taken (noted (heard (asked s) e))) left
  next-IsAsking s e left a = record {
    interrogates = a.interrogates;
    in_sequence = a.in_sequence;
    may_ask = refl;
    remaining = omega (arith, a.remaining, a.fits);
    fits = a.fits;
  }

  -- What the rounds over a list come to.
  record Collects (s : Server) (es : List DeviceData) (r : Option Server) : Type 0 where
    pub final : Server
    pub result : r ≡ some (handle_received_device_data type_name raw final)
    pub keeps : Keeps s final
    pub collected : final.temp_device_data ≡ s.temp_device_data ++ map clean es
    pub complete : final.object_index ≡ final.device_list_size
    pub asks : IsAsking final 0

  -- A server that is about to ask for an object, with as many left to ask for as the client answers,
  -- asks for each of them in turn and, after the last answer, passes the descriptions on to
  -- `HandleReceivedDeviceData`: all of them, in the order of the objects, each up to its first zero
  -- byte. Until then its communicator, its types, the device indices and the device that it asks stay.
  rounds-Collects :
      (s : Server) (e : DeviceData) (es : List DeviceData)
      → IsAsking s (length (e ∷ es))
      → Collects s (e ∷ es) (rounds s (e ∷ es))
  unfolding rounds
  rounds-Collects s e [] a = record {
    final = taken (noted (heard (asked s) e));
    result = rw (round-last s e a, rounds) refl;
    keeps = record {
      comm = refl;
      next_pointer = refl;
      registry = refl;
      device_index = refl;
      mac_to_index = refl;
      index_manager = refl;
    };
    collected = refl;
    complete = omega (arith, (next-IsAsking s e 0 a).remaining);
    asks = next-IsAsking s e 0 a;
  }
  rounds-Collects s e (e' ∷ es) a =
      let s' = taken (noted (heard (asked s) e)) in
      let h = rounds-Collects s' e' es (next-IsAsking s e (length (e' ∷ es)) a) in
      record {
        final = h.final;
        result = rw (round-more s e (length es) a, rounds) h.result;
        keeps = record {
          comm = h.keeps.comm;
          next_pointer = h.keeps.next_pointer;
          registry = h.keeps.registry;
          device_index = h.keeps.device_index;
          mac_to_index = h.keeps.mac_to_index;
          index_manager = h.keeps.index_manager;
        };
        collected =
            h.collected ∙ append_assoc s.temp_device_data (clean e ∷ []) (map clean (e' ∷ es));
        complete = h.complete;
        asks = h.asks;
      }
