-- ===== src/UaSubscriber/Values.antt =====
-- Values between variables and objects: the callbacks and `Write` of
-- Communication/Media/UASubscriber.h (under TCommEspTest/lib/ControlLibrary).
use tcomm_tests.Common.{
  ℕ, ◌%◌, ◌<◌, arith, ◌≡◌, refl, true, false, not, [], ◌++◌, Option, none, some, Bytes, length, ◌∙◌,
  ap, Option-cases, inl, inr,
}
use mathlib.Core.List.{append-nil}
use tcomm_tests.ByteSerializer.{CommunicationData}
use tcomm_tests.Object
use tcomm_tests.Object.{TemplateCommunicationObject}
use tcomm_tests.Object.Types.{ScalarType, word_codec, size_of, length-le_bytes}
use tcomm_tests.Object.Sync.{GoodWord, word-IsCodec, with_tail, inject-get_data, word-small}
use tcomm_tests.Object.Virtual
use tcomm_tests.Object.Virtual.{word}
use tcomm_tests.Communicator.{Communicator, get_communication_object}
use tcomm_tests.UaSubscriber.{
  UaSubscriber, returned, get_id, written, write, on_after_write, typed_value,
}
use tcomm_tests.UaSubscriber.Server.{Nodes, NodeId, Variant, scalar_value, for_value, own}

-- The data of a scalar object with 16-bit indices.
abbrev plain_data : ScalarType → TemplateCommunicationObject ℕ → CommunicationData
plain_data t o = record {
  buffer = (word_codec t).bytes o.value;
  device_index = o.device_index;
  data_size = length ((word_codec t).bytes o.value);
  object_index = o.object_index;
}

abbrev HasPlace : TemplateCommunicationObject ℕ → Type 0
HasPlace o = (o.device_index < 65536) × (o.object_index < 65536)

get_data-plain :
    (t : ScalarType) (o : TemplateCommunicationObject ℕ)
    → HasPlace o
    → Object.get_data (word_codec t) o ≡ plain_data t o
unfolding Object.get_data
get_data-plain t o (d, i) =
    let device : o.device_index % 65536 ≡ o.device_index = omega (arith, d) in
    let index : o.object_index % 65536 ≡ o.object_index = omega (arith, i) in
    let n = length ((word_codec t).bytes o.value) in
    let size : n % 65536 ≡ n = omega (arith, word-small t o.value) in
    rw (device) (rw (index) (rw (size) refl))

typed_value-plain :
    (t : ScalarType) (o : TemplateCommunicationObject ℕ)
    → GoodWord t o.value
    → typed_value (Virtual.scalar t) (plain_data t o) ≡ some (scalar_value t o.value)
unfolding typed_value
typed_value-plain t o good =
    let read = (word-IsCodec t).faithful o.value [] good in
    rw (rw (append-nil ((word_codec t).bytes o.value)) at read, typed_value) refl

module _ {N : Type 0} (server : Nodes N) where
  -- What a server promises of writes, given which nodes are variables of a scalar type: such a variable takes a value
  -- of its type, no node comes or goes, the callbacks and the variables stay, and the value of a scalar lies in
  -- memory as on the platform.
  pub record KeepsNodes (IsVariable : N → NodeId → ScalarType → Type 0) : Type 0 where
    pub writes :
        (n : N) (node : NodeId) (t : ScalarType) (v : ℕ)
        → IsVariable n node t
        → GoodWord t v
        → (n' : N) × (server.write_value n node (scalar_value t v) ≡ some n')
          × ((m : NodeId) → server.exists n' m ≡ server.exists n m)
          × ((m : NodeId) → server.callback n' m ≡ server.callback n m)
          × ((m : NodeId) (u : ScalarType) → IsVariable n m u → IsVariable n' m u)
    pub memory_scalar :
        (t : ScalarType) (v : ℕ)
        → (rest : Bytes) × (server.memory (scalar_value t v) ≡ (word_codec t).bytes v ++ rest)

  length-bytes : (t : ScalarType) (v : ℕ) → length ((word_codec t).bytes v) ≡ size_of t
  length-bytes ScalarType.int v = length-le_bytes 4 v
  length-bytes ScalarType.int32 v = length-le_bytes 4 v
  length-bytes ScalarType.uint8 v = length-le_bytes 1 v
  length-bytes ScalarType.uint16 v = length-le_bytes 2 v
  length-bytes ScalarType.float v = length-le_bytes 4 v
  length-bytes ScalarType.bool v = length-le_bytes 1 v

  -- What an outside write brings about.
  pub record Arrives (s : UaSubscriber N) (t : ScalarType) (o : TemplateCommunicationObject ℕ)
      (v : ℕ) (node : NodeId) : Type 0 where
    pub after : UaSubscriber N
    pub sent : CommunicationData
    pub object : TemplateCommunicationObject ℕ
    pub calls_back : written server s node (scalar_value t v) ≡ some (after, some sent)
    pub injected : Virtual.inject (word t o) sent ≡ some (word t object)
    pub value : object.value ≡ v
    pub addressed : (sent.device_index ≡ o.device_index) × (sent.object_index ≡ o.object_index)
    pub quiet :
        (c : Communicator)
        → get_communication_object c o.device_index o.object_index ≡ word t object
        → (s' : UaSubscriber N) × (write server c after (Object.get_data (word_codec t) object)
            ≡ (s', returned none))
          × (s'.writing_to_node ≡ false)
          × (server.write_value after.nodes node (scalar_value t v) ≡ some s'.nodes)

  written-calls_back :
      (s : UaSubscriber N) (node : NodeId) (nodes : N) (t : ScalarType) (v d i : ℕ) (rest : Bytes)
      → s.writing_to_node ≡ false
      → server.write_value s.nodes node (scalar_value t v) ≡ some nodes
      → server.callback nodes node ≡ some (for_value d i (size_of t))
      → server.memory (scalar_value t v) ≡ (word_codec t).bytes v ++ rest
      → written server s node (scalar_value t v)
        ≡ some (
          record s { nodes = nodes },
          some (record {
            buffer = (word_codec t).bytes v ++ rest;
            device_index = d;
            data_size = length ((word_codec t).bytes v);
            object_index = i;
          }),
        )
  unfolding written on_after_write
  written-calls_back s node nodes t v d i rest free wrote hooked lies =
      rw (wrote, written)
        (rw (hooked) (rw (free, on_after_write) (rw (lies, length-bytes t v) refl)))

  written-muted :
      (s : UaSubscriber N) (node : NodeId) (nodes : N) (v : Variant)
      → s.writing_to_node ≡ true
      → server.write_value s.nodes node v ≡ some nodes
      → written server s node v ≡ some (record s { nodes = nodes }, none)
  unfolding written on_after_write
  written-muted s node nodes v busy wrote =
      rw (wrote, written)
        (elim (Option-cases (server.callback nodes node)) [
          | inl e ↦ rw (e) refl
          | inr (callback, e) ↦ rw (e) (rw (busy, on_after_write) refl)
        ])

  write-returned :
      (c : Communicator) (s s' : UaSubscriber N) (d : CommunicationData) (v : Variant)
      (out : Option CommunicationData)
      → server.exists s.nodes (own (get_id d.device_index d.object_index false)) ≡ true
      → typed_value (Virtual.get_type (get_communication_object c d.device_index d.object_index)) d
        ≡ some v
      → written server
          (record s { writing_to_node = true })
          (own (get_id d.device_index d.object_index false))
          v
        ≡ some (s', out)
      → write server c s d ≡ (record s' { writing_to_node = false }, returned out)
  unfolding write
  write-returned c s s' d v out there typed wrote = rw (there, write) (rw (typed) (rw (wrote) refl))

  -- `Write` of the data of an object whose node is there.
  write-quiet :
      {IsVariable : N → NodeId → ScalarType → Type 0}
      → KeepsNodes IsVariable
      → (c : Communicator) (s : UaSubscriber N) (t : ScalarType) (o : TemplateCommunicationObject ℕ)
      → GoodWord t o.value
      → HasPlace o
      → get_communication_object c o.device_index o.object_index ≡ word t o
      → let node = own (get_id o.device_index o.object_index false) in
        server.exists s.nodes node ≡ true
        → IsVariable s.nodes node t
        → (s' : UaSubscriber N) × (write server c s (Object.get_data (word_codec t) o)
            ≡ (s', returned none))
          × (s'.writing_to_node ≡ false)
          × (server.write_value s.nodes node (scalar_value t o.value) ≡ some s'.nodes)
  unfolding Virtual.get_type
  write-quiet laws c s t o good place here there variable =
      let node = own (get_id o.device_index o.object_index false) in
      let (nodes, wrote, same, hooks, stay) = laws.writes s.nodes node t o.value variable good in
      let d = plain_data t o in
      rw (get_data-plain t o place) (
        record s { nodes = nodes; writing_to_node = false },
        write-returned c s (record s { nodes = nodes; writing_to_node = true }) d
            (scalar_value t o.value) none there
            (ap (λ x. typed_value (Virtual.get_type x) d) here ∙ typed_value-plain t o good)
            (written-muted (record s { writing_to_node = true }) node nodes (scalar_value t o.value)
              refl wrote),
        refl,
        wrote,
      )

  -- A server that takes a value of its type for a variable, keeps its nodes, callbacks and variables, and holds scalars
  -- as the platform does. An object with 16-bit indices has a variable of its type. An OPC client writes a value of the type of a scalar object (no NaN) to the object's variable while the subscriber
  -- does not: the callback injects data for the object, which holds the value once it has taken the data in.
  -- When the object then sends its data back to the subscriber, `Write` writes the same value to the same node and injects nothing.
  pub written-Arrives :
      {IsVariable : N → NodeId → ScalarType → Type 0}
      → KeepsNodes IsVariable
      → (s : UaSubscriber N) (t : ScalarType) (o : TemplateCommunicationObject ℕ) (v : ℕ)
      → GoodWord t v
      → HasPlace o
      → s.writing_to_node ≡ false
      → let node = own (get_id o.device_index o.object_index false) in
        server.exists s.nodes node ≡ true
        → IsVariable s.nodes node t
        → server.callback s.nodes node ≡ some (for_value o.device_index o.object_index (size_of t))
        → Arrives s t o v node
  unfolding Virtual.inject
  written-Arrives laws s t o v good place free there variable hooked =
      let node = own (get_id o.device_index o.object_index false) in
      let (nodes, wrote, same, hooks, stay) = laws.writes s.nodes node t v variable good in
      let (rest, lies) = laws.memory_scalar t v in
      let o' : TemplateCommunicationObject ℕ = record o { value = v } in
      let told = plain_data t o' in
      let p : TemplateCommunicationObject ℕ = record o {
        value = v;
        value_old = v;
        change_received = not ((word_codec t).beq v o.value);
      } in
      record {
        after = record s { nodes = nodes };
        sent = with_tail told rest;
        object = p;
        calls_back =
            written-calls_back s node nodes t v o.device_index o.object_index rest free wrote
              (hooks node ∙ hooked) lies;
        injected =
            rw
              (
                rw (get_data-plain t o' place) at
                    (inject-get_data (word-IsCodec t) o' o rest good (word-small t v)),
                Virtual.inject,
              )
              refl;
        value = refl;
        addressed = (refl, refl);
        quiet = λ c h.
            write-quiet laws c (record s { nodes = nodes }) t p good place h (same node ∙ there)
              (stay node t variable);
      }
