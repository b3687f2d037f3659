-- ===== src/SerialSubscriber/Copies.antt =====
-- A pass of the one communicator and a `Read` of the other: what has come over.
use tcomm_tests.Common.{
  ℕ, ◌≡◌, ◌≢◌, refl, Bool, true, List, [], ◌∷◌, map, Option, some, arith, if◌then◌else◌, ◌∙◌, sym,
  Bytes, inl, inr, Bool-cases,
}
use tcomm_tests.ByteSerializer.{CommunicationData, Deserializer, fresh, receive}
use tcomm_tests.ClockBits.{Rates}
use tcomm_tests.Object.Virtual
use tcomm_tests.Object.Virtual.{AnyObject, abstract}
use tcomm_tests.Communicator.{Communicator, Effect, inject_all, pointer_at, update_comm_objects}
use tcomm_tests.Communicator.Devices.{IsAddressed, pointer_once}
use tcomm_tests.Communicator.Routing.{occurrences}
use tcomm_tests.SerialSubscriber.{SerialSubscriber, across, messages_to, write_all, read_into, read}
use tcomm_tests.SerialSubscriber.Arrival.{
  data_of, data_of-address, data_of-IsFrame, copied, IsSendable,
}
use tcomm_tests.SerialSubscriber.Frames.{AllFrames, at_port, write_all-Delivers}
use tcomm_tests.SerialSubscriber.Passes.{
  objects_sent, sends, contains, pointers, AllReal, messages_to-update_comm_objects,
}
use tcomm_tests.SerialSubscriber.Injects.{
  target, take_in, Fits, AllFit, inject_all-take_in, take_in-miss, take_in-hit, take_in-pointer,
}
use tcomm_tests.SerialSubscriber.Places.{
  IsPlaced, IsPlaced-Distinct, IsPlaced-contains, IsPlaced-place,
}

-- What the objects of one side can send, and those at the same address on the other side are of the
-- same type.
pub record AreTwins (a b : Communicator) : Type 0 where
  pub sendable : (d i p : ℕ) → pointer_at a d i ≡ some p → IsSendable (a.heap p)
  pub alike :
      (d i p q : ℕ)
      → pointer_at a d i ≡ some p
      → pointer_at b d i ≡ some q
      → Virtual.get_type (a.heap p) ≡ Virtual.get_type (b.heap q)

AllFit-objects_sent :
    (b : Communicator) (all : Bool) (edge : Rates) (heap : ℕ → AnyObject) (ps : List ℕ)
    → ((p : ℕ) → contains p ps ≡ true → Fits b (heap p))
    → AllFit b (objects_sent all edge heap ps)
unfolding objects_sent
AllFit-objects_sent b all edge heap [] f = tt
AllFit-objects_sent b all edge heap (p ∷ ps) f =
    let rest = AllFit-objects_sent b all edge heap ps (λ q h. f q (ground arith)) in
    elim (Bool-cases (sends all edge (heap p))) [
      | inl e ↦ rw e (f p (ground arith), rest)
      | inr e ↦ rw e rest
    ]

AllFrames-data_of :
    (b : Communicator) (os : List AnyObject) → AllFit b os → AllFrames (map data_of os)
AllFrames-data_of b [] h = tt
AllFrames-data_of b (o ∷ os) ((s, f), h) = (data_of-IsFrame o s, AllFrames-data_of b os h)

AllReal-sendable :
    (heap : ℕ → AnyObject) (ps : List ℕ)
    → ((p : ℕ) → contains p ps ≡ true → IsSendable (heap p))
    → AllReal heap ps
AllReal-sendable heap [] h = tt
AllReal-sendable heap (p ∷ ps) h =
    (real (heap p) (h p (ground arith)), AllReal-sendable heap ps (λ q i. h q (ground arith)))
  where
    real : (o : AnyObject) → IsSendable o → o ≢ abstract
    real (Virtual.word t o) s e = cc e
    real (Virtual.text o) s e = cc e
    real abstract s e = s

-- An object at its address is for the one at the same address.
target-address :
    (a b : Communicator) (d i p : ℕ)
    → IsPlaced a
    → AreTwins a b
    → pointer_at a d i ≡ some p
    → target b (a.heap p) ≡ pointer_at b d i
target-address a b d i p h twins there =
    let (device, index) =
      data_of-address (a.heap p) d i (twins.sendable d i p there)
        (h.addressed.address d i p there) in
    λ j. pointer_at b (device j) (index j)

twin-Fits :
    (a b : Communicator) (p : ℕ)
    → IsPlaced a
    → AreTwins a b
    → contains p (pointers a.device_object_map) ≡ true
    → Fits b (a.heap p)
twin-Fits a b p h twins inside =
    let (d, i, there) = IsPlaced-place a p h inside in
    (
      twins.sendable d i p there,
      λ q t. twins.alike d i p q there (sym (target-address a b d i p h twins there) ∙ t),
    )

-- What has come over: at an address that both have, the value of an object that sent, and the rest
-- as it was.
pub record Copies (edge : Rates) (a b b' : Communicator) : Type 0 where
  pub shared :
      (d i p q : ℕ)
      → pointer_at a d i ≡ some p
      → pointer_at b d i ≡ some q
      → b'.heap q
        ≡ (if sends a.send_all_data edge (a.heap p) then copied (a.heap p) (b.heap q) else b.heap q)
  pub own :
      (q : ℕ)
      → ((d i p : ℕ) → pointer_at a d i ≡ some p → pointer_at b d i ≢ some q)
      → b'.heap q ≡ b.heap q
  pub places : (d i : ℕ) → pointer_at b' d i ≡ pointer_at b d i

take_in-Copies :
    (edge : Rates) (a b : Communicator)
    → IsPlaced a
    → IsAddressed b
    → AreTwins a b
    → Copies edge a b
        (take_in b (objects_sent a.send_all_data edge a.heap (pointers a.device_object_map)))
take_in-Copies edge a b h k twins =
    let ps = pointers a.device_object_map in
    record {
      shared = λ d i p q x y.
          take_in-hit b p q a.send_all_data edge a.heap ps (IsPlaced-Distinct a h)
            (IsPlaced-contains a d i p x) (target-address a b d i p h twins x ∙ y)
            (λ r inside ne t.
              let (e, j, there) = IsPlaced-place a r h inside in
              let same =
                pointer_once b e j d i q k (sym (target-address a b e j r h twins there) ∙ t) y in
              ne (one_pointer r p ((λ n. (pointer_at a (same.0 n) (same.1 n))) ∙ x) there));
      own = λ q miss. take_in-miss b q a.send_all_data edge a.heap ps (λ r inside t.
          let (e, j, there) = IsPlaced-place a r h inside in
          miss e j r there (sym (target-address a b e j r h twins there) ∙ t));
      places = λ d i. take_in-pointer b (objects_sent a.send_all_data edge a.heap ps) d i;
    }
  where
    one_pointer : {o : Option ℕ} (r p : ℕ) → o ≡ some p → o ≡ some r → r ≡ p
    one_pointer r p x y = cc (sym y ∙ x)

at_rest : (z : Deserializer) → z.read_index ≡ 0 → z ≡ fresh z.memory z.received
at_rest z idle i = record { memory = z.memory; read_index = idle i; received = z.received }

across_reads :
    (edge : Rates) (s : ℕ) (u : SerialSubscriber) (a : Communicator) (t : ℕ) (v : SerialSubscriber)
    (b b' : Communicator) (z : Deserializer) (ds es : List CommunicationData) (bs : Bytes)
    (out : List Effect)
    → messages_to s (update_comm_objects a edge).1 ≡ ds
    → write_all u ds ≡ some bs
    → receive v.serializer bs ≡ some (z, es)
    → inject_all b t es ≡ some (b', out)
    → across edge s u a t v b ≡ some ((update_comm_objects a edge).0, at_port [] z, b')
unfolding across read_into read
across_reads edge s u a t v b b' z ds es bs out written line got injected =
    rw (written, line, across, read_into, read, got, injected) refl

-- Two communicators over a serial line, whose subscribers have ports. The one has its subscriber in
-- its list once, its device map has no key twice, and its objects are at the addresses that they
-- write into their data, as are those of the other. Each of its objects that an address reaches
-- holds a value of its type, and no NaN, or a text of at most 503 bytes, with 16-bit indices, and
-- is of the type of the object that the same address reaches on the other side, if any does. Then a
-- pass of the one, in which its subscriber writes to the line, and a `Read` of the other's idle
-- subscriber do not fault, and leave that one idle with nothing at its port. Each object at an
-- address that both have then holds the value of the one that sent, a text with a zero byte behind
-- it, where that one was due under these clock edges and had something new, or all were to send;
-- all else on the other side is as it was.
pub across-Copies :
    (edge : Rates) (s : ℕ) (w : Bytes) (y : Deserializer) (a : Communicator) (t : ℕ) (m : ℕ → ℕ)
    (r : CommunicationData) (b : Communicator)
    → occurrences s a.sub_list ≡ 1
    → IsPlaced a
    → IsAddressed b
    → AreTwins a b
    → (m' : ℕ → ℕ) × (r' : CommunicationData) × (b' : Communicator) × (across edge s
          (at_port w y)
          a
          t
          (at_port [] (fresh m r))
          b
        ≡ some ((update_comm_objects a edge).0, at_port [] (fresh m' r'), b'))
      × Copies edge a b b'
across-Copies edge s w y a t m r b once h k twins =
    let ps = pointers a.device_object_map in
    let os = objects_sent a.send_all_data edge a.heap ps in
    let fit = AllFit-objects_sent b a.send_all_data edge a.heap ps (λ p. twin-Fits a b p h twins) in
    let written : messages_to s (update_comm_objects a edge).1 ≡ map data_of os =
      messages_to-update_comm_objects a edge s once (IsPlaced-Distinct a h)
        (AllReal-sendable a.heap ps (λ p c. (twin-Fits a b p h twins c).0)) in
    let (bs, line, (z, es, got, idle, same)) =
      write_all-Delivers w y (map data_of os) m r (AllFrames-data_of b os fit) in
    let (out, injected) = inject_all-take_in b t es os fit same in
    let done =
      across_reads edge s (at_port w y) a t (at_port [] (fresh m r)) b (take_in b os) z _ es bs out
        written line got injected in
    (
      z.memory,
      z.received,
      take_in b os,
      done ∙ λ i.
          some ((update_comm_objects a edge).0, at_port [] (at_rest z idle i), take_in b os),
      take_in-Copies edge a b h k twins,
    )
