-- ===== src/Communicator/Routing.antt =====
-- Where an incoming message goes.
use tcomm_tests.Common.{
  ℕ, suc, ◌≡◌, ◌≢◌, refl, List, [], ◌∷◌, map, Option, none, some, arith, ◌==◌, if◌then◌else◌,
  remove_if, replicate, ◌⊎◌, inl, inr, Option-cases, ==_ne, ==_refl, ◌∙◌, ap,
}
use tcomm_tests.ByteSerializer.{CommunicationData}
use tcomm_tests.Object.Virtual
use tcomm_tests.Object.Virtual.{AnyObject}
use tcomm_tests.Communicator.{
  Communicator, Effect, writes, registers, put, is_excluded, write_data, pointer_at,
  inject_comm_object, remove_subscriber,
}

-- How often a subscriber stands in a list, and the data that are written to it.
abbrev pub occurrences : ℕ → List ℕ → ℕ
occurrences s [] = 0
occurrences s (t ∷ ts) = if t == s then suc (occurrences s ts) else occurrences s ts

abbrev pub deliveries : ℕ → List Effect → List CommunicationData
deliveries s [] = []
deliveries s (writes t d ∷ out) = if t == s then d ∷ deliveries s out else deliveries s out
deliveries s (registers t device ∷ out) = deliveries s out

deliveries-map :
    (s : ℕ) (d : CommunicationData) (e : Option ℕ) (ss : List ℕ)
    → deliveries s (map (λ t. writes t d) (remove_if (is_excluded e) ss))
      ≡ (if is_excluded e s then [] else replicate (occurrences s ss) d)
deliveries-map s d none [] = refl
deliveries-map s d (some e) [] = ground arith
deliveries-map s d none (t ∷ ss) = ground (arith, deliveries-map s d none ss)
deliveries-map s d (some e) (t ∷ ss) = ground (arith, deliveries-map s d (some e) ss)

-- A message is written, as it is, to each subscriber once for each time that it is in the list, and
-- not to the one that it came from.
deliveries-write_data :
    (c : Communicator) (d : CommunicationData) (e : Option ℕ) (s : ℕ)
    → deliveries s (write_data c d e)
      ≡ (if is_excluded e s then [] else replicate (occurrences s c.sub_list) d)
unfolding write_data
deliveries-write_data c d e s = deliveries-map s d e c.sub_list

-- The communicator with one object replaced.
abbrev pub with_object : Communicator → ℕ → AnyObject → Communicator
with_object c p o = record c { heap = put c.heap p o }

occurrences-remove_if : (s : ℕ) (ss : List ℕ) → occurrences s (remove_if (λ t. t == s) ss) ≡ 0
occurrences-remove_if s [] = refl
occurrences-remove_if s (t ∷ ss) = ground (arith, occurrences-remove_if s ss)

-- What an incoming message comes to, by what its address reaches.
abbrev pub Routed :
    Communicator → CommunicationData → ℕ → Option (Communicator × List Effect) → Type 0
Routed c d source none =
    (p : ℕ) × (pointer_at c d.device_index d.object_index ≡ some p)
    × (Virtual.inject (c.heap p) d ≡ none)
Routed c d source (some (c', out)) =
    (((pointer_at c d.device_index d.object_index ≡ none) × (c' ≡ c))
      ⊎ ((p : ℕ) × (o : AnyObject) × (pointer_at c d.device_index d.object_index ≡ some p)
          × (Virtual.inject (c.heap p) d ≡ some o)
          × (c' ≡ with_object c p o)))
    × ((s : ℕ) → s ≢ source → deliveries s out ≡ replicate (occurrences s c.sub_list) d)
    × (deliveries source out ≡ [])

spread :
    (c c' : Communicator) (d : CommunicationData) (source : ℕ)
    → c'.sub_list ≡ c.sub_list
    → let out = write_data c' d (some source) in
      ((s : ℕ) → s ≢ source → deliveries s out ≡ replicate (occurrences s c.sub_list) d)
      × (deliveries source out ≡ [])
spread c c' d source same = (
  λ s ne.
      deliveries-write_data c' d (some source) s
      ∙ rw (==_ne s source ne) (ap (λ ss. replicate (occurrences s ss) d) same),
  deliveries-write_data c' d (some source) source ∙ rw (==_refl source),
)

-- The object that the address of an incoming message reaches takes the data in and no other object
-- changes, or nothing is there and nothing changes, or the data is shorter than the type of the
-- object and there is a fault. Unless there is a fault, every subscriber but the
-- one that it came from is written the message, with its address, its size and its data as they came,
-- as often as the subscriber is in the list, and that one is written nothing.
pub inject_comm_object-Routed :
    (c : Communicator) (d : CommunicationData) (source : ℕ)
    → Routed c d source (inject_comm_object c d (some source))
unfolding inject_comm_object
inject_comm_object-Routed c d source =
    elim (Option-cases (pointer_at c d.device_index d.object_index)) [
      | inl e ↦
          rw (e, inject_comm_object)
            (let (others, self) = spread c c d source refl in (inl (e, refl), others, self))
      | inr (p, e) ↦ elim (Option-cases (Virtual.inject (c.heap p) d)) [
        | inl fault ↦ rw (e, inject_comm_object, fault) (p, e, fault)
        | inr (o, ok) ↦
            rw (e, inject_comm_object, ok)
              (let (others, self) = spread c (with_object c p o) d source refl in
                (inr (p, o, e, ok, refl), others, self))
      ]
    ]

-- A subscriber that has taken itself off is not written to.
remove_subscriber_silent :
    (c : Communicator) (s : ℕ) (d : CommunicationData) (e : Option ℕ)
    → deliveries s (write_data (remove_subscriber c s) d e) ≡ []
unfolding remove_subscriber
remove_subscriber_silent c s d e =
    deliveries-write_data (record c { sub_list = remove_if (λ t. t == s) c.sub_list }) d e s
    ∙ ground (arith, occurrences-remove_if s c.sub_list)
