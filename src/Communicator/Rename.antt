-- ===== src/Communicator/Rename.antt =====
-- `UpdateDeviceIndex`: what a client does when the server has given it an index.
use tcomm_tests.Common.{
  ℕ, zero, suc, ◌≡◌, ◌≢◌, true, false, List, [], ◌∷◌, Option, none, some, arith, ◌==◌,
  if◌then◌else◌, get_elem?, Bool-cases, Option-cases, inl, inr, ==_iff, ◌∙◌, sym, ap,
}
use tcomm_tests.Common.Maps.{find, insert, erase, find-insert, find-erase}
use tcomm_tests.ResourceIndexManager.Sets.{member}
use tcomm_tests.Object.Virtual
use tcomm_tests.Object.Virtual.{AnyObject, word, text, abstract}
use tcomm_tests.Communicator.{
  Communicator, put, objects_of, pointer_at, set_device_indices, move_device, update_device_index,
}
use tcomm_tests.Communicator.Devices.{
  IsAddressed, pointer_once, objects_of-insert, objects_of-erase,
}

-- After `UpdateDeviceIndex`.
move-objects :
    (old new e : ℕ) (os : List ℕ) (m : List (ℕ × List ℕ))
    → objects_of e (erase old (insert new os m))
      ≡ (if old == e then [] else if new == e then os else objects_of e m)
move-objects old new e os m =
    ground (arith, objects_of-erase old e (insert new os m), objects_of-insert new e os m)

-- The list of the old index, with every object on it readdressed.
address-set_device_index :
    (o : AnyObject) (d x i : ℕ)
    → Virtual.address o ≡ some (x, i)
    → Virtual.address (Virtual.set_device_index o d) ≡ some (d, i)
unfolding Virtual.address Virtual.set_device_index
address-set_device_index (word t o) d x i h = ground arith
address-set_device_index (text o) d x i h = ground arith
address-set_device_index abstract d x i h = ground arith

address-set_device_indices :
    (heap : ℕ → AnyObject) (d : ℕ) (ps : List ℕ) (p x i : ℕ)
    → Virtual.address (heap p) ≡ some (x, i)
    → Virtual.address (set_device_indices heap d ps p) ≡ some (if member p ps then d else x, i)
unfolding set_device_indices member
address-set_device_indices heap d [] p x i h = h
address-set_device_indices heap d (q ∷ ps) p x i h =
    let heap' = put heap q (Virtual.set_device_index (heap q) d) in
    elim (Bool-cases (q == p)) [
      | inl e ↦
          rw e
            (both (address-set_device_indices heap' d ps p d i (rw e (at_head ((==_iff q p).0 e)))))
      | inr e ↦ rw e (address-set_device_indices heap' d ps p x i (rw e h))
    ]
  where
    at_head : q ≡ p → Virtual.address (Virtual.set_device_index (heap q) d) ≡ some (d, i)
    at_head e = address-set_device_index (heap q) d x i (rw e h)

    both : {o : Option (ℕ × ℕ)} → o ≡ some (if member p ps then d else d, i) → o ≡ some (d, i)
    both k = ground arith

get_elem?-member : (ps : List ℕ) (i p : ℕ) → get_elem? ps i ≡ some p → member p ps ≡ true
unfolding member
get_elem?-member [] i p h = cc
get_elem?-member (q ∷ ps) zero p h = ground arith
get_elem?-member (q ∷ ps) (suc i) p h = ground (arith, get_elem?-member ps i p h)

member-get_elem? : (ps : List ℕ) (p : ℕ) → member p ps ≡ true → (i : ℕ) × (get_elem? ps i ≡ some p)
unfolding member
member-get_elem? [] p h = absurd (cc h)
member-get_elem? (q ∷ ps) p h = elim (Bool-cases (q == p)) [
  | inl e ↦ (0, ap some ((==_iff q p).0 e))
  | inr e ↦ (let (i, g) = member-get_elem? ps p (ground arith) in (suc i, g))
]

old-pointer :
    (c : Communicator) (old : ℕ) (os : List ℕ)
    → find old c.device_object_map ≡ some os
    → (i : ℕ) → pointer_at c old i ≡ get_elem? os i
unfolding pointer_at
old-pointer c old os at i = ground arith

moved-pointer :
    (c : Communicator) (old new : ℕ) (os : List ℕ)
    → find old c.device_object_map ≡ some os
    → (e j : ℕ)
    → pointer_at (update_device_index c old new) e j
      ≡ (if old == e then none else if new == e then pointer_at c old j else pointer_at c e j)
unfolding update_device_index pointer_at
moved-pointer c old new os at e j = ground (arith, move-objects old new e os c.device_object_map)

moved-heap :
    (c : Communicator) (old new : ℕ) (os : List ℕ)
    → find old c.device_object_map ≡ some os
    → (update_device_index c old new).heap ≡ set_device_indices c.heap new os
unfolding update_device_index
moved-heap c old new os at = rw (at, move_device)

-- Moving the objects of one device to another index: they are found under the new index, at the same
-- places and with addresses that say so, the old index is empty, and no other device is touched. The
-- objects that the new index had before are no longer reached.
pub update_device_index_moves :
    (c : Communicator) (old new : ℕ) (os : List ℕ)
    → IsAddressed c
    → old ≢ new
    → find old c.device_object_map ≡ some os
    → let c' = update_device_index c old new in
      ((i : ℕ) → pointer_at c' new i ≡ pointer_at c old i)
      × ((i : ℕ) → pointer_at c' old i ≡ none)
      × ((d i : ℕ) → d ≢ old → d ≢ new → pointer_at c' d i ≡ pointer_at c d i)
      × IsAddressed c'
update_device_index_moves c old new os a ne at =
    let where' = moved-pointer c old new os at in
    (
      λ i. ground (arith, where' new i),
      λ i. ground (arith, where' old i),
      λ d i h k. ground (arith, where' d i),
      record {
        address = λ d i p h.
            rw (moved-heap c old new os at) (address_of_moved d i p (sym (where' d i) ∙ h));
      },
    )
  where
    at_new : (i p : ℕ) → pointer_at c old i ≡ some p → member p os ≡ true
    at_new i p h = get_elem?-member os i p (sym (old-pointer c old os at i) ∙ h)

    elsewhere : (d i p : ℕ) → d ≢ old → pointer_at c d i ≡ some p → member p os ≡ false
    elsewhere d i p other h = elim (Bool-cases (member p os)) [
      | inr e ↦ e
      | inl e ↦
          (let (j, g) = member-get_elem? os p e in
            absurd (other (pointer_once c d i old j p a h (old-pointer c old os at j ∙ g)).0))
    ]

    address_of_moved :
        (d i p : ℕ)
        → (if old == d then none else if new == d then pointer_at c old i else pointer_at c d i)
          ≡ some p
        → Virtual.address (set_device_indices c.heap new os p) ≡ some (d, i)
    address_of_moved d i p h = ground (
      arith,
      at_new i p,
      elsewhere d i p,
      a.address old i p,
      a.address d i p,
      address-set_device_indices c.heap new os p old i,
      address-set_device_indices c.heap new os p d i,
    )

not_there :
    (c : Communicator) (d i : ℕ)
    → find d c.device_object_map ≡ none
    → pointer_at (update_device_index c d d) d i ≡ none
unfolding update_device_index pointer_at
not_there c d i e = ground arith

-- Moving a device to the index that it has already loses its objects: the entry is erased after it
-- was moved to itself.
pub update_device_index_same :
    (c : Communicator) (d i : ℕ) → pointer_at (update_device_index c d d) d i ≡ none
update_device_index_same c d i = elim (Option-cases (find d c.device_object_map)) [
  | inl e ↦ not_there c d i e
  | inr (os, e) ↦ ground (arith, moved-pointer c d d os e d i)
]

-- The list of the old index is found under the new one.
pub update_device_index-find :
    (c : Communicator) (old new : ℕ) (os : List ℕ)
    → old ≢ new
    → find old c.device_object_map ≡ some os
    → find new (update_device_index c old new).device_object_map ≡ some os
unfolding update_device_index move_device
update_device_index-find c old new os ne there =
    rw (there, update_device_index, move_device)
      (ground (
        arith,
        find-erase old new (insert new os c.device_object_map),
        find-insert new new os c.device_object_map,
      ))
