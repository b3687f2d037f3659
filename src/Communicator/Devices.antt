-- ===== src/Communicator/Devices.antt =====
-- The device map: which object an address reaches.
use tcomm_tests.Common.{
  ℕ, ◌%◌, ◌<◌, suc, ◌≡◌, ◌≢◌, refl, List, [], ◌∷◌, ◌++◌, Option, none, some, arith, zero, ◌&&◌,
  ◌==◌, if◌then◌else◌, length, length-append, get_elem?, get_elem?-none, remove_if, ==_refl,
  Option-cases, inl, inr, ◌∙◌, sym, ap,
}
use tcomm_tests.Common.Maps.{find, insert, erase, find-insert, find-erase}
use tcomm_tests.Object.Virtual
use tcomm_tests.Object.Virtual.{AnyObject, word, text, abstract}
use tcomm_tests.Communicator.{
  Communicator, put, add_communication_object, objects_of, pointer_at, register_object,
  remove_communication_object, remove_device,
}

pub objects_of-insert :
    (d e : ℕ) (ps : List ℕ) (m : List (ℕ × List ℕ))
    → objects_of e (insert d ps m) ≡ (if d == e then ps else objects_of e m)
unfolding objects_of
objects_of-insert d e ps m = ground (arith, find-insert d e ps m)

pub objects_of-erase :
    (d e : ℕ) (m : List (ℕ × List ℕ))
    → objects_of e (erase d m) ≡ (if d == e then [] else objects_of e m)
unfolding objects_of
objects_of-erase d e m = ground (arith, find-erase d e m)

-- Every address reaches an object whose members hold this address.
pub record IsAddressed (c : Communicator) : Type 0 where
  pub address : (d i p : ℕ) → pointer_at c d i ≡ some p → Virtual.address (c.heap p) ≡ some (d, i)

-- So no pointer stands at two places.
pub pointer_once :
    (c : Communicator) (d i e j p : ℕ)
    → IsAddressed c
    → pointer_at c d i ≡ some p
    → pointer_at c e j ≡ some p
    → (d ≡ e) × (i ≡ j)
pointer_once c d i e j p a x y =
    let h : ◌≡◌ {A = Option (ℕ × ℕ)} (some (d, i)) (some (e, j)) =
      sym (a.address d i p x) ∙ a.address e j p y in
    (ground arith, ground arith)

address-set :
    (o : AnyObject) (d i : ℕ)
    → o ≢ abstract
    → Virtual.address (Virtual.set_object_index (Virtual.set_device_index o d) i) ≡ some (d, i)
unfolding Virtual.address Virtual.set_object_index Virtual.set_device_index
address-set (word t o) d i h = refl
address-set (text o) d i h = refl
address-set abstract d i h = absurd (h refl)

sent_address-set :
    (o : AnyObject) (d i : ℕ)
    → o ≢ abstract
    → d < 65536
    → i < 65536
    → Virtual.sent_address (Virtual.set_object_index (Virtual.set_device_index o d) i) ≡ some (d, i)
unfolding Virtual.sent_address Virtual.set_object_index Virtual.set_device_index
sent_address-set (word t o) d i h small few = ground arith
sent_address-set (text o) d i h small few = ground arith
sent_address-set abstract d i h small few = absurd (h refl)

-- Where the pointers stand does not depend on what they point at.
pub pointer_at-heap :
    (c : Communicator) (heap : ℕ → AnyObject) (d i : ℕ)
    → pointer_at (record c { heap = heap }) d i ≡ pointer_at c d i
unfolding pointer_at
pointer_at-heap c heap d i = refl

get_elem?-snoc :
    (xs : List ℕ) (y j : ℕ)
    → get_elem? (xs ++ y ∷ []) j ≡ (if j == length xs then some y else get_elem? xs j)
get_elem?-snoc [] y zero = refl
get_elem?-snoc [] y (suc j) = ground arith
get_elem?-snoc (x ∷ xs) y zero = ground arith
get_elem?-snoc (x ∷ xs) y (suc j) = ground (arith, get_elem?-snoc xs y j)

-- The constructor's work where the device is a 16-bit number.
abbrev registering : Communicator → ℕ → ℕ → Communicator × ℕ
registering c device p =
    let (c', index) = add_communication_object c device p in
    (
      record c' {
        heap =
            put c'.heap p
              (Virtual.set_object_index (Virtual.set_device_index (c'.heap p) device) index);
      },
      index,
    )

register_object-registering :
    (c : Communicator) (d p : ℕ) → d < 65536 → register_object c d p ≡ registering c d p
unfolding register_object
register_object-registering c d p small =
    let same : d % 65536 ≡ d = omega (arith, small) in
    ap
      (λ e.
        let (c', index) = add_communication_object c e p in
        (
          record c' {
            heap =
                put c'.heap p
                  (Virtual.set_object_index (Virtual.set_device_index (c'.heap p) d) index);
          },
          index,
        ))
      same

-- Registering puts the pointer behind the objects of the device, and moves no other.
registering-pointer :
    (c : Communicator) (d p e j : ℕ)
    → let n = length (objects_of d c.device_object_map) in
      let (c', i) = registering c d p in
      (i ≡ n) × (pointer_at c' e j ≡ (if d == e && j == n then some p else pointer_at c e j))
unfolding add_communication_object pointer_at
registering-pointer c d p e j =
    let os = objects_of d c.device_object_map in
    (
      omega (arith, length-append os (p ∷ [])),
      ground
          (arith, objects_of-insert d e (os ++ p ∷ []) c.device_object_map, get_elem?-snoc os p j),
    )

registering-heap :
    (c : Communicator) (d p q : ℕ)
    → let n = length (objects_of d c.device_object_map) in
      let o = Virtual.set_object_index (Virtual.set_device_index (c.heap p) d) n in
      (registering c d p).0.heap q ≡ (if p == q then o else c.heap q)
unfolding add_communication_object
registering-heap c d p q =
    ap
      (λ n.
        if p == q
        then Virtual.set_object_index (Virtual.set_device_index (c.heap p) d) n
        else c.heap q)
      (omega (arith, length-append (objects_of d c.device_object_map) (p ∷ [])))

registering-length :
    (c : Communicator) (d p : ℕ)
    → length (objects_of d (registering c d p).0.device_object_map)
      ≡ suc (length (objects_of d c.device_object_map))
unfolding add_communication_object
registering-length c d p =
    let os = objects_of d c.device_object_map in
    rw (objects_of-insert d d (os ++ p ∷ []) c.device_object_map, ==_refl d)
      (omega (arith, length-append os (p ∷ [])))

pub register-pointer :
    (c : Communicator) (d p e j : ℕ)
    → d < 65536
    → let n = length (objects_of d c.device_object_map) in
      let (c', i) = register_object c d p in
      (i ≡ n) × (pointer_at c' e j ≡ (if d == e && j == n then some p else pointer_at c e j))
register-pointer c d p e j small =
    rw (register_object-registering c d p small) (registering-pointer c d p e j)

pub register-heap :
    (c : Communicator) (d p q : ℕ)
    → d < 65536
    → let n = length (objects_of d c.device_object_map) in
      let o = Virtual.set_object_index (Virtual.set_device_index (c.heap p) d) n in
      (register_object c d p).0.heap q ≡ (if p == q then o else c.heap q)
register-heap c d p q small =
    rw (register_object-registering c d p small) (registering-heap c d p q)

pub register-length :
    (c : Communicator) (d p : ℕ)
    → d < 65536
    → length (objects_of d (register_object c d p).0.device_object_map)
      ≡ suc (length (objects_of d c.device_object_map))
register-length c d p small =
    rw (register_object-registering c d p small) (registering-length c d p)

pub remove_device-empty :
    (c : Communicator) (d : ℕ) → length (objects_of d (remove_device c d).device_object_map) ≡ 0
unfolding remove_device objects_of
remove_device-empty c d = elim (Option-cases (find d c.device_object_map)) [
  | inl e ↦ rw (e, remove_device) (rw (e, length, objects_of) refl)
  | inr (os, e) ↦ rw (e, remove_device) (ground (arith, find-erase d d c.device_object_map))
]

pointer-end :
    (c : Communicator) (d : ℕ) → pointer_at c d (length (objects_of d c.device_object_map)) ≡ none
unfolding pointer_at
pointer-end c d = get_elem?-none (objects_of d c.device_object_map) _ (omega arith)

-- The constructor of an object that no address reaches yet, for a device below 65,536 that has fewer
-- than 65,536 objects, gives it the next index of its device. It is found under the address that it
-- sends from then on, no other object moves, and every address stays right.
pub register_object-IsAddressed :
    (c : Communicator) (d p : ℕ)
    → d < 65536
    → length (objects_of d c.device_object_map) < 65536
    → IsAddressed c
    → c.heap p ≢ abstract
    → ((e j : ℕ) → pointer_at c e j ≢ some p)
    → let (c', i) = register_object c d p in
      (pointer_at c' d i ≡ some p)
      × (Virtual.sent_address (c'.heap p) ≡ some (d, i))
      × ((e j q : ℕ)
          → pointer_at c e j ≡ some q
          → (pointer_at c' e j ≡ some q) × (c'.heap q ≡ c.heap q))
      × IsAddressed c'
register_object-IsAddressed c d p small few a real new =
    let n = length (objects_of d c.device_object_map) in
    let i = (register_object c d p).1 in
    (
      ground (arith, register-pointer c d p d i small),
      ground (
        arith,
        register-heap c d p p small,
        sent_address-set (c.heap p) d n real small few,
        register-pointer c d p d i small,
      ),
      λ e j q h. (
        ground (arith, register-pointer c d p e j small, pointer-end c d),
        ground (arith, register-heap c d p q small, new e j),
      ),
      record {
        address = λ e j q h. ground (
          arith,
          register-pointer c d p e j small,
          register-heap c d p q small,
          address-set (c.heap p) d n real,
          a.address e j q,
          new e j,
        );
      },
    )

remove_if-shift :
    (os : List ℕ) (i p q : ℕ)
    → get_elem? os i ≡ some p
    → get_elem? os (suc i) ≡ some q
    → q ≢ p
    → ((j : ℕ) → get_elem? os j ≡ some p → j ≡ i)
    → get_elem? (remove_if (λ x. x == p) os) i ≡ some q
remove_if-shift [] i p q x y ne once = absurd (none_some x)
  where
    none_some : ◌≡◌ {A = Option ℕ} none (some p) → ⊥
    none_some h = cc
remove_if-shift (o ∷ []) i p q x y ne once = absurd (cc y)
remove_if-shift (o ∷ o' ∷ os) zero p q x y ne once = ground arith
remove_if-shift (o ∷ o' ∷ os) (suc i) p q x y ne once =
    ground
      (arith, once 0, remove_if-shift (o' ∷ os) i p q x y ne (λ j h. omega (arith, once (suc j) h)))

wrong_index : (d i : ℕ) → ◌≡◌ {A = Option (ℕ × ℕ)} (some (d, suc i)) (some (d, i)) → ⊥
wrong_index d i h = ground arith

removed-pointer :
    (c : Communicator) (d i p q : ℕ)
    → IsAddressed c
    → pointer_at c d i ≡ some p
    → pointer_at c d (suc i) ≡ some q
    → pointer_at (remove_communication_object c d p) d i ≡ some q
unfolding remove_communication_object pointer_at
removed-pointer c d i p q a x y =
    let os = objects_of d c.device_object_map in
    let kept = remove_if (λ z. z == p) os in
    rw (objects_of-insert d d kept c.device_object_map, ==_refl d)
      (remove_if-shift os i p q x y
        (λ e. absurd (omega (arith, (pointer_once c d (suc i) d i q a y (rw e x)).1)))
        (λ j h. (pointer_once c d j d i p a h x).1))

-- Removing an object moves the one behind it to its place, and that one still holds the
-- index of the old place: where every address was right before, one is wrong afterwards.
pub remove_communication_object_shifts :
    (c : Communicator) (d i p q : ℕ)
    → IsAddressed c
    → pointer_at c d i ≡ some p
    → pointer_at c d (suc i) ≡ some q
    → let c' = remove_communication_object c d p in
      (pointer_at c' d i ≡ some q)
      × (Virtual.address (c'.heap q) ≡ some (d, suc i))
      × ¬ IsAddressed c'
unfolding remove_communication_object
remove_communication_object_shifts c d i p q a x y =
    let moved = removed-pointer c d i p q a x y in
    let stale = a.address d (suc i) q y in
    (moved, stale, λ b. wrong_index d i (sym stale ∙ b.address d i q moved))
