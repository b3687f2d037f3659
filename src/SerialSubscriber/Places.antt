-- ===== src/SerialSubscriber/Places.antt =====
-- The places of the objects in the device map.
use tcomm_tests.Common.{
  ℕ, zero, suc, ◌≡◌, refl, true, ◌||◌, List, [], ◌∷◌, ◌++◌, none, some, arith, ◌==◌, if◌then◌else◌,
  ◌∙◌, ap, inl, inr, Bool-cases, ==_iff, ==_refl, get_elem?,
}
use tcomm_tests.Common.Maps.{find}
use tcomm_tests.Communicator.{Communicator, objects_of, pointer_at}
use tcomm_tests.Communicator.Devices.{IsAddressed, pointer_once}
use tcomm_tests.SerialSubscriber.Passes.{pointers, contains, Distinct}

-- No key stands twice, as in a `std::map`.
abbrev pub IsMap : List (ℕ × List ℕ) → Type 0
IsMap [] = Unit {0}
IsMap ((d, ps) ∷ m) = (find d m ≡ none) × IsMap m

-- The pointer stands at this place.
abbrev At : List (ℕ × List ℕ) → ℕ → ℕ → ℕ → Type 0
At m d i p = get_elem? (objects_of d m) i ≡ some p

contains-get_elem? :
    (p : ℕ) (ps : List ℕ) → contains p ps ≡ true → (i : ℕ) × (get_elem? ps i ≡ some p)
contains-get_elem? p [] h = absurd (cc h)
contains-get_elem? p (q ∷ ps) h = elim (Bool-cases (q == p)) [
  | inl here ↦ (0, ap some ((==_iff q p).0 here))
  | inr far ↦ (let (i, e) = contains-get_elem? p ps (rw far at h) in (suc i, e))
]

get_elem?-contains : (p : ℕ) (ps : List ℕ) (i : ℕ) → get_elem? ps i ≡ some p → contains p ps ≡ true
get_elem?-contains p [] i h = absurd (cc h)
get_elem?-contains p (q ∷ ps) zero h = ground arith
get_elem?-contains p (q ∷ ps) (suc i) h = ground (arith, get_elem?-contains p ps i h)

contains-append :
    (p : ℕ) (xs ys : List ℕ) → contains p (xs ++ ys) ≡ (contains p xs || contains p ys)
contains-append p [] ys = refl
contains-append p (x ∷ xs) ys = ground (arith, contains-append p xs ys)

objects_of-cons :
    (k d : ℕ) (ps : List ℕ) (m : List (ℕ × List ℕ))
    → objects_of d ((k, ps) ∷ m) ≡ (if k == d then ps else objects_of d m)
unfolding objects_of find
objects_of-cons k d ps m = ground arith

objects_of-here : (d : ℕ) (ps : List ℕ) (m : List (ℕ × List ℕ)) → objects_of d ((d, ps) ∷ m) ≡ ps
objects_of-here d ps m = rw (objects_of-cons d d ps m, ==_refl d) refl

nothing_there : (m : List (ℕ × List ℕ)) (d i p : ℕ) → find d m ≡ none → At m d i p → ⊥
unfolding objects_of
nothing_there m d i p new h = absurd (cc (rw (new, objects_of) at h))

-- What stands in the rest of a map stands at the same place of the map.
At-rest :
    (m : List (ℕ × List ℕ)) (k : ℕ) (ps : List ℕ) (d i p : ℕ)
    → find k m ≡ none
    → At m d i p
    → At ((k, ps) ∷ m) d i p
At-rest m k ps d i p new h = elim (Bool-cases (k == d)) [
  | inl e ↦ absurd (nothing_there m d i p (rw ((==_iff k d).0 e) at new) h)
  | inr e ↦ rw (objects_of-cons k d ps m, e) h
]

place :
    (m : List (ℕ × List ℕ)) (p : ℕ)
    → IsMap m
    → contains p (pointers m) ≡ true
    → (d : ℕ) × (i : ℕ) × At m d i p
place [] p h c = absurd (cc c)
place ((d, ps) ∷ m) p (new, h) c = elim (Bool-cases (contains p ps)) [
  | inl here ↦ let (i, e) = contains-get_elem? p ps here in (d, i, rw (objects_of-here d ps m) e)
  | inr far ↦
      let (e, i, a) = place m p h (ground (arith, contains-append p ps (pointers m))) in
      (e, i, At-rest m d ps e i p new a)
]

placed : (m : List (ℕ × List ℕ)) (d i p : ℕ) → At m d i p → contains p (pointers m) ≡ true
unfolding objects_of find
placed [] d i p h = absurd (cc h)
placed ((k, ps) ∷ m) d i p h = elim (Bool-cases (k == d)) [
  | inl e ↦ ground (
    arith,
    contains-append p ps (pointers m),
    get_elem?-contains p ps i (rw (objects_of-cons k d ps m, e) at h),
  )
  | inr e ↦ ground (
    arith,
    contains-append p ps (pointers m),
    placed m d i p (rw (objects_of-cons k d ps m, e) at h),
  )
]

get_elem?-Distinct :
    (ps : List ℕ)
    → ((i j p : ℕ) → get_elem? ps i ≡ some p → get_elem? ps j ≡ some p → i ≡ j)
    → Distinct ps
get_elem?-Distinct [] once = tt
get_elem?-Distinct (q ∷ ps) once = (
  elim (Bool-cases (contains q ps)) [
    | inl inside ↦
        let (i, e) = contains-get_elem? q ps inside in
        absurd (omega (arith, once 0 (suc i) q refl e))
    | inr out ↦ out
  ],
  get_elem?-Distinct ps (λ i j p x y. omega (arith, once (suc i) (suc j) p x y)),
)

Distinct-append :
    (xs ys : List ℕ)
    → Distinct xs
    → Distinct ys
    → ((p : ℕ) → contains p xs ≡ true → contains p ys ≡ true → ⊥)
    → Distinct (xs ++ ys)
Distinct-append [] ys h k apart = k
Distinct-append (x ∷ xs) ys (new, h) k apart = (
  contains-append x xs ys
      ∙ rw new (elim (Bool-cases (contains x ys)) [
        | inl inside ↦ absurd (apart x (rw (==_refl x) refl) inside)
        | inr out ↦ out
      ]),
  Distinct-append xs ys h k (λ p i j. apart p (ground arith) j),
)

pointers-Distinct :
    (m : List (ℕ × List ℕ))
    → IsMap m
    → ((d i e j p : ℕ) → At m d i p → At m e j p → (d ≡ e) × (i ≡ j))
    → Distinct (pointers m)
pointers-Distinct [] h once = tt
pointers-Distinct ((d, ps) ∷ m) (new, h) once =
    let top : (i p : ℕ) → get_elem? ps i ≡ some p → At ((d, ps) ∷ m) d i p =
      λ i p e. rw (objects_of-here d ps m) e in
    Distinct-append ps (pointers m)
      (get_elem?-Distinct ps (λ i j p x y. (once d i d j p (top i p x) (top j p y)).1))
      (pointers-Distinct m h
        (λ k i e j p x y. once k i e j p (At-rest m d ps k i p new x) (At-rest m d ps e j p new y)))
      (λ p x y.
        let (i, here) = contains-get_elem? p ps x in
        let (e, j, there) = place m p h y in
        let same = (once d i e j p (top i p here) (At-rest m d ps e j p new there)).0 in
        nothing_there m e j p (rw same at new) there)

-- Every key stands once, and every object is at the address that it writes into its data.
pub record IsPlaced (c : Communicator) : Type 0 where
  pub keys : IsMap c.device_object_map
  pub addressed : IsAddressed c

pub IsPlaced-Distinct : (c : Communicator) → IsPlaced c → Distinct (pointers c.device_object_map)
unfolding pointer_at
IsPlaced-Distinct c h =
    pointers-Distinct c.device_object_map h.keys
      λ d i e j p x y. pointer_once c d i e j p h.addressed x y

pub IsPlaced-contains :
    (c : Communicator) (d i p : ℕ)
    → pointer_at c d i ≡ some p
    → contains p (pointers c.device_object_map) ≡ true
unfolding pointer_at
IsPlaced-contains c d i p h = placed c.device_object_map d i p h

pub IsPlaced-place :
    (c : Communicator) (p : ℕ)
    → IsPlaced c
    → contains p (pointers c.device_object_map) ≡ true
    → (d : ℕ) × (i : ℕ) × (pointer_at c d i ≡ some p)
unfolding pointer_at
IsPlaced-place c p h inside = place c.device_object_map p h.keys inside
