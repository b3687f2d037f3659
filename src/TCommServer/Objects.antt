-- ===== src/TCommServer/Objects.antt =====
-- What `CreateAndRegisterObject` of TComm/src/TCommServer.h (under
-- TCommWinTerminal/lib/Communication) makes of descriptions.
use tcomm_tests.Common.{
  ℕ, zero, suc, ◌+◌, ◌<◌, ◌≡◌, ◌≢◌, refl, Bool, List, [], ◌∷◌, ◌++◌, some, arith, if◌then◌else◌,
  Bytes, length, get_elem?, ◌==◌, ◌&&◌, ==_refl, ◌∙◌, sym, ap,
}
use tcomm_tests.Object
use tcomm_tests.Object.{c_str, truncate_string}
use tcomm_tests.Object.Virtual
use tcomm_tests.Object.Virtual.{AnyObject, TypeInfo, scalar, string, abstract_pointer}
use tcomm_tests.Communicator.{Communicator, put, pointer_at, objects_of, register_object}
use tcomm_tests.Communicator.Devices.{
  pointer_at-heap, register-pointer, register-heap, register-length,
}
use tcomm_tests.TypeRegistry.{Registry, find_type, create_object, new_object}
use tcomm_tests.TCommServer.{
  DeviceData, create_all, create_and_register_object, modify_object, set_object_name,
  set_object_path, device_prefix,
}

-- The object is the one that a description asks for.
pub record Matches (t : TypeInfo) (device : ℕ) (entry : DeviceData) (o : AnyObject) : Type 0 where
  pub same_type : Virtual.get_type o ≡ t
  pub same_name : Virtual.get_name o ≡ truncate_string (some entry.name) 99
  pub same_path :
      Virtual.get_path o ≡ truncate_string (some (device_prefix device ++ entry.path)) 99

abbrev placed : AnyObject → ℕ → ℕ → DeviceData → AnyObject
placed o device index entry =
    Virtual.set_path
      (Virtual.set_name (Virtual.set_object_index (Virtual.set_device_index o device) index)
        (some entry.name))
      (some (device_prefix device ++ entry.path))

placed-Matches :
    (t : TypeInfo) (b : Bool) (device index : ℕ) (entry : DeviceData)
    → t ≢ abstract_pointer
    → Matches t device entry (placed (new_object t b) device index entry)
unfolding new_object Virtual.get_type Virtual.get_name Virtual.get_path Virtual.set_path
    Virtual.set_name Virtual.set_object_index Virtual.set_device_index Object.set_name
    Object.set_path
placed-Matches (scalar t) b device index entry h = record {
  same_type = refl;
  same_name = refl;
  same_path = refl;
}
placed-Matches string b device index entry h = record {
  same_type = refl;
  same_name = refl;
  same_path = refl;
}
placed-Matches abstract_pointer b device index entry h = absurd (h refl)

modify_object-at :
    (f : AnyObject → AnyObject) (c : Communicator) (d i p : ℕ)
    → pointer_at c d i ≡ some p
    → modify_object f c d i ≡ record c { heap = put c.heap p (f (c.heap p)) }
unfolding modify_object
modify_object-at f c d i p e = rw (e, modify_object) refl

-- The object and the heap after both calls.
abbrev labelled : AnyObject → Bytes → Bytes → AnyObject
labelled o name path = Virtual.set_path (Virtual.set_name o (some name)) (some path)

set_object_name-path :
    (c : Communicator) (d i p : ℕ) (name path : Bytes)
    → pointer_at c d i ≡ some p
    → let named = put c.heap p (Virtual.set_name (c.heap p) (some name)) in
      set_object_path (set_object_name c d i name) d i path
      ≡ record c { heap = put named p (Virtual.set_path (named p) (some path)) }
unfolding set_object_name set_object_path
set_object_name-path c d i p name path e =
    let name_of = λ (o : AnyObject). Virtual.set_name o (some name) in
    let path_of = λ (o : AnyObject). Virtual.set_path o (some path) in
    let named = put c.heap p (Virtual.set_name (c.heap p) (some name)) in
    ap (λ c'. modify_object path_of c' d i) (modify_object-at name_of c d i p e)
    ∙ modify_object-at path_of (record c { heap = named }) d i p (pointer_at-heap c named d i ∙ e)

-- The object that the constructor registers for an entry, and its place.
pub record Made (c c' : Communicator) (next device : ℕ) (t : TypeInfo) (entry : DeviceData)
    : Type 0 where
  pub pointers :
      (e j : ℕ)
      → pointer_at c' e j ≡ (
          if device == e && j == length (objects_of device c.device_object_map)
          then some next
          else pointer_at c e j)
  pub one_more :
      length (objects_of device c'.device_object_map)
      ≡ suc (length (objects_of device c.device_object_map))
  pub matches : Matches t device entry (c'.heap next)
  pub others : (p : ℕ) → p ≢ next → c'.heap p ≡ c.heap p

module _ (type_name : TypeInfo → Bytes) (raw : ℕ → Bool) (r : Registry) (device : ℕ) where
  registered : TypeInfo → Communicator → ℕ → Communicator
  registered t c next =
      (register_object (record c { heap = put c.heap next (new_object t (raw next)) }) device
        next).0

  create_object-known :
      (entry : DeviceData) (t : TypeInfo) (c : Communicator) (next : ℕ)
      → find_type r (c_str entry.data_type) ≡ some t
      → create_object r (c_str entry.data_type) device (raw next) (c, next)
        ≡ (registered t c next, next + 1)
  unfolding create_object registered
  create_object-known entry t c next known = rw (known, create_object) refl

  registered-Made :
      (entry : DeviceData) (t : TypeInfo) (c : Communicator) (next : ℕ)
      → device < 65536
      → t ≢ abstract_pointer
      → let n = length (objects_of device c.device_object_map) in
        let c1 = registered t c next in
        Made c
          (set_object_path
            (set_object_name c1 device n entry.name)
            device
            n
            (device_prefix device ++ entry.path))
          next
          device
          t
          entry
  unfolding registered
  registered-Made entry t c next few real =
      let n = length (objects_of device c.device_object_map) in
      let start = put c.heap next (new_object t (raw next)) in
      let c0 : Communicator = record c { heap = start } in
      let c1 = registered t c next in
      let path = device_prefix device ++ entry.path in
      let at : pointer_at c1 device n ≡ some next =
        ground (arith, register-pointer c0 device next device n few) in
      rw (set_object_name-path c1 device n next entry.name path at) record {
        pointers = λ e j.
            pointer_at-heap c1
              (put (put c1.heap next (Virtual.set_name (c1.heap next) (some entry.name))) next (
                Virtual.set_path
                  (put c1.heap next (Virtual.set_name (c1.heap next) (some entry.name)) next)
                  (some path)))
              e j
            ∙ ((register-pointer c0 device next e j few).1
                ∙ ap (λ o. if device == e && j == n then some next else o)
                    (pointer_at-heap c start e j));
        one_more = register-length c0 device next few;
        matches =
            rw (==_refl next, register-heap c0 device next next few, ==_refl next)
              (placed-Matches t (raw next) device n entry real);
        others = λ p h. ground (arith, register-heap c0 device next p few);
      }

  create_and_register_object-Made :
      (entry : DeviceData) (t : TypeInfo) (index : ℕ) (c : Communicator) (next : ℕ)
      → device < 65536
      → index ≡ length (objects_of device c.device_object_map)
      → t ≢ abstract_pointer
      → find_type r (c_str entry.data_type) ≡ some t
      → let (c', next') = create_and_register_object type_name raw r entry device index (c, next) in
        (next' ≡ next + 1) × Made c c' next device t entry
  unfolding create_and_register_object
  create_and_register_object-Made entry t index c next few at real known =
      rw (at, create_object-known entry t c next known, create_and_register_object)
        (refl, registered-Made entry t c next few real)

  -- Every type that the descriptions name is registered, and can be made.
  abbrev pub Known : List DeviceData → Type 0
  Known entries =
      (k : ℕ) (entry : DeviceData)
      → get_elem? entries k ≡ some entry
      → (t : TypeInfo) × (find_type r (c_str entry.data_type) ≡ some t) × (t ≢ abstract_pointer)

  -- What the objects of the descriptions are, from the index and the free pointer on.
  pub record Filled (entries : List DeviceData) (index : ℕ) (c : Communicator) (next : ℕ)
      (c' : Communicator) (next' : ℕ) : Type 0 where
    pub made :
        (k : ℕ) (entry : DeviceData) (t : TypeInfo)
        → get_elem? entries k ≡ some entry
        → find_type r (c_str entry.data_type) ≡ some t
        → (pointer_at c' device (index + k) ≡ some (next + k))
          × Matches t device entry (c'.heap (next + k))
    pub size : length (objects_of device c'.device_object_map) ≡ index + length entries
    pub free : next' ≡ next + length entries
    pub stay : (d j : ℕ) → (d ≡ device → j < index) → pointer_at c' d j ≡ pointer_at c d j
    pub old : (p : ℕ) → p < next → c'.heap p ≡ c.heap p

  Filled-Made :
      (entry : DeviceData) (entries : List DeviceData) (t : TypeInfo) (index : ℕ) (c : Communicator)
      (next : ℕ) (c1 : Communicator) (next1 : ℕ) (c' : Communicator) (next' : ℕ)
      → index ≡ length (objects_of device c.device_object_map)
      → find_type r (c_str entry.data_type) ≡ some t
      → next1 ≡ next + 1
      → Made c c1 next device t entry
      → Filled entries (suc index) c1 next1 c' next'
      → (k : ℕ) (entry' : DeviceData) (t' : TypeInfo) → get_elem? (entry ∷ entries) k ≡ some entry'
      → find_type r (c_str entry'.data_type) ≡ some t'
      → (pointer_at c' device (index + k) ≡ some (next + k))
        × Matches t' device entry' (c'.heap (next + k))
  Filled-Made entry entries t index c next c1 next1 c' next' at known n1 m f zero entry' t' h
        known' =
      let same_entry : entry ≡ entry' = cc h in
      let same_type : t ≡ t' = cc (known, known', same_entry) in
      let pointer : next + 0 ≡ next = omega arith in
      (
        ground (arith, f.stay device index, m.pointers device index),
        rw (sym same_entry, sym same_type, pointer, f.old next (omega (arith, n1))) m.matches,
      )
  Filled-Made entry entries t index c next c1 next1 c' next' at known n1 m f (suc k) entry' t' h
        known' =
      let (there, matches) = f.made k entry' t' h known' in
      let place : index + suc k ≡ suc index + k = omega arith in
      let pointer : next + suc k ≡ next1 + k = omega (arith, n1) in
      rw (place, pointer) (there, matches)

  Filled-step :
      (entry : DeviceData) (entries : List DeviceData) (t : TypeInfo) (index : ℕ) (c : Communicator)
      (next : ℕ) (c1 : Communicator) (next1 : ℕ) (c' : Communicator) (next' : ℕ)
      → index ≡ length (objects_of device c.device_object_map)
      → find_type r (c_str entry.data_type) ≡ some t
      → next1 ≡ next + 1
      → Made c c1 next device t entry
      → Filled entries (suc index) c1 next1 c' next'
      → Filled (entry ∷ entries) index c next c' next'
  Filled-step entry entries t index c next c1 next1 c' next' at known n1 m f = record {
    made = Filled-Made entry entries t index c next c1 next1 c' next' at known n1 m f;
    size = omega (arith, f.size);
    free = omega (arith, f.free, n1);
    stay = λ d j h. ground (arith, f.stay d j, m.pointers d j);
    old = λ p h. ground (arith, f.old p, m.others p);
  }

  -- The constructor of an object for each description, in order: the object for the description at
  -- place k stands at the index of the first plus k, has the type that the description names, its
  -- name, and its path behind the prefix of the device, both cut to 99 characters. No other address
  -- and no older object changes. The types must be registered.
  pub create_all-Filled :
      (entries : List DeviceData) (index : ℕ) (c : Communicator) (next : ℕ)
      → device < 65536
      → index ≡ length (objects_of device c.device_object_map)
      → Known entries
      → let (c', next') = create_all type_name raw r entries device index (c, next) in
        Filled entries index c next c' next'
  unfolding create_all
  create_all-Filled [] index c next few at known = record {
    made = λ k entry t h known. absurd (cc h);
    size = omega (arith, at);
    free = omega arith;
    stay = λ d j h. refl;
    old = λ p h. refl;
  }
  create_all-Filled (entry ∷ entries) index c next few at known =
      let (t, is_t, real) = known 0 entry refl in
      let s1 = create_and_register_object type_name raw r entry device index (c, next) in
      let (n1, m) = create_and_register_object-Made entry t index c next few at real is_t in
      Filled-step entry entries t index c next s1.0 s1.1 _ _ at is_t n1 m (
        create_all-Filled entries (suc index) s1.0 s1.1 few (omega (arith, at, m.one_more))
          (λ k e h. known (suc k) e h))
