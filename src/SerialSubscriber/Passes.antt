-- ===== src/SerialSubscriber/Passes.antt =====
-- What a pass of `UpdateCommObjects` asks one subscriber to write.
use mathlib.Core.List.{append_assoc}
use tcomm_tests.Common.{
  ℕ, ◌≡◌, ◌≢◌, refl, Bool, true, false, ◌||◌, ◌&&◌, List, [], ◌∷◌, ◌++◌, map, none, some, arith,
  ◌==◌, if◌then◌else◌, ◌∙◌, sym, ap, inl, inr, Bool-cases, remove_if, replicate,
}
use tcomm_tests.ByteSerializer.{CommunicationData}
use tcomm_tests.ClockBits.{Rates}
use tcomm_tests.Object
use tcomm_tests.Object.Types.{word_codec, text_codec}
use tcomm_tests.Object.Virtual
use tcomm_tests.Object.Virtual.{AnyObject, word, text, abstract}
use tcomm_tests.Communicator.{
  Communicator, Effect, writes, registers, put, is_excluded, write_data, write_update,
  is_time_to_update, register_device, announce, update_object, update_list, update_devices,
  update_comm_objects,
}
use tcomm_tests.Communicator.Routing.{occurrences}
use tcomm_tests.SerialSubscriber.{messages_to}
use tcomm_tests.SerialSubscriber.Arrival.{data_of}

-- The object has something new: it is marked, or its value is not the one that it last sent.
abbrev pub has_news : AnyObject → Bool
has_news (word t o) = Object.is_dirty (word_codec t) o
has_news (text o) = Object.is_dirty text_codec o
has_news abstract = false

-- An object sends when all are to send, or when it is due and has something new.
abbrev pub sends : Bool → Rates → AnyObject → Bool
sends all edge o = all || is_time_to_update edge (Virtual.get_update_interval o) && has_news o

unfoldable pub objects_sent : Bool → Rates → (ℕ → AnyObject) → List ℕ → List AnyObject
objects_sent all edge heap [] = []
objects_sent all edge heap (p ∷ ps) =
    let rest = objects_sent all edge heap ps in
    if sends all edge (heap p) then heap p ∷ rest else rest

-- The objects of the map, device by device.
abbrev pub pointers : List (ℕ × List ℕ) → List ℕ
pointers [] = []
pointers ((d, ps) ∷ m) = ps ++ pointers m

abbrev pub contains : ℕ → List ℕ → Bool
contains p [] = false
contains p (q ∷ qs) = q == p || contains p qs

-- No object stands twice.
abbrev pub Distinct : List ℕ → Type 0
Distinct [] = Unit {0}
Distinct (p ∷ ps) = (contains p ps ≡ false) × Distinct ps

messages_to-append :
    (s : ℕ) (xs ys : List Effect) → messages_to s (xs ++ ys) ≡ messages_to s xs ++ messages_to s ys
unfolding messages_to
messages_to-append s [] ys = refl
messages_to-append s (writes t d ∷ xs) ys = ground (arith, messages_to-append s xs ys)
messages_to-append s (registers t d ∷ xs) ys = messages_to-append s xs ys

messages_to-map :
    (s : ℕ) (d : CommunicationData) (ss : List ℕ)
    → messages_to s (map (λ t. writes t d) (remove_if (is_excluded none) ss))
      ≡ replicate (occurrences s ss) d
unfolding messages_to
messages_to-map s d [] = refl
messages_to-map s d (t ∷ ss) = ground (arith, messages_to-map s d ss)

messages_to-write_data :
    (c : Communicator) (s : ℕ) (d : CommunicationData)
    → occurrences s c.sub_list ≡ 1
    → messages_to s (write_data c d none) ≡ d ∷ []
unfolding write_data
messages_to-write_data c s d once = rw (messages_to-map s d c.sub_list, once) refl

messages_to-registers : (s d : ℕ) (ss : List ℕ) → messages_to s (map (λ t. registers t d) ss) ≡ []
unfolding messages_to
messages_to-registers s d [] = refl
messages_to-registers s d (t ∷ ss) = messages_to-registers s d ss

messages_to-announce :
    (c : Communicator) (s : ℕ) (m : List (ℕ × Bool)) → messages_to s (announce c m).1 ≡ []
unfolding announce register_device
messages_to-announce c s [] = unfold messages_to in refl
messages_to-announce c s ((d, true) ∷ m) =
    messages_to-append s (register_device c d) (announce c m).1
    ∙ rw (messages_to-registers s d c.sub_list, messages_to-announce c s m) refl
messages_to-announce c s ((d, false) ∷ m) = messages_to-announce c s m

-- The messages of one object.
abbrev one_of : Bool → AnyObject → List CommunicationData
one_of b o = if b then data_of o ∷ [] else []

-- What an update gives, of an object of either type.
update-news :
    (o : AnyObject)
    → o ≢ abstract
    → (Virtual.update o).1 ≡ (if has_news o then some (data_of o) else none)
unfolding Virtual.update Object.update
update-news (word t o) real = elim (Bool-cases (Object.is_dirty (word_codec t) o)) [
  | inl e ↦ rw e refl
  | inr e ↦ rw e refl
]
update-news (text o) real = ground arith
update-news abstract real = absurd (real refl)

-- A mark is news, and nothing else of what is sent.
marked-news :
    (o : AnyObject)
    → o ≢ abstract
    → (has_news (Virtual.set_changed o) ≡ true)
      × (data_of (Virtual.set_changed o) ≡ data_of o)
      × (Virtual.set_changed o ≢ abstract)
unfolding Virtual.set_changed Object.get_data
marked-news (word t o) real = (refl, refl, λ h. absurd (cc h))
marked-news (text o) real = (refl, refl, λ h. absurd (cc h))
marked-news abstract real = absurd (real refl)

messages_to-write_update :
    (c : Communicator) (s : ℕ) (b : Bool) (o : AnyObject)
    → occurrences s c.sub_list ≡ 1
    → messages_to s (write_update c (if b then some (data_of o) else none)) ≡ one_of b o
messages_to-write_update c s true o once = messages_to-write_data c s (data_of o) once
messages_to-write_update c s false o once = unfold messages_to in refl

-- What an object hands out to be written, by the flag and the clock.
abbrev handed_out : Communicator → Bool → Bool → AnyObject → List Effect
handed_out c true due o = write_update c (Virtual.update (Virtual.set_changed o)).1
handed_out c false true o = write_update c (Virtual.update o).1
handed_out c false false o = []

update_object-written :
    (c : Communicator) (edge : Rates) (o : AnyObject)
    → let due = is_time_to_update edge (Virtual.get_update_interval o) in
      (update_object c edge o).1 ≡ handed_out c c.send_all_data due o
unfolding update_object
update_object-written c edge o = ground arith

messages_to-written :
    (c : Communicator) (s : ℕ) (all due : Bool) (o : AnyObject)
    → occurrences s c.sub_list ≡ 1
    → o ≢ abstract
    → messages_to s (handed_out c all due o) ≡ one_of (all || due && has_news o) o
messages_to-written c s true due o once real =
    let (news, same, real') = marked-news o real in
    rw (update-news (Virtual.set_changed o) real', news)
      (messages_to-write_data c s (data_of (Virtual.set_changed o)) once ∙ ap (λ d. d ∷ []) same)
messages_to-written c s false true o once real =
    rw (update-news o real) (messages_to-write_update c s (has_news o) o once)
messages_to-written c s false false o once real = unfold messages_to in refl

messages_to-update_object :
    (c : Communicator) (edge : Rates) (s : ℕ) (o : AnyObject)
    → occurrences s c.sub_list ≡ 1
    → o ≢ abstract
    → messages_to s (update_object c edge o).1 ≡ one_of (sends c.send_all_data edge o) o
messages_to-update_object c edge s o once real =
    ap (messages_to s) (update_object-written c edge o)
    ∙ messages_to-written c s c.send_all_data _ o once real

-- An object that is not in the list may be replaced.
objects_sent-put :
    (all : Bool) (edge : Rates) (heap : ℕ → AnyObject) (p : ℕ) (o : AnyObject) (ps : List ℕ)
    → contains p ps ≡ false
    → objects_sent all edge (put heap p o) ps ≡ objects_sent all edge heap ps
unfolding objects_sent
objects_sent-put all edge heap p o [] h = refl
objects_sent-put all edge heap p o (q ∷ ps) h =
    ground (arith, objects_sent-put all edge heap p o ps)

-- None of the objects is the abstract one.
abbrev pub AllReal : (ℕ → AnyObject) → List ℕ → Type 0
AllReal heap [] = Unit {0}
AllReal heap (p ∷ ps) = (heap p ≢ abstract) × AllReal heap ps

AllReal-put :
    (heap : ℕ → AnyObject) (p : ℕ) (o : AnyObject) (ps : List ℕ)
    → contains p ps ≡ false
    → AllReal heap ps
    → AllReal (put heap p o) ps
AllReal-put heap p o [] h r = tt
AllReal-put heap p o (q ∷ ps) h (r, rs) = (ground arith, AllReal-put heap p o ps (ground arith) rs)

one_of-map :
    (b : Bool) (o : AnyObject) (os : List AnyObject)
    → one_of b o ++ map data_of os ≡ map data_of (if b then o ∷ os else os)
one_of-map true o os = refl
one_of-map false o os = refl

messages_to-update_list :
    (c : Communicator) (edge : Rates) (s : ℕ) (ps : List ℕ)
    → occurrences s c.sub_list ≡ 1
    → Distinct ps
    → AllReal c.heap ps
    → messages_to s (update_list c edge ps).1
      ≡ map data_of (objects_sent c.send_all_data edge c.heap ps)
unfolding update_list objects_sent
messages_to-update_list c edge s [] once h real = unfold messages_to in refl
messages_to-update_list c edge s (p ∷ ps) once (new, h) (r, real) =
    let o' = (update_object c edge (c.heap p)).0 in
    let d : Communicator = record c { heap = put c.heap p o' } in
    let out = (update_object c edge (c.heap p)).1 in
    let more = messages_to-update_list d edge s ps once h (AllReal-put c.heap p o' ps new real) in
    messages_to-append s out (update_list d edge ps).1
    ∙ rw
        (
          messages_to-update_object c edge s (c.heap p) once r,
          more,
          objects_sent-put c.send_all_data edge c.heap p o' ps new,
        )
        (one_of-map (sends c.send_all_data edge (c.heap p)) (c.heap p) _)

update_list-append :
    (c : Communicator) (edge : Rates) (ps qs : List ℕ)
    → update_list c edge (ps ++ qs) ≡ (
        let (c', out) = update_list c edge ps in
        let (c'', more) = update_list c' edge qs in (c'', out ++ more))
unfolding update_list
update_list-append c edge [] qs = refl
update_list-append c edge (p ∷ ps) qs =
    let (o, out) = update_object c edge (c.heap p) in
    let d : Communicator = record c { heap = put c.heap p o } in
    let (d', more) = update_list d edge ps in
    rw (update_list-append d edge ps qs) (
      ap (λ x. ((update_list d' edge qs).0, x))
        (sym (append_assoc out more (update_list d' edge qs).1)))

update_devices-flat :
    (c : Communicator) (edge : Rates) (m : List (ℕ × List ℕ))
    → update_devices c edge m ≡ update_list c edge (pointers m)
unfolding update_devices update_list
update_devices-flat c edge [] = refl
update_devices-flat c edge ((d, ps) ∷ m) =
    rw
      (
        update_list-append c edge ps (pointers m),
        update_devices-flat (update_list c edge ps).0 edge m,
      )
      refl

-- A subscriber that is in the list once is asked to write each object that sends, once and in order.
pub messages_to-update_comm_objects :
    (c : Communicator) (edge : Rates) (s : ℕ)
    → occurrences s c.sub_list ≡ 1
    → Distinct (pointers c.device_object_map)
    → AllReal c.heap (pointers c.device_object_map)
    → messages_to s (update_comm_objects c edge).1
      ≡ map data_of (objects_sent c.send_all_data edge c.heap (pointers c.device_object_map))
unfolding update_comm_objects
messages_to-update_comm_objects c edge s once h real =
    let (changes, told) = announce c c.device_change_map in
    let d : Communicator = record c { device_change_map = changes } in
    messages_to-append s told (update_devices d edge c.device_object_map).1
    ∙ rw
        (
          messages_to-announce c s c.device_change_map,
          update_devices-flat d edge c.device_object_map,
        )
        (messages_to-update_list d edge s (pointers c.device_object_map) once h real)
