-- ===== src/Communicator/Passes.antt =====
-- A pass of `UpdateCommObjects`.
use mathlib.Core.Path.{fun_ext}
use tcomm_tests.Common.{
  ℕ, ◌≡◌, refl, Bool, true, false, ◌||◌, List, [], ◌∷◌, none, arith, ap, inl, inr, Bool-cases,
  ==_iff, ==_refl, ◌∙◌, sym, ◌==◌, if◌then◌else◌,
}
use tcomm_tests.ClockBits.{Rates}
use tcomm_tests.Object
use tcomm_tests.Object.Sync.{GoodWord, word-IsCodec, text-IsCodec, update_settled}
use tcomm_tests.Object.Types.{word_codec}
use tcomm_tests.Object.Virtual
use tcomm_tests.Object.Virtual.{AnyObject, word, text, abstract}
use tcomm_tests.Communicator.{
  Communicator, put, is_time_to_update, announce, update_object, update_list, update_devices,
  update_comm_objects,
}

-- The value is one that the type can hold, and no NaN.
abbrev pub IsGood : AnyObject → Type 0
IsGood (word t o) = GoodWord t o.value
IsGood (text o) = Unit {0}
IsGood abstract = Unit {0}

abbrev IsQuiet : AnyObject → Type 0
IsQuiet o = Virtual.update o ≡ (o, none)

update-IsQuiet : (o : AnyObject) → IsGood o → IsQuiet (Virtual.update o).0
unfolding Virtual.update
update-IsQuiet (word t o) g = ap (Virtual.update_word t) (update_settled (word-IsCodec t) o g)
update-IsQuiet (text o) g = ap Virtual.update_text (update_settled text-IsCodec o g)
update-IsQuiet abstract g = refl

-- An update and a mark leave the value and the interval.
abbrev Keeps : AnyObject → AnyObject → Type 0
Keeps o o' =
    (IsGood o → IsGood o') × (Virtual.get_update_interval o' ≡ Virtual.get_update_interval o)

update-Keeps : (o : AnyObject) → Keeps o (Virtual.update o).0
unfolding Virtual.update Object.update Virtual.get_update_interval
update-Keeps (word t o) = elim (Bool-cases (Object.is_dirty (word_codec t) o)) [
  | inl e ↦ rw e (λ g. g, refl)
  | inr e ↦ rw e (λ g. g, refl)
]
update-Keeps (text o) = (λ g. tt, ground arith)
update-Keeps abstract = (λ g. tt, refl)

set_changed-Keeps : (o : AnyObject) → Keeps o (Virtual.set_changed o)
unfolding Virtual.set_changed Virtual.get_update_interval
set_changed-Keeps (word t o) = (λ g. g, refl)
set_changed-Keeps (text o) = (λ g. tt, refl)
set_changed-Keeps abstract = (λ g. tt, refl)

-- If the object is due by these edges, it has nothing to send.
abbrev IsSettled : Rates → AnyObject → Type 0
IsSettled edge o = is_time_to_update edge (Virtual.get_update_interval o) ≡ true → IsQuiet o

not_due : (a b : Bool) → (a || b) ≡ false → a ≡ true → ⊥
not_due true b h t = cc
not_due false b h t = cc

marked : Bool → AnyObject → AnyObject
marked all o = if all then Virtual.set_changed o else o

marked-Keeps : (all : Bool) (o : AnyObject) → Keeps o (marked all o)
unfolding marked
marked-Keeps true o = set_changed-Keeps o
marked-Keeps false o = (λ g. g, refl)

update_object_due :
    (c : Communicator) (edge : Rates) (o : AnyObject)
    → IsGood o
    → IsGood (update_object c edge o).0 × IsSettled edge (update_object c edge o).0
unfolding update_object marked
update_object_due c edge o g =
    let o' = marked c.send_all_data o in
    let (good, same) = marked-Keeps c.send_all_data o in
    elim (Bool-cases (is_time_to_update edge (Virtual.get_update_interval o') || c.send_all_data)) [
      | inl due ↦ rw due ((update-Keeps o').0 (good g), λ _. update-IsQuiet o' (good g))
      | inr still ↦ rw still (good g, λ t. absurd (not_due _ _ still t))
    ]

-- A pass over some objects: what it may do to the communicator.
record Pass (edge : Rates) (c c' : Communicator) : Type 0 where
  pub good : (q : ℕ) → IsGood (c.heap q) → IsGood (c'.heap q)
  pub keeps : (q : ℕ) → IsGood (c.heap q) → IsSettled edge (c.heap q) → IsSettled edge (c'.heap q)
  pub same_rest : c' ≡ record c { heap = c'.heap }

Pass-refl : (edge : Rates) (c : Communicator) → Pass edge c c
Pass-refl edge c = record { good = λ q g. g; keeps = λ q g s. s; same_rest = refl }

Pass-trans : (edge : Rates) (c d e : Communicator) → Pass edge c d → Pass edge d e → Pass edge c e
Pass-trans edge c d e p q = record {
  good = λ r g. q.good r (p.good r g);
  keeps = λ r g s. q.keeps r (p.good r g) (p.keeps r g s);
  same_rest = q.same_rest ∙ ap (λ (x : Communicator). record x { heap = e.heap }) p.same_rest;
}

put_at {ℓ} :
    (P : AnyObject → Type ℓ) (heap : ℕ → AnyObject) (p q : ℕ) (o : AnyObject)
    → (p ≡ q → P o)
    → P (heap q)
    → P (put heap p o q)
put_at P heap p q o new old = elim (Bool-cases (p == q)) [
  | inl e ↦ rw e (new ((==_iff p q).0 e))
  | inr e ↦ rw e old
]

one-Pass :
    (c : Communicator) (edge : Rates) (p : ℕ)
    → Pass edge c (record c { heap = put c.heap p (update_object c edge (c.heap p)).0 })
one-Pass c edge p = record {
  good =
      λ q g. put_at IsGood c.heap p q _ (λ e. (update_object_due c edge (c.heap p) (rw e g)).0) g;
  keeps = λ q g s.
      put_at (IsSettled edge) c.heap p q _ (λ e. (update_object_due c edge (c.heap p) (rw e g)).1)
        s;
  same_rest = refl;
}

AllIn : (ℕ → Type 0) → List ℕ → Type 0
AllIn P [] = Unit
AllIn P (p ∷ ps) = P p × AllIn P ps

update_list-Pass :
    (c : Communicator) (edge : Rates) (ps : List ℕ)
    → ((q : ℕ) → IsGood (c.heap q))
    → let c' = (update_list c edge ps).0 in
      Pass edge c c' × AllIn (λ p. IsSettled edge (c'.heap p)) ps
unfolding update_list AllIn
update_list-Pass c edge [] g = (Pass-refl edge c, tt)
update_list-Pass c edge (p ∷ ps) g =
    let d : Communicator = record c { heap = put c.heap p (update_object c edge (c.heap p)).0 } in
    let first = one-Pass c edge p in
    let (rest, settled) = update_list-Pass d edge ps (λ q. first.good q (g q)) in
    (
      Pass-trans edge c d _ first rest,
      (
        rest.keeps p (first.good p (g p))
            (rw (==_refl p) (update_object_due c edge (c.heap p) (g p)).1),
        settled,
      ),
    )

AllIn-mono : {P Q : ℕ → Type 0} (ps : List ℕ) → ((p : ℕ) → P p → Q p) → AllIn P ps → AllIn Q ps
unfolding AllIn
AllIn-mono [] f h = tt
AllIn-mono (p ∷ ps) f (x, h) = (f p x, AllIn-mono ps f h)

AllDevices : (ℕ → Type 0) → List (ℕ × List ℕ) → Type 0
AllDevices P [] = Unit
AllDevices P ((device, ps) ∷ m) = AllIn P ps × AllDevices P m

update_devices-Pass :
    (c : Communicator) (edge : Rates) (m : List (ℕ × List ℕ))
    → ((q : ℕ) → IsGood (c.heap q))
    → let c' = (update_devices c edge m).0 in
      Pass edge c c' × AllDevices (λ p. IsSettled edge (c'.heap p)) m
unfolding update_devices AllDevices
update_devices-Pass c edge [] g = (Pass-refl edge c, tt)
update_devices-Pass c edge ((device, ps) ∷ m) g =
    let d = (update_list c edge ps).0 in
    let (first, settled) = update_list-Pass c edge ps g in
    let g' = λ (q : ℕ). first.good q (g q) in
    let (rest, all) = update_devices-Pass d edge m g' in
    (Pass-trans edge c d _ first rest, (AllIn-mono ps (λ p s. rest.keeps p (g' p) s) settled, all))

put_self : (heap : ℕ → AnyObject) (p : ℕ) → put heap p (heap p) ≡ heap
put_self heap p = fun_ext λ q. put_at (λ o. o ≡ heap q) heap p q (heap p) (λ e. ap heap e) refl

update_object_idle :
    (c : Communicator) (edge : Rates) (o : AnyObject)
    → c.send_all_data ≡ false
    → IsSettled edge o
    → update_object c edge o ≡ (o, [])
unfolding update_object
update_object_idle c edge o none_all s =
    elim (Bool-cases (is_time_to_update edge (Virtual.get_update_interval o))) [
      | inl due ↦ ground (arith, s due)
      | inr still ↦ ground arith
    ]

update_list_idle :
    (c : Communicator) (edge : Rates) (ps : List ℕ)
    → c.send_all_data ≡ false
    → AllIn (λ p. IsSettled edge (c.heap p)) ps
    → update_list c edge ps ≡ (c, [])
unfolding update_list AllIn
update_list_idle c edge [] off s = refl
update_list_idle c edge (p ∷ ps) off (s, ss) = rw (
  update_object_idle c edge (c.heap p) off s,
  put_self c.heap p,
  update_list_idle c edge ps off ss,
)

update_devices_idle :
    (c : Communicator) (edge : Rates) (m : List (ℕ × List ℕ))
    → c.send_all_data ≡ false
    → AllDevices (λ p. IsSettled edge (c.heap p)) m
    → update_devices c edge m ≡ (c, [])
unfolding update_devices AllDevices
update_devices_idle c edge [] off s = refl
update_devices_idle c edge ((device, ps) ∷ m) off (s, ss) =
    rw (update_list_idle c edge ps off s, update_devices_idle c edge m off ss)

announce_twice :
    (c c' : Communicator) (m : List (ℕ × Bool))
    → announce c' (announce c m).0 ≡ ((announce c m).0, [])
unfolding announce
announce_twice c c' [] = refl
announce_twice c c' ((device, true) ∷ m) = rw (announce_twice c c' m)
announce_twice c c' ((device, false) ∷ m) = rw (announce_twice c c' m)

idle_pass :
    (c : Communicator) (edge : Rates)
    → c.send_all_data ≡ false
    → announce c c.device_change_map ≡ (c.device_change_map, [])
    → AllDevices (λ p. IsSettled edge (c.heap p)) c.device_object_map
    → update_comm_objects c edge ≡ (c, [])
unfolding update_comm_objects
idle_pass c edge off told settled =
    rw (told, update_devices_idle c edge c.device_object_map off settled)
      (ap (λ (b : Bool). (record c { send_all_data = b }, [])) (sym off))

-- A pass leaves nothing to do: while every value is one that its type can hold and no NaN, a second
-- pass under the same clock edges announces no device, writes to no subscriber, and changes nothing.
pub update_comm_objects_settles :
    (c : Communicator) (edge : Rates)
    → ((q : ℕ) → IsGood (c.heap q))
    → let c' = (update_comm_objects c edge).0 in update_comm_objects c' edge ≡ (c', [])
unfolding update_comm_objects
update_comm_objects_settles c edge g =
    let m = announce c c.device_change_map in
    let d : Communicator = record c { device_change_map = m.0 } in
    let (pass, settled) = update_devices-Pass d edge c.device_object_map g in
    let r = (update_devices d edge c.device_object_map).0 in
    let changes : r.device_change_map ≡ m.0 =
      ap (λ (x : Communicator). x.device_change_map) pass.same_rest in
    let devices : r.device_object_map ≡ c.device_object_map =
      ap (λ (x : Communicator). x.device_object_map) pass.same_rest in
    idle_pass (record r { send_all_data = false }) edge refl
      (rw changes (announce_twice c _ c.device_change_map)) (rw devices settled)
