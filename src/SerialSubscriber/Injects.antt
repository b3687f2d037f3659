-- ===== src/SerialSubscriber/Injects.antt =====
-- What the objects of the one side leave at the other.
use tcomm_tests.Common.{
  ℕ, ◌≡◌, ◌≢◌, refl, Bool, true, false, List, [], ◌∷◌, ◌++◌, map, Option, none, some, arith, ◌==◌,
  if◌then◌else◌, ◌∙◌, sym, ap, inl, inr, Bool-cases, Option-cases, ==_iff, ==_refl, ==_ne,
}
use tcomm_tests.ByteSerializer.{CommunicationData}
use tcomm_tests.ByteSerializer.Frame.{message}
use tcomm_tests.ClockBits.{Rates}
use tcomm_tests.Object.Virtual
use tcomm_tests.Object.Virtual.{AnyObject, word, text, abstract}
use tcomm_tests.Communicator.{
  Communicator, Effect, put, pointer_at, write_data, inject_comm_object, inject_all,
}
use tcomm_tests.Communicator.Devices.{pointer_at-heap}
use tcomm_tests.Communicator.Routing.{with_object}
use tcomm_tests.SerialSubscriber.Arrival.{data_of, copied, inject-copied, IsSendable}
use tcomm_tests.SerialSubscriber.Passes.{objects_sent, sends, contains, Distinct}

-- The object that the data of this one are for.
abbrev pub target : Communicator → AnyObject → Option ℕ
target b o = pointer_at b (data_of o).device_index (data_of o).object_index

abbrev taken_at : Communicator → AnyObject → Option ℕ → Communicator
taken_at b o none = b
taken_at b o (some q) = with_object b q (copied o (b.heap q))

pub take_in : Communicator → List AnyObject → Communicator
take_in b [] = b
take_in b (o ∷ os) = take_in (taken_at b o (target b o)) os

-- It can be sent, and what it is for is of its type.
abbrev pub Fits : Communicator → AnyObject → Type 0
Fits b o =
    IsSendable o
    × ((q : ℕ) → target b o ≡ some q → Virtual.get_type o ≡ Virtual.get_type (b.heap q))

abbrev pub AllFit : Communicator → List AnyObject → Type 0
AllFit b [] = Unit {0}
AllFit b (o ∷ os) = Fits b o × AllFit b os

copied-get_type : (o q : AnyObject) → Virtual.get_type (copied o q) ≡ Virtual.get_type q
unfolding Virtual.get_type
copied-get_type (word t o) (word u q) = refl
copied-get_type (word t o) (text q) = refl
copied-get_type (word t o) abstract = refl
copied-get_type (text o) (word u q) = refl
copied-get_type (text o) (text q) = refl
copied-get_type (text o) abstract = refl
copied-get_type abstract q = refl

type_at :
    (b : Communicator) (o : AnyObject) (p q : ℕ)
    → Virtual.get_type (put b.heap p (copied o (b.heap p)) q) ≡ Virtual.get_type (b.heap q)
type_at b o p q = elim (Bool-cases (p == q)) [
  | inl e ↦
      rw e (copied-get_type o (b.heap p) ∙ ap (λ r. Virtual.get_type (b.heap r)) ((==_iff p q).0 e))
  | inr e ↦ rw e refl
]

AllFit-taken_at :
    (b : Communicator) (o : AnyObject) (p : Option ℕ) (os : List AnyObject)
    → AllFit b os
    → AllFit (taken_at b o p) os
AllFit-taken_at b o none os h = h
AllFit-taken_at b o (some p) [] h = tt
AllFit-taken_at b o (some p) (x ∷ os) ((s, f), h) = (
  (s, λ q t. f q (sym (pointer_at-heap b _ _ _) ∙ t) ∙ sym (type_at b o p q)),
  AllFit-taken_at b o (some p) os h,
)

inject-target :
    (b : Communicator) (t : ℕ) (o : AnyObject) (e : CommunicationData)
    → Fits b o
    → message e ≡ message (data_of o)
    → (out : List Effect) × (inject_comm_object b e (some t)
        ≡ some (taken_at b o (target b o), out))
unfolding inject_comm_object
inject-target b t o e (s, f) m =
    let here : pointer_at b e.device_index e.object_index ≡ target b o =
      λ i. pointer_at b (m i).0 (m i).1 in
    elim (Option-cases (target b o)) [
      | inl gone ↦ (write_data b e (some t), rw (here, gone, inject_comm_object) refl)
      | inr (q, there) ↦ (
        write_data (with_object b q (copied o (b.heap q))) e (some t),
        rw (here, there, inject_comm_object, inject-copied o (b.heap q) e s (f q there) m) refl,
      )
    ]

pub inject_all-take_in :
    (b : Communicator) (t : ℕ) (es : List CommunicationData) (os : List AnyObject)
    → AllFit b os
    → map message es ≡ map message (map data_of os)
    → (out : List Effect) × (inject_all b t es ≡ some (take_in b os, out))
unfolding inject_all take_in
inject_all-take_in b t [] [] h m = ([], refl)
inject_all-take_in b t [] (o ∷ os) h m = absurd (cc m)
inject_all-take_in b t (e ∷ es) [] h m = absurd (cc m)
inject_all-take_in b t (e ∷ es) (o ∷ os) (f, h) m =
    let (out, one) = inject-target b t o e f (cc m) in
    let b' = taken_at b o (target b o) in
    let (more, rest) =
      inject_all-take_in b' t es os (AllFit-taken_at b o (target b o) os h) (cc m) in
    (out ++ more, rw (one, inject_all, rest) refl)

-- A pointer that none of the objects is for keeps its object.
pub take_in-miss :
    (b : Communicator) (q : ℕ) (all : Bool) (edge : Rates) (heap : ℕ → AnyObject) (ps : List ℕ)
    → ((p : ℕ) → contains p ps ≡ true → target b (heap p) ≢ some q)
    → (take_in b (objects_sent all edge heap ps)).heap q ≡ b.heap q
unfolding take_in objects_sent
take_in-miss b q all edge heap [] miss = refl
take_in-miss b q all edge heap (p ∷ ps) miss = elim (Bool-cases (sends all edge (heap p))) [
  | inl e ↦ elim (Option-cases (target b (heap p))) [
    | inl gone ↦
        rw (e, take_in, gone) (take_in-miss b q all edge heap ps (λ r h. miss r (ground arith)))
    | inr (q', there) ↦
        let b' = with_object b q' (copied (heap p) (b.heap q')) in
        let apart : (q' == q) ≡ false =
          ==_ne q' q λ x. miss p (rw (==_refl p) refl) (there ∙ ap some x) in
        rw (e, take_in, there)
          (take_in-miss b' q all edge heap ps
              (λ r h t. miss r (ground arith) (sym (pointer_at-heap b _ _ _) ∙ t))
            ∙ rw apart refl)
  ]
  | inr e ↦ rw e (take_in-miss b q all edge heap ps (λ r h. miss r (ground arith)))
]

-- The pointer that one of the objects is for, and no other: it has what that object sends, if that
-- object sends.
pub take_in-hit :
    (b : Communicator) (p q : ℕ) (all : Bool) (edge : Rates) (heap : ℕ → AnyObject) (ps : List ℕ)
    → Distinct ps
    → contains p ps ≡ true
    → target b (heap p) ≡ some q
    → ((r : ℕ) → contains r ps ≡ true → r ≢ p → target b (heap r) ≢ some q)
    → (take_in b (objects_sent all edge heap ps)).heap q
      ≡ (if sends all edge (heap p) then copied (heap p) (b.heap q) else b.heap q)
unfolding take_in objects_sent
take_in-hit b p q all edge heap [] h there t others = absurd (cc there)
take_in-hit b p q all edge heap (r ∷ ps) (new, h) there t others = elim (Bool-cases (r == p)) [
  | inl here ↦
      let same : r ≡ p = (==_iff r p).0 here in
      let miss : (x : ℕ) → contains x ps ≡ true → target b (heap x) ≢ some q =
        λ x inside. others x (ground arith) (λ e. not_in ps r x new inside (e ∙ sym same)) in
      elim (Bool-cases (sends all edge (heap p))) [
        | inl sent ↦
            let b' = with_object b q (copied (heap p) (b.heap q)) in
            rw (same, sent, take_in, t)
              (take_in-miss b' q all edge heap ps
                  (λ x inside s. miss x inside (sym (pointer_at-heap b _ _ _) ∙ s))
                ∙ rw (==_refl q) refl)
        | inr kept ↦ rw (same, kept) (take_in-miss b q all edge heap ps miss)
      ]
  | inr far ↦
      let later : contains p ps ≡ true = ground arith in
      elim (Bool-cases (sends all edge (heap r))) [
        | inl sent ↦ elim (Option-cases (target b (heap r))) [
          | inl gone ↦
              rw (sent, take_in, gone)
                (take_in-hit b p q all edge heap ps h later t (λ x inside. others x (ground arith)))
          | inr (q', at') ↦
              let b' = with_object b q' (copied (heap r) (b.heap q')) in
              let apart : (q' == q) ≡ false = ==_ne q' q λ x.
                others r (rw (==_refl r) refl) (λ e. ground (arith, ==_refl p)) (at' ∙ ap some x) in
              let rest =
                take_in-hit b' p q all edge heap ps h later (pointer_at-heap b _ _ _ ∙ t)
                  (λ x inside ne s.
                    others x (ground arith) ne (sym (pointer_at-heap b _ _ _) ∙ s)) in
              rw (sent, take_in, at') (rw apart at rest)
        ]
        | inr kept ↦
            rw kept
              (take_in-hit b p q all edge heap ps h later t (λ x inside. others x (ground arith)))
      ]
]
  where
    not_in : (qs : List ℕ) (a x : ℕ) → contains a qs ≡ false → contains x qs ≡ true → x ≢ a
    not_in qs a x out inside e = ground (arith, e)

pub take_in-pointer :
    (b : Communicator) (os : List AnyObject) (d i : ℕ)
    → pointer_at (take_in b os) d i ≡ pointer_at b d i
unfolding take_in
take_in-pointer b [] d i = refl
take_in-pointer b (o ∷ os) d i =
    take_in-pointer (taken_at b o (target b o)) os d i ∙ same (target b o)
  where
    same : (p : Option ℕ) → pointer_at (taken_at b o p) d i ≡ pointer_at b d i
    same none = refl
    same (some q) = pointer_at-heap b _ d i
