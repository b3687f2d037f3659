-- ===== src/Message/Links.antt =====
-- Two messages at the two ends of a link: TCommBase.h under
-- TCommEspTest/lib/ControlLibrary/Communication/TComm/src.
use tcomm_tests.Common.{
  ℕ, true, false, same_bytes_refl, ◌≡◌, refl, some, Bytes, ap, sym, ◌∙◌, Bool-cases, inl, inr,
}
use tcomm_tests.Object.{TemplateCommunicationObject, c_str, is_dirty, update}
use tcomm_tests.Object.Types.{Codec, word_codec, text_codec, int}
use tcomm_tests.Message.{Message, update_message, inject_messages}
use tcomm_tests.Message.Slots.{
  IsReady, IsSettled, Agree, arrive, with_zero, whole, arrive_word-Agree, arrive_text-Agree,
}
use tcomm_tests.Message.Transfer.{IsIndexed, Fits, TextsFit, TextFits, place, deliver, transfer}

-- Something that holds of each of the nine pairs of objects.
pub record Each (word : TemplateCommunicationObject ℕ → TemplateCommunicationObject ℕ → Type 0)
    (text : TemplateCommunicationObject Bytes → TemplateCommunicationObject Bytes → Type 0)
    (m n : Message) : Type 0 where
  pub value : word m.value n.value
  pub text1 : text m.text1 n.text1
  pub text2 : text m.text2 n.text2
  pub text3 : text m.text3 n.text3
  pub text4 : text m.text4 n.text4
  pub text5 : text m.text5 n.text5
  pub kind : word m.kind n.kind
  pub testtype : word m.testtype n.testtype
  pub echotype : word m.echotype n.echotype

-- Both sides agree: the words are equal, the texts are equal up to their first zero byte, and neither
-- side has anything to send.
abbrev pub AreAgreed : Message → Message → Type 0
AreAgreed m n = Each (Agree whole) (Agree c_str) m n

-- One side's value was assigned, perhaps, since both agreed.
pub record IsEdit {A : Type 0} (o o' : TemplateCommunicationObject A) : Type 0 where
  pub old : o'.value_old ≡ o.value_old
  pub index : place o' ≡ place o

abbrev pub AreEdits : Message → Message → Type 0
AreEdits m m' = Each IsEdit IsEdit m m'

pub record AreLinked (m n : Message) : Type 0 where
  pub agreed : AreAgreed m n
  pub here : IsIndexed m
  pub there : IsIndexed n
  pub fits : Fits m

Agree-sym :
    {A B : Type 0} (view : A → B) (o p : TemplateCommunicationObject A)
    → Agree view o p
    → Agree view p o
Agree-sym view o p a = record { same = sym a.same; here = a.there; there = a.here }

pub AreLinked-sym : (m n : Message) → AreLinked m n → AreLinked n m
AreLinked-sym m n l = record {
  agreed = record {
    value = Agree-sym whole m.value n.value l.agreed.value;
    text1 = Agree-sym c_str m.text1 n.text1 l.agreed.text1;
    text2 = Agree-sym c_str m.text2 n.text2 l.agreed.text2;
    text3 = Agree-sym c_str m.text3 n.text3 l.agreed.text3;
    text4 = Agree-sym c_str m.text4 n.text4 l.agreed.text4;
    text5 = Agree-sym c_str m.text5 n.text5 l.agreed.text5;
    kind = Agree-sym whole m.kind n.kind l.agreed.kind;
    testtype = Agree-sym whole m.testtype n.testtype l.agreed.testtype;
    echotype = Agree-sym whole m.echotype n.echotype l.agreed.echotype;
  };
  here = l.there;
  there = l.here;
  fits = record {
    value = rw (sym l.agreed.value.same) l.fits.value;
    kind = rw (sym l.agreed.kind.same) l.fits.kind;
    testtype = rw (sym l.agreed.testtype.same) l.fits.testtype;
    echotype = rw (sym l.agreed.echotype.same) l.fits.echotype;
  };
}

IsEdit-IsReady :
    {A B : Type 0} (view : A → B) (o o' p : TemplateCommunicationObject A)
    → Agree view o p
    → IsEdit o o'
    → IsReady view o' p
IsEdit-IsReady view o o' p a e = record {
  known = ap view (e.old ∙ a.here.sent_last) ∙ a.same;
  quiet = a.there;
}

edited-IsIndexed : (m m' : Message) → IsIndexed m → AreEdits m m' → IsIndexed m'
edited-IsIndexed m m' i e = record {
  value = e.value.index ∙ i.value;
  text1 = e.text1.index ∙ i.text1;
  text2 = e.text2.index ∙ i.text2;
  text3 = e.text3.index ∙ i.text3;
  text4 = e.text4.index ∙ i.text4;
  text5 = e.text5.index ∙ i.text5;
  kind = e.kind.index ∙ i.kind;
  testtype = e.testtype.index ∙ i.testtype;
  echotype = e.echotype.index ∙ i.echotype;
}

-- A text that has nothing to send fits.
pub settled-TextFits : (o : TemplateCommunicationObject Bytes) → IsSettled o → TextFits o
settled-TextFits o s dirty =
    let clean : is_dirty text_codec o ≡ false =
      rw (s.unforced, s.sent_last, same_bytes_refl o.value) refl in
    absurd (true_false (sym dirty ∙ clean))
  where
    true_false : true ≡ false → ⊥
    true_false h = cc h

-- What `Update` leaves alone.
update-value :
    {A : Type 0} (c : Codec A) (o : TemplateCommunicationObject A)
    → ((update c o).0.value ≡ o.value) × (place (update c o).0 ≡ place o)
unfolding update
update-value c o = elim (Bool-cases (is_dirty c o)) [
  | inl dirty ↦ rw (dirty) (refl, refl)
  | inr clean ↦ rw (clean) (refl, refl)
]

arrive-place :
    {A : Type 0} (c : Codec A) (arrives : A → A) (o p : TemplateCommunicationObject A)
    → place (arrive c arrives o p) ≡ place p
arrive-place c arrives o p = elim (Bool-cases (is_dirty c o)) [
  | inl dirty ↦ rw (dirty) refl
  | inr clean ↦ rw (clean) refl
]

-- `Update` of all nine, and the message that the other side has when what it sends has arrived.
abbrev pub after : Message → Message
after m = (update_message m).0

after-IsIndexed : (m : Message) → IsIndexed m → IsIndexed (after m)
unfolding update_message
after-IsIndexed m i = record {
  value = (update-value (word_codec int) m.value).1 ∙ i.value;
  text1 = (update-value text_codec m.text1).1 ∙ i.text1;
  text2 = (update-value text_codec m.text2).1 ∙ i.text2;
  text3 = (update-value text_codec m.text3).1 ∙ i.text3;
  text4 = (update-value text_codec m.text4).1 ∙ i.text4;
  text5 = (update-value text_codec m.text5).1 ∙ i.text5;
  kind = (update-value (word_codec int) m.kind).1 ∙ i.kind;
  testtype = (update-value (word_codec int) m.testtype).1 ∙ i.testtype;
  echotype = (update-value (word_codec int) m.echotype).1 ∙ i.echotype;
}

deliver-IsIndexed : (m n : Message) → IsIndexed n → IsIndexed (deliver m n)
unfolding deliver
deliver-IsIndexed m n i = record {
  value = arrive-place (word_codec int) whole m.value n.value ∙ i.value;
  text1 = arrive-place text_codec with_zero m.text1 n.text1 ∙ i.text1;
  text2 = arrive-place text_codec with_zero m.text2 n.text2 ∙ i.text2;
  text3 = arrive-place text_codec with_zero m.text3 n.text3 ∙ i.text3;
  text4 = arrive-place text_codec with_zero m.text4 n.text4 ∙ i.text4;
  text5 = arrive-place text_codec with_zero m.text5 n.text5 ∙ i.text5;
  kind = arrive-place (word_codec int) whole m.kind n.kind ∙ i.kind;
  testtype = arrive-place (word_codec int) whole m.testtype n.testtype ∙ i.testtype;
  echotype = arrive-place (word_codec int) whole m.echotype n.echotype ∙ i.echotype;
}

after-Fits : (m : Message) → Fits m → Fits (after m)
unfolding update_message
after-Fits m f = record {
  value = rw ((update-value (word_codec int) m.value).0) f.value;
  kind = rw ((update-value (word_codec int) m.kind).0) f.kind;
  testtype = rw ((update-value (word_codec int) m.testtype).0) f.testtype;
  echotype = rw ((update-value (word_codec int) m.echotype).0) f.echotype;
}

deliver-AreAgreed :
    (m n : Message) → Each (IsReady whole) (IsReady c_str) m n → AreAgreed (after m) (deliver m n)
unfolding update_message deliver
deliver-AreAgreed m n r = record {
  value = arrive_word-Agree m.value n.value r.value;
  text1 = arrive_text-Agree m.text1 n.text1 r.text1;
  text2 = arrive_text-Agree m.text2 n.text2 r.text2;
  text3 = arrive_text-Agree m.text3 n.text3 r.text3;
  text4 = arrive_text-Agree m.text4 n.text4 r.text4;
  text5 = arrive_text-Agree m.text5 n.text5 r.text5;
  kind = arrive_word-Agree m.kind n.kind r.kind;
  testtype = arrive_word-Agree m.testtype n.testtype r.testtype;
  echotype = arrive_word-Agree m.echotype n.echotype r.echotype;
}

edited-AreReady :
    (m m' n : Message) → AreAgreed m n → AreEdits m m' → Each (IsReady whole) (IsReady c_str) m' n
edited-AreReady m m' n a e = record {
  value = IsEdit-IsReady whole m.value m'.value n.value a.value e.value;
  text1 = IsEdit-IsReady c_str m.text1 m'.text1 n.text1 a.text1 e.text1;
  text2 = IsEdit-IsReady c_str m.text2 m'.text2 n.text2 a.text2 e.text2;
  text3 = IsEdit-IsReady c_str m.text3 m'.text3 n.text3 a.text3 e.text3;
  text4 = IsEdit-IsReady c_str m.text4 m'.text4 n.text4 a.text4 e.text4;
  text5 = IsEdit-IsReady c_str m.text5 m'.text5 n.text5 a.text5 e.text5;
  kind = IsEdit-IsReady whole m.kind m'.kind n.kind a.kind e.kind;
  testtype = IsEdit-IsReady whole m.testtype m'.testtype n.testtype a.testtype e.testtype;
  echotype = IsEdit-IsReady whole m.echotype m'.echotype n.echotype a.echotype e.echotype;
}

-- What the other side has got is what was said, and the two agree again.
pub record Exchanged (m n : Message) : Type 0 where
  pub injected : inject_messages n (update_message m).1 ≡ some (deliver m n)
  pub linked : AreLinked (after m) (deliver m n)
  pub said_value : (after m).value.value ≡ m.value.value
  pub said_kind : (after m).kind.value ≡ m.kind.value
  pub heard_value : (deliver m n).value.value ≡ m.value.value
  pub heard_kind : (deliver m n).kind.value ≡ m.kind.value
  pub heard_text1 : c_str (deliver m n).text1.value ≡ c_str m.text1.value
  pub heard_text2 : c_str (deliver m n).text2.value ≡ c_str m.text2.value
  pub heard_text3 : c_str (deliver m n).text3.value ≡ c_str m.text3.value

pub after-value :
    (m : Message)
    → ((after m).value.value ≡ m.value.value)
      × ((after m).kind.value ≡ m.kind.value)
      × ((after m).text1.value ≡ m.text1.value)
      × ((after m).text2.value ≡ m.text2.value)
      × ((after m).text3.value ≡ m.text3.value)
unfolding update_message
after-value m = (
  (update-value (word_codec int) m.value).0,
  (update-value (word_codec int) m.kind).0,
  (update-value text_codec m.text1).0,
  (update-value text_codec m.text2).0,
  (update-value text_codec m.text3).0,
)

-- A message on which two sides agree, and of which one side edits values, all four words below
-- 2 ^ 32, and each text that is to be sent of at most 65,534 bytes: what `Update` of its nine objects sends is taken in by the other side, whose value, type and
-- three texts are then what was written, the texts up to their first zero byte. The two agree
-- on all nine objects again, and neither has anything more to send.
pub edited-Exchanged :
    (m m' n : Message) → AreLinked m n → AreEdits m m' → Fits m' → TextsFit m' → Exchanged m' n
edited-Exchanged m m' n l e fits texts =
    let indexed = edited-IsIndexed m m' l.here e in
    let agreed = deliver-AreAgreed m' n (edited-AreReady m m' n l.agreed e) in
    let (value, kind, text1, text2, text3) = after-value m' in
    record {
      injected = transfer m' indexed fits texts n;
      linked = record {
        agreed = agreed;
        here = after-IsIndexed m' indexed;
        there = deliver-IsIndexed m' n l.there;
        fits = after-Fits m' fits;
      };
      said_value = value;
      said_kind = kind;
      heard_value = sym agreed.value.same ∙ value;
      heard_kind = sym agreed.kind.same ∙ kind;
      heard_text1 = sym agreed.text1.same ∙ ap c_str text1;
      heard_text2 = sym agreed.text2.same ∙ ap c_str text2;
      heard_text3 = sym agreed.text3.same ∙ ap c_str text3;
    }
