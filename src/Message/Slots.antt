-- ===== src/Message/Slots.antt =====
-- One object of a message on both sides of a link: TemplateCommunicationObject.h under
-- TCommEspTest/lib/ControlLibrary/Communication/TComm/src.
use tcomm_tests.Common.{
  ℕ, ◌<◌, length, ◌≡◌, refl, Bool, true, false, not, [], ◌∷◌, ◌++◌, some, arith, Bytes, ==_iff,
  same_bytes_iff, ◌||◌, Bool-cases, inl, inr, sym, ◌∙◌, ap, if◌then◌else◌,
}
use mathlib.Core.List.{append-nil}
use tcomm_tests.Object.{TemplateCommunicationObject, c_str, get_data, is_dirty, update, inject}
use tcomm_tests.Object.Types.{Codec, int, word_codec, text_codec}
use tcomm_tests.Object.Sync.{IsCodec, inject-get_data, with_tail}

abbrev Object : Type 0 → Type 0
Object A = TemplateCommunicationObject A

-- The object has nothing to send.
pub record IsSettled {A : Type 0} (o : Object A) : Type 0 where
  pub sent_last : o.value_old ≡ o.value
  pub unforced : o.changed ≡ false

module _ {A : Type 0} (c : Codec A) (arrives : A → A) where
  -- The other side's object after an update of this one.
  abbrev pub arrive : Object A → Object A → Object A
  arrive o p =
      if is_dirty c o
      then record p {
        value = arrives o.value;
        value_old = arrives o.value;
        change_received = not (c.beq (arrives o.value) p.value);
      }
      else p

  -- What is sent is taken in.
  pub inject-arrive :
      {Good : A → Type 0} (laws : IsCodec c Good arrives) (o p : Object A)
      → Good o.value
      → length (c.bytes o.value) < 65536
      → is_dirty c o ≡ true
      → inject c p (get_data c o) ≡ some (arrive o p)
  inject-arrive laws o p good small dirty =
      rw (dirty) (rw (with_tail-nil) at (inject-get_data laws o p [] good small))
    where
      with_tail-nil : with_tail (get_data c o) [] ≡ get_data c o
      with_tail-nil =
          ap (λ (bs : Bytes). record (get_data c o) { buffer = bs })
            (append-nil (get_data c o).buffer)

-- What the two sides hold before this one sends, and after: they agree on a view of their values.
pub record IsReady {A B : Type 0} (view : A → B) (o p : Object A) : Type 0 where
  pub known : view o.value_old ≡ view p.value
  pub quiet : IsSettled p

pub record Agree {A B : Type 0} (view : A → B) (o p : Object A) : Type 0 where
  pub same : view o.value ≡ view p.value
  pub here : IsSettled o
  pub there : IsSettled p

arrive-Agree :
    {A B : Type 0} (c : Codec A) (arrives : A → A) (view : A → B) (o p : Object A)
    → ((v w : A) → c.beq v w ≡ true → v ≡ w)
    → ((v : A) → view (arrives v) ≡ view v)
    → IsReady view o p
    → Agree view (update c o).0 (arrive c arrives o p)
unfolding update
arrive-Agree c arrives view o p sound arrived r = elim (Bool-cases (is_dirty c o)) [
  | inl dirty ↦ rw (dirty) (record {
    same = sym (arrived o.value);
    here = record { sent_last = refl; unforced = refl };
    there = record { sent_last = refl; unforced = r.quiet.unforced };
  })
  | inr clean ↦ rw (clean) (
      let (unforced, equal) = clean_parts o.changed (c.beq o.value o.value_old) clean in
      let e = sound o.value o.value_old equal in
      record {
        same = ap view e ∙ r.known;
        here = record { sent_last = sym e; unforced = unforced };
        there = r.quiet;
      })
]
  where
    clean_parts : (a b : Bool) → a || not b ≡ false → (a ≡ false) × (b ≡ true)
    clean_parts a b h = (ground arith, ground arith)

-- A word is read as it is, and a text up to its first zero byte.
abbrev pub whole : ℕ → ℕ
whole v = v

abbrev pub with_zero : Bytes → Bytes
with_zero s = s ++ 0 ∷ []

c_str-append_zero : (bs : Bytes) → c_str (bs ++ 0 ∷ []) ≡ c_str bs
unfolding c_str
c_str-append_zero [] = refl
c_str-append_zero (b ∷ bs) = ground (arith, c_str-append_zero bs)

pub arrive_word-Agree :
    (o p : Object ℕ)
    → IsReady whole o p
    → Agree whole (update (word_codec int) o).0 (arrive (word_codec int) whole o p)
arrive_word-Agree o p r =
    arrive-Agree (word_codec int) whole whole o p (λ v w h. (==_iff v w).0 h) (λ v. refl) r

pub arrive_text-Agree :
    (o p : Object Bytes)
    → IsReady c_str o p
    → Agree c_str (update text_codec o).0 (arrive text_codec with_zero o p)
arrive_text-Agree o p r =
    arrive-Agree text_codec with_zero c_str o p (λ v w h. (same_bytes_iff v w).0 h)
      c_str-append_zero r
