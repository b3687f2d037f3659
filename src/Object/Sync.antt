-- ===== src/Object/Sync.antt =====
-- An object and its copy on the other side of a link: `Update` here, `Inject` there.
use tcomm_tests.Common.{
  ℕ, ◌%◌, ◌<◌, ◌^◌, ◌≡◌, refl, Bool, true, false, not, [], ◌∷◌, ◌++◌, none, some, arith, Bytes,
  length, length-append, take-append_exact, same_bytes_refl, ==_refl,
}
use tcomm_tests.ByteSerializer.{CommunicationData, memcpy}
use tcomm_tests.Object.{TemplateCommunicationObject, get_data, is_dirty, update, inject}
use tcomm_tests.Object.Types.{
  Codec, ScalarType, int, int32, uint8, uint16, float, bool, size_of, word_codec, text_codec,
  le_bytes, length-le_bytes, le_value-le_bytes, is_nan, nat_beq, float_beq, scalar,
}

-- What the writing and the reading of a type owe each other: a good value equals itself, and is read
-- back as `arrives` says from its bytes, whatever bytes lie behind them.
pub record IsCodec {A : Type 0} (c : Codec A) (Good : A → Type 0) (arrives : A → A) : Type 0 where
  pub reflexive : (v : A) → Good v → c.beq v v ≡ true
  pub faithful :
      (v : A) (rest : Bytes)
      → Good v
      → c.read (c.bytes v ++ rest) (length (c.bytes v)) ≡ some (arrives v)

-- The data of a scalar, and of a text of at most 65,534 bytes, have a size of 16 bits.
pub word-small : (t : ScalarType) (v : ℕ) → length ((word_codec t).bytes v) < 65536
word-small int v = omega (arith, length-le_bytes 4 v)
word-small int32 v = omega (arith, length-le_bytes 4 v)
word-small uint8 v = omega (arith, length-le_bytes 1 v)
word-small uint16 v = omega (arith, length-le_bytes 2 v)
word-small float v = omega (arith, length-le_bytes 4 v)
word-small bool v = omega (arith, length-le_bytes 1 v)

pub text-small : (s : Bytes) → length s < 65535 → length (s ++ 0 ∷ []) < 65536
text-small s h = omega (arith, length-append s (0 ∷ []), h)

memcpy-append : (bs rest : Bytes) → memcpy (bs ++ rest) (length bs) ≡ some bs
memcpy-append bs rest = ground (arith, length-append bs rest, take-append_exact bs rest)

-- The values that a scalar of the type can hold and that equal themselves.
abbrev pub GoodWord : ScalarType → ℕ → Type 0
GoodWord float v = (v < 256 ^ 4) × (is_nan v ≡ false)
GoodWord t v = v < 256 ^ size_of t

scalar_faithful :
    (w : ℕ) (eq : ℕ → ℕ → Bool) (v : ℕ) (rest : Bytes)
    → v < 256 ^ w
    → let c = scalar w eq in c.read (c.bytes v ++ rest) (length (c.bytes v)) ≡ some v
scalar_faithful w eq v rest h =
    ground (arith, memcpy-append (le_bytes w v) rest, length-le_bytes w v, le_value-le_bytes w v h)

pub word-IsCodec : (t : ScalarType) → IsCodec (word_codec t) (GoodWord t) (λ v. v)
word-IsCodec int = record {
  reflexive = λ v g. ==_refl v;
  faithful = λ v rest g. scalar_faithful 4 nat_beq v rest g;
}
word-IsCodec int32 = record {
  reflexive = λ v g. ==_refl v;
  faithful = λ v rest g. scalar_faithful 4 nat_beq v rest g;
}
word-IsCodec uint8 = record {
  reflexive = λ v g. ==_refl v;
  faithful = λ v rest g. scalar_faithful 1 nat_beq v rest g;
}
word-IsCodec uint16 = record {
  reflexive = λ v g. ==_refl v;
  faithful = λ v rest g. scalar_faithful 2 nat_beq v rest g;
}
word-IsCodec float = record {
  reflexive = λ v g. ground (arith, ==_refl v);
  faithful = λ v rest g. scalar_faithful 4 float_beq v rest g.0;
}
word-IsCodec bool = record {
  reflexive = λ v g. ==_refl v;
  faithful = λ v rest g. scalar_faithful 1 nat_beq v rest g;
}

pub text-IsCodec : IsCodec text_codec (λ s. Unit {0}) (λ s. s ++ 0 ∷ [])
text-IsCodec = record {
  reflexive = λ s g. same_bytes_refl s;
  faithful = λ s rest g. memcpy-append (s ++ 0 ∷ []) rest;
}

-- What the other side gets: the data of an update, with more bytes behind them in its buffer.
abbrev pub with_tail : CommunicationData → Bytes → CommunicationData
with_tail d rest = record d { buffer = d.buffer ++ rest }

module _ {A : Type 0} {c : Codec A} {Good : A → Type 0} {arrives : A → A}
    (laws : IsCodec c Good arrives) where
  -- A second update in a row changes nothing and sends nothing.
  pub update_settled :
      (o : TemplateCommunicationObject A)
      → Good o.value
      → update c (update c o).0 ≡ ((update c o).0, none)
  unfolding update
  update_settled o g = ground (arith, laws.reflexive o.value g)

  pub inject-get_data :
      (o p : TemplateCommunicationObject A) (rest : Bytes)
      → Good o.value
      → length (c.bytes o.value) < 65536
      → inject c p (with_tail (get_data c o) rest)
        ≡ some (record p {
          value = arrives o.value;
          value_old = arrives o.value;
          change_received = not (c.beq (arrives o.value) p.value);
        })
  unfolding inject get_data
  inject-get_data o p rest g small =
      let size : length (c.bytes o.value) % 65536 ≡ length (c.bytes o.value) =
        omega (arith, small) in
      rw (size, inject) (rw (laws.faithful o.value rest g, inject) refl)

-- A float that is a NaN is sent by every update, as it never equals its own copy.
update_nan :
    (o : TemplateCommunicationObject ℕ)
    → is_nan o.value ≡ true
    → let (o', out) = update (word_codec float) o in
      (out ≡ some (get_data (word_codec float) o))
      × (o'.value ≡ o.value)
      × (is_dirty (word_codec float) o' ≡ true)
unfolding update
update_nan o h = ground arith
