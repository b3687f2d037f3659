-- ===== src/Object/Types.antt =====
-- How the types that TComm.h names lie in memory: the C++ of the platform (little endian), as
-- `memcpy`, `std::string` and `==` use it.
use tcomm_tests.Common.{
  ℕ, zero, suc, ◌+◌, ◌*◌, ◌/◌, ◌%◌, ◌^◌, ◌<◌, ◌≡◌, refl, Bool, not, ◌&&◌, ◌||◌, [], ◌∷◌, ◌++◌,
  Option, none, some, arith, leb, ◌==◌, Bytes, length, same_bytes, ap,
}
use native.Mathlib.Nat.{pow-suc}
use tcomm_tests.ByteSerializer.{memcpy}

-- What `GetData`, `Inject` and the comparison of values need of a type: equality, the bytes that are
-- written, and the value that is read from a buffer of which so many bytes are the data.
pub record Codec (A : Type 0) : Type 0 where
  pub beq : A → A → Bool
  pub bytes : A → Bytes
  pub read : Bytes → ℕ → Option A
  pub zero_value : A

-- The types behind `Xint`, `Xint32`, `Xuint8`, `Xuint16`, `Xfloat` and `Xbool`.
pub data ScalarType : Type 0 where
  int int32 uint8 uint16 float bool : ScalarType

-- The `w` low bytes of a number, lowest first, and back.
pub le_bytes : ℕ → ℕ → Bytes
le_bytes zero n = []
le_bytes (suc w) n = n % 256 ∷ le_bytes w (n / 256)

pub le_value : Bytes → ℕ
le_value [] = 0
le_value (b ∷ bs) = b + 256 * le_value bs

-- `==` of two floats by their bit patterns: a NaN equals nothing, and the zeros are equal.
abbrev pub is_nan : ℕ → Bool
is_nan w = leb 0x7F80_0001 (w % 0x8000_0000)

abbrev pub float_beq : ℕ → ℕ → Bool
float_beq v w =
    not (is_nan v) && not (is_nan w) && (v == w || v % 0x8000_0000 == 0 && w % 0x8000_0000 == 0)

-- A scalar of `w` bytes is its bit pattern. `Inject` copies `sizeof(T)` bytes, whatever the size of
-- the data.
abbrev pub scalar : ℕ → (ℕ → ℕ → Bool) → Codec ℕ
scalar w eq = record {
  beq = eq;
  bytes = le_bytes w;
  read = λ buffer size. elim (memcpy buffer w) [ none ↦ none | some bs ↦ some (le_value bs) ];
  zero_value = 0;
}

abbrev pub nat_beq : ℕ → ℕ → Bool
nat_beq a b = a == b

-- `sizeof(T)`.
abbrev pub size_of : ScalarType → ℕ
size_of int = 4
size_of int32 = 4
size_of uint8 = 1
size_of uint16 = 2
size_of float = 4
size_of bool = 1

abbrev pub word_codec : ScalarType → Codec ℕ
word_codec int = scalar 4 nat_beq
word_codec int32 = scalar 4 nat_beq
word_codec uint8 = scalar 1 nat_beq
word_codec uint16 = scalar 2 nat_beq
word_codec float = scalar 4 float_beq
word_codec bool = scalar 1 nat_beq

-- A string is written with a zero byte behind it and read with all the data.
abbrev pub text_codec : Codec Bytes
text_codec = record {
  beq = same_bytes;
  bytes = λ s. s ++ 0 ∷ [];
  read = λ buffer size. memcpy buffer size;
  zero_value = [];
}

pub length-le_bytes : (w n : ℕ) → length (le_bytes w n) ≡ w
unfolding le_bytes
length-le_bytes zero n = refl
length-le_bytes (suc w) n = ap suc (length-le_bytes w (n / 256))

pub le_value-le_bytes : (w n : ℕ) → n < 256 ^ w → le_value (le_bytes w n) ≡ n
unfolding le_bytes le_value
le_value-le_bytes zero n h = omega arith
le_value-le_bytes (suc w) n h =
    omega (arith, le_value-le_bytes w (n / 256) (omega (arith, pow-suc 256 w)))
