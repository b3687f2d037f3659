-- ===== src/Object/Texts.antt =====
-- String objects: the zero byte that each hop adds, and the names that are cut.
use tcomm_tests.Common.{
  ◌%◌, take, not, ap, zero, suc, ℕ, ◌+◌, ◌<◌, length-append, ◌≤◌, ◌≡◌, refl, ◌≢◌, List, [], ◌∷◌,
  ◌++◌, Option, none, some, arith, Bytes, length, length-take-le, replicate, ◌∙◌, sym,
}
use mathlib.Core.List.{append_assoc, append-nil}
use tcomm_tests.Object.{TemplateCommunicationObject, c_str, truncate_string, get_data, inject}
use tcomm_tests.Object.Types.{text_codec}
use tcomm_tests.ByteSerializer.{CommunicationData, memcpy}
use tcomm_tests.Object.Sync.{with_tail, inject-get_data, text-IsCodec, text-small}

abbrev pub NoZero : Bytes → Type 0
NoZero [] = Unit {0}
NoZero (b ∷ bs) = (b ≢ 0) × NoZero bs

c_str-NoZero : (s rest : Bytes) → NoZero s → c_str (s ++ 0 ∷ rest) ≡ s
unfolding c_str
c_str-NoZero [] rest h = refl
c_str-NoZero (b ∷ s) rest h = ground (arith, c_str-NoZero s rest h.1)

pub c_str-c_str : (s : Bytes) → c_str (c_str s) ≡ c_str s
unfolding c_str
c_str-c_str [] = refl
c_str-c_str (b ∷ s) = ground (arith, c_str-c_str s)

c_str_all : (s : Bytes) → NoZero s → c_str s ≡ s
unfolding c_str
c_str_all [] h = refl
c_str_all (b ∷ s) h = ground (arith, c_str_all s h.1)

-- No name and no path is longer than the limit.
pub length-truncate_string-le : (s : Option Bytes) (n : ℕ) → length (truncate_string s n) ≤ n
unfolding truncate_string
length-truncate_string-le none n = omega arith
length-truncate_string-le (some s) n = ground (arith, length-take-le n (c_str s))

-- A string that goes from object to object, each taking in what the one before it sends.
pub relay :
    TemplateCommunicationObject Bytes
    → List (TemplateCommunicationObject Bytes)
    → Option (TemplateCommunicationObject Bytes)
relay o [] = some o
relay o (p ∷ ps) = elim (inject text_codec p (get_data text_codec o)) [
  | none ↦ none
  | some p' ↦ relay p' ps
]

with_tail-nil : (d : CommunicationData) → with_tail d [] ≡ d
with_tail-nil d = λ i. record d { buffer = append-nil d.buffer i }

inject_text :
    (o p : TemplateCommunicationObject Bytes)
    → length o.value < 65535
    → (p' : TemplateCommunicationObject Bytes) × (inject text_codec p (get_data text_codec o)
        ≡ some p')
      × (p'.value ≡ o.value ++ 0 ∷ [])
inject_text o p short = (
  _,
  rw (with_tail-nil (get_data text_codec o)) at
      (inject-get_data text-IsCodec o p [] tt (text-small o.value short)),
  refl,
)

-- A string goes over some hops, with which it stays shorter than 65,536 bytes: every hop lengthens it by a zero byte: `GetData` counts the terminator as data and
-- `Inject` takes all the data into the string. What a C reader sees of it stays the same.
pub relay_grows :
    (o : TemplateCommunicationObject Bytes) (ps : List (TemplateCommunicationObject Bytes))
    → length o.value + length ps < 65536
    → (q : TemplateCommunicationObject Bytes) × (relay o ps ≡ some q)
      × (q.value ≡ o.value ++ replicate (length ps) 0)
      × (NoZero o.value → c_str q.value ≡ o.value)
unfolding relay
relay_grows o [] short = (o, refl, sym (append-nil o.value), λ h. c_str_all o.value h)
relay_grows o (p ∷ ps) short =
    let (p', got, v) = inject_text o p (omega (arith, short)) in
    let (q, rest, w, _) =
      relay_grows p' ps (rw v (omega (arith, short, length-append o.value (0 ∷ [])))) in
    let all : q.value ≡ o.value ++ 0 ∷ replicate (length ps) 0 =
      w ∙ rw v (append_assoc o.value (0 ∷ []) (replicate (length ps) 0)) in
    (q, rw (got, relay) rest, all, λ h. rw all (c_str-NoZero o.value (replicate (length ps) 0) h))

length-take_within : (n : ℕ) (bs : Bytes) → n ≤ length bs → length (take n bs) ≡ n
length-take_within zero bs h = refl
length-take_within (suc n) [] h = absurd (omega (arith, h))
length-take_within (suc n) (b ∷ bs) h = ap suc (length-take_within n bs (omega (arith, h)))

memcpy-within : (bs : Bytes) (n : ℕ) → n ≤ length bs → memcpy bs n ≡ some (take n bs)
memcpy-within bs n h = ground (arith, h)

-- A text is sent with a zero byte behind it, and the size that `GetData` announces is the number of
-- these bytes modulo 65,536. Whatever the length of the text, the other side takes in as many of these bytes
-- as are announced, from the first on, and no more: where they are 65,536, it takes in none
-- and holds the empty text.
pub inject_wraps :
    (o p : TemplateCommunicationObject Bytes)
    → let sent = o.value ++ 0 ∷ [] in
      (p' : TemplateCommunicationObject Bytes) × (inject text_codec p (get_data text_codec o)
        ≡ some p')
      × (p'.value ≡ take (length sent % 65536) sent)
      × (length p'.value ≡ (length o.value + 1) % 65536)
unfolding inject get_data
inject_wraps o p =
    let sent = o.value ++ 0 ∷ [] in
    let n = length sent % 65536 in
    (
      record p {
        value = take n sent;
        value_old = take n sent;
        change_received = not (text_codec.beq (take n sent) p.value);
      },
      rw (memcpy-within sent n (omega arith), inject) refl,
      refl,
      omega (arith, length-take_within n sent (omega arith), length-append o.value (0 ∷ [])),
    )
