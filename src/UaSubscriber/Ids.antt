-- ===== src/UaSubscriber/Ids.antt =====
-- The numbers of nodes: `GetID` of Communication/Media/UASubscriber.h (under
-- TCommEspTest/lib/ControlLibrary).
use tcomm_tests.Common.{ℕ, ◌+◌, ◌*◌, ◌<◌, ◌≡◌, refl, Bool, true, false, arith}
use tcomm_tests.UaSubscriber.{get_id, get_object_index_from_id}

get_id-object : (d i : ℕ) → d < 0x8000 → i < 0xFFFF → get_id d i false ≡ d * 0x1_0000 + (i + 1)
unfolding get_id
get_id-object d i hd hi = ground arith

get_id-folder :
    (d i : ℕ) → d < 0x8000 → i < 0xFFFF → get_id d i true ≡ 0x8000_0000 + (d * 0x1_0000 + (i + 1))
unfolding get_id
get_id-folder d i hd hi = ground arith

-- Devices below 0x8000, with objects and folders below 65,535: no two of them have the number of
-- one node, the number fits 32 bits, and `GetObjectIndexFromId` reads the device from it, for a folder too.
pub get_id-apart :
    (d d' i i' : ℕ) (f f' : Bool)
    → d < 0x8000
    → d' < 0x8000
    → i < 0xFFFF
    → i' < 0xFFFF
    → (get_id d i f ≡ get_id d' i' f' → (d ≡ d') × (i ≡ i') × (f ≡ f'))
      × (get_id d i f < 0x1_0000_0000)
      × (get_object_index_from_id (get_id d i f) ≡ d)
unfolding get_object_index_from_id
get_id-apart d d' i i' true true hd hd' hi hi' = (
  λ e. (
    omega (arith, e, get_id-folder d i hd hi, get_id-folder d' i' hd' hi'),
    omega (arith, e, get_id-folder d i hd hi, get_id-folder d' i' hd' hi'),
    refl,
  ),
  omega (arith, get_id-folder d i hd hi),
  omega (arith, get_id-folder d i hd hi),
)
get_id-apart d d' i i' true false hd hd' hi hi' = (
  λ e. absurd (omega (arith, e, get_id-folder d i hd hi, get_id-object d' i' hd' hi')),
  omega (arith, get_id-folder d i hd hi),
  omega (arith, get_id-folder d i hd hi),
)
get_id-apart d d' i i' false true hd hd' hi hi' = (
  λ e. absurd (omega (arith, e, get_id-object d i hd hi, get_id-folder d' i' hd' hi')),
  omega (arith, get_id-object d i hd hi),
  omega (arith, get_id-object d i hd hi),
)
get_id-apart d d' i i' false false hd hd' hi hi' = (
  λ e. (
    omega (arith, e, get_id-object d i hd hi, get_id-object d' i' hd' hi'),
    omega (arith, e, get_id-object d i hd hi, get_id-object d' i' hd' hi'),
    refl,
  ),
  omega (arith, get_id-object d i hd hi),
  omega (arith, get_id-object d i hd hi),
)
