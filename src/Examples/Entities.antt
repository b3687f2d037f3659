-- ===== src/Examples/Entities.antt =====
-- An entity under another one: System/Entity.h (under TCommEspTest/lib/ControlLibrary).
use tcomm_tests.Common.{ℕ, zero, suc, ◌≡◌, ◌<◌, some, none, [], ◌∷◌, arith, Bytes}
use tcomm_tests.Entity.{Entities, new_entity, get_path}
use tcomm_tests.Entity.Paths.{names, split_path, NoSeparator, get_path-names}

-- The entity 0 is the root, and every other one stands right under it.
abbrev family : Entities
family zero = new_entity none (b'r' ∷ [])
family (suc p) = new_entity (some 0) (b'c' ∷ [])

abbrev rank : ℕ → ℕ
rank zero = 0
rank (suc p) = 1

rank_falls : (q r : ℕ) → (family q).parent ≡ some r → rank r < rank q
rank_falls zero r h = absurd (cc h)
rank_falls (suc q) zero h = omega arith
rank_falls (suc q) (suc r) h = absurd (ground arith)

family-NoSeparator : (q : ℕ) → NoSeparator (family q).name
family-NoSeparator zero = (λ h. omega (arith, h), tt)
family-NoSeparator (suc q) = (λ h. omega (arith, h), tt)

get_path-names_example :
    (path : Bytes) × (get_path 2 family 5 ≡ some path) × (split_path path ≡ names 2 family 5)
get_path-names_example = get_path-names family rank 2 5 rank_falls family-NoSeparator (omega arith)
