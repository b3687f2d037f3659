-- ===== src/ResourceIndexManager/Sets.antt =====
-- `std::set<uint16_t>` as a list that `insert` keeps rising.
use tcomm_tests.Common.{
  ℕ, ◌≤◌, ◌<◌, ◌≡◌, refl, Bool, false, ◌||◌, List, [], ◌∷◌, arith, ltb, ◌==◌, if◌then◌else◌,
}

unfoldable pub member : ℕ → List ℕ → Bool
member i [] = false
member i (x ∷ xs) = x == i || member i xs

-- `insert`: nothing changes if the value is there.
unfoldable pub add : ℕ → List ℕ → List ℕ
add i [] = i ∷ []
add i (x ∷ xs) =
    let rest = x ∷ add i xs in if ltb i x then i ∷ x ∷ xs else if x == i then x ∷ xs else rest

-- `erase` by value.
unfoldable pub remove : ℕ → List ℕ → List ℕ
remove i [] = []
remove i (x ∷ xs) = if x == i then xs else x ∷ remove i xs

-- Each member is above the one before it, the first at least at the bound.
abbrev pub RisesFrom : ℕ → List ℕ → Type 0
RisesFrom n [] = Unit {0}
RisesFrom n (x ∷ xs) = (n < x) × RisesFrom x xs

abbrev pub IsRising : List ℕ → Type 0
IsRising [] = Unit {0}
IsRising (x ∷ xs) = RisesFrom x xs

pub member-add : (i j : ℕ) (xs : List ℕ) → member j (add i xs) ≡ (i == j || member j xs)
unfolding member add
member-add i j [] = refl
member-add i j (x ∷ xs) = ground (arith, member-add i j xs)

RisesFrom-lower : (m n : ℕ) (xs : List ℕ) → m ≤ n → RisesFrom n xs → RisesFrom m xs
RisesFrom-lower m n [] h r = tt
RisesFrom-lower m n (x ∷ xs) h r = (omega arith, r.1)

add-RisesFrom : (n i : ℕ) (xs : List ℕ) → n < i → RisesFrom n xs → RisesFrom n (add i xs)
unfolding add
add-RisesFrom n i [] h r = (h, tt)
add-RisesFrom n i (x ∷ xs) h r = ground (arith, add-RisesFrom x i xs)

pub add-IsRising : (i : ℕ) (xs : List ℕ) → IsRising xs → IsRising (add i xs)
unfolding add
add-IsRising i [] r = tt
add-IsRising i (x ∷ xs) r = ground (arith, add-RisesFrom x i xs)

pub member_below : (n i : ℕ) (xs : List ℕ) → RisesFrom n xs → i ≤ n → member i xs ≡ false
unfolding member
member_below n i [] r h = refl
member_below n i (x ∷ xs) r h = ground (arith, member_below x i xs)

remove-RisesFrom : (n i : ℕ) (xs : List ℕ) → RisesFrom n xs → RisesFrom n (remove i xs)
unfolding remove
remove-RisesFrom n i [] r = tt
remove-RisesFrom n i (x ∷ xs) r = ground (arith, remove-RisesFrom x i xs, RisesFrom-lower n x xs)

pub remove-IsRising : (i : ℕ) (xs : List ℕ) → IsRising xs → IsRising (remove i xs)
unfolding remove
remove-IsRising i [] r = tt
remove-IsRising i (x ∷ []) r = ground arith
remove-IsRising i (x ∷ y ∷ xs) r = ground (arith, remove-RisesFrom x i (y ∷ xs))

pub member-remove :
    (i j : ℕ) (xs : List ℕ)
    → IsRising xs
    → member j (remove i xs) ≡ (if i == j then false else member j xs)
unfolding member remove
member-remove i j [] r = ground arith
member-remove i j (x ∷ []) r = ground arith
member-remove i j (x ∷ y ∷ xs) r =
    ground
      (arith, member_below x i (y ∷ xs), member_below x j (y ∷ xs), member-remove i j (y ∷ xs) r.1)
