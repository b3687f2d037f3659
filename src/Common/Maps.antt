-- ===== src/Common/Maps.antt =====
-- `std::unordered_map` and `std::map` with number keys: association lists.
use Prim.Native.Nat.{ℕ}
use mathlib.Core.Path.{◌≡◌, refl, sym, ap}
use mathlib.Core.List.{List, [], ◌∷◌}
use mathlib.Core.Option.{Option, none, some}
use native.Mathlib.Omega.{arith}
use mathlib.Core.Logic.{inl, inr}
use tcomm_tests.Common.Tests.{◌==◌, if◌then◌else◌, Bool-cases, ==_iff}

module _ {ℓ} {V : Type ℓ} where
  -- `m.find(k)`.
  unfoldable pub find : ℕ → List (ℕ × V) → Option V
  find k [] = none
  find k ((j, v) ∷ m) = if j == k then some v else find k m

  -- `m[k] = v`: a key that is there keeps its place.
  unfoldable pub insert : ℕ → V → List (ℕ × V) → List (ℕ × V)
  insert k v [] = (k, v) ∷ []
  insert k v ((j, w) ∷ m) = if j == k then (k, v) ∷ m else (j, w) ∷ insert k v m

  -- `m.erase(k)`.
  unfoldable pub erase : ℕ → List (ℕ × V) → List (ℕ × V)
  erase k [] = []
  erase k ((j, w) ∷ m) = let rest = erase k m in if j == k then rest else (j, w) ∷ rest

  pub find-nil : (k : ℕ) → find k [] ≡ none
  unfolding find
  find-nil k = refl

  pub find-insert :
      (k j : ℕ) (v : V) (m : List (ℕ × V))
      → find j (insert k v m) ≡ (if k == j then some v else find j m)
  unfolding find insert
  find-insert k j v [] = refl
  find-insert k j v ((i, w) ∷ m) = ground (arith, find-insert k j v m)

  pub find-erase :
      (k j : ℕ) (m : List (ℕ × V)) → find j (erase k m) ≡ (if k == j then none else find j m)
  unfolding find erase
  find-erase k j [] = ground arith
  find-erase k j ((i, w) ∷ m) = ground (arith, find-erase k j m)

  -- What is there is not changed by entering it again.
  pub insert-find : (k : ℕ) (v : V) (m : List (ℕ × V)) → find k m ≡ some v → insert k v m ≡ m
  unfolding find insert
  insert-find k v [] h = absurd (cc h)
  insert-find k v ((j, w) ∷ m) h = elim (Bool-cases (j == k)) [
    | inl e ↦ rw (e) (
        let key : k ≡ j = sym ((==_iff j k).0 e) in
        let same : v ≡ w = cc (rw (e) at h) in rw (key, same) refl)
    | inr e ↦ rw (e) (ap (λ t. (j, w) ∷ t) (insert-find k v m (rw (e) at h)))
  ]
