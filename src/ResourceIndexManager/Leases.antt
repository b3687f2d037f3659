-- ===== src/ResourceIndexManager/Leases.antt =====
-- No index is leased twice at a time, until the `uint16_t` counter wraps.
use tcomm_tests.Common.{
  ℕ, ◌<◌, ◌≡◌, refl, Bool, true, false, ◌&&◌, ◌||◌, List, [], ◌∷◌, arith, ◌==◌, if◌then◌else◌, sym,
  ◌∙◌,
}
use tcomm_tests.Common.Maps.{find-nil, insert, find-insert}
use tcomm_tests.ResourceIndexManager.{
  Manager, set_of, lease_from, lease_index, release_index, is_index_leased, create,
}
use tcomm_tests.ResourceIndexManager.Sets.{
  member, add, remove, RisesFrom, IsRising, member-add, member-remove, add-IsRising,
  remove-IsRising, member_below,
}

pub set_of-insert :
    (c d : ℕ) (s : List ℕ) (m : List (ℕ × List ℕ))
    → set_of d (insert c s m) ≡ (if c == d then s else set_of d m)
unfolding set_of
set_of-insert c d s m = ground (arith, find-insert c d s m)

set_of-nil : (c : ℕ) → set_of c [] ≡ []
unfolding set_of
set_of-nil c = rw (find-nil {V = List ℕ} c, set_of)

pub is_index_leased-member :
    (m : Manager) (c i : ℕ) → is_index_leased m c i ≡ member i (set_of c m.leased)
unfolding is_index_leased set_of member
is_index_leased-member m c i = ground arith

abbrev held : ℕ → ℕ → List (ℕ × List ℕ) → Bool
held c i leased = member i (set_of c leased)

pub record Inv (m : Manager) : Type 0 where
  pub free_rising : IsRising m.available
  pub sets_rising : (c : ℕ) → IsRising (set_of c m.leased)
  pub free_below : (i : ℕ) → member i m.available ≡ true → i < m.next_index
  pub held_below : (c i : ℕ) → held c i m.leased ≡ true → i < m.next_index
  pub apart : (c i : ℕ) → held c i m.leased ≡ true → member i m.available ≡ false
  pub once : (c d i : ℕ) → held c i m.leased ≡ true → held d i m.leased ≡ true → c ≡ d

IsRising-tail : (x : ℕ) (xs : List ℕ) → RisesFrom x xs → IsRising xs
IsRising-tail x [] r = tt
IsRising-tail x (y ∷ xs) r = r.1

pub create-Inv : Inv create
unfolding create set_of member
create-Inv = record {
  free_rising = tt;
  sets_rising = λ c. rw set_of-nil tt;
  free_below = λ i h. cc;
  held_below = λ c i h. absurd (none_held c i h);
  apart = λ c i h. refl;
  once = λ c d i h k. absurd (none_held c i h);
}
  where
    none_held : (c i : ℕ) → member i (set_of c []) ≡ true → ⊥
    none_held c i h = ground (arith, set_of-nil c)

-- The sets after one index is added to one category.
held-add :
    (c d i j : ℕ) (leased : List (ℕ × List ℕ))
    → held d j (insert c (add i (set_of c leased)) leased) ≡ (c == d && i == j || held d j leased)
held-add c d i j leased =
    ground
      (arith, set_of-insert c d (add i (set_of c leased)) leased, member-add i j (set_of c leased))

held-remove :
    (c d i j : ℕ) (leased : List (ℕ × List ℕ))
    → IsRising (set_of c leased)
    → held d j (insert c (remove i (set_of c leased)) leased)
      ≡ (if c == d && i == j then false else held d j leased)
held-remove c d i j leased r = ground (
  arith,
  set_of-insert c d (remove i (set_of c leased)) leased,
  member-remove i j (set_of c leased) r,
)

IsRising-add :
    (c d i : ℕ) (leased : List (ℕ × List ℕ))
    → ((e : ℕ) → IsRising (set_of e leased))
    → IsRising (set_of d (insert c (add i (set_of c leased)) leased))
IsRising-add c d i leased r = ground (
  arith,
  set_of-insert c d (add i (set_of c leased)) leased,
  add-IsRising i (set_of c leased) (r c),
  r d,
)

IsRising-remove :
    (c d i : ℕ) (leased : List (ℕ × List ℕ))
    → ((e : ℕ) → IsRising (set_of e leased))
    → IsRising (set_of d (insert c (remove i (set_of c leased)) leased))
IsRising-remove c d i leased r = ground (
  arith,
  set_of-insert c d (remove i (set_of c leased)) leased,
  remove-IsRising i (set_of c leased) (r c),
  r d,
)

-- What a lease does: the index was free, and it alone is added to the category.
pub record Leased (m : Manager) (c i : ℕ) (m' : Manager) : Type 0 where
  pub was_free : (d : ℕ) → held d i m.leased ≡ false
  pub holds : (d j : ℕ) → held d j m'.leased ≡ (c == d && i == j || held d j m.leased)
  pub keeps : Inv m'

lease_from-Leased :
    (c n : ℕ) (free : List ℕ) (leased : List (ℕ × List ℕ))
    → let m : Manager = record { next_index = n; available = free; leased = leased } in
      Inv m → (free ≡ [] → n < 65535) → let (i, m') = lease_from c n free leased in Leased m c i m'
unfolding lease_from member
lease_from-Leased c n [] leased v room = record {
  was_free = λ d. ground (arith, v.held_below d n);
  holds = λ d j. held-add c d n j leased;
  keeps = record {
    free_rising = tt;
    sets_rising = λ d. IsRising-add c d n leased v.sets_rising;
    free_below = λ i h. cc;
    held_below = λ d i h. ground (arith, held-add c d n i leased, v.held_below d i, room refl);
    apart = λ d i h. refl;
    once = λ d e i p q. ground (
      arith,
      held-add c d n i leased,
      held-add c e n i leased,
      v.once d e i,
      v.held_below d n,
      v.held_below e n,
    );
  };
}
lease_from-Leased c n (x ∷ xs) leased v room = record {
  was_free = λ d. ground (arith, v.apart d x);
  holds = λ d j. held-add c d x j leased;
  keeps = record {
    free_rising = IsRising-tail x xs v.free_rising;
    sets_rising = λ d. IsRising-add c d x leased v.sets_rising;
    free_below = λ i h. ground (arith, v.free_below i);
    held_below = λ d i h. ground (arith, held-add c d x i leased, v.held_below d i, v.free_below x);
    apart = λ d i h.
        ground (arith, held-add c d x i leased, v.apart d i, member_below x x xs v.free_rising);
    once = λ d e i p q. ground (
      arith,
      held-add c d x i leased,
      held-add c e x i leased,
      v.once d e i,
      v.apart d x,
      v.apart e x,
    );
  };
}

-- The index that is leased was free in every category, it is added to this one and nothing else
-- changes, and no index is in two categories or both leased and free, before and after; unless the
-- counter is about to wrap with nothing given back.
pub lease_index-Leased :
    (m : Manager) (c : ℕ)
    → Inv m
    → (m.available ≡ [] → m.next_index < 65535)
    → let (i, m') = lease_index m c in Leased m c i m'
unfolding lease_index
lease_index-Leased m c v room = lease_from-Leased c m.next_index m.available m.leased v room

-- The manager after an index of a category was given back.
pub record Released (m : Manager) (c i : ℕ) (m' : Manager) : Type 0 where
  pub holds :
      (d j : ℕ) → held d j m'.leased ≡ (if c == d && i == j then false else held d j m.leased)
  pub frees : (j : ℕ) → member j m'.available ≡ (i == j || member j m.available)
  pub keeps : Inv m'

-- Giving back an index that the category holds takes it from this category and makes it free, changes
-- nothing else about which index is held or free, and keeps the invariant.
pub release_index-Released :
    (m : Manager) (c i : ℕ)
    → Inv m
    → is_index_leased m c i ≡ true
    → Released m c i (release_index m c i)
unfolding release_index
release_index-Released m c i v h =
    let leased : held c i m.leased ≡ true = sym (is_index_leased-member m c i) ∙ h in
    let was = λ (d j : ℕ). held-remove c d i j m.leased (v.sets_rising c) in
    record {
      holds = was;
      frees = λ j. member-add i j m.available;
      keeps = record {
        free_rising = add-IsRising i m.available v.free_rising;
        sets_rising = λ d. IsRising-remove c d i m.leased v.sets_rising;
        free_below =
            λ j k. ground (arith, member-add i j m.available, v.free_below j, v.held_below c i);
        held_below = λ d j k. ground (arith, was d j, v.held_below d j);
        apart =
            λ d j k. ground (arith, was d j, member-add i j m.available, v.apart d j, v.once c d i);
        once = λ d e j p q. ground (arith, was d j, was e j, v.once d e j);
      };
    }

wraps_from :
    (c d e n : ℕ) (leased : List (ℕ × List ℕ))
    → n ≡ 65535
    → held e 0 leased ≡ true
    → let m' = (lease_from c n [] leased).1 in
      ((lease_index m' d).0 ≡ 0) × (is_index_leased m' e 0 ≡ true)
unfolding lease_index lease_from
wraps_from c d e n leased last h = (
  omega arith,
  is_index_leased-member (lease_from c n [] leased).1 e 0 ∙ ground (arith, held-add c e n 0 leased),
)

-- The counter wraps: with 65535 as the next new index and none given back, the lease after the next
-- one gives out index 0, also where a category still holds it.
lease_index_wraps :
    (m : Manager) (c d e : ℕ)
    → m.available ≡ []
    → m.next_index ≡ 65535
    → is_index_leased m e 0 ≡ true
    → let m' = (lease_index m c).1 in ((lease_index m' d).0 ≡ 0) × (is_index_leased m' e 0 ≡ true)
unfolding lease_index
lease_index_wraps m c d e none_free last h =
    rw none_free
      (wraps_from c d e m.next_index m.leased last (sym (is_index_leased-member m e 0) ∙ h))
