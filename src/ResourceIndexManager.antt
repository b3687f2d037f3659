-- ===== src/ResourceIndexManager.antt =====
-- System/ResourceIndexManager.h (under TCommEspTest/lib/ControlLibrary): indices leased by category.
-- A `std::set<uint16_t>` is the rising list of its members.
pub mod Sets
pub mod Leases
use tcomm_tests.Common.{ℕ, ◌+◌, ◌%◌, Bool, false, List, [], ◌∷◌, Option, none, some}
use tcomm_tests.Common.Maps.{find, insert}
use Sets.{member, add, remove}

pub record Manager : Type 0 where
  pub next_index : ℕ
  pub available : List ℕ
  pub leased : List (ℕ × List ℕ)

unfoldable pub create : Manager
create = record { next_index = 0; available = []; leased = [] }

-- `leasedIndices[category]`, where a missing category reads as the empty set.
unfoldable pub set_of : ℕ → List (ℕ × List ℕ) → List ℕ
set_of category m = elim (find category m) [ none ↦ [] | some s ↦ s ]

lease_from : ℕ → ℕ → List ℕ → List (ℕ × List ℕ) → ℕ × Manager
lease_from category next [] leased = (
  next,
  record {
    next_index = (next + 1) % 65536;
    available = [];
    leased = insert category (add next (set_of category leased)) leased;
  },
)
lease_from category next (index ∷ rest) leased = (
  index,
  record {
    next_index = next;
    available = rest;
    leased = insert category (add index (set_of category leased)) leased;
  },
)

-- `leaseIndex`: the least index that was given back, or else the next new one (a `uint16_t`).
unfoldable pub lease_index : Manager → ℕ → ℕ × Manager
unfolding lease_from
lease_index m category = lease_from category m.next_index m.available m.leased

-- `releaseIndex`.
unfoldable pub release_index : Manager → ℕ → ℕ → Manager
release_index m category index = record m {
  available = add index m.available;
  leased = insert category (remove index (set_of category m.leased)) m.leased;
}

unfoldable pub is_index_leased : Manager → ℕ → ℕ → Bool
is_index_leased m category index = elim (find category m.leased) [
  | none ↦ false
  | some s ↦ member index s
]

unfoldable pub get_leased_indices : Manager → ℕ → List ℕ
get_leased_indices m category = elim (find category m.leased) [ none ↦ [] | some s ↦ s ]
