-- ===== src/TCommServer/Devices.antt =====
-- The index that a client gets.
use tcomm_tests.Common.{
  ℕ, ◌<◌, ◌≡◌, true, [], ◌∷◌, none, some, arith, Bytes, same_bytes_iff, same_bytes_refl,
  Option-cases, inl, inr,
}
use tcomm_tests.ResourceIndexManager.{lease_index, set_of}
use tcomm_tests.ResourceIndexManager.Sets.{member}
use tcomm_tests.ResourceIndexManager.Leases.{Inv, lease_index-Leased}
use tcomm_tests.TCommServer.{Server, find_mac, get_or_create_device_index}

-- Every index that a MAC address has is leased, and no two addresses share one.
pub record KnowsMacs (s : Server) : Type 0 where
  pub manages : Inv s.index_manager
  pub leased :
      (mac : Bytes) (i : ℕ)
      → find_mac mac s.mac_to_index ≡ some i
      → member i (set_of 0 s.index_manager.leased) ≡ true
  pub distinct :
      (mac mac' : Bytes) (i : ℕ)
      → find_mac mac s.mac_to_index ≡ some i
      → find_mac mac' s.mac_to_index ≡ some i
      → mac ≡ mac'

-- What the server knows after a request, and the answer.
abbrev pub Answers : Server → Bytes → Server × ℕ → Type 0
Answers s mac (s', i) =
    KnowsMacs s'
    × (find_mac mac s'.mac_to_index ≡ some i)
    × ((mac' : Bytes) (j : ℕ)
        → find_mac mac' s.mac_to_index ≡ some j
        → find_mac mac' s'.mac_to_index ≡ some j)

Answers-new :
    (s : Server) (mac : Bytes)
    → KnowsMacs s
    → (s.index_manager.available ≡ [] → s.index_manager.next_index < 65535)
    → find_mac mac s.mac_to_index ≡ none
    → let (i, manager) = lease_index s.index_manager 0 in
      Answers s mac
        (record s { index_manager = manager; mac_to_index = (mac, i) ∷ s.mac_to_index }, i)
unfolding find_mac
Answers-new s mac k room e =
    let l = lease_index-Leased s.index_manager 0 k.manages room in
    (
      record {
        manages = l.keeps;
        leased = λ a j h. ground (arith, l.holds 0 j, k.leased a j);
        distinct = λ a b j h h'. ground (
          arith,
          same_bytes_iff mac a,
          same_bytes_iff mac b,
          k.distinct a b j,
          k.leased a j,
          k.leased b j,
          l.was_free 0,
        );
      },
      rw (same_bytes_refl mac),
      λ a j h. ground (arith, same_bytes_iff mac a),
    )

-- A MAC address keeps the index that it got: the answer is remembered and given again, whatever other
-- addresses asked for before, no two addresses ever share an index, and a new address gets an index
-- that no address had. The index counter must not be about to wrap.
pub get_or_create_device_index-KnowsMacs :
    (s : Server) (mac : Bytes)
    → KnowsMacs s
    → (s.index_manager.available ≡ [] → s.index_manager.next_index < 65535)
    → Answers s mac (get_or_create_device_index s mac)
unfolding get_or_create_device_index
get_or_create_device_index-KnowsMacs s mac k room =
    elim (Option-cases (find_mac mac s.mac_to_index)) [
      | inr (i, e) ↦ rw (known i e) (k, e, λ mac' j h. h)
      | inl e ↦ rw (unknown e) (Answers-new s mac k room e)
    ]
  where
    known :
        (i : ℕ) → find_mac mac s.mac_to_index ≡ some i → get_or_create_device_index s mac ≡ (s, i)
    known i e = rw (e, get_or_create_device_index)

    unknown :
        find_mac mac s.mac_to_index ≡ none
        → get_or_create_device_index s mac ≡ (
          record s {
            index_manager = (lease_index s.index_manager 0).1;
            mac_to_index = (mac, (lease_index s.index_manager 0).0) ∷ s.mac_to_index;
          },
          (lease_index s.index_manager 0).0,
        )
    unknown e = rw (e, get_or_create_device_index)
