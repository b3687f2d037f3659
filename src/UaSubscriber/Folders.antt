-- ===== src/UaSubscriber/Folders.antt =====
-- `DeleteEmptyFolders` of Communication/Media/UASubscriber.h (under TCommEspTest/lib/ControlLibrary).
use tcomm_tests.Common.{
  ℕ, zero, suc, ◌<◌, ◌≡◌, ◌≢◌, refl, Bool, true, ◌==◌, ==_refl, List, [], ◌∷◌, Option, none, some,
  arith, length, Bool-cases, Option-cases, inl, inr, ◌⊎◌, ◌∙◌, ==_iff, sym,
}
use tcomm_tests.ResourceIndexManager.{Manager, release_index, get_leased_indices, set_of}
use tcomm_tests.ResourceIndexManager.Leases.{set_of-insert}
use tcomm_tests.ResourceIndexManager.Sets.{member, remove}
use tcomm_tests.UaSubscriber.{UaSubscriber, Outcome, returned, threw, endless, get_id}
use tcomm_tests.UaSubscriber.Server.{Nodes, NodeId, own}
use tcomm_tests.UaSubscriber.Devices.{empty_folder, delete_empty_from, delete_empty_folders}

length-remove : (i : ℕ) (xs : List ℕ) → member i xs ≡ true → suc (length (remove i xs)) ≡ length xs
unfolding member remove
length-remove i [] h = absurd (cc h)
length-remove i (x ∷ xs) h = ground (arith, length-remove i xs)

get_leased_indices-release_index :
    (m : Manager) (d i : ℕ)
    → get_leased_indices (release_index m d i) d ≡ remove i (get_leased_indices m d)
unfolding get_leased_indices release_index set_of
get_leased_indices-release_index m d i =
    set_of-insert d d (remove i (set_of d m.leased)) m.leased ∙ rw (==_refl d) refl

-- What `browseChildren` may answer.
children-cases :
    (r : Option (List NodeId))
    → (r ≡ none)
      ⊎ (r ≡ some [])
      ⊎ ((child : NodeId) × (children : List NodeId) × (r ≡ some (child ∷ children)))
children-cases none = inl refl
children-cases (some []) = inr (inl refl)
children-cases (some (child ∷ children)) = inr (inr (child, children, refl))

module _ {N : Type 0} (server : Nodes N) where
  -- The folder holds something.
  abbrev pub IsFull : N → ℕ → ℕ → Type 0
  IsFull nodes device index =
      (child : NodeId) × (children : List NodeId) × (server.browse_children nodes
          (own (get_id device index true))
        ≡ some (child ∷ children))

  -- What the search for an empty folder finds.
  Search : N → ℕ → List ℕ → Outcome (Option ℕ) → Type 0
  Search nodes device is (returned (some i)) = member i is ≡ true
  Search nodes device is (returned none) = (i : ℕ) → member i is ≡ true → IsFull nodes device i
  Search nodes device is threw = Unit {0}
  Search nodes device is endless = ⊥

  Search-cons :
      (nodes : N) (device i : ℕ) (is : List ℕ) (r : Outcome (Option ℕ))
      → IsFull nodes device i
      → Search nodes device is r
      → Search nodes device (i ∷ is) r
  unfolding Search member
  Search-cons nodes device i is (returned (some j)) full found = ground arith
  Search-cons nodes device i is (returned none) full all_full = λ j h. elim (Bool-cases (i == j)) [
    | inl e ↦ (let same : j ≡ i = sym ((==_iff i j).0 e) in rw (same) full)
    | inr e ↦ all_full j (rw (e) at h)
  ]
  Search-cons nodes device i is threw full r = tt
  Search-cons nodes device i is endless full r = r

  empty_folder-Search :
      (nodes : N) (device : ℕ) (is : List ℕ)
      → Search nodes device is (empty_folder server nodes device is)
  unfolding empty_folder Search member
  empty_folder-Search nodes device [] = λ i h. absurd (cc h)
  empty_folder-Search nodes device (i ∷ is) =
      elim (children-cases (server.browse_children nodes (own (get_id device i true)))) [
        | inl e ↦ rw (e, empty_folder) tt
        | inr (inl e) ↦ rw (e, empty_folder) (rw (==_refl i) refl)
        | inr (inr (child, children, e)) ↦
            rw (e, empty_folder)
              (Search-cons nodes device i is (empty_folder server nodes device is)
                (child, children, e) (empty_folder-Search nodes device is))
      ]

  search-cases :
      (r : Outcome (Option ℕ))
      → (r ≡ threw) ⊎ (r ≡ endless) ⊎ (r ≡ returned none) ⊎ ((i : ℕ) × (r ≡ returned (some i)))
  search-cases threw = inl refl
  search-cases endless = inr (inl refl)
  search-cases (returned none) = inr (inr (inl refl))
  search-cases (returned (some i)) = inr (inr (inr (i, refl)))

  -- How the loop ends.
  pub record Cleared (device : ℕ) (r : UaSubscriber N × Outcome Bool) : Type 0 where
    pub ends : r.1 ≢ endless
    pub full :
        r.1 ≡ returned true
        → (i : ℕ) → member i (get_leased_indices r.0.folder_index_manager device) ≡ true
        → IsFull r.0.nodes device i

  delete_empty_from-Cleared :
      (fuel : ℕ) (s : UaSubscriber N) (device : ℕ)
      → length (get_leased_indices s.folder_index_manager device) < fuel
      → Cleared device (delete_empty_from server fuel s device)
  unfolding delete_empty_from Search
  delete_empty_from-Cleared zero s device h = absurd (omega (arith, h))
  delete_empty_from-Cleared (suc fuel) s device h =
      let leased = get_leased_indices s.folder_index_manager device in
      let search = empty_folder-Search s.nodes device leased in
      elim (search-cases (empty_folder server s.nodes device leased)) [
        | inl e ↦ rw (e, delete_empty_from) (record { ends = λ h. cc h; full = λ h. absurd (cc h) })
        | inr (inl e) ↦ absurd (rw (e) at search)
        | inr (inr (inl e)) ↦
            rw (e, delete_empty_from) (record { ends = λ h. cc h; full = λ h. rw (e) at search })
        | inr (inr (inr (index, e))) ↦
            (let fewer = get_leased_indices-release_index s.folder_index_manager device index in
              let one_less = length-remove index leased (rw (e) at search) in
              elim (Option-cases (server.browse_name s.nodes (own (get_id device index true)))) [
                | inl e' ↦
                    rw (e, delete_empty_from)
                      (rw (e', delete_empty_from)
                        (record { ends = λ h. cc h; full = λ h. absurd (cc h) }))
                | inr (name, named) ↦
                    elim (Option-cases
                      (server.delete_node s.nodes (own (get_id device index true)))) [
                        | inl e' ↦
                            rw (e, delete_empty_from)
                              (rw (named, delete_empty_from)
                                (rw (e', delete_empty_from)
                                  (record { ends = λ h. cc h; full = λ h. absurd (cc h) })))
                        | inr (nodes, e') ↦
                            rw (e, delete_empty_from)
                              (rw (named, delete_empty_from)
                                (rw (e', delete_empty_from)
                                  (delete_empty_from-Cleared fuel
                                    (record s {
                                      nodes = nodes;
                                      folder_index_manager =
                                          release_index s.folder_index_manager device index;
                                    })
                                    device (rw (fewer) (omega (arith, one_less, h))))))
                      ]
              ])
      ]

  -- `DeleteEmptyFolders` ends whatever the server answers, after one run of its loop more than there are leased
  -- folders of the device, at the latest; and if no exception ends it, each folder of the device that is still leased
  -- holds something.
  pub delete_empty_folders-Cleared :
      (s : UaSubscriber N) (device : ℕ) → Cleared device (delete_empty_folders server s device)
  unfolding delete_empty_folders
  delete_empty_folders-Cleared s device =
      delete_empty_from-Cleared (suc (length (get_leased_indices s.folder_index_manager device))) s
        device (omega arith)
