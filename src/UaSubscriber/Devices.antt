-- ===== src/UaSubscriber/Devices.antt =====
-- The devices of Communication/Media/UASubscriber.h (under TCommEspTest/lib/ControlLibrary): how the
-- nodes of a device are brought in step with its objects, and removed.
use tcomm_tests.Common.{
  ℕ, zero, suc, ◌+◌, ◌%◌, Bool, true, false, not, ◌||◌, List, [], ◌∷◌, Option, none, some,
  if◌then◌else◌, same_bytes, length,
}
use tcomm_tests.Common.Maps.{find, insert}
use tcomm_tests.ByteSerializer.{CommunicationData}
use tcomm_tests.ResourceIndexManager.{release_index, get_leased_indices}
use tcomm_tests.Object.Virtual
use tcomm_tests.Communicator.{Communicator, get_communication_object, get_object_list_size}
use tcomm_tests.UaSubscriber.{UaSubscriber, Outcome, returned, threw, endless, get_id, type_entry}
use tcomm_tests.UaSubscriber.Variables.{get_node_path, create_variable}
use tcomm_tests.UaSubscriber.Server.{Nodes, own, same_data_type}

module _ {N : Type 0} (server : Nodes N) where
  -- `FetchNodeMap` from an index on, over so many steps. The index wraps: where the nodes of all
  -- indices are there, it never ends.
  unfoldable pub fetch_from : ℕ → N → ℕ → ℕ → Bool → List (ℕ × Bool) → Option (List (ℕ × Bool))
  fetch_from zero nodes device index folders map = none
  fetch_from (suc fuel) nodes device index folders map =
      let id = get_id device index folders in
      let rest = fetch_from fuel nodes device ((index + 1) % 65536) folders (insert id false map) in
      if server.exists nodes (own id) then rest else some map

  unfoldable pub fetch_node_map : N → ℕ → Bool → Option (List (ℕ × Bool))
  unfolding fetch_from
  fetch_node_map nodes device folders = fetch_from 65537 nodes device 0 folders []

  -- The first of the indices whose folder holds nothing.
  unfoldable pub empty_folder : N → ℕ → List ℕ → Outcome (Option ℕ)
  empty_folder nodes device [] = returned none
  empty_folder nodes device (index ∷ indices) =
      elim (server.browse_children nodes (own (get_id device index true))) [
        | none ↦ threw
        | some [] ↦ returned (some index)
        | some (child ∷ children) ↦ empty_folder nodes device indices
      ]

  -- `DeleteEmptyFolders`, over so many runs of its loop.
  unfoldable pub delete_empty_from : ℕ → UaSubscriber N → ℕ → UaSubscriber N × Outcome Bool
  unfolding empty_folder
  delete_empty_from zero s device = (s, endless)
  delete_empty_from (suc fuel) s device =
      elim (empty_folder s.nodes device (get_leased_indices s.folder_index_manager device)) [
        | threw ↦ (s, threw)
        | endless ↦ (s, endless)
        | returned none ↦ (s, returned true)
        | returned (some index) ↦
            elim (server.browse_name s.nodes (own (get_id device index true))) [
              | none ↦ (s, threw)
              | some name ↦ elim (server.delete_node s.nodes (own (get_id device index true))) [
                | none ↦ (s, threw)
                | some nodes ↦
                    delete_empty_from fuel
                      (record s {
                        nodes = nodes;
                        folder_index_manager = release_index s.folder_index_manager device index;
                      })
                      device
              ]
            ]
      ]

  unfoldable pub delete_empty_folders : UaSubscriber N → ℕ → UaSubscriber N × Outcome Bool
  unfolding delete_empty_from
  delete_empty_folders s device =
      delete_empty_from (suc (length (get_leased_indices s.folder_index_manager device))) s device

  -- `NodeNeedsUpdate`, over nodes that lie so deep.
  unfoldable pub node_needs_update :
      ℕ → Communicator → UaSubscriber N → ℕ → ℕ → UaSubscriber N × Outcome Bool
  node_needs_update depth c s device index =
      let o = get_communication_object c device index in
      let node = own (get_id device index false) in
      elim (get_node_path server depth s.nodes (get_id device index false)) [
        | threw ↦ (s, threw)
        | endless ↦ (s, endless)
        | returned path ↦ elim (server.browse_name s.nodes node) [
          | none ↦ (s, threw)
          | some name ↦ elim (server.data_type s.nodes node) [
            | none ↦ (s, threw)
            | some type ↦
                (let (types, expected) = type_entry s.data_types (Virtual.get_type o) in
                  if not (same_bytes name (Virtual.get_name o))
                    || not (same_bytes path (Virtual.get_path o))
                  then (s, returned true)
                  else (
                    record s { data_types = types },
                    returned (not (same_data_type type expected)),
                  ))
          ]
        ]
      ]

  -- `CreateVariable` without what is injected meanwhile.
  abbrev created :
      UaSubscriber N × Outcome (Option CommunicationData) → UaSubscriber N × Outcome Bool
  created (s, returned d) = (s, returned true)
  created (s, threw) = (s, threw)
  created (s, endless) = (s, endless)

  -- A node that needs an update is made anew.
  abbrev renewed :
      Communicator → ℕ → ℕ → UaSubscriber N × Outcome Bool → UaSubscriber N × Outcome Bool
  renewed c device index (s, returned false) = (s, returned true)
  renewed c device index (s, returned true) =
      elim (server.delete_node s.nodes (own (get_id device index false))) [
        | none ↦ (s, threw)
        | some nodes ↦ created (create_variable server c (record s { nodes = nodes }) device index)
      ]
  renewed c device index (s, threw) = (s, threw)
  renewed c device index (s, endless) = (s, endless)

  -- One run of the loop of `RegisterDevice` over the objects.
  unfoldable pub register_object_node :
      ℕ
      → Communicator
      → UaSubscriber N
      → ℕ
      → ℕ
      → List (ℕ × Bool)
      → (UaSubscriber N × Outcome Bool) × List (ℕ × Bool)
  register_object_node depth c s device index map =
      let id = get_id device (index % 65536) false in
      let index' = index % 65536 in
      let noted : List (ℕ × Bool) = elim (find id map) [
        | none ↦ map
        | some updated ↦ insert id true map
      ] in
      if server.exists s.nodes (own id)
      then (renewed c device index' (node_needs_update depth c s device index'), noted)
      else (created (create_variable server c s device index'), map)

  -- The loop, from an index on.
  unfoldable pub register_objects :
      ℕ
      → Communicator
      → ℕ
      → ℕ
      → ℕ
      → UaSubscriber N
      → List (ℕ × Bool)
      → (UaSubscriber N × Outcome Bool) × List (ℕ × Bool)
  unfolding register_object_node
  register_objects depth c device index zero s map = ((s, returned true), map)
  register_objects depth c device index (suc left) s map =
      let (end, map') = register_object_node depth c s device index map in
      elim end.1 [
        | returned ok ↦ register_objects depth c device (suc index) left end.0 map'
        | threw ↦ ((end.0, threw), map')
        | endless ↦ ((end.0, endless), map')
      ]

  -- The loop that removes the variables that were not met.
  unfoldable pub delete_obsolete : UaSubscriber N → List (ℕ × Bool) → UaSubscriber N × Outcome Bool
  delete_obsolete s [] = (s, returned true)
  delete_obsolete s ((id, true) ∷ rest) = delete_obsolete s rest
  delete_obsolete s ((id, false) ∷ rest) = elim (server.delete_node s.nodes (own id)) [
    | none ↦ (s, threw)
    | some nodes ↦ delete_obsolete (record s { nodes = nodes }) rest
  ]

  -- What is done if the step before returned.
  abbrev and_then :
      UaSubscriber N × Outcome Bool
      → (UaSubscriber N → UaSubscriber N × Outcome Bool)
      → UaSubscriber N × Outcome Bool
  and_then (s, returned ok) go_on = go_on s
  and_then (s, threw) go_on = (s, threw)
  and_then (s, endless) go_on = (s, endless)

  -- `RegisterDevice`. The subscription that it makes has no effect here.
  unfoldable pub register_device :
      ℕ → Communicator → UaSubscriber N → ℕ → UaSubscriber N × Outcome Bool
  unfolding fetch_node_map register_objects delete_obsolete delete_empty_folders
  register_device depth c s device = elim (fetch_node_map s.nodes device false) [
    | none ↦ (s, endless)
    | some map ↦
        (let (c', size) = get_object_list_size c device in
          let (end, map') = register_objects depth c' device 0 size s map in
          and_then end
            (λ s'. and_then (delete_obsolete s' map') (λ s''. delete_empty_folders s'' device)))
  ]

  -- The loops of `DeregisterDevice`, from an index on and over so many steps.
  unfoldable pub remove_from : ℕ → UaSubscriber N → ℕ → ℕ → Bool → UaSubscriber N × Outcome Bool
  remove_from zero s device index folders = (s, endless)
  remove_from (suc fuel) s device index folders =
      let node = own (get_id device index folders) in
      if server.exists s.nodes node
      then elim (server.delete_node s.nodes node) [
        | none ↦ (s, threw)
        | some nodes ↦
            remove_from fuel (record s { nodes = nodes }) device ((index + 1) % 65536) folders
      ]
      else (s, returned true)

  -- `DeregisterDevice`.
  unfoldable pub deregister_device : UaSubscriber N → ℕ → UaSubscriber N × Outcome Bool
  unfolding remove_from
  deregister_device s device =
      and_then (remove_from 65537 s device 0 false) (λ s'. remove_from 65537 s' device 0 true)
