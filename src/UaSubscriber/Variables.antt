-- ===== src/UaSubscriber/Variables.antt =====
-- The variables of Communication/Media/UASubscriber.h (under TCommEspTest/lib/ControlLibrary) and the
-- folders that they lie in.
use tcomm_tests.Common.{
  ℕ, zero, suc, Bool, true, false, ◌&&◌, List, [], ◌∷◌, Option, none, some, ◌==◌, if◌then◌else◌,
  Bytes,
}
use tcomm_tests.ByteSerializer.{CommunicationData}
use tcomm_tests.ResourceIndexManager.{lease_index}
use tcomm_tests.Object.Virtual
use tcomm_tests.Communicator.{Communicator, get_communication_object}
use tcomm_tests.UaSubscriber.{
  UaSubscriber, Outcome, returned, threw, endless, get_id, split_path, join_from, find_type_entry,
  or_default, object_data, callback_for, write,
}
use tcomm_tests.UaSubscriber.Server.{NodeId, Nodes, own, objects_node}

abbrev pub same_node : NodeId → NodeId → Bool
same_node a b = a.namespace == b.namespace && a.identifier == b.identifier

-- The outer `try` of `GetOrCreateFolder`.
abbrev pub if_found :
    {N : Type 0}
    → UaSubscriber N × Outcome NodeId
    → (UaSubscriber N → UaSubscriber N × Outcome NodeId)
    → UaSubscriber N × Outcome NodeId
if_found (s, returned node) caught = (s, returned node)
if_found (s, endless) caught = (s, endless)
if_found (s, threw) caught = caught s

module _ {N : Type 0} (server : Nodes N) where
  -- `GetNodePath`, up to so many folders: `endless` is a deeper node.
  unfoldable pub climb : ℕ → N → NodeId → List Bytes → Outcome (List Bytes)
  climb zero nodes node components = endless
  climb (suc depth) nodes node components =
      let up : Outcome (List Bytes) = elim (server.browse_name nodes node) [
        | none ↦ threw
        | some name ↦ elim (server.browse_parent nodes node) [
          | none ↦ threw
          | some parent ↦ climb depth nodes parent (name ∷ components)
        ]
      ] in
      if same_node node objects_node then returned components else up

  unfoldable pub get_node_path : ℕ → N → ℕ → Outcome Bytes
  unfolding climb
  get_node_path depth nodes id = elim (server.browse_parent nodes (own id)) [
    | none ↦ threw
    | some parent ↦ elim (climb depth nodes parent []) [
      | returned components ↦ returned (join_from [] components)
      | threw ↦ threw
      | endless ↦ endless
    ]
  ]

  -- The inner `try` of `GetOrCreateFolder`, with what is done in the new folder.
  unfoldable pub create_folder :
      UaSubscriber N
      → ℕ
      → NodeId
      → Bytes
      → (UaSubscriber N → NodeId → UaSubscriber N × Outcome NodeId)
      → UaSubscriber N × Outcome NodeId
  create_folder s device parent name continue_in =
      let (index, manager) = lease_index s.folder_index_manager device in
      let s' = record s { folder_index_manager = manager } in
      let node = own (get_id device index true) in
      elim (server.add_folder s.nodes parent node name) [
        | none ↦ (s', threw)
        | some nodes ↦ continue_in (record s' { nodes = nodes }) node
      ]

  -- `GetOrCreateFolder`. An exception behind a folder that is found makes one of the same name.
  unfoldable pub get_or_create_folder :
      UaSubscriber N → ℕ → NodeId → List Bytes → UaSubscriber N × Outcome NodeId
  unfolding create_folder
  get_or_create_folder s device parent [] = (s, returned parent)
  get_or_create_folder s device parent (name ∷ names) =
      elim (server.browse_child s.nodes parent name) [
        | none ↦
            create_folder s device parent name
              (λ s' child. get_or_create_folder s' device child names)
        | some child ↦ if_found (get_or_create_folder s device child names) (λ s'.
            create_folder s' device parent name
              (λ s'' child. get_or_create_folder s'' device child names))
      ]

  -- `CreateVariable`: its end, and what is injected meanwhile.
  unfoldable pub create_variable :
      Communicator → UaSubscriber N → ℕ → ℕ → UaSubscriber N × Outcome (Option CommunicationData)
  create_variable c s device index =
      let o = get_communication_object c device index in
      let node = own (get_id device index false) in
      let (s', target) =
        get_or_create_folder s device objects_node (split_path (Virtual.get_path o)) in
      let type = or_default (find_type_entry (Virtual.get_type o) s'.data_types) in
      elim target [
        | threw ↦ (s', threw)
        | endless ↦ (s', endless)
        | returned parent ↦
            elim (server.add_variable s'.nodes parent node (Virtual.get_name o) type) [
              | none ↦ (s', threw)
              | some nodes ↦ elim (server.set_callback nodes node (callback_for o device index)) [
                | none ↦ (record s' { nodes = nodes }, threw)
                | some nodes' ↦ elim (object_data o) [
                  | none ↦ (record s' { nodes = nodes' }, threw)
                  | some d ↦ write server c (record s' { nodes = nodes' }) d
                ]
              ]
            ]
      ]
