-- ===== src/Examples/UaNodes.antt =====
-- A small OPC UA server, and Communication/Media/UASubscriber.h (under TCommEspTest/lib/ControlLibrary)
-- on it.
use tcomm_tests.Common.{
  ◌∙◌, ℕ, ◌<◌, ◌≡◌, refl, Bool, true, false, ◌||◌, ◌&&◌, same_bytes, List, [], ◌∷◌, Option, none,
  some, arith, Bytes, Bool-cases, inl, inr, if◌then◌else◌, ap, sym,
}
use mathlib.Core.List.{append-nil}
use tcomm_tests.Object.{TemplateCommunicationObject}
use tcomm_tests.Object.Types.{int, word_codec}
use tcomm_tests.Object.Virtual
use tcomm_tests.Object.Virtual.{word}
use tcomm_tests.Communicator.{Communicator, get_communication_object, pointer_at, objects_of}
use tcomm_tests.Common.Maps.{find}
use tcomm_tests.UaSubscriber.{
  UaSubscriber, returned, get_id, get_object_index_from_id, separator, split_path, join_from,
  split_from,
}
use tcomm_tests.UaSubscriber.Variables.{get_node_path, climb, same_node}
use tcomm_tests.UaSubscriber.Server.{
  NodeId, Nodes, DataTypeId, Variant, scalar_value, text_value, bytes_value, Callback, for_value,
  own, objects_node, int32_id, byte_string,
}
use tcomm_tests.UaSubscriber.Devices.{node_needs_update, delete_empty_folders}
use tcomm_tests.UaSubscriber.Ids.{get_id-apart}
use tcomm_tests.UaSubscriber.Folders.{Cleared, delete_empty_folders-Cleared}
use tcomm_tests.UaSubscriber.Paths.{ends_from, join_from-split_path, node_needs_update_trailing}
use tcomm_tests.UaSubscriber.Values.{KeepsNodes, Arrives, written-Arrives}
use tcomm_tests.Examples.Devices.{object, home}

pub record Entry : Type 0 where
  pub node : NodeId
  pub name : Bytes
  pub parent : NodeId
  pub type : DataTypeId
  pub value : Option Variant
  pub hook : Option Callback

unfoldable pub has : List Entry → NodeId → Bool
has [] m = false
has (e ∷ es) m = same_node e.node m || has es m

unfoldable pub entry_at : List Entry → NodeId → Option Entry
entry_at [] m = none
entry_at (e ∷ es) m = let rest = entry_at es m in if same_node e.node m then some e else rest

unfoldable pub hook_at : List Entry → NodeId → Option Callback
hook_at [] m = none
hook_at (e ∷ es) m = let rest = hook_at es m in if same_node e.node m then e.hook else rest

unfoldable pub named : List Entry → NodeId → Bytes → Option NodeId
named [] p s = none
named (e ∷ es) p s =
    let rest = named es p s in
    if same_node e.parent p && same_bytes e.name s then some e.node else rest

unfoldable pub below : List Entry → NodeId → List NodeId
below [] p = []
below (e ∷ es) p = let rest = below es p in if same_node e.parent p then e.node ∷ rest else rest

unfoldable pub without : List Entry → NodeId → List Entry
without [] m = []
without (e ∷ es) m = let rest = without es m in if same_node e.node m then rest else e ∷ rest

unfoldable pub with_value : List Entry → NodeId → Variant → List Entry
with_value [] m v = []
with_value (e ∷ es) m v =
    (if same_node e.node m then record e { value = some v } else e) ∷ with_value es m v

unfoldable pub with_hook : List Entry → NodeId → Callback → List Entry
with_hook [] m k = []
with_hook (e ∷ es) m k =
    (if same_node e.node m then record e { hook = some k } else e) ∷ with_hook es m k

abbrev pub bytes_of : Variant → Bytes
bytes_of (scalar_value t v) = (word_codec t).bytes v
bytes_of (text_value s) = s
bytes_of (bytes_value s) = s

abbrev pub small : Nodes (List Entry)
small = record {
  exists = has;
  browse_name = λ es m. elim (entry_at es m) [ none ↦ none | some e ↦ some e.name ];
  browse_parent = λ es m. elim (entry_at es m) [ none ↦ none | some e ↦ some e.parent ];
  browse_child = named;
  browse_children = λ es m. some (below es m);
  data_type = λ es m. elim (entry_at es m) [ none ↦ none | some e ↦ some e.type ];
  add_folder = λ es p m s. some (
      record { node = m; name = s; parent = p; type = byte_string; value = none; hook = none }
      ∷ es);
  add_variable = λ es p m s t.
      some (record { node = m; name = s; parent = p; type = t; value = none; hook = none } ∷ es);
  set_callback = λ es m k. some (with_hook es m k);
  callback = hook_at;
  delete_node = λ es m. some (without es m);
  write_value = λ es m v. some (with_value es m v);
  memory = bytes_of;
  string_bytes = bytes_of;
}

pub exists-with_value :
    (es : List Entry) (m n : NodeId) (v : Variant) → has (with_value es m v) n ≡ has es n
unfolding has with_value
exists-with_value [] m n v = refl
exists-with_value (e ∷ es) m n v = elim (Bool-cases (same_node e.node m)) [
  | inl h ↦ rw (h) (ap (λ b. same_node e.node n || b) (exists-with_value es m n v))
  | inr h ↦ rw (h) (ap (λ b. same_node e.node n || b) (exists-with_value es m n v))
]

hook_at-with_value :
    (es : List Entry) (m n : NodeId) (v : Variant) → hook_at (with_value es m v) n ≡ hook_at es n
unfolding hook_at with_value
hook_at-with_value [] m n v = refl
hook_at-with_value (e ∷ es) m n v = elim (Bool-cases (same_node e.node m)) [
  | inl h ↦
      rw (h) (ap (λ r. if same_node e.node n then e.hook else r) (hook_at-with_value es m n v))
  | inr h ↦
      rw (h) (ap (λ r. if same_node e.node n then e.hook else r) (hook_at-with_value es m n v))
]

-- Of these nodes every one is a variable that takes any scalar.
small-KeepsNodes : KeepsNodes small (λ n node t. has n node ≡ true)
unfolding has hook_at with_value
small-KeepsNodes = record {
  writes = λ n node t v h good. (
    with_value n node (scalar_value t v),
    refl,
    λ m. exists-with_value n node m (scalar_value t v),
    λ m. hook_at-with_value n node m (scalar_value t v),
    λ m u there. exists-with_value n node m (scalar_value t v) ∙ there,
  );
  memory_scalar = λ t v. ([], sym (append-nil ((word_codec t).bytes v)));
}

abbrev device : ℕ
device = 4

abbrev seventh : ℕ
seventh = 7

abbrev eighth : ℕ
eighth = 8

get_id-apart_example :
    (get_id device seventh false ≡ get_id device eighth true
      → (device ≡ device) × (seventh ≡ eighth) × (false ≡ true))
    × (get_id device seventh false < 0x1_0000_0000)
    × (get_object_index_from_id (get_id device seventh false) ≡ device)
get_id-apart_example =
    get_id-apart device device seventh eighth false true (omega arith) (omega arith) (omega arith)
      (omega arith)

-- A folder with the variable of an object in it, whose callback is set, and an empty folder.
abbrev pub folder : NodeId
folder = own 0x8001_0001

abbrev pub entries : List Entry
entries =
    record {
      node = own 0x1_0001;
      name = b'n' ∷ [];
      parent = folder;
      type = int32_id;
      value = none;
      hook = some (for_value 1 0 4);
    }
    ∷ record {
      node = folder;
      name = b'a' ∷ [];
      parent = objects_node;
      type = byte_string;
      value = none;
      hook = none;
    }
    ∷ record {
      node = own 0x8001_0002;
      name = b'e' ∷ [];
      parent = objects_node;
      type = byte_string;
      value = none;
      hook = none;
    }
    ∷ []

abbrev pub subscriber : UaSubscriber (List Entry)
subscriber = record {
  nodes = entries;
  writing_to_node = false;
  folder_index_manager = record { next_index = 2; available = []; leased = (1, 0 ∷ 1 ∷ []) ∷ [] };
  data_types = [];
}

delete_empty_folders-Cleared_example : Cleared small 1 (delete_empty_folders small subscriber 1)
delete_empty_folders-Cleared_example = delete_empty_folders-Cleared small subscriber 1

abbrev two_names : Bytes
two_names = b'a' ∷ separator ∷ b'b' ∷ []

two_names-end : ends_from (b'a') (separator ∷ b'b' ∷ []) ≡ false
unfolding ends_from
two_names-end = refl

join_from-split_path_example : join_from [] (split_path two_names) ≡ two_names
join_from-split_path_example = join_from-split_path two_names refl two_names-end

abbrev number : TemplateCommunicationObject ℕ
number = object 5 5 0

number-there : has entries (own (get_id 1 0 false)) ≡ true
unfolding has get_id
number-there = refl

number-hooked : hook_at entries (own (get_id 1 0 false)) ≡ some (for_value 1 0 4)
unfolding hook_at get_id
number-hooked = refl

written-Arrives_example : Arrives small subscriber int number 9 (own (get_id 1 0 false))
written-Arrives_example =
    written-Arrives small small-KeepsNodes subscriber int number 9 (omega arith)
      (omega arith, omega arith) refl number-there number-there number-hooked

-- An object whose path is the name of the folder with a separator behind it.
abbrev trailing : Communicator
trailing = record home {
  heap = λ p. word int (record (object 5 0 p) { object_path = b'a' ∷ separator ∷ [] });
}

trailing-path : Virtual.get_path (get_communication_object trailing 1 0) ≡ b'a' ∷ separator ∷ []
unfolding Virtual.get_path get_communication_object pointer_at objects_of find
trailing-path = refl

folder-path :
    get_node_path small 3 entries (get_id 1 0 false)
    ≡ returned (join_from [] (split_path (b'a' ∷ separator ∷ [])))
unfolding get_node_path climb get_id entry_at join_from split_from
folder-path = refl

number-name : small.browse_name entries (own (get_id 1 0 false)) ≡ some (b'n' ∷ [])
unfolding entry_at get_id
number-name = refl

number-type : small.data_type entries (own (get_id 1 0 false)) ≡ some int32_id
unfolding entry_at get_id
number-type = refl

a-end : ends_from (b'a') [] ≡ false
unfolding ends_from
a-end = refl

node_needs_update_trailing_example :
    node_needs_update small 3 trailing subscriber 1 0 ≡ (subscriber, returned true)
node_needs_update_trailing_example =
    node_needs_update_trailing small 3 trailing subscriber 1 0 (b'a' ∷ []) (b'n' ∷ []) int32_id
      (λ h. cc h) refl a-end trailing-path folder-path number-name number-type
