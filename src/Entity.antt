-- ===== src/Entity.antt =====
-- System/Entity.h (under TCommEspTest/lib/ControlLibrary): entities lie in a store, and a parent is a
-- pointer into it, or null.
pub mod Paths
use tcomm_tests.Common.{
  ℕ, zero, suc, Bool, List, [], ◌∷◌, ◌++◌, Option, none, some, ◌==◌, if◌then◌else◌, Bytes,
}

pub record Entity : Type 0 where
  pub name : Bytes
  pub parent : Option ℕ

abbrev pub Entities : Type 0
Entities = ℕ → Entity

-- The constructor, over a null or another parent.
abbrev pub new_entity : Option ℕ → Bytes → Entity
new_entity parent name = record { name = name; parent = parent }

abbrev pub replace : Entities → ℕ → Entity → Entities
replace m p e q = if p == q then e else m q

abbrev pub separator : ℕ
separator = 0x5C

-- `GetPath` to a depth of calls; `none` is one that goes deeper.
unfoldable pub get_path : ℕ → Entities → ℕ → Option Bytes
get_path zero m p = none
get_path (suc depth) m p = elim (m p).parent [
  | none ↦ some (m p).name
  | some q ↦ elim (get_path depth m q) [
    | none ↦ none
    | some path ↦ some (path ++ separator ∷ (m p).name)
  ]
]

-- `SetName` and `RegisterParent`.
unfoldable pub rename : Entities → ℕ → Bytes → Entities
rename m p name = replace m p (record (m p) { name = name })

unfoldable pub register_parent : Entities → ℕ → Option ℕ → Entities
register_parent m p parent = replace m p (record (m p) { parent = parent })
