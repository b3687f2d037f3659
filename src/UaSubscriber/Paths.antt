-- ===== src/UaSubscriber/Paths.antt =====
-- Paths and folders: `SplitPath`, `GetNodePath` and `NodeNeedsUpdate` of
-- Communication/Media/UASubscriber.h (under TCommEspTest/lib/ControlLibrary).
use tcomm_tests.Common.{
  ℕ, ◌≡◌, ◌≢◌, refl, Bool, true, false, List, [], ◌∷◌, ◌++◌, some, arith, ◌==◌, Bytes, Bool-cases,
  inl, inr, ◌∙◌, sym, ap, same_bytes, same_bytes_iff, ==_iff,
}
use mathlib.Core.List.{append_assoc, append-nil}
use tcomm_tests.Object.Virtual
use tcomm_tests.Communicator.{Communicator, get_communication_object}
use tcomm_tests.UaSubscriber.{
  UaSubscriber, returned, get_id, separator, split_from, split_path, join_from,
}
use tcomm_tests.UaSubscriber.Variables.{get_node_path}
use tcomm_tests.UaSubscriber.Server.{Nodes, DataTypeId, own}
use tcomm_tests.UaSubscriber.Devices.{node_needs_update}

abbrev pub starts_with_separator : Bytes → Bool
starts_with_separator [] = false
starts_with_separator (b ∷ bs) = b == separator

unfoldable pub ends_from : ℕ → Bytes → Bool
ends_from b [] = b == separator
ends_from b (c ∷ cs) = ends_from c cs

abbrev pub ends_with_separator : Bytes → Bool
ends_with_separator [] = false
ends_with_separator (b ∷ bs) = ends_from b bs

ends_from-tail : (b : ℕ) (bs : Bytes) → ends_from b bs ≡ false → ends_with_separator bs ≡ false
unfolding ends_from
ends_from-tail b [] h = refl
ends_from-tail b (c ∷ cs) h = h

ends_from-more : (b : ℕ) (bs : Bytes) → b == separator ≡ true → ends_from b bs ≡ false → bs ≢ []
unfolding ends_from
ends_from-more b [] e h = absurd (cc (e, h))
ends_from-more b (c ∷ cs) e h = λ h'. cc h'

append-not_nil : (token : Bytes) (b : ℕ) → token ++ b ∷ [] ≢ []
append-not_nil [] b h = cc h
append-not_nil (t ∷ ts) b h = cc h

-- What is joined behind a path: a separator and the rest.
join_from-split_from :
    (a : ℕ) (above token bs : Bytes)
    → (token ≡ [] → bs ≢ [])
    → ends_with_separator bs ≡ false
    → join_from (a ∷ above) (split_from token bs) ≡ a ∷ (above ++ separator ∷ (token ++ bs))
unfolding join_from split_from
join_from-split_from a above [] [] some_left ends = absurd (some_left refl refl)
join_from-split_from a above (t ∷ ts) [] some_left ends =
    ap (λ (r : Bytes). a ∷ (above ++ separator ∷ t ∷ r)) (sym (append-nil ts))
join_from-split_from a above token (b ∷ bs) some_left ends = elim (Bool-cases (b == separator)) [
  | inl e ↦
      (let same : b ≡ separator = (==_iff b separator).0 e in
        rw (e, split_from)
          (join_from-split_from a (above ++ separator ∷ token) [] bs
              (λ h. ends_from-more b bs e ends) (ends_from-tail b bs ends)
            ∙ ap (λ (r : Bytes). a ∷ r)
                (append_assoc above (separator ∷ token) (separator ∷ bs)
                  ∙ ap (λ (x : ℕ). above ++ separator ∷ (token ++ x ∷ bs)) (sym same))))
  | inr e ↦
      rw (e, split_from)
        (join_from-split_from a above (token ++ b ∷ []) bs (λ h. absurd (append-not_nil token b h))
            (ends_from-tail b bs ends)
          ∙ ap (λ (r : Bytes). a ∷ (above ++ separator ∷ r)) (append_assoc token (b ∷ []) bs))
]

join_from-split_from_first :
    (t : ℕ) (ts bs : Bytes)
    → ends_with_separator bs ≡ false
    → join_from [] (split_from (t ∷ ts) bs) ≡ (t ∷ ts) ++ bs
unfolding join_from split_from
join_from-split_from_first t ts [] ends = ap (λ (r : Bytes). t ∷ r) (sym (append-nil ts))
join_from-split_from_first t ts (b ∷ bs) ends = elim (Bool-cases (b == separator)) [
  | inl e ↦
      (let same : b ≡ separator = (==_iff b separator).0 e in
        rw (e, split_from)
          (join_from-split_from t ts [] bs (λ h. ends_from-more b bs e ends)
              (ends_from-tail b bs ends)
            ∙ ap (λ (x : ℕ). t ∷ (ts ++ x ∷ bs)) (sym same)))
  | inr e ↦
      rw (e, split_from)
        (join_from-split_from_first t (ts ++ b ∷ []) bs (ends_from-tail b bs ends)
          ∙ ap (λ (r : Bytes). t ∷ r) (append_assoc ts (b ∷ []) bs))
]

-- A path that neither begins nor ends with a separator, and may hold several in a row: its components, joined again,
-- give the path.
pub join_from-split_path :
    (path : Bytes)
    → starts_with_separator path ≡ false
    → ends_with_separator path ≡ false
    → join_from [] (split_path path) ≡ path
unfolding split_from join_from
join_from-split_path [] starts ends = refl
join_from-split_path (b ∷ bs) starts ends =
    rw (starts, split_from) (join_from-split_from_first b [] bs (ends_from-tail b bs ends))

-- A separator at the end of a path is lost.
split_from-trailing :
    (token path : Bytes)
    → (token ≡ [] → path ≢ [])
    → ends_with_separator path ≡ false
    → split_from token (path ++ separator ∷ []) ≡ split_from token path
unfolding split_from
split_from-trailing [] [] some_left ends = absurd (some_left refl refl)
split_from-trailing (t ∷ ts) [] some_left ends = refl
split_from-trailing token (b ∷ bs) some_left ends = elim (Bool-cases (b == separator)) [
  | inl e ↦
      rw (e, split_from)
        (ap (λ (r : List Bytes). token ∷ r)
          (split_from-trailing [] bs (λ h. ends_from-more b bs e ends) (ends_from-tail b bs ends)))
  | inr e ↦
      rw (e, split_from)
        (split_from-trailing (token ++ b ∷ []) bs (λ h. absurd (append-not_nil token b h))
          (ends_from-tail b bs ends))
]

append-longer : (path : Bytes) (b : ℕ) → path ≢ path ++ b ∷ []
append-longer [] b h = cc h
append-longer (p ∷ path) b h = append-longer path b (cc h)

same_bytes-apart : (a b : Bytes) → a ≢ b → same_bytes a b ≡ false
same_bytes-apart a b h = ground (arith, same_bytes_iff a b)

module _ {N : Type 0} (server : Nodes N) where
  -- An object whose path ends in a separator, behind a path that neither begins nor ends with one: its
  -- node, which lies under the folders that the path names, needs an update at every check, whatever its name and data type
  -- are.
  pub node_needs_update_trailing :
      (depth : ℕ) (c : Communicator) (s : UaSubscriber N) (device index : ℕ) (path name : Bytes)
      (type : DataTypeId)
      → path ≢ []
      → starts_with_separator path ≡ false
      → ends_with_separator path ≡ false
      → Virtual.get_path (get_communication_object c device index) ≡ path ++ separator ∷ []
      → get_node_path server depth s.nodes (get_id device index false)
        ≡ returned (join_from [] (split_path (path ++ separator ∷ [])))
      → server.browse_name s.nodes (own (get_id device index false)) ≡ some name
      → server.data_type s.nodes (own (get_id device index false)) ≡ some type
      → node_needs_update server depth c s device index ≡ (s, returned true)
  unfolding node_needs_update
  node_needs_update_trailing depth c s device index path name type long starts ends at lies named
        typed =
      let joined : join_from [] (split_path (path ++ separator ∷ [])) ≡ path =
        ap (join_from []) (split_from-trailing [] path (λ h. long) ends)
        ∙ join_from-split_path path starts ends in
      let differs = same_bytes-apart path (path ++ separator ∷ []) (append-longer path separator) in
      rw (lies ∙ ap returned joined, node_needs_update)
        (rw (named, node_needs_update)
          (rw (typed, node_needs_update) (rw (at) (ground (arith, differs)))))
