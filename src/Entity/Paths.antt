-- ===== src/Entity/Paths.antt =====
-- The paths of entities: System/Entity.h (under TCommEspTest/lib/ControlLibrary).
use tcomm_tests.Common.{
  ℕ, zero, suc, ◌<◌, ◌≡◌, ◌≢◌, refl, List, [], ◌∷◌, ◌++◌, none, some, arith, Bytes, ◌==◌,
  if◌then◌else◌, Option-cases, Bool-cases, inl, inr, ◌∙◌, ap, ==_ne,
}
use tcomm_tests.Entity.{Entities, get_path, separator}

-- The names on the way from the root to the entity, to a depth.
pub names : ℕ → Entities → ℕ → List Bytes
names zero m p = []
names (suc depth) m p = elim (m p).parent [
  | none ↦ (m p).name ∷ []
  | some q ↦ names depth m q ++ (m p).name ∷ []
]

-- A text cut at its separators.
abbrev pub put_first : ℕ → List Bytes → List Bytes
put_first b [] = (b ∷ []) ∷ []
put_first b (w ∷ ws) = (b ∷ w) ∷ ws

pub split_path : Bytes → List Bytes
split_path [] = [] ∷ []
split_path (b ∷ bs) =
    let rest = split_path bs in if b == separator then [] ∷ rest else put_first b rest

-- No separator stands in the text.
abbrev pub NoSeparator : Bytes → Type 0
NoSeparator [] = Unit {0}
NoSeparator (b ∷ bs) = (b ≢ separator) × NoSeparator bs

split_path-plain : (bs : Bytes) → NoSeparator bs → split_path bs ≡ bs ∷ []
unfolding split_path
split_path-plain [] h = refl
split_path-plain (b ∷ bs) (ne, h) = rw (==_ne b separator ne, split_path-plain bs h) refl

split_path-cons : (bs : Bytes) → (w : Bytes) × (ws : List Bytes) × (split_path bs ≡ w ∷ ws)
unfolding split_path
split_path-cons [] = ([], [], refl)
split_path-cons (b ∷ bs) =
    let (w, ws, e) = split_path-cons bs in
    elim (Bool-cases (b == separator)) [
      | inl h ↦ ([], split_path bs, rw (h) refl)
      | inr h ↦ (b ∷ w, ws, rw (h, e) refl)
    ]

split_path-append :
    (as' bs : Bytes) → split_path (as' ++ separator ∷ bs) ≡ split_path as' ++ split_path bs
unfolding split_path
split_path-append [] bs = refl
split_path-append (a ∷ as') bs =
    let (w, ws, e) = split_path-cons as' in
    elim (Bool-cases (a == separator)) [
      | inl h ↦ rw (h, split_path-append as' bs) refl
      | inr h ↦ rw (h, split_path-append as' bs, e) refl
    ]

-- The path of an entity is there, and cut at its separators it is the names from the root to the
-- entity, as long as no name holds a separator and the parents come to an end: `rank` falls from an
-- entity to its parent, and the depth exceeds the rank of the entity.
pub get_path-names :
    (m : Entities) (rank : ℕ → ℕ) (depth p : ℕ)
    → ((q r : ℕ) → (m q).parent ≡ some r → rank r < rank q)
    → ((q : ℕ) → NoSeparator (m q).name)
    → rank p < depth
    → (path : Bytes) × (get_path depth m p ≡ some path) × (split_path path ≡ names depth m p)
unfolding get_path names
get_path-names m rank zero p falls plain h = absurd (omega (arith, h))
get_path-names m rank (suc depth) p falls plain h = elim (Option-cases (m p).parent) [
  | inl e ↦
      ((m p).name, rw (e, get_path) refl, rw (e, names) (split_path-plain (m p).name (plain p)))
  | inr (q, e) ↦
      (let (path, there, split) =
          get_path-names m rank depth q falls plain (omega (arith, h, falls p q e)) in
        (
          path ++ separator ∷ (m p).name,
          rw (e, there, get_path) refl,
          rw (e, names)
              (split_path-append path (m p).name
                ∙ (ap (λ (ws : List Bytes). ws ++ split_path (m p).name) split
                    ∙ ap (λ (ws : List Bytes). names depth m q ++ ws)
                        (split_path-plain (m p).name (plain p)))),
        ))
]
