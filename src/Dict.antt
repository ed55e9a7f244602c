-- ===== src/Dict.antt =====
-- Python's `dict` and `set` with text keys, as far as the program uses them.
-- A dict is the list of its items in insertion order: assigning to a key that is there keeps its
-- place, assigning to a new one appends. A set is a list of its members; its order is not observed.
pub mod Laws
pub mod Members
pub mod Distinct
pub mod Sets
use ad_artifacts.Base.{
  String, Bool, true, false, Option, none, some, List, [], ◌∷◌, ◌||◌, ◌==◌, if◌then◌else◌, is_some,
  or_default, select, not,
}

abbrev pub Dict {ℓ} : Type ℓ → Type ℓ
Dict V = List (String × V)

module _ {ℓ} {V : Type ℓ} where
  -- d.get(k)
  unfoldable pub get : String → Dict V → Option V
  get k [] = none
  get k ((j, v) ∷ d) = if j == k then some v else get k d

  -- d[k] = v
  unfoldable pub put : String → V → Dict V → Dict V
  put k v [] = (k, v) ∷ []
  put k v ((j, w) ∷ d) = if j == k then (j, v) ∷ d else (j, w) ∷ put k v d

  -- d.pop(k, None), del d[k]
  unfoldable pub remove : String → Dict V → Dict V
  remove k [] = []
  remove k ((j, w) ∷ d) = if j == k then remove k d else (j, w) ∷ remove k d

  -- Mutates the object stored under a key in place.
  unfoldable pub update : String → (V → V) → Dict V → Dict V
  update k f [] = []
  update k f ((j, w) ∷ d) = if j == k then (j, f w) ∷ update k f d else (j, w) ∷ update k f d

  -- Mutates every stored object in place: `for v in d.values(): ...`
  unfoldable pub map_values : (V → V) → Dict V → Dict V
  map_values f [] = []
  map_values f ((j, w) ∷ d) = (j, f w) ∷ map_values f d

  -- d.values(), as a list
  abbrev pub values : Dict V → List V
  values [] = []
  values ((j, v) ∷ d) = v ∷ values d

  -- k in d
  abbrev pub has : String → Dict V → Bool
  has k d = is_some (get k d)

-- k in s
unfoldable pub member : String → List String → Bool
member k [] = false
member k (j ∷ s) = j == k || member k s

-- s.add(k)
unfoldable pub add : String → List String → List String
add k s = if member k s then s else k ∷ s

-- s.discard(k)
unfoldable pub discard : String → List String → List String
discard k s = select (λ j. not (j == k)) s

-- An emptied set is dropped with its key, `if not s: d.pop(outer)`, and another one stays.
unfoldable pub put_unless_empty : String → List String → Dict (List String) → Dict (List String)
put_unless_empty outer [] d = remove outer d
put_unless_empty outer (j ∷ rest) d = put outer (j ∷ rest) d

unfoldable pub cons_unless_empty : String → List String → Dict (List String) → Dict (List String)
cons_unless_empty outer [] d = d
cons_unless_empty outer (j ∷ rest) d = (outer, j ∷ rest) ∷ d

-- `d[outer].discard(inner)`, and `d.pop(outer)` if the set is then empty; nothing for a missing key.
unfoldable pub discard_under : String → String → Dict (List String) → Dict (List String)
discard_under outer inner d = elim (get outer d) [
  | none ↦ d
  | some s ↦ put_unless_empty outer (discard inner s) d
]

-- `d.setdefault(outer, set()).add(inner)`
unfoldable pub add_under : String → String → Dict (List String) → Dict (List String)
add_under outer inner d = put outer (add inner (or_default (get outer d) [])) d

-- `for outer, s in list(d.items()): s.discard(inner)`, and `d.pop(outer)` if the set is then empty
unfoldable pub discard_everywhere : String → Dict (List String) → Dict (List String)
discard_everywhere inner [] = []
discard_everywhere inner ((outer, s) ∷ d) =
    cons_unless_empty outer (discard inner s) (discard_everywhere inner d)
