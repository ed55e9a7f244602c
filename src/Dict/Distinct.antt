-- ===== src/Dict/Distinct.antt =====
-- A dict has one entry for a key. Every operation keeps that.
use ad_artifacts.Base.{
  String, ◌≡◌, none, List, [], ◌∷◌, ◌==◌, arith, eq_iff, false, inl, inr, Option-cases, refl,
}
use mathlib.Core.Option
use ad_artifacts.Dict.{
  Dict, get, put, remove, update, map_values, add_under, discard_under, discard_everywhere, discard,
  put_unless_empty, cons_unless_empty,
}
use ad_artifacts.Dict.Laws.{get-put, get-remove, get-update}

abbrev pub IsDistinct {ℓ} : {V : Type ℓ} → Dict V → Type ℓ
IsDistinct [] = Unit
IsDistinct ((k, v) ∷ d) = (get k d ≡ none) × IsDistinct d

module _ {ℓ} {V : Type ℓ} where
  pub put-IsDistinct : (k : String) (v : V) (d : Dict V) → IsDistinct d → IsDistinct (put k v d)
  unfolding put get
  put-IsDistinct k v [] h = ground arith
  put-IsDistinct k v ((i, w) ∷ d) h =
      ground (arith, put-IsDistinct k v d h.1, get-put k i v d, eq_iff i k, eq_iff k i)

  pub remove-IsDistinct : (k : String) (d : Dict V) → IsDistinct d → IsDistinct (remove k d)
  unfolding remove
  remove-IsDistinct k [] h = tt
  remove-IsDistinct k ((i, w) ∷ d) h = ground (arith, remove-IsDistinct k d h.1, get-remove k i d)

  pub update-IsDistinct :
      (k : String) (f : V → V) (d : Dict V) → IsDistinct d → IsDistinct (update k f d)
  unfolding update
  update-IsDistinct k f [] h = tt
  update-IsDistinct k f ((i, w) ∷ d) h =
      ground (arith, update-IsDistinct k f d h.1, get-update k i f d)

  pub get-map_values :
      (j : String) (f : V → V) (d : Dict V) → get j (map_values f d) ≡ Option.map f (get j d)
  unfolding get map_values
  get-map_values j f [] = ground arith
  get-map_values j f ((i, w) ∷ d) = ground (arith, get-map_values j f d)

module _ (outer inner : String) (d : Dict (List String)) (h : IsDistinct d) where
  pub add_under-IsDistinct : IsDistinct (add_under outer inner d)
  unfolding add_under
  add_under-IsDistinct = put-IsDistinct outer _ d h

  put_unless_empty-IsDistinct : (s : List String) → IsDistinct (put_unless_empty outer s d)
  unfolding put_unless_empty
  put_unless_empty-IsDistinct [] = remove-IsDistinct outer d h
  put_unless_empty-IsDistinct (j ∷ rest) = put-IsDistinct outer _ d h

  pub discard_under-IsDistinct : IsDistinct (discard_under outer inner d)
  unfolding discard_under
  discard_under-IsDistinct = elim (Option-cases (get outer d)) [
    | inl e ↦ rw (e, discard_under) h
    | inr (s, e) ↦ rw (e, discard_under) (put_unless_empty-IsDistinct (discard inner s))
  ]

cons_unless_empty-IsDistinct :
    (outer : String) (s : List String) (d : Dict (List String))
    → get outer d ≡ none
    → IsDistinct d
    → IsDistinct (cons_unless_empty outer s d)
unfolding cons_unless_empty
cons_unless_empty-IsDistinct outer [] d e h = h
cons_unless_empty-IsDistinct outer (j ∷ rest) d e h = (e, h)

get-cons_unless_empty-none :
    (j outer : String) (s : List String) (d : Dict (List String))
    → (outer == j) ≡ false
    → get j d ≡ none
    → get j (cons_unless_empty outer s d) ≡ none
unfolding cons_unless_empty get
get-cons_unless_empty-none j outer [] d n e = e
get-cons_unless_empty-none j outer (i ∷ rest) d n e = rw n e

pub get-discard_everywhere-none :
    (inner j : String) (d : Dict (List String))
    → get j d ≡ none
    → get j (discard_everywhere inner d) ≡ none
unfolding discard_everywhere get
get-discard_everywhere-none inner j [] h = refl
get-discard_everywhere-none inner j ((i, s) ∷ d) h =
    get-cons_unless_empty-none j i (discard inner s) (discard_everywhere inner d) (ground arith)
      (get-discard_everywhere-none inner j d (ground arith))

pub discard_everywhere-IsDistinct :
    (inner : String) (d : Dict (List String))
    → IsDistinct d
    → IsDistinct (discard_everywhere inner d)
unfolding discard_everywhere
discard_everywhere-IsDistinct inner [] h = tt
discard_everywhere-IsDistinct inner ((i, s) ∷ d) h =
    cons_unless_empty-IsDistinct i (discard inner s) (discard_everywhere inner d)
      (get-discard_everywhere-none inner i d h.0) (discard_everywhere-IsDistinct inner d h.1)
