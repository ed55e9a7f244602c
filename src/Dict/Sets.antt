-- ===== src/Dict/Sets.antt =====
-- A dict of sets, `d[outer]` holding `inner`: what each of its operations does to the relation.
use ad_artifacts.Base.{
  String, ◌≡◌, refl, Bool, true, false, ◌&&◌, none, List, [], ◌∷◌, ◌==◌, if◌then◌else◌, or_default,
  arith, eq_iff, Option-cases, inl, inr, ap,
}
use ad_artifacts.Dict.{
  Dict, get, remove, member, add, discard, add_under, discard_under, discard_everywhere,
  put_unless_empty, cons_unless_empty,
}
use ad_artifacts.Dict.Laws.{get-put, get-remove}
use ad_artifacts.Dict.Members.{member-add, member-discard}
use ad_artifacts.Dict.Distinct.{IsDistinct, get-discard_everywhere-none}

-- inner in d.get(outer, set())
unfoldable pub holds : String → String → Dict (List String) → Bool
holds outer inner d = member inner (or_default (get outer d) [])

pub holds_lem :
    (outer inner : String) (d : Dict (List String))
    → holds outer inner d ≡ member inner (or_default (get outer d) [])
unfolding holds
holds_lem outer inner d = refl

module _ (a b outer inner : String) (d : Dict (List String)) where
  pub holds-add_under :
      holds outer inner (add_under a b d)
      ≡ (if (a == outer) && (b == inner) then true else holds outer inner d)
  unfolding holds add_under
  holds-add_under = ground (
    arith,
    get-put a outer (add b (or_default (get a d) [])) d,
    member-add b inner (or_default (get a d) []),
    eq_iff a outer,
    ap (λ k. get k d),
  )

  -- What a set holds is what is held under its key, whether or not it is empty.
  holds-put_unless_empty :
      (s : List String)
      → holds outer inner (put_unless_empty a s d)
        ≡ (if a == outer then member inner s else holds outer inner d)
  unfolding holds put_unless_empty member
  holds-put_unless_empty [] = ground (arith, get-remove a outer d)
  holds-put_unless_empty (j ∷ rest) = ground (arith, get-put a outer (j ∷ rest) d)

pub holds-discard_under :
    (a b outer inner : String) (d : Dict (List String))
    → holds outer inner (discard_under a b d)
      ≡ (if (a == outer) && (b == inner) then false else holds outer inner d)
unfolding discard_under holds member
holds-discard_under a b outer inner d = elim (Option-cases (get a d)) [
  | inl e ↦ rw (e, discard_under) (ground (arith, eq_iff a outer, ap (λ k. get k d)))
  | inr (s, e) ↦
      rw (e, discard_under)
        (ground (
          arith,
          holds-put_unless_empty a b outer inner d (discard b s),
          member-discard b inner s,
          eq_iff a outer,
          ap (λ k. get k d),
        ))
]

pub holds-remove :
    (a outer inner : String) (d : Dict (List String))
    → holds outer inner (remove a d) ≡ (if a == outer then false else holds outer inner d)
unfolding holds member
holds-remove a outer inner d = ground (arith, get-remove a outer d)

holds-cons_unless_empty :
    (i outer inner : String) (s : List String) (d : Dict (List String))
    → get i d ≡ none
    → holds outer inner (cons_unless_empty i s d)
      ≡ (if i == outer then member inner s else holds outer inner d)
unfolding holds cons_unless_empty get member
holds-cons_unless_empty i outer inner [] d e = ground (arith, eq_iff i outer, ap (λ k. get k d))
holds-cons_unless_empty i outer inner (j ∷ rest) d e = ground arith

holds-cons :
    (i outer inner : String) (s : List String) (d : Dict (List String))
    → holds outer inner ((i, s) ∷ d) ≡ (if i == outer then member inner s else holds outer inner d)
unfolding holds get
holds-cons i outer inner s d = ground arith

holds-nil : (outer inner : String) → holds outer inner [] ≡ false
unfolding holds get member
holds-nil outer inner = refl

pub holds-discard_everywhere :
    (b outer inner : String) (d : Dict (List String))
    → IsDistinct d
    → holds outer inner (discard_everywhere b d)
      ≡ (if b == inner then false else holds outer inner d)
unfolding discard_everywhere
holds-discard_everywhere b outer inner [] h = ground (arith, holds-nil outer inner)
holds-discard_everywhere b outer inner ((i, s) ∷ d) h = ground (
  arith,
  holds-cons_unless_empty i outer inner (discard b s) (discard_everywhere b d)
      (get-discard_everywhere-none b i d h.0),
  holds-cons i outer inner s d,
  member-discard b inner s,
  holds-discard_everywhere b outer inner d h.1,
)
