-- ===== src/Dict/Members.antt =====
-- Membership in a set of texts.
use ad_artifacts.Base.{
  String, ◌≡◌, true, false, List, [], ◌∷◌, ◌==◌, arith, eq_iff, if◌then◌else◌, length, ◌<◌,
  Bool-cases, inl, inr, ap,
}
use ad_artifacts.Dict.{member, add, discard}

pub member-add :
    (k j : String) (s : List String) → member j (add k s) ≡ (if k == j then true else member j s)
unfolding add member
member-add k j s = elim (Bool-cases (member k s)) [
  | inl old ↦ ground (arith, eq_iff k j, ap (λ x. member x s))
  | inr new ↦ rw new (ground arith)
]

-- A set with a member is not empty, which is how `if not jobs` and `len(...) > 0` test it.
pub length-pos_of_member : (k : String) (s : List String) → member k s ≡ true → 0 < length s
unfolding member
length-pos_of_member k [] h = ground arith
length-pos_of_member k (j ∷ s) h = omega arith

pub member-discard :
    (k j : String) (s : List String)
    → member j (discard k s) ≡ (if k == j then false else member j s)
unfolding discard member
member-discard k j [] = ground arith
member-discard k j (i ∷ s) =
    ground (arith, eq_iff k j, eq_iff i k, eq_iff i j, member-discard k j s)
