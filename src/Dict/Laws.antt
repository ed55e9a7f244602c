-- ===== src/Dict/Laws.antt =====
-- The laws of a dict: what a lookup, a sum and a predicate over the entries see of each operation.
use ad_artifacts.Base.{
  ℕ, ◌+◌, ◌≤◌, String, ◌≡◌, refl, Option, none, some, [], ◌∷◌, ◌==◌, if◌then◌else◌, arith, eq_iff,
  All, sum_by, Bool-cases, inl, inr, subst, sym, str_eq→eq,
}
use mathlib.Core.Option
use ad_artifacts.Dict.{Dict, get, put, remove, update, values}

module _ {ℓ} {V : Type ℓ} where
  pub get-put :
      (k j : String) (v : V) (d : Dict V) → get j (put k v d) ≡ (if k == j then some v else get j d)
  unfolding get put
  get-put k j v [] = refl
  get-put k j v ((i, w) ∷ d) = ground (arith, eq_iff k j, eq_iff i k, eq_iff i j, get-put k j v d)

  pub get-remove :
      (k j : String) (d : Dict V) → get j (remove k d) ≡ (if k == j then none else get j d)
  unfolding get remove
  get-remove k j [] = ground arith
  get-remove k j ((i, w) ∷ d) = ground (arith, eq_iff k j, eq_iff i k, eq_iff i j, get-remove k j d)

  pub get-update :
      (k j : String) (f : V → V) (d : Dict V)
      → get j (update k f d) ≡ (if k == j then Option.map f (get j d) else get j d)
  unfolding get update
  get-update k j f [] = ground arith
  get-update k j f ((i, w) ∷ d) =
      ground (arith, eq_iff k j, eq_iff i k, eq_iff i j, get-update k j f d)

-- A weight that counts the entry found under a key.
abbrev pub weight {ℓ} : {V : Type ℓ} → (V → ℕ) → Option V → ℕ
weight f none = 0
weight f (some v) = f v

module _ {ℓ} {V : Type ℓ} (f : V → ℕ) where
  -- Assignment takes the old value's weight out and puts the new one's in.
  pub sum_by-put :
      (k : String) (v : V) (d : Dict V)
      → sum_by f (values (put k v d)) + weight f (get k d) ≡ sum_by f (values d) + f v
  unfolding get put
  sum_by-put k v [] = ground arith
  sum_by-put k v ((i, w) ∷ d) = ground (arith, sum_by-put k v d)

  -- Removal takes out at least the weight of the entry that a lookup finds.
  pub sum_by-remove-le :
      (k : String) (d : Dict V)
      → sum_by f (values (remove k d)) + weight f (get k d) ≤ sum_by f (values d)
  unfolding get remove
  sum_by-remove-le k [] = ground arith
  sum_by-remove-le k ((i, w) ∷ d) = ground (arith, sum_by-remove-le k d)

-- A predicate on every entry, its key included.
abbrev pub Entries {ℓ κ} : {V : Type ℓ} → (String → V → Type κ) → Dict V → Type κ
Entries P d = All (λ e. P e.0 e.1) d

module _ {ℓ κ} {V : Type ℓ} (P : String → V → Type κ) where
  pub get-Entries : (k : String) (v : V) (d : Dict V) → Entries P d → get k d ≡ some v → P k v
  unfolding get
  get-Entries k v [] h e = absurd (ground arith)
  get-Entries k v ((i, w) ∷ d) h e = elim (Bool-cases (i == k)) [
    | inl here ↦
        let same : w ≡ v = ground arith in
        subst (λ x. P x v) (str_eq→eq i k here) (subst (P i) same h.0)
    | inr there ↦ get-Entries k v d h.1 (ground arith)
  ]

  pub put-Entries : (k : String) (v : V) (d : Dict V) → P k v → Entries P d → Entries P (put k v d)
  unfolding put
  put-Entries k v [] p h = (p, tt)
  put-Entries k v ((i, w) ∷ d) p h = elim (Bool-cases (i == k)) [
    | inl here ↦ rw here (subst (λ x. P x v) (sym (str_eq→eq i k here)) p, h.1)
    | inr there ↦ rw there (h.0, put-Entries k v d p h.1)
  ]

  pub remove-Entries : (k : String) (d : Dict V) → Entries P d → Entries P (remove k d)
  unfolding remove
  remove-Entries k [] h = tt
  remove-Entries k ((i, w) ∷ d) h = ground (arith, remove-Entries k d h.1)

  pub update-Entries :
      (k : String) (f : V → V) (d : Dict V)
      → ((j : String) (v : V) → P j v → P j (f v))
      → Entries P d
      → Entries P (update k f d)
  unfolding update
  update-Entries k f [] keep h = tt
  update-Entries k f ((i, w) ∷ d) keep h =
      ground (arith, keep i w h.0, update-Entries k f d keep h.1)
