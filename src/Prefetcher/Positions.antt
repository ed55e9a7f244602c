-- ===== src/Prefetcher/Positions.antt =====
-- Positions in lists that grow at their ends.
use ad_artifacts.Base.{
  ℕ, zero, suc, ◌≤◌, ◌<◌, ◌≡◌, refl, ap, subst, Bool, true, false, some, List, [], ◌∷◌, ◌++◌, ◌⊎◌,
  arith, length, take, get_elem?, All, inl, inr,
}
use ad_artifacts.Prefetcher.Pipeline.{when, drop_at}

module _ {ℓ} {A : Type ℓ} where
  pub get_elem?-append :
      (xs ys : List A) (i : ℕ) (x : A) → get_elem? xs i ≡ some x → get_elem? (xs ++ ys) i ≡ some x
  get_elem?-append [] ys i x e = absurd (ground (arith, e))
  get_elem?-append (y ∷ xs) ys zero x e = e
  get_elem?-append (y ∷ xs) ys (suc i) x e = get_elem?-append xs ys i x e

  pub get_elem?-last : (xs : List A) (x : A) → get_elem? (xs ++ (x ∷ [])) (length xs) ≡ some x
  get_elem?-last [] x = refl
  get_elem?-last (y ∷ xs) x = get_elem?-last xs x

  pub get_elem?-bound : (xs : List A) (i : ℕ) (x : A) → get_elem? xs i ≡ some x → i < length xs
  get_elem?-bound [] i x e = absurd (ground (arith, e))
  get_elem?-bound (y ∷ xs) zero x e = omega arith
  get_elem?-bound (y ∷ xs) (suc i) x e = omega (arith, get_elem?-bound xs i x e)

  -- An element of a list that grew at its end was there, or is the new one.
  pub get_elem?-grown :
      (xs : List A) (y : A) (i : ℕ) (x : A)
      → get_elem? (xs ++ (y ∷ [])) i ≡ some x
      → (get_elem? xs i ≡ some x) ⊎ ((i ≡ length xs) × (y ≡ x))
  get_elem?-grown [] y zero x e = inr (refl, ground (arith, e))
  get_elem?-grown [] y (suc i) x e = absurd (ground (arith, e))
  get_elem?-grown (z ∷ xs) y zero x e = inl e
  get_elem?-grown (z ∷ xs) y (suc i) x e = elim (get_elem?-grown xs y i x e) [
    | inl old ↦ inl old
    | inr (at, new) ↦ inr (ap suc at, new)
  ]

  pub take-append-le : (n : ℕ) (xs ys : List A) → n ≤ length xs → take n (xs ++ ys) ≡ take n xs
  take-append-le zero xs ys h = refl
  take-append-le (suc n) [] ys h = absurd (omega (arith, h))
  take-append-le (suc n) (x ∷ xs) ys h = ap (◌∷◌ x) (take-append-le n xs ys (omega (arith, h)))

  pub take-suc :
      (n : ℕ) (xs : List A) (x : A)
      → get_elem? xs n ≡ some x
      → take (suc n) xs ≡ take n xs ++ (x ∷ [])
  take-suc n [] x e = absurd (ground (arith, e))
  take-suc zero (y ∷ xs) x e = ap (λ z. z ∷ []) (ground (arith, e))
  take-suc (suc n) (y ∷ xs) x e = ap (◌∷◌ y) (take-suc n xs x e)

  pub All-append {κ} : (P : A → Type κ) (xs ys : List A) → All P xs → All P ys → All P (xs ++ ys)
  All-append P [] ys h k = k
  All-append P (x ∷ xs) ys h k = (h.0, All-append P xs ys h.1 k)

  pub All-map {κ μ} :
      {P : A → Type κ} {Q : A → Type μ}
      → ((x : A) → P x → Q x)
      → (xs : List A) → All P xs
      → All Q xs
  All-map f [] h = tt
  All-map f (x ∷ xs) h = (f x h.0, All-map f xs h.1)

  pub All-get_elem? {κ} :
      (P : A → Type κ) (xs : List A) (i : ℕ) (x : A) → All P xs → get_elem? xs i ≡ some x → P x
  All-get_elem? P [] i x h e = absurd (ground (arith, e))
  All-get_elem? P (y ∷ xs) zero x h e = subst P (ground (arith, e)) h.0
  All-get_elem? P (y ∷ xs) (suc i) x h e = All-get_elem? P xs i x h.1 e

  pub All-drop_at {κ} : (P : A → Type κ) (i : ℕ) (xs : List A) → All P xs → All P (drop_at i xs)
  unfolding drop_at
  All-drop_at P i [] h = tt
  All-drop_at P zero (x ∷ xs) h = h.1
  All-drop_at P (suc i) (x ∷ xs) h = (h.0, All-drop_at P i xs h.1)

  -- An event that happened met its condition.
  pub when-cases : (b : Bool) (a t : A) → when b a ≡ some t → (b ≡ true) × (a ≡ t)
  when-cases true a t e = (refl, ground (arith, e))
  when-cases false a t e = absurd (ground (arith, e))

  pub some-injective : {a b : A} → some a ≡ some b → a ≡ b
  some-injective e = ground (arith, e)

  pub take-all : (xs : List A) (n : ℕ) → n ≡ length xs → take n xs ≡ xs
  take-all [] zero e = refl
  take-all [] (suc n) e = absurd (omega (arith, e))
  take-all (x ∷ xs) zero e = absurd (omega (arith, e))
  take-all (x ∷ xs) (suc n) e = ap (◌∷◌ x) (take-all xs n (omega (arith, e)))
