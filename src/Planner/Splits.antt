-- ===== src/Planner/Splits.antt =====
-- Splitting the samples of an epoch into batches: nothing is lost, and the number and the sizes are those
-- that the dataset promises.
use ad_artifacts.Base.{
  ℕ, zero, suc, ◌+◌, ◌-◌, ◌*◌, ◌/◌, ◌%◌, ◌≤◌, ◌<◌, ◌≡◌, refl, sym, ap, ◌∙◌, Bool, true, false, List,
  [], ◌∷◌, ◌++◌, arith, length, take, drop, All, min, length-take, length-drop, ◌⊎◌, inl, inr,
  take-append-drop,
}
use mathlib.Core.List.{flatten}
use ad_artifacts.Planner.{cons_group, split_from, range_length}

module _ {ℓ} {A : Type ℓ} where
  drop-drop : (n m : ℕ) (xs : List A) → drop m (drop n xs) ≡ drop (n + m) xs
  drop-drop zero m xs = let e : zero + m ≡ m = omega arith in rw e refl
  drop-drop (suc n) zero [] = let e : suc n + zero ≡ suc n = omega arith in rw e refl
  drop-drop (suc n) (suc m) [] = let e : suc n + suc m ≡ suc (n + suc m) = omega arith in rw e refl
  drop-drop (suc n) m (x ∷ xs) =
      let e : suc n + m ≡ suc (n + m) = omega arith in rw e (drop-drop n m xs)

  drop_all : (n : ℕ) (xs : List A) → length xs ≤ n → drop n xs ≡ []
  drop_all zero [] h = refl
  drop_all (suc n) [] h = refl
  drop_all zero (x ∷ xs) h = absurd (omega arith)
  drop_all (suc n) (x ∷ xs) h = drop_all n xs (omega arith)

  take-add : (n m : ℕ) (xs : List A) → take (n + m) xs ≡ take n xs ++ take m (drop n xs)
  take-add zero m xs = let e : zero + m ≡ m = omega arith in rw e refl
  take-add (suc n) zero [] = let e : suc n + zero ≡ suc n = omega arith in rw e refl
  take-add (suc n) (suc m) [] = let e : suc n + suc m ≡ suc (n + suc m) = omega arith in rw e refl
  take-add (suc n) m (x ∷ xs) =
      let e : suc n + m ≡ suc (n + m) = omega arith in rw e (ap (◌∷◌ x) (take-add n m xs))

  flatten-cons_group :
      (group : List A) (groups : List (List A))
      → flatten (cons_group group groups) ≡ group ++ flatten groups
  unfolding flatten
  flatten-cons_group [] groups = refl
  flatten-cons_group (x ∷ xs) groups = refl

  length-cons_group :
      (group : List A) (groups : List (List A))
      → 0 < length group
      → length (cons_group group groups) ≡ suc (length groups)
  length-cons_group [] groups h = absurd (omega arith)
  length-cons_group (x ∷ xs) groups h = refl

  All-cons_group {κ} :
      (P : List A → Type κ) (group : List A) (groups : List (List A))
      → P group
      → All P groups
      → All P (cons_group group groups)
  All-cons_group P [] groups p h = h
  All-cons_group P (x ∷ xs) groups p h = (p, h)

module _ {ℓ} {A : Type ℓ} (samples : List A) (size : ℕ) (positive : 0 < size) where
  abbrev group_at : ℕ → List A
  group_at index = take size (drop index samples)

  length-group_at : (index : ℕ) → length (group_at index) ≡ min size (length samples - index)
  length-group_at index =
      length-take size (drop index samples) ∙ ap (min size) (length-drop index samples)

  -- A round whose group is full, or kept although it is short.
  round-keeps :
      (drop_last : Bool) (rounds index : ℕ)
      → (drop_last ≡ false) ⊎ (index + size ≤ length samples)
      → split_from samples size drop_last (suc rounds) index
        ≡ cons_group (group_at index) (split_from samples size drop_last rounds (index + size))
  unfolding split_from
  round-keeps drop_last rounds index h = ground (arith, length-group_at index)

  round-stops :
      (rounds index : ℕ)
      → length samples < index + size
      → split_from samples size true (suc rounds) index ≡ []
  unfolding split_from
  round-stops rounds index h = ground (arith, length-group_at index)

  -- Without drop_last the groups make up the samples from an index on, if there are rounds enough.
  flatten-split_from :
      (rounds index : ℕ)
      → length samples ≤ index + rounds * size
      → flatten (split_from samples size false rounds index) ≡ drop index samples
  flatten-split_from zero index h =
      unfold split_from flatten in sym (drop_all index samples (omega arith))
  flatten-split_from (suc rounds) index h = rw (round-keeps false rounds index (inl refl)) (
      flatten-cons_group (group_at index) _
      ∙ ap (◌++◌ (group_at index)) (
          flatten-split_from rounds (index + size) (omega arith)
          ∙ sym (drop-drop index size samples))
      ∙ take-append-drop size (drop index samples))

  -- Without drop_last each round adds a group, if no round starts behind the samples.
  length-split_from :
      (rounds index : ℕ)
      → (0 < rounds → index + rounds * size < length samples + size)
      → length (split_from samples size false rounds index) ≡ rounds
  length-split_from zero index h = unfold split_from in refl
  length-split_from (suc rounds) index h =
      let below : index + suc rounds * size < length samples + size = h (omega arith) in
      rw (round-keeps false rounds index (inl refl)) (
        omega (
          arith,
          length-cons_group (group_at index) (split_from samples size false rounds (index + size))
              (rw (length-group_at index) (omega (arith, first rounds below))),
          length-split_from rounds (index + size) (λ more. omega arith),
        ))
    where
      first : (n : ℕ) → index + suc n * size < length samples + size → index < length samples
      first n b = omega arith

  take-zero-mul : (xs : List A) → [] ≡ take (0 * size) xs
  take-zero-mul xs = let z : 0 * size ≡ 0 = omega arith in rw z refl

  -- With drop_last exactly the full groups are kept.
  split_from_full :
      (full rest rounds index : ℕ)
      → length samples ≡ index + full * size + rest
      → rest < size
      → full ≤ rounds
      → let groups = split_from samples size true rounds index in
        (length groups ≡ full)
        × All (λ g. length g ≡ size) groups
        × (flatten groups ≡ take (full * size) (drop index samples))
  split_from_full zero rest zero index e r h =
      unfold split_from flatten in (refl, tt, take-zero-mul (drop index samples))
  split_from_full zero rest (suc rounds) index e r h =
      rw (round-stops rounds index (omega arith))
        (unfold flatten in (refl, tt, take-zero-mul (drop index samples)))
  split_from_full (suc full) rest zero index e r h = absurd (omega arith)
  split_from_full (suc full) rest (suc rounds) index e r h =
      let (l, a, f) =
        split_from_full full rest rounds (index + size) (omega arith) r (omega arith) in
      rw (round-keeps true rounds index (inr (omega arith))) (
        omega (
          arith,
          length-cons_group (group_at index) (split_from samples size true rounds (index + size))
              (omega (arith, whole)),
          l,
        ),
        All-cons_group (λ g. length g ≡ size) (group_at index) _ whole a,
        flatten-cons_group (group_at index) _
            ∙ ap (◌++◌ (group_at index))
                (f ∙ ap (take (full * size)) (sym (drop-drop index size samples)))
            ∙ sym (take-add size (full * size) (drop index samples))
            ∙ ap (λ k. take k (drop index samples)) product,
      )
    where
      whole : length (group_at index) ≡ size
      whole = length-group_at index ∙ omega arith

      product : size + full * size ≡ suc full * size
      product = omega arith

  pub split_false :
      let groups = split_from samples size false (range_length (length samples) size) 0 in
      (length groups ≡ (length samples + size - 1) / size) × (flatten groups ≡ samples)
  split_false = (
    length-split_from (range_length (length samples) size) 0 (λ _. grind arith),
    flatten-split_from (range_length (length samples) size) 0 (grind arith),
  )

  pub split_true :
      let groups = split_from samples size true (range_length (length samples) size) 0 in
      (length groups ≡ length samples / size)
      × All (λ g. length g ≡ size) groups
      × (flatten groups ≡ take (length samples / size * size) samples)
  split_true =
      split_from_full (length samples / size) (length samples % size)
        (range_length (length samples) size) 0 (grind arith) (grind arith) (grind arith)
