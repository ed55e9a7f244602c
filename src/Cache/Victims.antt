-- ===== src/Cache/Victims.antt =====
-- The victims that make room are reusable, unpinned and of a lower value, and they are enough.
use ad_artifacts.Base.{
  ℕ, ◌+◌, ◌-◌, ◌≤◌, ◌<◌, ◌≡◌, Bool, true, some, List, [], ◌∷◌, ltb, leb, arith, All, sum_by,
  Bool-cases, Option-cases, inl, inr, select, subst,
}
use ad_artifacts.Base.Int.{ℤ, pos_part, is_positive}
use ad_artifacts.Core.{Result-cases, Batch, PayloadEntry, ok}
use ad_artifacts.Floats.{Floats}
use ad_artifacts.Dict.{values}
use ad_artifacts.Store.State.{Store}
use ad_artifacts.Store.Payloads.{
  list_reusable_payload_entries, reusable_cache_bytes, payload_pin_count, is_reusable_entry,
}
use ad_artifacts.Scheduler.{SchedulerConfig}
use ad_artifacts.Scheduler.Value.{compute_batch_value, compute_payload_value}
use ad_artifacts.Cache.{
  candidate_lt, insert_candidate, sort_candidates, take_victims, collect_candidates,
  choose_eviction_victims,
}

module _ {F : Type 0} ⦃f : Floats F⦄ (P : PayloadEntry → Type 0) where
  abbrev AllEntries : List (F × PayloadEntry) → Type 0
  AllEntries = All (λ c. P c.1)

  insert_candidate-AllEntries :
      (c : F × PayloadEntry) (cs : List (F × PayloadEntry))
      → P c.1
      → AllEntries cs
      → AllEntries (insert_candidate c cs)
  unfolding insert_candidate
  insert_candidate-AllEntries c [] p h = (p, tt)
  insert_candidate-AllEntries c (d ∷ ds) p (q, h) = elim (Bool-cases (candidate_lt d c)) [
    | inl e ↦ rw e (q, insert_candidate-AllEntries c ds p h)
    | inr e ↦ rw e (p, (q, h))
  ]

  sort_candidates-AllEntries :
      (cs : List (F × PayloadEntry)) → AllEntries cs → AllEntries (sort_candidates cs)
  unfolding sort_candidates
  sort_candidates-AllEntries [] h = tt
  sort_candidates-AllEntries (c ∷ cs) (p, h) =
      insert_candidate-AllEntries c (sort_candidates cs) p (sort_candidates-AllEntries cs h)

  take_victims-All :
      (required freed : ℕ) (cs : List (F × PayloadEntry)) (victims : List PayloadEntry)
      → AllEntries cs
      → take_victims required freed cs ≡ some victims
      → All P victims × (required ≤ freed + sum_by (λ e. pos_part e.size_bytes) victims)
  unfolding take_victims
  take_victims-All required freed [] victims h e = absurd (ground arith)
  take_victims-All required freed ((v, entry) ∷ cs) victims (p, h) e =
      let freed' = freed + pos_part entry.size_bytes in
      elim (Bool-cases (leb required freed')) [
        | inl enough ↦
            let only : entry ∷ [] ≡ victims = ground arith in
            subst (λ vs. All P vs × (required ≤ freed + sum_by (λ x. pos_part x.size_bytes) vs))
              only ((p, tt), ground arith)
        | inr short ↦ elim (Option-cases (take_victims required freed' cs)) [
          | inl out ↦ absurd (ground arith)
          | inr (rest, found) ↦
              let here : entry ∷ rest ≡ victims = ground arith in
              let (all, reached) = take_victims-All required freed' cs rest h found in
              subst (λ vs. All P vs × (required ≤ freed + sum_by (λ x. pos_part x.size_bytes) vs))
                here ((p, all), omega arith)
        ]
      ]

module _ {F : Type 0} ⦃f : Floats F⦄ (config : SchedulerConfig F) (s : Store F)
    (incoming_value : F) where
  -- An entry that may be evicted for a batch of a value.
  abbrev pub IsVictim : PayloadEntry → Type 0
  IsVictim e =
      (payload_pin_count e.cache_key s ≡ 0)
      × (is_reusable_entry e ≡ true)
      × (value : F) × (compute_payload_value config e s ≡ ok value)
      × (f.lt value incoming_value ≡ true)

  collect_candidates-IsVictim :
      (es : List PayloadEntry) (candidates : List (F × PayloadEntry))
      → All (λ e. is_reusable_entry e ≡ true) es
      → collect_candidates config incoming_value s es ≡ ok candidates
      → All (λ c. IsVictim c.1) candidates
  unfolding collect_candidates
  collect_candidates-IsVictim [] candidates h e =
      let none_left : [] ≡ candidates = ground arith in subst (All (λ c. IsVictim c.1)) none_left tt
  collect_candidates-IsVictim (x ∷ es) candidates (reusable, h) e =
      elim (Bool-cases (ltb 0 (payload_pin_count x.cache_key s))) [
        | inl kept ↦ collect_candidates-IsVictim es candidates h (ground (arith, e, kept))
        | inr free ↦ elim (Result-cases (compute_payload_value config x s)) [
          | inl (_, failed) ↦ absurd (ground (arith, e, free, failed))
          | inr (value, valued) ↦
              elim (Result-cases (collect_candidates config incoming_value s es)) [
                | inl (_, failed) ↦ absurd (ground (arith, e, free, valued, failed))
                | inr (rest, collected) ↦
                    let all = collect_candidates-IsVictim es rest h collected in
                    elim (Bool-cases (f.lt value incoming_value)) [
                      | inl lower ↦
                          let here : (value, x) ∷ rest ≡ candidates = ground (arith, e) in
                          subst (All (λ c. IsVictim c.1)) here
                            ((ground arith, reusable, value, valued, lower), all)
                      | inr higher ↦
                          let here : rest ≡ candidates = ground (arith, e) in
                          subst (All (λ c. IsVictim c.1)) here all
                    ]
              ]
        ]
      ]

All-selected :
    (p : PayloadEntry → Bool) (es : List PayloadEntry) → All (λ e. p e ≡ true) (select p es)
All-selected p [] = tt
All-selected p (x ∷ xs) = elim (Bool-cases (p x)) [
  | inl e ↦ rw e (e, All-selected p xs)
  | inr e ↦ rw e (All-selected p xs)
]

-- Where a full cache makes room for a batch that fits, every victim is a reusable entry without pins whose
-- value is below the batch's, and with their bytes freed the batch stays within the capacity.
pub choose_eviction_victims_lem :
    {F : Type 0} ⦃f : Floats F⦄ (config : SchedulerConfig F) (s : Store F) (batch : Batch)
    (size : ℤ) (victims : List PayloadEntry) (incoming_value : F)
    → is_positive config.cache_capacity_bytes ≡ true
    → pos_part config.cache_capacity_bytes < reusable_cache_bytes s + pos_part size
    → compute_batch_value config batch s ≡ ok incoming_value
    → choose_eviction_victims config batch size s ≡ ok (some victims)
    → All (IsVictim config s incoming_value) victims
      × (reusable_cache_bytes s + pos_part size
          ≤ pos_part config.cache_capacity_bytes + sum_by (λ e. pos_part e.size_bytes) victims)
unfolding choose_eviction_victims list_reusable_payload_entries
choose_eviction_victims_lem config s batch size victims incoming_value limited over valued chosen =
    let entries = list_reusable_payload_entries s in
    let required = reusable_cache_bytes s + pos_part size - pos_part config.cache_capacity_bytes in
    elim (Result-cases (collect_candidates config incoming_value s entries)) [
      | inl (_, failed) ↦ absurd (ground (arith, limited, over, valued, chosen, failed))
      | inr (candidates, collected) ↦
          let taken : take_victims required 0 (sort_candidates candidates) ≡ some victims =
            ground (arith, limited, over, valued, chosen, collected) in
          let all =
            collect_candidates-IsVictim config s incoming_value entries candidates
              (All-selected is_reusable_entry (values s.payload_entries)) collected in
          let (are_victims, enough) =
            take_victims-All (IsVictim config s incoming_value) required 0
              (sort_candidates candidates) victims
              (sort_candidates-AllEntries (IsVictim config s incoming_value) candidates all)
              taken in
          (are_victims, omega arith)
    ]
