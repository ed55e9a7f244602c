-- ===== src/Cache.antt =====
-- batchflow/coordinator/cache_manager.py: which reusable payloads make room for a new one, and their eviction.
-- Deletions in Redis are recorded by their keys; a deletion that fails is only logged by the code. The
-- manager's lock is held by `admit_reusable_payload`, of Cache/Admission, from its first to its last line.
pub mod Victims
pub mod Evictions
pub mod Admission
pub mod Rooms
pub mod Lowers
use ad_artifacts.Base.{
  ℕ, ◌+◌, ◌-◌, String, Bool, true, false, not, Option, none, some, List, [], ◌∷◌, ◌==◌, ltb, leb,
  if◌then◌else◌, is_some,
}
use mathlib.Core.Option
use Prim.Native.Nat.{Ordering}
use Prim.Native.String.{compare}
use ad_artifacts.Base.Int.{ℤ, pos_part, is_positive}
use ad_artifacts.Core.{Batch, PayloadEntry, Result, ok, raise, or_raise, invalid_value, ◌>>=◌}
use ad_artifacts.Exec.{Exec, Reader, pure, reads}
use ad_artifacts.Exec as Exec
use ad_artifacts.Floats.{Floats}
use ad_artifacts.Store.State.{Store}
use ad_artifacts.Store.Metrics.{text_at, get_payload_size_estimate}
use ad_artifacts.Store.Payloads.{
  list_reusable_payload_entries, reusable_cache_bytes, payload_pin_count, remove_payload,
}
use ad_artifacts.Scheduler.{SchedulerConfig}
use ad_artifacts.Scheduler.Value.{compute_batch_value, compute_payload_value}

-- A coordinator's store, and the keys that were deleted in Redis, the last one first.
pub record CacheState (F : Type 0) : Type 0 where
  pub store : Store F
  pub deleted_keys : List String

abbrev pub is_before : String → String → Bool
is_before a b = elim (compare a b) [
  | Ordering.lt ↦ true
  | Ordering.eq ↦ false
  | Ordering.gt ↦ false
]

module _ {F : Type 0} ⦃f : Floats F⦄ where
  -- (value, last_accessed_at_ms, cache_key) of one candidate is less than another's.
  unfoldable pub candidate_lt : F × PayloadEntry → F × PayloadEntry → Bool
  candidate_lt (v, e) (w, e') =
      if f.lt v w
      then true
      else if f.lt w v
      then false
      else if ltb e.last_accessed_at_ms e'.last_accessed_at_ms
      then true
      else if ltb e'.last_accessed_at_ms e.last_accessed_at_ms
      then false
      else is_before e.cache_key e'.cache_key

  unfoldable pub insert_candidate :
      F × PayloadEntry → List (F × PayloadEntry) → List (F × PayloadEntry)
  insert_candidate c [] = c ∷ []
  insert_candidate c (d ∷ ds) = if candidate_lt d c then d ∷ insert_candidate c ds else c ∷ d ∷ ds

  unfoldable pub sort_candidates : List (F × PayloadEntry) → List (F × PayloadEntry)
  sort_candidates [] = []
  sort_candidates (c ∷ cs) = insert_candidate c (sort_candidates cs)

  -- The loop over the sorted candidates: the victims from here on, or None where they run out.
  unfoldable pub take_victims : ℕ → ℕ → List (F × PayloadEntry) → Option (List PayloadEntry)
  take_victims required freed [] = none
  take_victims required freed ((v, e) ∷ cs) =
      let freed' = freed + pos_part e.size_bytes in
      elim (leb required freed') [
        | true ↦ some (e ∷ [])
        | false ↦ Option.map (◌∷◌ e) (take_victims required freed' cs)
      ]

  module _ (config : SchedulerConfig F) where
    -- The loop that collects unpinned entries of a lower value.
    unfoldable pub collect_candidates :
        F → Store F → List PayloadEntry → Result (List (F × PayloadEntry))
    collect_candidates incoming_value s [] = ok []
    collect_candidates incoming_value s (e ∷ es) = elim (ltb 0 (payload_pin_count e.cache_key s)) [
      | true ↦ collect_candidates incoming_value s es
      | false ↦ compute_payload_value config e s >>= λ value.
          collect_candidates incoming_value s es >>= λ rest.
          ok (if f.lt value incoming_value then (value, e) ∷ rest else rest)
    ]

    unfoldable pub choose_eviction_victims :
        Batch → ℤ → Reader (Store F) (Option (List PayloadEntry))
    choose_eviction_victims incoming_batch incoming_size_bytes s =
        let capacity = pos_part config.cache_capacity_bytes in
        let size = pos_part incoming_size_bytes in
        let needed = reusable_cache_bytes s + size in
        elim (is_positive config.cache_capacity_bytes) [
          | false ↦ ok (some [])
          | true ↦ elim (ltb capacity size) [
            | true ↦ ok none
            | false ↦ elim (leb needed capacity) [
              | true ↦ ok (some [])
              | false ↦ compute_batch_value config incoming_batch s >>= λ incoming_value.
                  collect_candidates incoming_value s (list_reusable_payload_entries s)
                  >>= λ candidates.
                      ok (take_victims (needed - capacity) 0 (sort_candidates candidates))
            ]
          ]
        ]

    unfoldable pub can_admit_estimated_payload : Batch → Reader (Store F) Bool
    can_admit_estimated_payload batch s =
        let estimate = get_payload_size_estimate batch.dataset_id f.zero s in
        elim (is_positive config.cache_capacity_bytes) [
          | false ↦ ok true
          | true ↦ or_raise (f.round estimate) (invalid_value "round") >>= λ estimated_size.
              elim (is_positive estimated_size) [
                | false ↦ ok (ltb (reusable_cache_bytes s) (pos_part config.cache_capacity_bytes))
                | true ↦ choose_eviction_victims batch estimated_size s >>= λ victims.
                    ok (is_some victims)
              ]
        ]

    -- The value is computed for the log, and may raise.
    unfoldable pub evict_reusable_payload : PayloadEntry → Exec (CacheState F) (Unit {0})
    evict_reusable_payload victim c = elim (compute_payload_value config victim c.store) [
      | raise e ↦ Exec.throw e c
      | ok value ↦
          let (removed, s') = remove_payload victim.cache_key c.store in
          elim removed [
            | none ↦ pure tt (record c { store = s' })
            | some entry ↦
                let redis_key = text_at "fetch_key" "" entry.metadata in
                pure tt (record c {
                  store = s';
                  deleted_keys =
                      if redis_key == "" then c.deleted_keys else redis_key ∷ c.deleted_keys;
                })
          ]
    ]
