-- ===== src/Cache/Lowers.antt =====
-- Looking for room in the reusable cache never fills it.
use ad_artifacts.Base.{◌≤◌, String, ◌≡◌, Option, none, some, List, [], ◌∷◌, arith, inl, inr}
use ad_artifacts.Base.Int.{ℤ}
use ad_artifacts.Core.{Batch, PayloadEntry, Metadata, text, Result-cases}
use ad_artifacts.Dict.{put}
use ad_artifacts.Dict.Laws.{sum_by-remove-le}
use ad_artifacts.Floats.{Floats}
use ad_artifacts.Store.State.{Store}
use ad_artifacts.Store.Payloads.{
  reusable_cache_bytes, cached_bytes, remove_payload, drop_payload, forget_task,
  remove_payload_cases,
}
use ad_artifacts.Scheduler.{SchedulerConfig}
use ad_artifacts.Scheduler.Value.{compute_batch_value}
use ad_artifacts.Cache.{CacheState, choose_eviction_victims, evict_reusable_payload}
use ad_artifacts.Cache.Admission.{
  use_transient_fallback, delete_key, evict_all, place, admit_reusable_payload,
}

module _ {F : Type 0} where
  remove_payload-bytes :
      (key : String) (s : Store F)
      → reusable_cache_bytes (remove_payload key s).1 ≤ reusable_cache_bytes s
  unfolding reusable_cache_bytes drop_payload forget_task
  remove_payload-bytes key s =
      remove_payload_cases (λ r. reusable_cache_bytes r.1 ≤ reusable_cache_bytes s) key s
        (omega arith)
        (λ entry free found. ground (arith, sum_by-remove-le cached_bytes key s.payload_entries))

module _ {F : Type 0} ⦃f : Floats F⦄ (config : SchedulerConfig F) where
  evict-bytes :
      (v : PayloadEntry) (c : CacheState F)
      → reusable_cache_bytes (evict_reusable_payload config v c).1.store
        ≤ reusable_cache_bytes c.store
  unfolding evict_reusable_payload
  evict-bytes v c = ground (arith, remove_payload-bytes v.cache_key c.store)

  evict_all-bytes :
      (vs : List PayloadEntry) (c : CacheState F)
      → reusable_cache_bytes (evict_all config vs c).1.store ≤ reusable_cache_bytes c.store
  unfolding evict_all
  evict_all-bytes [] c = omega arith
  evict_all-bytes (v ∷ vs) c =
      ground (arith, evict-bytes v c, evict_all-bytes vs (evict_reusable_payload config v c).1)

  fallback-store :
      (location : String) (expires_at_ms : Option ℤ) (metadata : Metadata) (c : CacheState F)
      → (use_transient_fallback location expires_at_ms metadata c).1.store ≡ c.store
  unfolding use_transient_fallback delete_key
  fallback-store location expires_at_ms metadata c = ground arith

  place-bytes :
      (size_bytes : ℤ) (location : String) (expires_at_ms : Option ℤ) (metadata : Metadata)
      (victims : Option (List PayloadEntry)) (c : CacheState F)
      → reusable_cache_bytes
          (place config size_bytes location expires_at_ms metadata victims c).1.store
        ≤ reusable_cache_bytes c.store
  unfolding place
  place-bytes size_bytes location expires_at_ms metadata none c =
      rw (fallback-store location expires_at_ms metadata c) (omega arith)
  place-bytes size_bytes location expires_at_ms metadata (some victims) c = ground (
    arith,
    evict_all-bytes victims c,
    fallback-store location expires_at_ms metadata (evict_all config victims c).1,
  )

  -- Admitting a payload evicts entries at most: what the cache holds does not grow, whatever comes back.
  pub admit_reusable_payload-bytes :
      (batch : Batch) (size_bytes : ℤ) (location : String) (expires_at_ms : Option ℤ)
      (metadata : Metadata) (c : CacheState F)
      → reusable_cache_bytes
          (admit_reusable_payload config batch size_bytes location expires_at_ms metadata c).1.store
        ≤ reusable_cache_bytes c.store
  unfolding admit_reusable_payload
  admit_reusable_payload-bytes batch size_bytes location expires_at_ms metadata c =
      elim (Result-cases (compute_batch_value config batch c.store)) [
        | inl (e, raised) ↦ ground (arith, raised)
        | inr (v, valued) ↦
            elim (Result-cases (choose_eviction_victims config batch size_bytes c.store)) [
              | inl (e, raised) ↦ ground (arith, valued, raised)
              | inr (victims, chosen) ↦ ground (
                arith,
                valued,
                chosen,
                place-bytes size_bytes location expires_at_ms
                    (put "batch_value" (text (f.show v)) metadata) victims c,
              )
            ]
      ]
