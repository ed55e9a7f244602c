-- ===== src/Cache/Evictions.antt =====
-- The eviction of one payload.
use ad_artifacts.Base.{
  ◌+◌, ◌≤◌, ◌≡◌, refl, none, some, ◌∷◌, ◌==◌, arith, if◌then◌else◌, eq_refl, subst, sum_by,
}
use ad_artifacts.Core.{PayloadEntry, ok}
use ad_artifacts.Floats.{Floats}
use ad_artifacts.Dict.{get, remove, values}
use ad_artifacts.Dict.Laws.{get-remove, sum_by-remove-le, weight}
use ad_artifacts.Store.Metrics.{text_at}
use ad_artifacts.Store.Payloads.{
  reusable_cache_bytes, cached_bytes, payload_pin_count, remove_payload, drop_payload, forget_task,
}
use ad_artifacts.Scheduler.{SchedulerConfig}
use ad_artifacts.Scheduler.Value.{compute_payload_value}
use ad_artifacts.Cache.{CacheState, evict_reusable_payload}

module _ {F : Type 0} ⦃f : Floats F⦄ (config : SchedulerConfig F) (c : CacheState F)
    (victim entry : PayloadEntry) (value : F)
    (valued : compute_payload_value config victim c.store ≡ ok value)
    (unpinned : payload_pin_count victim.cache_key c.store ≡ 0)
    (stored : get victim.cache_key c.store.payload_entries ≡ some entry) where
  drop_payload-payload_entries :
      (drop_payload victim.cache_key entry c.store).payload_entries
      ≡ remove victim.cache_key c.store.payload_entries
  unfolding drop_payload forget_task
  drop_payload-payload_entries = ground arith

  evict-drop_payload : evict_reusable_payload config victim c ≡ (
    ok tt,
    record {
      store = drop_payload victim.cache_key entry c.store;
      deleted_keys =
          if text_at "fetch_key" "" entry.metadata == ""
          then c.deleted_keys
          else text_at "fetch_key" "" entry.metadata ∷ c.deleted_keys;
    },
  )
  unfolding evict_reusable_payload remove_payload
  evict-drop_payload = ground (arith, valued, unpinned, stored)

  -- Evicting a stored payload without pins, whose value can be computed, removes its entry, frees at least the
  -- bytes that the entry counted for, and deletes its Redis key if it names one.
  pub evict_reusable_payload_lem :
      let (result, c') = evict_reusable_payload config victim c in
      let redis_key = text_at "fetch_key" "" entry.metadata in
      (result ≡ ok tt)
      × (get victim.cache_key c'.store.payload_entries ≡ none)
      × (reusable_cache_bytes c'.store + cached_bytes entry ≤ reusable_cache_bytes c.store)
      × (c'.deleted_keys ≡ (if redis_key == "" then c.deleted_keys else redis_key ∷ c.deleted_keys))
  unfolding reusable_cache_bytes
  evict_reusable_payload_lem =
      rw (evict-drop_payload, drop_payload-payload_entries)
        (
          refl,
          ground (
            arith,
            get-remove victim.cache_key victim.cache_key c.store.payload_entries,
            eq_refl victim.cache_key,
          ),
          freed,
          refl,
        )
    where
      freed :
          reusable_cache_bytes (record (c.store) {
            payload_entries = remove victim.cache_key c.store.payload_entries;
          })
            + cached_bytes entry
          ≤ reusable_cache_bytes c.store
      freed =
          let sums = sum_by-remove-le cached_bytes victim.cache_key c.store.payload_entries in
          subst
            (λ o.
              sum_by cached_bytes (values (remove victim.cache_key c.store.payload_entries))
                + weight cached_bytes o
              ≤ sum_by cached_bytes (values c.store.payload_entries))
            stored sums
