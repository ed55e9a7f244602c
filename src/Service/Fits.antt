-- ===== src/Service/Fits.antt =====
-- A completed task leaves the reusable cache within its capacity.
use ad_artifacts.Base.{
  ℕ, ◌+◌, ◌≤◌, String, ◌≡◌, ap, true, ◌&&◌, ◌⊎◌, Option, arith, Bool-cases, Option-cases, inl, inr,
  sum_by,
}
use ad_artifacts.Base.Int.{ℤ, pos, negsuc, pos_part, is_positive}
use ad_artifacts.Core.{
  Batch, BatchHandle, PayloadEntry, StorageClass, Metadata, ok, Result, Result-cases,
}
use ad_artifacts.Core.Fetch.{is_redis_location}
use ad_artifacts.Dict.{get, put, values}
use ad_artifacts.Dict.Laws.{sum_by-put}
use ad_artifacts.Floats.{Floats}
use ad_artifacts.Store.State.{Store}
use ad_artifacts.Store.Metrics.{
  note_materialization_completed, change_metrics, update_preparation_time,
  update_payload_size_estimate,
}
use ad_artifacts.Store.Tasks.{complete_task, release_worker, get_task}
use ad_artifacts.Store.Payloads.{
  reusable_cache_bytes, cached_bytes, is_reusable_class, is_reusable_entry,
}
use ad_artifacts.Scheduler.{SchedulerConfig}
use ad_artifacts.Scheduler.Ready.{build_ready_handle}
use ad_artifacts.Cache.{CacheState}
use ad_artifacts.Cache.Admission.{PayloadPlacement, has_fallback, has_room, admit_reusable_payload}
use ad_artifacts.Cache.Rooms.{admit_reusable_payload-has_room}
use ad_artifacts.Cache.Lowers.{admit_reusable_payload-bytes}
use ad_artifacts.Service.{Service}
use ad_artifacts.Service.Workers.{
  completed_entry, note_preparation_time, place_payload, store_payload, complete_materialization,
}

-- The reusable cache holds no more than its capacity.
abbrev pub Fits : {F : Type 0} → SchedulerConfig F → Store F → Type 0
Fits config s = reusable_cache_bytes s ≤ pos_part config.cache_capacity_bytes

module _ {F : Type 0} (now : ℕ) (task_id : String) (e : PayloadEntry) (h : BatchHandle)
    (s : Store F) where
  complete_task-entries :
      ((complete_task now task_id e h s).1.payload_entries ≡ s.payload_entries)
      ⊎ ((complete_task now task_id e h s).1.payload_entries ≡ put e.cache_key e s.payload_entries)
  unfolding complete_task get_task release_worker note_materialization_completed change_metrics
  complete_task-entries = elim (Option-cases (get task_id s.tasks)) [
    | inl missing ↦ inl (ground (arith, missing))
    | inr (t, found) ↦ inr (ground (arith, found))
  ]

  complete_task-bytes :
      reusable_cache_bytes (complete_task now task_id e h s).1
      ≤ reusable_cache_bytes s + cached_bytes e
  unfolding reusable_cache_bytes
  complete_task-bytes = elim complete_task-entries [
    | inl same ↦ ground (arith, ap (λ d. sum_by cached_bytes (values d)) same)
    | inr stored ↦ ground (
      arith,
      ap (λ d. sum_by cached_bytes (values d)) stored,
      sum_by-put cached_bytes e.cache_key e s.payload_entries,
    )
  ]

module _ {F : Type 0} ⦃f : Floats F⦄ (config : SchedulerConfig F) where
  has_room-Fits :
      (size_bytes : ℤ) (c : CacheState F)
      → is_positive config.cache_capacity_bytes ≡ true
      → Fits config c.store
      → has_room config size_bytes c ≡ true
      → reusable_cache_bytes c.store + pos_part size_bytes ≤ pos_part config.cache_capacity_bytes
  unfolding has_room
  has_room-Fits (pos n) c bounded fits room = ground arith
  has_room-Fits (negsuc n) c bounded fits room = ground arith

  -- The place that a payload gets counts for no more than what is left.
  module _ (now : ℕ) (task_id : String) (batch : Batch) (location : String) (size_bytes : ℤ)
      (storage_class : StorageClass) (expires_at_ms : Option ℤ) (metadata : Metadata)
      (c : Service F) (bounded : is_positive config.cache_capacity_bytes ≡ true)
      (fits : Fits config c.store) (copied : has_fallback metadata ≡ true)
      (enabled : c.redis_enabled ≡ true) where
    abbrev cache : CacheState F
    cache = record { store = c.store; deleted_keys = c.deleted_keys }

    abbrev admitted : Result PayloadPlacement × CacheState F
    admitted = admit_reusable_payload config batch size_bytes location expires_at_ms metadata cache

    abbrev placed : Result PayloadPlacement × Service F
    placed = place_payload config batch location size_bytes storage_class expires_at_ms metadata c

    place_payload-Fits : Fits config placed.1.store
    unfolding place_payload
    place_payload-Fits = ground (
      arith,
      admit_reusable_payload-bytes config batch size_bytes location expires_at_ms metadata cache,
    )

    place_payload-room :
        (p : PayloadPlacement)
        → placed.0 ≡ ok p
        → (is_reusable_class p.storage_class && is_redis_location p.location) ≡ true
        → reusable_cache_bytes placed.1.store + pos_part size_bytes
          ≤ pos_part config.cache_capacity_bytes
    unfolding place_payload
    place_payload-room p e reusable =
        elim (Bool-cases (is_reusable_class storage_class && is_redis_location location)) [
          | inl asked ↦
              let lower =
                admit_reusable_payload-bytes config batch size_bytes location expires_at_ms metadata
                  cache in
              let room : has_room config size_bytes admitted.1 ≡ true =
                admit_reusable_payload-has_room config batch size_bytes location expires_at_ms
                  metadata cache p copied (ground (arith, asked, enabled, e))
                  (ground (arith, reusable)) in
              let sized =
                has_room-Fits size_bytes admitted.1 bounded (ground (arith, lower, fits)) room in
              ground (arith, asked, enabled, sized)
          | inr not_asked ↦ absurd (ground (arith, not_asked, e, reusable))
        ]

    store_payload-Fits :
        (p : PayloadPlacement) (worker_id : String)
        → placed.0 ≡ ok p
        → Fits config
            (store_payload config now task_id worker_id batch size_bytes p placed.1).1.store
    unfolding store_payload cached_bytes is_reusable_entry
    store_payload-Fits p worker_id e =
        let entry = completed_entry now worker_id batch size_bytes p in
        elim (Result-cases (build_ready_handle batch entry placed.1.store)) [
          | inl (e, raised) ↦ ground (arith, raised, place_payload-Fits)
          | inr (handle, built) ↦
              elim (Bool-cases
                (is_reusable_class p.storage_class && is_redis_location p.location)) [
                  | inl reusable ↦ ground (
                    arith,
                    built,
                    reusable,
                    place_payload-room p e reusable,
                    complete_task-bytes now task_id entry handle placed.1.store,
                  )
                  | inr other ↦ ground (
                    arith,
                    built,
                    other,
                    place_payload-Fits,
                    complete_task-bytes now task_id entry handle placed.1.store,
                  )
                ]
        ]

  note-bytes :
      (batch : Batch) (metadata : Metadata) (size_bytes : ℤ) (s : Store F)
      → reusable_cache_bytes (
          update_payload_size_estimate batch.dataset_id size_bytes config.preparation_time_ema_alpha
            (note_preparation_time config batch metadata s))
        ≡ reusable_cache_bytes s
  unfolding reusable_cache_bytes update_payload_size_estimate update_preparation_time
  note-bytes batch metadata size_bytes s = ground arith

  -- Redis is enabled, the capacity is positive, and the cache fits it. A worker completes a task with any payload
  -- whose metadata name a copy at the worker: whether that works or raises, the cache still fits its capacity.
  pub complete_materialization-Fits :
      (now : ℕ) (task_id worker_id location : String) (size_bytes : ℤ)
      (storage_class : StorageClass) (expires_at_ms : Option ℤ) (metadata : Metadata)
      (c : Service F)
      → is_positive config.cache_capacity_bytes ≡ true
      → Fits config c.store
      → has_fallback metadata ≡ true
      → c.redis_enabled ≡ true
      → Fits config
          (complete_materialization config now task_id worker_id location size_bytes storage_class
            expires_at_ms metadata c).1.store
  unfolding complete_materialization get_task
  complete_materialization-Fits now task_id worker_id location size_bytes storage_class
        expires_at_ms metadata c bounded fits copied enabled =
      elim (Option-cases (get task_id c.store.tasks)) [
        | inl missing ↦ ground (arith, missing, fits)
        | inr (t, found) ↦
            let s' : Store F =
              update_payload_size_estimate t.task.batch.dataset_id size_bytes
                config.preparation_time_ema_alpha
                (note_preparation_time config t.task.batch metadata c.store) in
            let c' : Service F = record c { store = s' } in
            let fits' : Fits config s' =
              rw (note-bytes t.task.batch metadata size_bytes c.store) fits in
            elim (Result-cases
              (place_payload config t.task.batch location size_bytes storage_class expires_at_ms
                metadata c').0) [
                  | inl (e, raised) ↦ ground (
                    arith,
                    found,
                    raised,
                    place_payload-Fits now task_id t.task.batch location size_bytes storage_class
                        expires_at_ms metadata c' bounded fits' copied enabled,
                  )
                  | inr (p, worked) ↦ ground (
                    arith,
                    found,
                    worked,
                    store_payload-Fits now task_id t.task.batch location size_bytes storage_class
                        expires_at_ms metadata c' bounded fits' copied enabled p worker_id worked,
                  )
                ]
      ]
