-- ===== src/Service/Workers.antt =====
-- What workers call on batchflow/coordinator/service.py.
use ad_artifacts.Base.{ℕ, String, true, false, ◌&&◌, Option, none, some, [], ◌∷◌, if◌then◌else◌}
use ad_artifacts.Base.Int.{ℤ, pos}
use ad_artifacts.Core.{
  Batch, Worker, PayloadEntry, PayloadStatus, StorageClass, Metadata, Value, text, int, flag,
  format, cache_key,
}
use ad_artifacts.Core.Fetch.{is_redis_location}
use ad_artifacts.Exec.{Exec, pure, gets, calls, modify, ◌>>=◌, ◌>>◌}
use ad_artifacts.Floats.{Floats}
use ad_artifacts.Dict.{get, put}
use ad_artifacts.Store.State.{Store, TaskState}
use ad_artifacts.Store.Jobs.{register_worker, heartbeat_worker, is_pending}
use ad_artifacts.Store.Metrics.{update_preparation_time, update_payload_size_estimate}
use ad_artifacts.Store.Tasks.{get_task, assign_task_to_worker, complete_task, fail_task}
use ad_artifacts.Store.Payloads.{is_reusable_class}
use ad_artifacts.Scheduler.{SchedulerConfig}
use ad_artifacts.Scheduler.Choose.{choose_next_task_for_worker}
use ad_artifacts.Scheduler.Ready.{build_ready_handle, is_missing}
use ad_artifacts.Cache.Admission.{PayloadPlacement, admit_reusable_payload}
use ad_artifacts.Service.{Service, on_store, read_store, on_cache}

-- {**first, **second}
unfoldable pub merge : Metadata → Metadata → Metadata
merge first [] = first
merge first ((k, v) ∷ second) = merge (put k v first) second

-- float(value), none where it raises
unfoldable pub to_float : {F : Type 0} ⦃f : Floats F⦄ → Value → Option F
to_float ⦃f⦄ (text s) = f.parse s
to_float ⦃f⦄ (int n) = some (f.of_ℤ n)
to_float ⦃f⦄ (flag true) = some f.one
to_float ⦃f⦄ (flag false) = some f.zero
to_float ⦃f⦄ (format p) = none

-- The entry that is stored for a completed task.
abbrev pub completed_entry : ℕ → String → Batch → ℤ → PayloadPlacement → PayloadEntry
completed_entry now worker_id batch size_bytes placement = record {
  cache_key = cache_key batch;
  status = PayloadStatus.available;
  storage_class = placement.storage_class;
  location = some placement.location;
  size_bytes = size_bytes;
  worker_id = some worker_id;
  created_at_ms = now;
  last_accessed_at_ms = now;
  expires_at_ms = placement.expires_at_ms;
  access_count = 0;
  metadata =
      merge
        (("batch_id", text batch.batch_id)
          ∷ ("dataset_id", text batch.dataset_id)
          ∷ ("epoch", int (pos batch.epoch))
          ∷ ("batch_index", int (pos batch.batch_index))
          ∷ [])
        placement.metadata;
}

module _ {F : Type 0} where
  unfoldable pub service_register_worker :
      ℕ → (worker_id hostname : String) → Option Metadata → Exec (Service F) Worker
  service_register_worker now worker_id hostname metadata =
      on_store (calls (register_worker now worker_id hostname metadata))

  unfoldable pub service_heartbeat_worker : ℕ → String → Exec (Service F) Worker
  service_heartbeat_worker now worker_id = on_store (heartbeat_worker now worker_id)

  unfoldable pub fail_materialization :
      ℕ → (task_id reason : String) → Exec (Service F) (TaskState F)
  fail_materialization now task_id reason = on_store (fail_task now task_id reason)

module _ {F : Type 0} ⦃f : Floats F⦄ where
  -- The worker's heartbeat, and then the task that it is given, if there is one.
  unfoldable pub poll_materialization_task : ℕ → String → Exec (Service F) (Option (TaskState F))
  poll_materialization_task now worker_id = on_store (heartbeat_worker now worker_id) >>= λ _.
      gets (λ c. choose_next_task_for_worker worker_id c.store) >>= elim [
        | none ↦ pure none
        | some state ↦
            if is_pending state
            then (on_store (assign_task_to_worker now state.task.task_id worker_id) >>= λ assigned.
                pure (some assigned))
            else pure (some state)
      ]

  module _ (config : SchedulerConfig F) where
    -- The preparation time that the metadata report, if it is a number.
    abbrev pub note_preparation_time : Batch → Metadata → Store F → Store F
    note_preparation_time batch metadata s = elim (get "materialize_time_sec" metadata) [
      | none ↦ s
      | some raw ↦ elim (is_missing (some raw)) [
        | true ↦ s
        | false ↦ elim (to_float raw) [
          | none ↦ s
          | some seconds ↦
              update_preparation_time batch.dataset_id seconds config.preparation_time_ema_alpha s
        ]
      ]
    ]

    -- Where the payload ends up: the cache manager decides on reusable payloads in Redis.
    unfoldable pub place_payload :
        Batch → String → ℤ → StorageClass → Option ℤ → Metadata → Exec (Service F) PayloadPlacement
    place_payload batch location size_bytes storage_class expires_at_ms metadata c =
        if is_reusable_class storage_class && is_redis_location location && c.redis_enabled
        then on_cache
            (admit_reusable_payload config batch size_bytes location expires_at_ms metadata) c
        else pure
            (record {
              location = location;
              storage_class = storage_class;
              expires_at_ms = expires_at_ms;
              metadata = metadata;
            })
            c

    -- The end of `complete_materialization`, for the chosen place.
    unfoldable pub store_payload :
        ℕ
        → (task_id worker_id : String) → Batch
        → ℤ
        → PayloadPlacement
        → Exec (Service F) (TaskState F)
    store_payload now task_id worker_id batch size_bytes placement =
        let entry = completed_entry now worker_id batch size_bytes placement in
        read_store (build_ready_handle batch entry) >>= λ handle.
        on_store (complete_task now task_id entry handle)

    unfoldable pub complete_materialization :
        ℕ
        → (task_id worker_id location : String) → ℤ
        → StorageClass
        → Option ℤ
        → Metadata
        → Exec (Service F) (TaskState F)
    complete_materialization now task_id worker_id location size_bytes storage_class expires_at_ms
          metadata =
        do
          state ← read_store (get_task task_id)
          on_store (modify (note_preparation_time state.task.batch metadata))
          on_store (
              modify (
                update_payload_size_estimate state.task.batch.dataset_id size_bytes
                  config.preparation_time_ema_alpha))
          placement ←
              place_payload state.task.batch location size_bytes storage_class expires_at_ms
                metadata
          store_payload now task_id worker_id state.task.batch size_bytes placement
