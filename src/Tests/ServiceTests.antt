-- ===== src/Tests/ServiceTests.antt =====
-- Tests of what trainers and workers call on the service, and of its background passes.
use ad_artifacts.Base.{
  ◌&&◌, ◌==◌, String, ℕ, ◌+◌, ◌-◌, ◌≤◌, ◌≡◌, refl, true, false, none, some, List, [], ◌∷◌, length,
  arith, if◌then◌else◌,
}
use ad_artifacts.Base.Int.{ℤ, pos}
use ad_artifacts.Core.{text, Sample, StorageClass, Metadata, text, ok}
use ad_artifacts.Dict.{put, get, has}
use ad_artifacts.Store.State.{Store}
use ad_artifacts.Store.Jobs.{count_idle_workers}
use ad_artifacts.Store.Tasks.{count_pending_tasks}
use ad_artifacts.Store.Payloads.{payload_pin_count}
use ad_artifacts.Store.Pins.{pinned}
use ad_artifacts.Scheduler.{SchedulerConfig}
use ad_artifacts.Cache.Admission.{use_transient_fallback}
use ad_artifacts.Service.{Service}
use ad_artifacts.Service.Trainers.{get_next_batch, service_acknowledge_batch}
use ad_artifacts.Service.Maintenance.{cleanup_expired_metadata, schedule_opportunistic_prefetch}
use ad_artifacts.Service.Workers.{complete_materialization}
use ad_artifacts.Service.Handing.{given}
use ad_artifacts.Service.Delivery.{get_next_batch-delivers}
use ad_artifacts.Service.Acknowledged.{service_acknowledge_batch-pinned}
use ad_artifacts.Service.Expiry.{cleanup_expired_metadata_lem}
use ad_artifacts.Service.Fits.{complete_materialization-Fits, Fits}
use ad_artifacts.Service.Spare.{schedule_opportunistic_prefetch-tasks}
use ad_artifacts.Tests.{
  nat_floats, dataset, job, batch, handle, entry, opened, ready_store, running_store,
}
use ad_artifacts.Tests.SchedulerTests.{config}
use ad_artifacts.Tests.Run.{program}
use ad_artifacts.Tests.RunService.{service_program}

abbrev same_order : ℤ → List Sample → List Sample
same_order seed samples = samples

abbrev serving : Store ℕ → Service ℕ
serving s = record {
  store = s;
  planner = record { default_lookahead = pos 32; epoch_plans_by_id = [] };
  deleted_keys = [];
  redis_enabled = true;
}

abbrev served : Service ℕ
served = (get_next_batch config same_order 11 "job-1" none (serving ready_store)).1

next_batch_example :
    ((get_next_batch config same_order 11 "job-1" none (serving ready_store)).0
      ≡ ok (record {
        batch_handle = record handle { metadata = put "cache_result" (text "hit") handle.metadata };
        epoch = batch.epoch;
        batch_index = some batch.batch_index;
        metadata = ("job_id", text "job-1") ∷ [];
      }))
    × (get "job-1" served.store.jobs ≡ some (given 11 2 job))
    × ((k j : String)
        → pinned k j served.store ≡ (
            if has "b-0" ready_store.payload_entries && ("b-0" == k) && ("job-1" == j)
            then true
            else pinned k j ready_store))
unfolding program service_program
next_batch_example =
    get_next_batch-delivers config same_order 11 "job-1" job dataset 2 batch handle
      (serving ready_store) refl refl refl refl refl refl refl refl refl

-- The first batch of two is given, and its payload is pinned; the acknowledgement takes the pin off.
next_batch_pins : pinned "b-0" "job-1" served.store ≡ true
unfolding program service_program
next_batch_pins = refl

acknowledge_example :
    pinned "b-0" "job-1" (service_acknowledge_batch 12 "job-1" "b-0" (pos 0) (pos 0) served).1.store
    ≡ false
unfolding program service_program
acknowledge_example =
    service_acknowledge_batch-pinned 12 "job-1" "b-0" (pos 0) (pos 0) served "b-0" "job-1"

abbrev old_store : Store ℕ
old_store = record opened {
  payload_entries = ("b-0", record entry { expires_at_ms = some (pos 10) }) ∷ [];
}

cleanup_metadata_example :
    (get "b-0" (cleanup_expired_metadata 11 old_store).1.payload_entries ≡ none)
    × (payload_pin_count "b-0" (cleanup_expired_metadata 11 old_store).1 ≡ 0)
unfolding program service_program
cleanup_metadata_example = cleanup_expired_metadata_lem 11 old_store "b-0"

abbrev small_config : SchedulerConfig ℕ
small_config = record config { cache_capacity_bytes = pos 4 }

abbrev copied : Metadata
copied =
    ("fallback_fetch_host", text "host")
    ∷ ("fallback_fetch_port", text "9")
    ∷ ("fallback_fetch_key", text "b-0")
    ∷ ("fetch_key", text "k")
    ∷ []

abbrev completed : Service ℕ
completed =
    (complete_materialization small_config 12 "t-0" "w-1" "redis://host:1" (pos 9)
      StorageClass.reusable none copied (serving running_store)).1

completed_example : Fits small_config completed.store
unfolding program service_program nat_floats
completed_example =
    complete_materialization-Fits small_config 12 "t-0" "w-1" "redis://host:1" (pos 9)
      StorageClass.reusable none copied (serving running_store) refl (omega arith) refl refl

-- A payload that is larger than the cache is served from its worker, and its Redis key is deleted.
fallback_is_used : completed.deleted_keys ≡ "k" ∷ []
unfolding program service_program nat_floats
fallback_is_used = refl

prefetch_example :
    length (schedule_opportunistic_prefetch config 12 (λ n. "t-9") (serving opened)).1.store.tasks
    ≤ length opened.tasks + (count_idle_workers opened - count_pending_tasks opened)
unfolding program service_program nat_floats
prefetch_example = schedule_opportunistic_prefetch-tasks config 12 (λ n. "t-9") (serving opened)

-- Without a copy to fall back on, a rejected payload stays reusable at its Redis location, and its key is deleted.
forced_is_deleted :
    let (r, c') =
      use_transient_fallback "redis://host:1" none
        (("fetch_key", text "k") ∷ [])
        (record { store = opened; deleted_keys = [] }) in
    (r
      ≡ ok (record {
        location = "redis://host:1";
        storage_class = StorageClass.reusable;
        expires_at_ms = none;
        metadata = ("fetch_key", text "k") ∷ ("cache_admission", text "forced_no_fallback") ∷ [];
      }))
    × (c'.deleted_keys ≡ "k" ∷ [])
unfolding program service_program
forced_is_deleted = (refl, refl)
