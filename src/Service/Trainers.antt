-- ===== src/Service/Trainers.antt =====
-- What trainers call on batchflow/coordinator/service.py.
use ad_artifacts.Base.{
  ℕ, String, str_append, true, not, Option, none, some, List, [], ◌∷◌, leb, if◌then◌else◌,
}
use ad_artifacts.Base.Int.{ℤ, pos, ltb_ℤ}
use ad_artifacts.Core.{
  Sample, Dataset, Batch, Job, JobStatus, create_job, advance_to_next_epoch, BatchHandle,
  HandleStatus, Metadata, text, flag, acknowledgement_ahead,
}
use ad_artifacts.Core.Fetch.{batches_per_epoch, is_ready}
use ad_artifacts.Exec.{Exec, pure, throw, reads, gets, modify, ◌>>=◌, ◌>>◌}
use ad_artifacts.Floats.{Floats}
use ad_artifacts.Store.State.{Store}
use ad_artifacts.Store.Jobs.{
  register_dataset, start_job, get_job, get_dataset, is_active, finish_job, issue_batch_to_job,
  update_job_progress,
}
use ad_artifacts.Store.Metrics.{
  update_job_runtime_metrics, note_get_next_batch_call, note_batch_handle_served,
}
use ad_artifacts.Store.Plans.{get_batch, set_planned_window, acknowledge_batch}
use ad_artifacts.Store.Payloads.{
  touch_payload, pin_payload, unpin_payload, release_job_payload_pins,
}
use ad_artifacts.Scheduler.{SchedulerConfig}
use ad_artifacts.Scheduler.Handles.{resolve_batch_handle}
use ad_artifacts.Service.{Service, on_store, read_store}
use ad_artifacts.Service.Window.{refresh_job_window}
use ad_artifacts.Service.Maintenance.{schedule_job_batches}

pub record TrainerRuntimeFeedback (F : Type 0) : Type 0 where
  pub data_bottleneck_percent : F
  pub avg_data_time_sec : F
  pub avg_compute_time_sec : F
  pub avg_coordinator_wait_total_time_sec : F
  pub avg_coordinator_pending_polls : F

pub record StartJobResult : Type 0 where
  pub job_id : String
  pub epoch : ℕ
  pub next_batch_index : ℕ

pub record GetNextBatchResult : Type 0 where
  pub batch_handle : BatchHandle
  pub epoch : ℕ
  pub batch_index : Option ℕ
  pub metadata : Metadata

pub record FinishJobResult : Type 0 where
  pub job_id : String
  pub status : JobStatus
  pub reason : String

-- JobStatus.value
abbrev pub job_status_value : JobStatus → String
job_status_value JobStatus.active = "active"
job_status_value JobStatus.completed = "completed"
job_status_value JobStatus.cancelled = "cancelled"
job_status_value JobStatus.failed = "failed"

-- The answer that ends a job's iteration: a failed handle for no batch.
abbrev pub done_result : Dataset → Job → String → GetNextBatchResult
done_result dataset job reason = record {
  batch_handle = record {
    batch_id = "";
    cache_key = "";
    status = HandleStatus.failed;
    fetch_host = "";
    fetch_port = pos 0;
    fetch_key = "";
    payload_format = some dataset.payload_format;
    dataset_format = dataset.dataset_format;
    location = "";
    expires_at_ms = none;
    metadata = ("reason", text reason) ∷ [];
  };
  epoch = job.progress.epoch;
  batch_index = none;
  metadata = ("done", flag true) ∷ [];
}

abbrev pub batch_result : String → Batch → BatchHandle → GetNextBatchResult
batch_result job_id batch handle = record {
  batch_handle = handle;
  epoch = batch.epoch;
  batch_index = some batch.batch_index;
  metadata = ("job_id", text job_id) ∷ [];
}

module _ {F : Type 0} where
  abbrev pub report_feedback :
      ℕ → String → Option (TrainerRuntimeFeedback F) → Exec (Store F) (Unit {0})
  report_feedback now job_id none = pure tt
  report_feedback now job_id (some r) =
      update_job_runtime_metrics now job_id r.data_bottleneck_percent r.avg_data_time_sec
        r.avg_compute_time_sec r.avg_coordinator_wait_total_time_sec r.avg_coordinator_pending_polls

  -- The planned batch at the job's position.
  abbrev pub batch_at : Job → Store F → Option Batch
  batch_at job s = get_batch job.job_id job.progress.epoch job.progress.next_batch_index s

  -- A job that has been given the last batch of its epoch goes on to the next epoch, with nothing planned.
  unfoldable pub turn_epoch : ℕ → Job → Exec (Store F) (Unit {0})
  turn_epoch now job = do
    dataset ← reads (get_dataset job.dataset_id)
    per_epoch ← reads (λ _. batches_per_epoch dataset)
    if leb per_epoch job.progress.next_batch_index
        then (update_job_progress job.job_id (advance_to_next_epoch now job.progress) >>= λ turned.
            set_planned_window turned.job_id [])
        else pure tt

  -- What is done in the store for a batch that is handed over.
  unfoldable pub hand_over : ℕ → String → Batch → BatchHandle → Exec (Store F) (Unit {0})
  hand_over now job_id batch handle = do
    modify (touch_payload now handle.cache_key)
    modify (pin_payload handle.cache_key job_id)
    job ← issue_batch_to_job job_id batch.batch_id batch.epoch batch.batch_index
    turn_epoch now job

module _ {F : Type 0} (config : SchedulerConfig F) (shuffle : ℤ → List Sample → List Sample) where
  -- The batch at the job's position, planned anew if it is not there.
  unfoldable pub find_batch_or_replan : ℕ → Job → Exec (Service F) (Option Batch)
  find_batch_or_replan now job c = elim (batch_at job c.store) [
    | some batch ↦ pure (some batch) c
    | none ↦
        (refresh_job_window config shuffle now job.job_id true >>= λ _.
        gets (λ d. batch_at job d.store))
          c
  ]

  -- The end of `get_next_batch`, for the batch that was found.
  unfoldable pub serve : ℕ → String → Batch → Exec (Service F) GetNextBatchResult
  serve now job_id batch = do
    handle ← read_store (resolve_batch_handle batch)
    on_store (note_batch_handle_served job_id handle)
    if is_ready handle
        then (do
          on_store (hand_over now job_id batch handle)
          refresh_job_window config shuffle now job_id true
          pure (batch_result job_id batch handle))
        else pure (batch_result job_id batch handle)

  unfoldable pub get_next_batch :
      ℕ → String → Option (TrainerRuntimeFeedback F) → Exec (Service F) GetNextBatchResult
  get_next_batch now job_id feedback = do
    on_store (report_feedback now job_id feedback)
    job ← read_store (get_job job_id)
    on_store (note_get_next_batch_call job_id)
    dataset ← read_store (get_dataset job.dataset_id)
    if not (is_active job)
        then pure (
            done_result dataset job
              (str_append "job is not active: " (job_status_value job.status)))
        else do
          found ← find_batch_or_replan now job
          elim found [
            | none ↦ pure (done_result dataset job "no planned batch available")
            | some batch ↦ serve now job_id batch
          ]

module _ {F : Type 0} ⦃f : Floats F⦄ (config : SchedulerConfig F)
    (shuffle : ℤ → List Sample → List Sample) where
  unfoldable pub service_start_job :
      ℕ
      → (ℕ → String)
      → (job_id dataset_id : String) → ℤ
      → Metadata
      → Exec (Service F) StartJobResult
  service_start_job now ids job_id dataset_id lookahead_batches metadata =
      let job = create_job now job_id dataset_id lookahead_batches metadata in
      on_store (start_job job)
      >> refresh_job_window config shuffle now job_id true
      >> (schedule_job_batches config shuffle now ids job_id >>= λ _. pure (record {
        job_id = job.job_id;
        epoch = job.progress.epoch;
        next_batch_index = job.progress.next_batch_index;
      }))

module _ {F : Type 0} where
  unfoldable pub service_register_dataset : Dataset → Service F → Service F
  service_register_dataset d c = record c { store = register_dataset d c.store }

  unfoldable pub service_acknowledge_batch :
      ℕ → (job_id batch_id : String) → (epoch batch_index : ℤ) → Exec (Service F) Job
  service_acknowledge_batch now job_id batch_id epoch batch_index = do
    job ← read_store (get_job job_id)
    if ltb_ℤ (pos job.progress.epoch) epoch then throw acknowledgement_ahead else do
      acknowledged ← on_store (acknowledge_batch now job_id batch_id batch_index)
      on_store (modify (unpin_payload batch_id job_id))
      pure acknowledged

  unfoldable pub service_finish_job :
      ℕ → (job_id reason : String) → JobStatus → Exec (Service F) FinishJobResult
  service_finish_job now job_id reason status = do
    job ← on_store (finish_job now job_id reason status)
    on_store (modify (release_job_payload_pins job_id))
    on_store (set_planned_window job_id [])
    pure (record { job_id = job.job_id; status = job.status; reason = job.closed_reason })
