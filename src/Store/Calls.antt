-- ===== src/Store/Calls.antt =====
-- A run of the coordinator's threads on the store is a sequence of whole method calls, in the order in
-- which they take the lock. `Call` has a constructor for each method that changes the store.
use ad_artifacts.Base.{ℕ, String, Option, List, [], ◌∷◌}
use ad_artifacts.Base.Int.{ℤ}
use ad_artifacts.Core.{
  Dataset, Job, JobStatus, JobProgress, Metadata, Batch, BatchHandle, PayloadEntry,
  MaterializeBatchTask,
}
use ad_artifacts.Floats.{Floats}
use ad_artifacts.Store.State.{Store}
use ad_artifacts.Store.Jobs as Jobs
use ad_artifacts.Store.Metrics as Metrics
use ad_artifacts.Store.Plans as Plans
use ad_artifacts.Store.Tasks as Tasks
use ad_artifacts.Store.Payloads as Payloads

pub data Call (F : Type 0) : Type 0 where
  register_dataset : Dataset → Call F
  start_job : Job → Call F
  finish_job : (now : ℕ) → (job_id reason : String) → JobStatus → Call F
  update_job_progress : (job_id : String) → JobProgress → Call F
  issue_batch_to_job : (job_id batch_id : String) → (epoch batch_index : ℕ) → Call F
  note_get_next_batch_call : (job_id : String) → Call F
  note_batch_handle_served : (job_id : String) → BatchHandle → Call F
  note_materialization_completed : (job_id : String) → Call F
  update_job_runtime_metrics :
      (now : ℕ) → (job_id : String) → (percent data_time compute_time wait_time polls : F) → Call F
  update_preparation_time : (dataset_id : String) → (duration_sec alpha : F) → Call F
  update_payload_size_estimate : (dataset_id : String) → ℤ → (alpha : F) → Call F
  set_planned_window : (job_id : String) → List Batch → Call F
  acknowledge_batch : (now : ℕ) → (job_id batch_id : String) → ℤ → Call F
  register_worker : (now : ℕ) → (worker_id hostname : String) → Option Metadata → Call F
  heartbeat_worker : (now : ℕ) → (worker_id : String) → Call F
  create_task : (now : ℕ) → MaterializeBatchTask F → Call F
  assign_task_to_worker : (now : ℕ) → (task_id worker_id : String) → Call F
  complete_task : (now : ℕ) → (task_id : String) → PayloadEntry → BatchHandle → Call F
  fail_task : (now : ℕ) → (task_id reason : String) → Call F
  pin_payload : (key job_id : String) → Call F
  unpin_payload : (key job_id : String) → Call F
  release_job_payload_pins : (job_id : String) → Call F
  remove_payload : (key : String) → Call F
  touch_payload : (now : ℕ) → (key : String) → Call F
  put_payload_entry : PayloadEntry → Call F
  delete_payload_entry : (key : String) → Call F
  put_batch_handle : (batch_id : String) → BatchHandle → Call F
  delete_batch_handle : (batch_id : String) → Call F

module _ {F : Type 0} ⦃f : Floats F⦄ where
  -- The store after a call, whether the call returned or raised.
  unfoldable pub step : Call F → Store F → Store F
  step (register_dataset d) s = Jobs.register_dataset d s
  step (start_job job) s = (Jobs.start_job job s).1
  step (finish_job now job_id reason status) s = (Jobs.finish_job now job_id reason status s).1
  step (update_job_progress job_id progress) s = (Jobs.update_job_progress job_id progress s).1
  step (issue_batch_to_job job_id batch_id epoch index) s =
      (Jobs.issue_batch_to_job job_id batch_id epoch index s).1
  step (note_get_next_batch_call job_id) s = (Metrics.note_get_next_batch_call job_id s).1
  step (note_batch_handle_served job_id handle) s =
      (Metrics.note_batch_handle_served job_id handle s).1
  step (note_materialization_completed job_id) s =
      (Metrics.note_materialization_completed job_id s).1
  step (update_job_runtime_metrics now job_id percent data_time compute_time wait_time polls) s =
      (Metrics.update_job_runtime_metrics now job_id percent data_time compute_time wait_time polls
        s).1
  step (update_preparation_time dataset_id duration alpha) s =
      Metrics.update_preparation_time dataset_id duration alpha s
  step (update_payload_size_estimate dataset_id size alpha) s =
      Metrics.update_payload_size_estimate dataset_id size alpha s
  step (set_planned_window job_id batches) s = (Plans.set_planned_window job_id batches s).1
  step (acknowledge_batch now job_id batch_id index) s =
      (Plans.acknowledge_batch now job_id batch_id index s).1
  step (register_worker now worker_id hostname metadata) s =
      (Jobs.register_worker now worker_id hostname metadata s).1
  step (heartbeat_worker now worker_id) s = (Jobs.heartbeat_worker now worker_id s).1
  step (create_task now task) s = (Tasks.create_task now task s).1
  step (assign_task_to_worker now task_id worker_id) s =
      (Tasks.assign_task_to_worker now task_id worker_id s).1
  step (complete_task now task_id entry handle) s =
      (Tasks.complete_task now task_id entry handle s).1
  step (fail_task now task_id reason) s = (Tasks.fail_task now task_id reason s).1
  step (pin_payload key job_id) s = Payloads.pin_payload key job_id s
  step (unpin_payload key job_id) s = Payloads.unpin_payload key job_id s
  step (release_job_payload_pins job_id) s = Payloads.release_job_payload_pins job_id s
  step (remove_payload key) s = (Payloads.remove_payload key s).1
  step (touch_payload now key) s = Payloads.touch_payload now key s
  step (put_payload_entry entry) s = Payloads.put_payload_entry entry s
  step (delete_payload_entry key) s = Payloads.delete_payload_entry key s
  step (put_batch_handle batch_id handle) s = Payloads.put_batch_handle batch_id handle s
  step (delete_batch_handle batch_id) s = Payloads.delete_batch_handle batch_id s

  unfoldable pub run : List (Call F) → Store F → Store F
  run [] s = s
  run (c ∷ cs) s = run cs (step c s)

  -- What every call keeps, every run keeps.
  pub run_induction {κ} :
      (P : Store F → Type κ)
      → ((c : Call F) (s : Store F) → P s → P (step c s))
      → (cs : List (Call F)) (s : Store F) → P s
      → P (run cs s)
  unfolding run
  run_induction P keep [] s h = h
  run_induction P keep (c ∷ cs) s h = run_induction P keep cs (step c s) (keep c s h)
