-- ===== src/Scheduler/Handles.antt =====
-- The handles that batchflow/coordinator/scheduler.py answers a client with, for a batch that is stored, under
-- way, failed or unknown.
use ad_artifacts.Base.{String, none, some, [], ◌∷◌, ◌==◌, if◌then◌else◌, str_append}
use ad_artifacts.Base.Int.{pos}
use ad_artifacts.Core.{
  Batch, Dataset, BatchHandle, HandleStatus, PayloadStatus, TaskStatus, Metadata, text, cache_key,
  ok, ◌>>=◌,
}
use ad_artifacts.Exec.{Reader}
use ad_artifacts.Dict.{put}
use ad_artifacts.Store.State.{Store, TaskState}
use ad_artifacts.Store.Jobs.{get_dataset}
use ad_artifacts.Store.Metrics.{text_at}
use ad_artifacts.Store.Tasks.{get_task_for_batch}
use ad_artifacts.Store.Payloads.{get_payload_entry, get_batch_handle}

-- TaskStatus.value
abbrev pub status_value : TaskStatus → String
status_value TaskStatus.pending = "pending"
status_value TaskStatus.running = "running"
status_value TaskStatus.completed = "completed"
status_value TaskStatus.failed = "failed"
status_value TaskStatus.cancelled = "cancelled"

-- `failure_reason or f"task status={status.value}"`
unfoldable pub reason_of : {F : Type 0} → TaskState F → String
reason_of t =
    if t.failure_reason == ""
    then str_append "task status=" (status_value t.status)
    else t.failure_reason

unfoldable pub with_cache_result : BatchHandle → String → BatchHandle
with_cache_result handle result = record handle {
  metadata = put "cache_result" (text result) handle.metadata;
}

-- BatchHandle(...) with the fields' defaults, for a batch that cannot be fetched.
abbrev pub unready_handle : Batch → HandleStatus → Dataset → Metadata → BatchHandle
unready_handle batch status dataset metadata = record {
  batch_id = batch.batch_id;
  cache_key = cache_key batch;
  status = status;
  fetch_host = "";
  fetch_port = pos 0;
  fetch_key = "";
  payload_format = some dataset.payload_format;
  dataset_format = dataset.dataset_format;
  location = "";
  expires_at_ms = none;
  metadata = metadata;
}

module _ {F : Type 0} where
  unfoldable pub pending_handle : Batch → String → Metadata → Reader (Store F) BatchHandle
  pending_handle batch result metadata s = get_dataset batch.dataset_id s >>= λ dataset.
      ok (
        unready_handle batch HandleStatus.pending dataset
          (("cache_result", text result) ∷ metadata))

  unfoldable pub failed_handle : Batch → String → String → Metadata → Reader (Store F) BatchHandle
  failed_handle batch result reason metadata s = get_dataset batch.dataset_id s >>= λ dataset. ok (
      unready_handle batch HandleStatus.failed dataset
        (("cache_result", text result) ∷ ("reason", text reason) ∷ metadata))

  -- The last lookup of `resolve_batch_handle`: the entry of a batch that has no live or failed task.
  unfoldable pub resolve_entry : Batch → Reader (Store F) BatchHandle
  resolve_entry batch s = elim (get_payload_entry (cache_key batch) s) [
    | none ↦ pending_handle batch "miss" [] s
    | some e ↦ elim e.status [
      | PayloadStatus.failed ↦
          failed_handle batch "failed"
            (text_at "failure_reason" "payload preparation failed" e.metadata) [] s
      | _ ↦ pending_handle batch "miss" [] s
    ]
  ]

  abbrev pub resolve_task : Batch → TaskState F → Reader (Store F) BatchHandle
  resolve_task batch t s =
      let task_id : Metadata = ("task_id", text t.task.task_id) ∷ [] in
      elim t.status [
        | TaskStatus.pending ↦ pending_handle batch "in_flight" task_id s
        | TaskStatus.running ↦ pending_handle batch "in_flight" task_id s
        | TaskStatus.failed ↦ failed_handle batch "failed" (reason_of t) task_id s
        | TaskStatus.cancelled ↦ failed_handle batch "failed" (reason_of t) task_id s
        | TaskStatus.completed ↦ resolve_entry batch s
      ]

  unfoldable pub resolve_batch_handle : Batch → Reader (Store F) BatchHandle
  resolve_batch_handle batch s = elim (get_batch_handle batch.batch_id s) [
    | some handle ↦ ok (with_cache_result handle "hit")
    | none ↦
        get_task_for_batch batch.batch_id s
        >>= elim [ none ↦ resolve_entry batch s | some t ↦ resolve_task batch t s ]
  ]
