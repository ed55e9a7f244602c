-- ===== src/Store/State.antt =====
-- The records of batchflow/coordinator/store.py and the marks of a task state.
use ad_artifacts.Base.{ℕ, String, Option, none, some, List, []}
use ad_artifacts.Core.{
  Dataset, Job, Batch, BatchHandle, PayloadEntry, Worker, MaterializeBatchTask, TaskStatus,
}
use ad_artifacts.Dict.{Dict}
use ad_artifacts.Floats.{Floats}

pub record TaskState (F : Type 0) : Type 0 where
  pub task : MaterializeBatchTask F
  pub status : TaskStatus
  pub assigned_worker_id : Option String
  pub created_at_ms : ℕ
  pub assigned_at_ms : Option ℕ
  pub completed_at_ms : Option ℕ
  pub failed_at_ms : Option ℕ
  pub failure_reason : String

module _ {F : Type 0} where
  -- MaterializeBatchTaskState(task=task)
  unfoldable pub new_task_state : ℕ → MaterializeBatchTask F → TaskState F
  new_task_state now task = record {
    task = task;
    status = TaskStatus.pending;
    assigned_worker_id = none;
    created_at_ms = now;
    assigned_at_ms = none;
    completed_at_ms = none;
    failed_at_ms = none;
    failure_reason = "";
  }

  unfoldable pub mark_running : ℕ → String → TaskState F → TaskState F
  mark_running now worker_id t = record t {
    status = TaskStatus.running;
    assigned_worker_id = some worker_id;
    assigned_at_ms = some now;
  }

  unfoldable pub mark_completed : ℕ → TaskState F → TaskState F
  mark_completed now t = record t { status = TaskStatus.completed; completed_at_ms = some now }

  unfoldable pub mark_failed : ℕ → String → TaskState F → TaskState F
  mark_failed now reason t = record t {
    status = TaskStatus.failed;
    failed_at_ms = some now;
    failure_reason = reason;
  }

  unfoldable pub mark_cancelled : ℕ → String → TaskState F → TaskState F
  mark_cancelled now reason t = record t {
    status = TaskStatus.cancelled;
    failed_at_ms = some now;
    failure_reason = reason;
  }

pub record JobMetrics (F : Type 0) : Type 0 where
  pub get_next_batch_calls : ℕ
  pub pending_batch_requests : ℕ
  pub ready_responses : ℕ
  pub pending_responses : ℕ
  pub failed_responses : ℕ
  pub cache_hits : ℕ
  pub cache_misses : ℕ
  pub cache_in_flight : ℕ
  pub cache_failures : ℕ
  pub materializations : ℕ
  pub last_acknowledged_at_ms : Option ℕ
  pub data_bottleneck_percent : F
  pub avg_data_time_sec : F
  pub avg_compute_time_sec : F
  pub avg_coordinator_wait_total_time_sec : F
  pub avg_coordinator_pending_polls : F
  pub last_runtime_metrics_update_ms : ℕ

-- JobMetrics()
unfoldable pub new_job_metrics : {F : Type 0} ⦃f : Floats F⦄ → JobMetrics F
new_job_metrics ⦃f⦄ = record {
  get_next_batch_calls = 0;
  pending_batch_requests = 0;
  ready_responses = 0;
  pending_responses = 0;
  failed_responses = 0;
  cache_hits = 0;
  cache_misses = 0;
  cache_in_flight = 0;
  cache_failures = 0;
  materializations = 0;
  last_acknowledged_at_ms = none;
  data_bottleneck_percent = f.zero;
  avg_data_time_sec = f.zero;
  avg_compute_time_sec = f.zero;
  avg_coordinator_wait_total_time_sec = f.zero;
  avg_coordinator_pending_polls = f.zero;
  last_runtime_metrics_update_ms = 0;
}

pub record Store (F : Type 0) : Type 0 where
  pub datasets : Dict Dataset
  pub jobs : Dict Job
  pub planned_batches : Dict (List Batch)
  pub tasks : Dict (TaskState F)
  pub tasks_by_batch_id : Dict String
  pub payload_entries : Dict PayloadEntry
  pub batch_handles : Dict BatchHandle
  pub workers : Dict Worker
  pub job_metrics : Dict (JobMetrics F)
  pub preparation_time_ema : Dict F
  pub payload_size_ema : Dict F
  pub payload_pins : Dict (List String)
  pub job_payload_pins : Dict (List String)

-- CoordinatorStore()
unfoldable pub new_store : (F : Type 0) → Store F
new_store F = record {
  datasets = [];
  jobs = [];
  planned_batches = [];
  tasks = [];
  tasks_by_batch_id = [];
  payload_entries = [];
  batch_handles = [];
  workers = [];
  job_metrics = [];
  preparation_time_ema = [];
  payload_size_ema = [];
  payload_pins = [];
  job_payload_pins = [];
}
