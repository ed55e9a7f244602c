-- ===== src/Tests.antt =====
-- Data for tests: a dataset of three samples in batches of two, a job on it, tasks for its batches, and a
-- store in which they are registered. Natural numbers stand for the floats.
pub mod Run
pub mod RunService
mod ServiceTests
mod PrefetcherTests
mod StoreTests
mod PlannerTests
mod SchedulerTests
mod WorkerTests
mod CacheTests
mod StagingTests
use ad_artifacts.Base.{
  ℕ, zero, suc, ◌+◌, ◌-◌, ◌*◌, ◌/◌, String, Bool, true, false, Option, none, some, List, [], ◌∷◌,
  ltb, leb,
}
use ad_artifacts.Base.Int.{ℤ, pos, pos_part}
use ad_artifacts.Base.Decimal.{show_ℕ}
use ad_artifacts.Base.Numerals.{parse_int}
use mathlib.Core.Option
use ad_artifacts.Core.{
  PayloadFormat, torch_batch, Sample, Dataset, Batch, Job, create_job, BatchHandle, HandleStatus,
  PayloadEntry, PayloadStatus, StorageClass, MaterializeBatchTask, text,
}
use ad_artifacts.Floats.{Floats}
use ad_artifacts.Store.State.{Store, new_store, TaskState, new_task_state, mark_running}
use ad_artifacts.Store.Calls.{Call, run}

instance unfoldable pub nat_floats : Floats ℕ
nat_floats = record {
  zero = 0;
  one = 1;
  of_ℤ = pos_part;
  add = ◌+◌;
  sub = ◌-◌;
  mul = ◌*◌;
  div = λ a b. elim b [ zero ↦ 0 | suc n ↦ a / suc n ];
  lt = ltb;
  le = leb;
  ceil = λ n. some (pos n);
  round = λ n. some (pos n);
  trunc = pos;
  show = show_ℕ;
  parse = λ s. Option.map pos_part (parse_int s);
}

abbrev pub sample : String → Sample
sample id = record {
  sample_id = id;
  source_uri = id;
  label = none;
  class_name = none;
  transform_name = none;
}

abbrev pub dataset : Dataset
dataset = record {
  dataset_id = "ds";
  samples = sample "a" ∷ sample "b" ∷ sample "c" ∷ [];
  batch_size = pos 2;
  payload_format = torch_batch;
  dataset_format = "images";
  drop_last = false;
  shuffle = false;
  seed = pos 0;
  transform_name = none;
  metadata = [];
}

abbrev pub dropping_dataset : Dataset
dropping_dataset = record dataset { drop_last = true }

abbrev pub job : Job
job = create_job 5 "job-1" "ds" (pos 4) []

abbrev pub batch : Batch
batch = record {
  batch_id = "b-0";
  dataset_id = "ds";
  epoch = 0;
  batch_index = 0;
  batch_size = pos 2;
  samples = sample "a" ∷ sample "b" ∷ [];
  planned_at_ms = 6;
  transform_name = none;
  metadata = [];
}

abbrev pub task : MaterializeBatchTask ℕ
task = record {
  task_id = "t-0";
  batch = batch;
  job_id = "job-1";
  priority = 7;
  storage_class = StorageClass.reusable;
  payload_format = torch_batch;
  dataset_format = "images";
  created_at_ms = 7;
  not_before_ms = 0;
  metadata = [];
}

abbrev pub other_task : MaterializeBatchTask ℕ
other_task = record task {
  task_id = "t-1";
  batch = record batch { batch_id = "b-1"; batch_index = 1 };
  priority = 9;
  metadata = ("opportunistic_prefetch", text "True") ∷ [];
}

abbrev pub handle : BatchHandle
handle = record {
  batch_id = "b-0";
  cache_key = "b-0";
  status = HandleStatus.ready;
  fetch_host = "host";
  fetch_port = pos 9;
  fetch_key = "b-0";
  payload_format = some torch_batch;
  dataset_format = "images";
  location = "grpc://host:9";
  expires_at_ms = none;
  metadata = [];
}

abbrev pub entry : PayloadEntry
entry = record {
  cache_key = "b-0";
  status = PayloadStatus.available;
  storage_class = StorageClass.reusable;
  location = some "grpc://host:9";
  size_bytes = pos 3;
  worker_id = some "w-1";
  created_at_ms = 9;
  last_accessed_at_ms = 9;
  expires_at_ms = none;
  access_count = 0;
  metadata = [];
}

-- A job and a worker are there, and nothing is planned or prepared.
abbrev pub opening : List (Call ℕ)
opening =
    Call.register_dataset dataset
    ∷ Call.start_job job
    ∷ Call.register_worker 5 "w-1" "host" none
    ∷ Call.set_planned_window "job-1" (batch ∷ [])
    ∷ []

abbrev pub opened : Store ℕ
opened = run opening (new_store ℕ)

-- Two tasks wait, and the payload of the first one's batch is pinned.
abbrev pub calls : List (Call ℕ)
calls =
    Call.register_dataset dataset
    ∷ Call.start_job job
    ∷ Call.register_worker 5 "w-1" "host" none
    ∷ Call.set_planned_window "job-1" (batch ∷ [])
    ∷ Call.create_task 8 task
    ∷ Call.create_task 8 other_task
    ∷ Call.pin_payload "b-0" "job-1"
    ∷ []

abbrev pub waiting : Store ℕ
waiting = run calls (new_store ℕ)

-- The first task runs.
abbrev pub running_store : Store ℕ
running_store = run (Call.assign_task_to_worker 9 "t-0" "w-1" ∷ []) waiting

abbrev pub waiting_task : TaskState ℕ
waiting_task = new_task_state 8 task

abbrev pub running_task : TaskState ℕ
running_task = mark_running 9 "w-1" waiting_task

-- The first task's batch is ready.
abbrev pub ready_store : Store ℕ
ready_store = run (Call.complete_task 10 "t-0" entry handle ∷ []) running_store
