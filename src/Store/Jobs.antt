-- ===== src/Store/Jobs.antt =====
-- Datasets, jobs and workers: their registration, lookup and life cycle, from batchflow/coordinator/store.py.
use ad_artifacts.Base.{
  ℕ, ◌+◌, String, Bool, true, false, not, Option, none, some, List, [], ◌∷◌, ◌==◌, eqb,
  if◌then◌else◌, select, count_if, str_append,
}
use ad_artifacts.Core.{
  Dataset, Job, JobStatus, JobProgress, Worker, Metadata, TaskStatus, Result, ok, raise, or_raise,
  Error, unknown_dataset, unknown_job, unknown_worker, job_already_exists,
}
use ad_artifacts.Core as Core
use ad_artifacts.Exec.{Exec, Reader, pure, throw, reads, modify, ◌>>=◌, ◌>>◌}
use ad_artifacts.Floats.{Floats}
use ad_artifacts.Dict.{get, put, update, map_values, values, has}
use ad_artifacts.Store.State.{Store, TaskState, new_job_metrics, mark_cancelled}

-- job.status == JobStatus.ACTIVE
abbrev pub is_active : Job → Bool
is_active j = elim j.status [ JobStatus.active ↦ true | _ ↦ false ]

abbrev pub is_pending : {F : Type 0} → TaskState F → Bool
is_pending t = elim t.status [ TaskStatus.pending ↦ true | _ ↦ false ]

module _ {F : Type 0} where
  unfoldable pub register_dataset : Dataset → Store F → Store F
  register_dataset d s = record s { datasets = put d.dataset_id d s.datasets }

  unfoldable pub get_dataset : String → Reader (Store F) Dataset
  get_dataset dataset_id s = or_raise (get dataset_id s.datasets) (unknown_dataset dataset_id)

  abbrev pub list_datasets : Store F → List Dataset
  list_datasets s = values s.datasets

  unfoldable pub get_job : String → Reader (Store F) Job
  get_job job_id s = or_raise (get job_id s.jobs) (unknown_job job_id)

  abbrev pub list_jobs : Store F → List Job
  list_jobs s = values s.jobs

  abbrev pub list_active_jobs : Store F → List Job
  list_active_jobs s = select is_active (values s.jobs)

  unfoldable pub is_job_active : String → Reader (Store F) Bool
  is_job_active job_id s = Core.◌>>=◌ (get_job job_id s) (λ job. ok (is_active job))

  -- What a write to an attribute of the shared `job` object does.
  abbrev pub set_job : String → (Job → Job) → Store F → Store F
  set_job job_id f s = record s { jobs = update job_id f s.jobs }

  unfoldable pub start_job : ⦃f : Floats F⦄ → Job → Exec (Store F) (Unit {0})
  start_job job s =
      if has job.job_id s.jobs
      then throw (job_already_exists job.job_id) s
      else if not (has job.dataset_id s.datasets)
      then throw (unknown_dataset job.dataset_id) s
      else modify
          (λ t. record t {
            jobs = put job.job_id job t.jobs;
            planned_batches = put job.job_id [] t.planned_batches;
            job_metrics = put job.job_id new_job_metrics t.job_metrics;
          })
          s

  -- One round of the loop of `finish_job` over the task states.
  unfoldable pub cancel_if_pending : ℕ → String → String → TaskState F → TaskState F
  cancel_if_pending now job_id reason t =
      if not (t.task.job_id == job_id)
      then t
      else if is_pending t
      then mark_cancelled now (str_append "job finished: " reason) t
      else t

  unfoldable pub finish_job : ℕ → String → String → JobStatus → Exec (Store F) Job
  finish_job now job_id reason status = do
    job ← reads (get_job job_id)
    if not (is_active job) then pure job else do
      modify (set_job job_id (λ j. record j { status = status; closed_reason = reason }))
      modify (λ s. record s { tasks = map_values (cancel_if_pending now job_id reason) s.tasks })
      reads (get_job job_id)

  unfoldable pub update_job_progress : String → JobProgress → Exec (Store F) Job
  update_job_progress job_id progress = do
    reads (get_job job_id) >>= λ _. modify (set_job job_id (λ j. record j { progress = progress }))
    reads (get_job job_id)

  unfoldable pub issue_batch_to_job : String → String → ℕ → ℕ → Exec (Store F) Job
  issue_batch_to_job job_id batch_id epoch batch_index = do
    job ← reads (get_job job_id)
    if not (is_active job)
        then pure job
        else if not (eqb job.progress.epoch epoch)
        then pure job
        else if not (eqb job.progress.next_batch_index batch_index)
        then pure job
        else do
          modify (
              set_job job_id (λ j. record j {
                progress = record (j.progress) { next_batch_index = batch_index + 1 };
              }))
          reads (get_job job_id)

  unfoldable pub register_worker :
      ℕ → String → String → Option Metadata → Store F → Worker × Store F
  register_worker now worker_id hostname metadata s =
      (worker, record s { workers = put worker_id worker s.workers })
    where
      worker : Worker
      worker = record {
        worker_id = worker_id;
        hostname = hostname;
        registered_at_ms = now;
        last_heartbeat_at_ms = now;
        active_task_ids = [];
        metadata = elim metadata [ none ↦ [] | some m ↦ m ];
      }

  unfoldable pub get_worker : String → Reader (Store F) Worker
  get_worker worker_id s = or_raise (get worker_id s.workers) (unknown_worker worker_id)

  unfoldable pub heartbeat_worker : ℕ → String → Exec (Store F) Worker
  heartbeat_worker now worker_id = do
    reads (get_worker worker_id) >>= λ _. modify (λ s. record s {
      workers = update worker_id (λ w. record w { last_heartbeat_at_ms = now }) s.workers;
    })
    reads (get_worker worker_id)

  abbrev pub list_workers : Store F → List Worker
  list_workers s = values s.workers

  unfoldable pub count_idle_workers : Store F → ℕ
  count_idle_workers s =
      count_if (λ w. elim w.active_task_ids [ [] ↦ true | _ ∷ _ ↦ false ]) (values s.workers)
