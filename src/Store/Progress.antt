-- ===== src/Store/Progress.antt =====
-- Jobs over time: a closed job stays closed, progress advances a batch at a time, and finishing a job
-- cancels what is left of its work.
use ad_artifacts.Base.{
  str_append, ℕ, ◌+◌, String, ◌≡◌, Bool, true, false, ◌&&◌, none, some, List, [], ◌∷◌, ◌==◌,
  if◌then◌else◌, arith, eq_iff, eqb, ◌⊎◌, Option-cases, inl, inr, eq_refl, ap,
}
use mathlib.Core.Option
use ad_artifacts.Base.Int.{ℤ}
use ad_artifacts.Core.{Job, JobStatus, TaskStatus, ok}
use ad_artifacts.Floats.{Floats}
use ad_artifacts.Dict.{get}
use ad_artifacts.Dict.Laws.{get-put, get-update}
use ad_artifacts.Dict.Distinct.{get-map_values}
use ad_artifacts.Store.State.{Store, TaskState, mark_cancelled}
use ad_artifacts.Store.Jobs.{
  is_active, get_job, register_dataset, start_job, finish_job, update_job_progress,
  issue_batch_to_job, register_worker, heartbeat_worker, cancel_if_pending,
}
use ad_artifacts.Store.Metrics.{
  change_metrics, note_get_next_batch_call, note_batch_handle_served,
  note_materialization_completed, update_job_runtime_metrics, update_preparation_time,
  update_payload_size_estimate,
}
use ad_artifacts.Store.Plans.{set_planned_window, acknowledge_batch}
use ad_artifacts.Store.Tasks.{
  register_payload, enter_task, create_unless_known, create_task, assign_task_to_worker,
  release_worker, complete_task, fail_task,
}
use ad_artifacts.Store.Payloads.{
  pin_payload, unpin_payload, release_job_payload_pins, forget_task, drop_payload, remove_payload,
  touch_payload, put_payload_entry, delete_payload_entry, put_batch_handle, delete_batch_handle,
}
use ad_artifacts.Store.Completion.{awaits}
use ad_artifacts.Store.Calls.{Call, step, run}

abbrev pub move_to : ℕ → Job → Job
move_to batch_index job = record job {
  progress = record (job.progress) { next_batch_index = batch_index + 1 };
}

-- The job is active, in that epoch, and waits for that batch.
abbrev stands_at : ℕ → ℕ → Job → Bool
stands_at epoch batch_index job =
    is_active job && eqb job.progress.epoch epoch && eqb job.progress.next_batch_index batch_index

-- Issuing a batch to a known job moves its next index past the batch if the job is active and stands at
-- that epoch and batch, and leaves the job as it is otherwise; the returned job is the stored one, and
-- no other job changes.
pub issue_batch_to_job_lem :
    {F : Type 0} (s : Store F) (job : Job) (job_id batch_id : String) (epoch batch_index : ℕ)
    → get job_id s.jobs ≡ some job
    → let after : Job = if stands_at epoch batch_index job then move_to batch_index job else job in
      let (result, t) = issue_batch_to_job job_id batch_id epoch batch_index s in
      (result ≡ ok after)
      × ((j : String) → get j t.jobs ≡ (if job_id == j then some after else get j s.jobs))
unfolding issue_batch_to_job get_job
issue_batch_to_job_lem s job job_id batch_id epoch batch_index found =
    let here = get-update job_id job_id (move_to batch_index) s.jobs in
    (
      ground (arith, here, eq_refl job_id),
      λ j. ground (
        arith,
        get-update job_id j (move_to batch_index) s.jobs,
        eq_refl job_id,
        here,
        eq_iff job_id j,
        ap (λ k. get k s.jobs),
      ),
    )

abbrev acknowledged : String → ℤ → Job → Job
acknowledged batch_id batch_index job = record job {
  progress = record (job.progress) { last_batch_id = batch_id; last_batch_index = batch_index };
}

-- How a job ended: its status and the reason.
abbrev pub outcome : Job → JobStatus × String
outcome j = (j.status, j.closed_reason)

-- Where a job stands: its epoch and its next batch.
abbrev pub position : Job → ℕ × ℕ
position j = (j.progress.epoch, j.progress.next_batch_index)

abbrev sets_progress : {F : Type 0} → Call F → Bool
sets_progress (Call.update_job_progress job_id progress) = true
sets_progress _ = false

module _ {F : Type 0} ⦃f : Floats F⦄ where
  remove_payload-jobs : (key : String) (s : Store F) → (remove_payload key s).1.jobs ≡ s.jobs
  unfolding remove_payload drop_payload forget_task
  remove_payload-jobs key s = ground arith

  -- No call reopens a closed job or changes how it ended.
  pub step-closed_stays :
      (c : Call F) (s : Store F) (j : String) (job : Job)
      → get j s.jobs ≡ some job
      → is_active job ≡ false
      → Option.map outcome (get j (step c s).jobs) ≡ some (outcome job)
  unfolding step register_dataset start_job finish_job update_job_progress issue_batch_to_job
      register_worker heartbeat_worker change_metrics note_get_next_batch_call
      note_batch_handle_served note_materialization_completed update_job_runtime_metrics
      update_preparation_time update_payload_size_estimate set_planned_window acknowledge_batch
      register_payload enter_task create_unless_known create_task assign_task_to_worker
      release_worker complete_task fail_task touch_payload pin_payload unpin_payload
      release_job_payload_pins get_job put_payload_entry delete_payload_entry put_batch_handle
      delete_batch_handle
  step-closed_stays (Call.remove_payload key) s j job found closed =
      rw (remove_payload-jobs key s) (ground arith)
  step-closed_stays (Call.start_job new) s j job found closed =
      ground (arith, get-put new.job_id j new s.jobs, eq_iff new.job_id j, ap (λ k. get k s.jobs))
  step-closed_stays (Call.finish_job now k reason status) s j job found closed = ground (
    arith,
    get-update k j (λ x. record x { status = status; closed_reason = reason }) s.jobs,
    eq_iff k j,
    ap (λ z. get z s.jobs),
  )
  step-closed_stays (Call.update_job_progress k progress) s j job found closed =
      ground (arith, get-update k j (λ x. record x { progress = progress }) s.jobs)
  step-closed_stays (Call.issue_batch_to_job k b epoch index) s j job found closed =
      ground (arith, get-update k j (move_to index) s.jobs)
  step-closed_stays (Call.acknowledge_batch now k b index) s j job found closed =
      ground (arith, get-update k j (acknowledged b index) s.jobs)
  step-closed_stays _ s j job found closed = ground arith

  -- However long the run, a closed job stays closed as it was closed.
  pub run-closed_stays :
      (cs : List (Call F)) (s : Store F) (j : String) (job : Job)
      → get j s.jobs ≡ some job
      → is_active job ≡ false
      → Option.map outcome (get j (run cs s).jobs) ≡ some (outcome job)
  unfolding run
  run-closed_stays [] s j job found closed = ground arith
  run-closed_stays (c ∷ cs) s j job found closed =
      after (Option-cases (get j (step c s).jobs)) (step-closed_stays c s j job found closed)
        (run-closed_stays cs (step c s) j)
    where
      after :
          (get j (step c s).jobs ≡ none) ⊎ ((a : Job) × (get j (step c s).jobs ≡ some a))
          → Option.map outcome (get j (step c s).jobs) ≡ some (outcome job)
          → ((a : Job)
              → get j (step c s).jobs ≡ some a
              → is_active a ≡ false
              → Option.map outcome (get j (run cs (step c s)).jobs) ≡ some (outcome a))
          → Option.map outcome (get j (run cs (step c s)).jobs) ≡ some (outcome job)
      after (inl gone) same rest = absurd (ground arith)
      after (inr (a, here)) same rest = ground (arith, rest a)

  -- Apart from `update_job_progress`, a call leaves a job's position as it is, or moves the job on by one
  -- batch in its epoch.
  pub step-position :
      (c : Call F) (s : Store F) (j : String) (job : Job)
      → get j s.jobs ≡ some job
      → sets_progress c ≡ false
      → let now = Option.map position (get j (step c s).jobs) in
        (now ≡ some (position job))
        ⊎ (now ≡ some (job.progress.epoch, job.progress.next_batch_index + 1))
  unfolding step register_dataset start_job finish_job issue_batch_to_job register_worker
      heartbeat_worker change_metrics note_get_next_batch_call note_batch_handle_served
      note_materialization_completed update_job_runtime_metrics update_preparation_time
      update_payload_size_estimate set_planned_window acknowledge_batch register_payload enter_task
      create_unless_known create_task assign_task_to_worker release_worker complete_task fail_task
      touch_payload pin_payload unpin_payload release_job_payload_pins get_job put_payload_entry
      delete_payload_entry put_batch_handle delete_batch_handle
  step-position (Call.remove_payload key) s j job found e =
      rw (remove_payload-jobs key s) (inl (ground arith))
  step-position (Call.start_job new) s j job found e =
      inl (
        ground
          (arith, get-put new.job_id j new s.jobs, eq_iff new.job_id j, ap (λ k. get k s.jobs)))
  step-position (Call.finish_job now k reason status) s j job found e = inl (
      ground
        (arith, get-update k j (λ x. record x { status = status; closed_reason = reason }) s.jobs))
  step-position (Call.issue_batch_to_job k b epoch index) s j job found e =
      ground (arith, get-update k j (move_to index) s.jobs, eq_iff k j, ap (λ z. get z s.jobs))
  step-position (Call.acknowledge_batch now k b index) s j job found e =
      inl (ground (arith, get-update k j (acknowledged b index) s.jobs))
  step-position (Call.update_job_progress k progress) s j job found e = cc
  step-position _ s j job found e = inl (ground arith)

-- Finishing an active job closes it with the status and the reason, gives its tasks that wait for a
-- worker the status cancelled, the time and the reason after `job finished: `, and leaves every other task as it is.
pub finish_job-cancels :
    {F : Type 0} (s : Store F) (job : Job) (now : ℕ) (job_id reason : String) (status : JobStatus)
    (task_id : String) (t : TaskState F)
    → get job_id s.jobs ≡ some job
    → is_active job ≡ true
    → get task_id s.tasks ≡ some t
    → let s' = (finish_job now job_id reason status s).1 in
      let waits = (t.task.job_id == job_id) && awaits t.status in
      (get job_id s'.jobs ≡ some (record job { status = status; closed_reason = reason }))
      × (get task_id s'.tasks
          ≡ some (
              if waits
              then record t {
                status = TaskStatus.cancelled;
                failed_at_ms = some now;
                failure_reason = str_append "job finished: " reason;
              }
              else t))
unfolding finish_job get_job cancel_if_pending mark_cancelled
finish_job-cancels s job now job_id reason status task_id t found active here = (
  ground (
    arith,
    get-update job_id job_id (λ x. record x { status = status; closed_reason = reason }) s.jobs,
    eq_refl job_id,
  ),
  ground (arith, get-map_values task_id (cancel_if_pending now job_id reason) s.tasks),
)
