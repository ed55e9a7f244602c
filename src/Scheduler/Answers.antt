-- ===== src/Scheduler/Answers.antt =====
-- What a client and the planner are told after the store has changed.
use ad_artifacts.Base.{
  ℕ, String, ◌≡◌, false, not, ◌&&◌, none, some, [], ◌∷◌, arith, eq_refl, ap, if◌then◌else◌, ◌==◌,
}
use ad_artifacts.Base.Int.{pos}
use ad_artifacts.Core.{
  Batch, Dataset, BatchHandle, HandleStatus, MaterializeBatchTask, PayloadEntry, ok, text,
  cache_key,
}
use ad_artifacts.Dict.{get}
use ad_artifacts.Dict.Laws.{get-update}
use ad_artifacts.Store.State.{Store, TaskState, new_task_state, mark_failed}
use ad_artifacts.Store.Jobs.{get_dataset}
use ad_artifacts.Store.Plans.{is_batch_ready, is_batch_in_progress}
use ad_artifacts.Store.Tasks.{
  create_task, complete_task, fail_task, get_task, get_task_for_batch, is_orphaned, is_in_progress,
  release_worker, enter_task, register_payload, create_unless_known,
}
use ad_artifacts.Store.Payloads.{get_batch_handle}
use ad_artifacts.Store.Completion.{create_task_lem, complete_task_lem}
use ad_artifacts.Scheduler.Choose.{should_materialize}
use ad_artifacts.Scheduler.Handles.{
  resolve_batch_handle, reason_of, pending_handle, failed_handle, unready_handle, with_cache_result,
}

module _ {F : Type 0} where
  -- A batch is to be materialized exactly if no handle is stored for it and no task waits or runs for it.
  should_materialize-covered :
      (s : Store F) (batch : Batch) (t : TaskState F)
      → get_task_for_batch batch.batch_id s ≡ ok (some t)
      → should_materialize batch s
        ≡ ok (not (is_batch_ready batch.batch_id s) && not (is_in_progress t.status))
  unfolding should_materialize is_batch_in_progress
  should_materialize-covered s batch t known = ground (arith, known)

  create_task-handles :
      (s : Store F) (now : ℕ) (task : MaterializeBatchTask F)
      → ((create_task now task s).1.batch_handles ≡ s.batch_handles)
        × ((create_task now task s).1.datasets ≡ s.datasets)
  unfolding create_task create_unless_known enter_task register_payload
  create_task-handles s now task = (ground arith, ground arith)

  -- Once a task that is owned by no job or by an active one was created for a batch of a registered dataset
  -- that had no task and no handle, the batch is not materialized a second time, and a client that asks for
  -- it is told to wait, with the task's id.
  pub create_task-resolve_batch_handle :
      (s : Store F) (now : ℕ) (task : MaterializeBatchTask F) (d : Dataset)
      → is_orphaned task.job_id s ≡ ok false
      → get_task_for_batch task.batch.batch_id s ≡ ok none
      → get task.batch.batch_id s.batch_handles ≡ none
      → get task.batch.dataset_id s.datasets ≡ some d
      → let s' = (create_task now task s).1 in
        (should_materialize task.batch s' ≡ ok false)
        × (resolve_batch_handle task.batch s'
            ≡ ok (
                unready_handle task.batch HandleStatus.pending d
                  (("cache_result", text "in_flight") ∷ ("task_id", text task.task_id) ∷ [])))
  unfolding resolve_batch_handle should_materialize is_batch_in_progress get_batch_handle
      is_batch_ready pending_handle get_dataset new_task_state
  create_task-resolve_batch_handle s now task d owner fresh unready registered =
      let (_, found, _) = create_task_lem s now task none owner fresh in
      let (handles, datasets) = create_task-handles s now task in
      (ground (arith, found, handles), ground (arith, found, handles, datasets))

  fail_task-tables :
      (s : Store F) (now : ℕ) (task_id reason : String) (t : TaskState F)
      → get task_id s.tasks ≡ some t
      → let s' = (fail_task now task_id reason s).1 in
        (s'.batch_handles ≡ s.batch_handles)
        × (s'.tasks_by_batch_id ≡ s.tasks_by_batch_id)
        × (s'.datasets ≡ s.datasets)
        × (get task_id s'.tasks ≡ some (mark_failed now reason t))
  unfolding fail_task get_task release_worker
  fail_task-tables s now task_id reason t known = (
    ground (arith),
    ground (arith),
    ground (arith),
    ground (arith, get-update task_id task_id (mark_failed now reason) s.tasks, eq_refl task_id),
  )

  -- After a known task failed, a client that asks for its batch, which is of a registered dataset, not ready
  -- and indexed under that task, is told so: the answer is a handle with the status failed, the id and the key of the batch, the formats of the
  -- dataset, no place to fetch from, and the metadata `cache_result`, `reason` and `task_id`; the reason is that of the
  -- failure, or `task status=failed` if it was empty.
  pub fail_task-resolve_batch_handle :
      (s : Store F) (now : ℕ) (task_id reason : String) (t : TaskState F) (d : Dataset)
      → get task_id s.tasks ≡ some t
      → get t.task.batch.batch_id s.tasks_by_batch_id ≡ some task_id
      → get t.task.batch.batch_id s.batch_handles ≡ none
      → get t.task.batch.dataset_id s.datasets ≡ some d
      → let s' = (fail_task now task_id reason s).1 in
        resolve_batch_handle t.task.batch s'
        ≡ ok (record {
          batch_id = t.task.batch.batch_id;
          cache_key = cache_key t.task.batch;
          status = HandleStatus.failed;
          fetch_host = "";
          fetch_port = pos 0;
          fetch_key = "";
          payload_format = some d.payload_format;
          dataset_format = d.dataset_format;
          location = "";
          expires_at_ms = none;
          metadata =
              ("cache_result", text "failed")
              ∷ ("reason", text (if reason == "" then "task status=failed" else reason))
              ∷ ("task_id", text t.task.task_id)
              ∷ [];
        })
  unfolding resolve_batch_handle get_task_for_batch failed_handle get_dataset get_batch_handle
      mark_failed reason_of
  fail_task-resolve_batch_handle s now task_id reason t d known indexed unready registered =
      let (handles, index, datasets, marked) = fail_task-tables s now task_id reason t known in
      ground (
        arith,
        handles,
        index,
        datasets,
        marked,
        ap (get t.task.batch.batch_id) handles,
        ap (get t.task.batch.batch_id) index,
      )

  -- After a known task completed, a client that asks for its batch is given the handle it was completed
  -- with, as a cache hit, and the batch is not materialized again.
  pub complete_task-resolve_batch_handle :
      (s : Store F) (now : ℕ) (task_id : String) (t : TaskState F) (entry : PayloadEntry)
      (handle : BatchHandle)
      → get task_id s.tasks ≡ some t
      → let s' = (complete_task now task_id entry handle s).1 in
        (resolve_batch_handle t.task.batch s' ≡ ok (with_cache_result handle "hit"))
        × (should_materialize t.task.batch s' ≡ ok false)
  unfolding resolve_batch_handle should_materialize is_batch_ready get_batch_handle
  complete_task-resolve_batch_handle s now task_id t entry handle known =
      let (_, handles, _, _) = complete_task_lem s now task_id t known entry handle in
      let ready = handles t.task.batch.batch_id in
      let same = eq_refl t.task.batch.batch_id in
      (ground (arith, ready, same), ground (arith, ready, same))
