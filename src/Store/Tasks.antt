-- ===== src/Store/Tasks.antt =====
-- Materialization tasks of batchflow/coordinator/store.py: creation, assignment, completion and failure.
use ad_artifacts.Base.{
  ℕ, String, Bool, true, false, not, Option, none, some, List, [], ◌∷◌, ◌==◌, if◌then◌else◌, select,
  count_if,
}
use ad_artifacts.Base.Int.{pos}
use ad_artifacts.Core.{
  Batch, BatchHandle, PayloadEntry, PayloadStatus, MaterializeBatchTask, TaskStatus, Value, text,
  int, cache_key, Result, ok, raise, or_raise, unknown_task, no_such_key,
}
use ad_artifacts.Core as Core
use ad_artifacts.Exec.{Exec, Reader, pure, reads, modify, ◌>>=◌, ◌>>◌}
use ad_artifacts.Dict.{get, put, remove, update, values, add, discard}
use ad_artifacts.Store.State.{
  Store, TaskState, new_task_state, mark_running, mark_completed, mark_failed, mark_cancelled,
}
use ad_artifacts.Store.Jobs.{is_job_active, get_worker, is_pending}
use ad_artifacts.Store.Metrics.{note_materialization_completed}

-- status in (PENDING, RUNNING)
abbrev pub is_in_progress : TaskStatus → Bool
is_in_progress TaskStatus.pending = true
is_in_progress TaskStatus.running = true
is_in_progress _ = false

-- status in (PENDING, RUNNING, COMPLETED); the other two statuses free the batch for a new task.
abbrev pub is_reusable : TaskStatus → Bool
is_reusable TaskStatus.failed = false
is_reusable TaskStatus.cancelled = false
is_reusable _ = true

-- `if entry.status == FAILED`: a failed entry goes back to pending.
unfoldable pub revive_entry : PayloadEntry → PayloadEntry
revive_entry e = elim e.status [
  | PayloadStatus.failed ↦ record e {
    status = PayloadStatus.pending;
    metadata = remove "failure_reason" e.metadata;
  }
  | _ ↦ e
]

-- `entry.status = FAILED`, with the reason in the metadata.
unfoldable pub fail_entry : String → PayloadEntry → PayloadEntry
fail_entry reason e = record e {
  status = PayloadStatus.failed;
  metadata = put "failure_reason" (text reason) e.metadata;
}

module _ {F : Type 0} where
  unfoldable pub get_task : String → Reader (Store F) (TaskState F)
  get_task task_id s = or_raise (get task_id s.tasks) (unknown_task task_id)

  unfoldable pub get_task_for_batch : String → Reader (Store F) (Option (TaskState F))
  get_task_for_batch batch_id s = elim (get batch_id s.tasks_by_batch_id) [
    | none ↦ ok none
    | some task_id ↦
        Core.◌>>=◌ (or_raise (get task_id s.tasks) (no_such_key task_id)) (λ t. ok (some t))
  ]

  unfoldable pub list_pending_tasks : Store F → List (TaskState F)
  list_pending_tasks s = select is_pending (values s.tasks)

  unfoldable pub count_pending_tasks : Store F → ℕ
  count_pending_tasks s = count_if is_pending (values s.tasks)

  -- `job_id and not self.is_job_active(job_id)`
  unfoldable pub is_orphaned : String → Reader (Store F) Bool
  is_orphaned job_id s =
      if job_id == "" then ok false else Core.◌>>=◌ (is_job_active job_id s) (λ a. ok (not a))

  -- The entry of a batch that is being prepared.
  abbrev pub pending_entry : ℕ → MaterializeBatchTask F → PayloadEntry
  pending_entry now task = record {
    cache_key = cache_key task.batch;
    status = PayloadStatus.pending;
    storage_class = task.storage_class;
    location = none;
    size_bytes = pos 0;
    worker_id = none;
    created_at_ms = now;
    last_accessed_at_ms = now;
    expires_at_ms = none;
    access_count = 0;
    metadata =
        ("batch_id", text task.batch.batch_id)
        ∷ ("job_id", text task.job_id)
        ∷ ("dataset_id", text task.batch.dataset_id)
        ∷ ("epoch", int (pos task.batch.epoch))
        ∷ ("batch_index", int (pos task.batch.batch_index))
        ∷ [];
  }

  unfoldable pub register_payload : ℕ → MaterializeBatchTask F → Store F → Store F
  register_payload now task s = elim (get (cache_key task.batch) s.payload_entries) [
    | none ↦ record s {
      payload_entries = put (cache_key task.batch) (pending_entry now task) s.payload_entries;
    }
    | some e ↦ record s {
      payload_entries = update (cache_key task.batch) revive_entry s.payload_entries;
    }
  ]

  -- The end of `create_task`: a fresh state under the task's and the batch's id, and a payload entry.
  unfoldable pub enter_task : ℕ → MaterializeBatchTask F → Store F → Result (TaskState F) × Store F
  enter_task now task s =
      let state : TaskState F = new_task_state now task in
      (
        ok state,
        register_payload now task (record s {
          tasks = put task.task_id state s.tasks;
          tasks_by_batch_id = put task.batch.batch_id task.task_id s.tasks_by_batch_id;
        }),
      )

  -- The middle of `create_task`: what an earlier task for the batch decides.
  unfoldable pub create_unless_known :
      ℕ → MaterializeBatchTask F → Option String → Exec (Store F) (TaskState F)
  create_unless_known now task none = enter_task now task
  create_unless_known now task (some existing_task_id) = do
    existing ← reads (λ s. or_raise (get existing_task_id s.tasks) (no_such_key existing_task_id))
    if is_reusable existing.status then pure existing else do
      modify (λ s. record s { tasks_by_batch_id = remove task.batch.batch_id s.tasks_by_batch_id })
      enter_task now task

  unfoldable pub create_task : ℕ → MaterializeBatchTask F → Exec (Store F) (TaskState F)
  create_task now task = do
    orphaned ← reads (is_orphaned task.job_id)
    if orphaned
        then pure (mark_cancelled now "job is not active" (new_task_state now task))
        else λ s. create_unless_known now task (get task.batch.batch_id s.tasks_by_batch_id) s

  -- What a write to an attribute of the shared task state does.
  abbrev pub set_task : String → (TaskState F → TaskState F) → Store F → Store F
  set_task task_id f s = record s { tasks = update task_id f s.tasks }

  unfoldable pub assign_task_to_worker : ℕ → String → String → Exec (Store F) (TaskState F)
  assign_task_to_worker now task_id worker_id = do
    state ← reads (get_task task_id)
    _worker ← reads (get_worker worker_id)
    if not (is_pending state) then pure state else do
      orphaned ← reads (is_orphaned state.task.job_id)
      if orphaned
          then (do
            modify (set_task task_id (mark_cancelled now "job closed before assignment"))
            reads (get_task task_id))
          else do
            modify (set_task task_id (mark_running now worker_id))
            modify (λ s. record s {
              workers =
                  update worker_id
                    (λ w. record w { active_task_ids = add task_id w.active_task_ids }) s.workers;
            })
            reads (get_task task_id)

  -- `worker.active_task_ids.discard(task_id)` for the assigned worker, if it is known.
  unfoldable pub release_worker : String → Option String → Store F → Store F
  release_worker task_id none s = s
  release_worker task_id (some worker_id) s = record s {
    workers =
        update worker_id (λ w. record w { active_task_ids = discard task_id w.active_task_ids })
          s.workers;
  }

  unfoldable pub complete_task :
      ℕ → String → PayloadEntry → BatchHandle → Exec (Store F) (TaskState F)
  complete_task now task_id payload_entry batch_handle = do
    state ← reads (get_task task_id)
    modify (set_task task_id (mark_completed now))
    modify (release_worker task_id state.assigned_worker_id)
    modify (λ s. record s {
      payload_entries = put payload_entry.cache_key payload_entry s.payload_entries;
      batch_handles = put state.task.batch.batch_id batch_handle s.batch_handles;
    })
    if state.task.job_id == ""
        then reads (get_task task_id)
        else do note_materialization_completed state.task.job_id; reads (get_task task_id)

  unfoldable pub fail_task : ℕ → String → String → Exec (Store F) (TaskState F)
  fail_task now task_id reason = do
    state ← reads (get_task task_id)
    modify (set_task task_id (mark_failed now reason))
    modify (release_worker task_id state.assigned_worker_id)
    modify (λ s. record s {
      payload_entries = update (cache_key state.task.batch) (fail_entry reason) s.payload_entries;
    })
    reads (get_task task_id)
