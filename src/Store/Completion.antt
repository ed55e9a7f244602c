-- ===== src/Store/Completion.antt =====
-- The life of a materialization task: creation, assignment, completion, failure and retry.
use ad_artifacts.Base.{
  true, ℕ, String, ◌≡◌, refl, Bool, false, not, Option, none, some, ◌==◌, if◌then◌else◌, arith,
  eq_iff, ◌⊎◌, eq_refl, ◌&&◌, ◌||◌, Option-cases, Bool-cases, inl, inr, ap,
}
use mathlib.Core.Option
use ad_artifacts.Core.{
  MaterializeBatchTask, PayloadEntry, BatchHandle, Worker, ok, cache_key, TaskStatus, PayloadStatus,
  text,
}
use ad_artifacts.Dict.{Dict, get, put, remove, update, member, discard, add}
use ad_artifacts.Dict.Laws.{get-put, get-update}
use ad_artifacts.Dict.Members.{member-discard, member-add}
use ad_artifacts.Store.State.{
  Store, TaskState, new_task_state, mark_running, mark_completed, mark_failed, mark_cancelled,
}
use ad_artifacts.Store.Jobs.{get_worker}
use ad_artifacts.Store.Metrics.{change_metrics, note_materialization_completed}
use ad_artifacts.Store.Tasks.{
  is_reusable, is_orphaned, get_task, get_task_for_batch, enter_task, create_unless_known,
  create_task, assign_task_to_worker, release_worker, complete_task, fail_entry, fail_task,
}
use ad_artifacts.Store.Index.{register_payload-tables}

abbrev pub awaits : TaskStatus → Bool
awaits TaskStatus.pending = true
awaits _ = false

-- The worker is known and has the task among its active ones.
unfoldable pub works_on : String → String → Dict Worker → Bool
works_on worker_id task_id workers = elim (get worker_id workers) [
  | none ↦ false
  | some w ↦ member task_id w.active_task_ids
]

-- The worker that a task is assigned to, if it is assigned, has the task among its active ones.
abbrev pub is_held : Option String → String → Dict Worker → Bool
is_held none task_id workers = false
is_held (some worker_id) task_id workers = works_on worker_id task_id workers

-- Assigning a known task to a known worker: a task that is not pending is returned and nothing changes;
-- a pending task whose job is closed is cancelled, with the time and a reason; any other pending task runs under
-- that worker from now on, which then has it among its active tasks. The returned state is the stored one, and no
-- other task changes.
pub assign_task_to_worker_lem :
    {F : Type 0} (s : Store F) (now : ℕ) (task_id worker_id : String) (t : TaskState F) (w : Worker)
    (orphaned : Bool)
    → get task_id s.tasks ≡ some t
    → get worker_id s.workers ≡ some w
    → is_orphaned t.task.job_id s ≡ ok orphaned
    → let after : TaskState F =
        if not (awaits t.status)
        then t
        else if orphaned
        then record t {
          status = TaskStatus.cancelled;
          failed_at_ms = some now;
          failure_reason = "job closed before assignment";
        }
        else record t {
          status = TaskStatus.running;
          assigned_worker_id = some worker_id;
          assigned_at_ms = some now;
        } in
      let assigned : Bool = awaits t.status && not orphaned in
      let (result, s') = assign_task_to_worker now task_id worker_id s in
      (result ≡ ok after)
      × ((k : String) → get k s'.tasks ≡ (if task_id == k then some after else get k s.tasks))
      × (works_on worker_id task_id s'.workers ≡ (assigned || works_on worker_id task_id s.workers))
unfolding assign_task_to_worker get_task get_worker mark_cancelled mark_running works_on
assign_task_to_worker_lem {F = F} s now task_id worker_id t w orphaned found known owner =
    let cancel : TaskState F → TaskState F = λ x. record x {
      status = TaskStatus.cancelled;
      failed_at_ms = some now;
      failure_reason = "job closed before assignment";
    } in
    let run : TaskState F → TaskState F = λ x. record x {
      status = TaskStatus.running;
      assigned_worker_id = some worker_id;
      assigned_at_ms = some now;
    } in
    (
      ground (
        arith,
        get-update task_id task_id cancel s.tasks,
        get-update task_id task_id run s.tasks,
        eq_refl task_id,
      ),
      λ k. ground (
        arith,
        get-update task_id k cancel s.tasks,
        get-update task_id k run s.tasks,
        eq_iff task_id k,
        ap (λ x. get x s.tasks),
      ),
      ground (
        arith,
        get-update worker_id worker_id
            (λ x. record x { active_task_ids = add task_id x.active_task_ids }) s.workers,
        eq_refl worker_id,
        member-add task_id task_id w.active_task_ids,
        eq_refl task_id,
      ),
    )

release_worker-works_on :
    {F : Type 0} (s : Store F) (task_id worker_id : String)
    → works_on worker_id task_id (release_worker task_id (some worker_id) s).workers ≡ false
unfolding release_worker works_on
release_worker-works_on s task_id worker_id = elim (Option-cases (get worker_id s.workers)) [
  | inl unknown ↦ ground (arith, get-update worker_id worker_id (drop_task task_id) s.workers)
  | inr (w, known) ↦ ground (
    arith,
    get-update worker_id worker_id (drop_task task_id) s.workers,
    member-discard task_id task_id w.active_task_ids,
    eq_refl task_id,
    eq_refl worker_id,
  )
]
  where
    drop_task : String → Worker → Worker
    drop_task id w = record w { active_task_ids = discard id w.active_task_ids }

module _ {F : Type 0} (s : Store F) (now : ℕ) (task_id : String) (t : TaskState F)
    (found : get task_id s.tasks ≡ some t) where
  complete_task-workers :
      (entry : PayloadEntry) (handle : BatchHandle)
      → (complete_task now task_id entry handle s).1.workers
        ≡ (release_worker task_id t.assigned_worker_id
            (record s { tasks = update task_id (mark_completed now) s.tasks })).workers
  unfolding complete_task get_task note_materialization_completed change_metrics
  complete_task-workers entry handle = ground arith

  fail_task-workers :
      (reason : String)
      → (fail_task now task_id reason s).1.workers
        ≡ (release_worker task_id t.assigned_worker_id
            (record s { tasks = update task_id (mark_failed now reason) s.tasks })).workers
  unfolding fail_task get_task
  fail_task-workers reason = ground arith

  complete_task-is_held :
      (entry : PayloadEntry) (handle : BatchHandle)
      → is_held t.assigned_worker_id task_id (complete_task now task_id entry handle s).1.workers
        ≡ false
  complete_task-is_held entry handle = elim (Option-cases t.assigned_worker_id) [
    | inl e ↦ rw e refl
    | inr (w, e) ↦ rw (complete_task-workers entry handle, e) (release_worker-works_on _ task_id w)
  ]

  fail_task-is_held :
      (reason : String)
      → is_held t.assigned_worker_id task_id (fail_task now task_id reason s).1.workers ≡ false
  fail_task-is_held reason = elim (Option-cases t.assigned_worker_id) [
    | inl e ↦ rw e refl
    | inr (w, e) ↦ rw (fail_task-workers reason, e) (release_worker-works_on _ task_id w)
  ]

  -- Completing a known task gives it the status completed and the time, makes its batch ready with the given
  -- handle, stores the given entry under its key, and takes the task off the worker that it was assigned to. No
  -- other task, no other batch's handle and no other entry changes.
  pub complete_task_lem :
      (entry : PayloadEntry) (handle : BatchHandle)
      → let done : TaskState F = record t {
        status = TaskStatus.completed;
        completed_at_ms = some now;
      } in
        let s' = (complete_task now task_id entry handle s).1 in
        ((k : String) → get k s'.tasks ≡ (if task_id == k then some done else get k s.tasks))
        × ((k : String)
            → get k s'.batch_handles
              ≡ (if t.task.batch.batch_id == k then some handle else get k s.batch_handles))
        × ((k : String)
            → get k s'.payload_entries
              ≡ (if entry.cache_key == k then some entry else get k s.payload_entries))
        × (is_held t.assigned_worker_id task_id s'.workers ≡ false)
  unfolding complete_task get_task release_worker note_materialization_completed change_metrics
      mark_completed
  complete_task_lem entry handle =
      let complete : TaskState F → TaskState F =
        λ x. record x { status = TaskStatus.completed; completed_at_ms = some now } in
      (
        λ k. ground (
          arith,
          get-update task_id k complete s.tasks,
          eq_iff task_id k,
          ap (λ x. get x s.tasks),
        ),
        λ k. ground (arith, get-put t.task.batch.batch_id k handle s.batch_handles),
        λ k. ground (arith, get-put entry.cache_key k entry s.payload_entries),
        complete_task-is_held entry handle,
      )

  -- Failing a known task gives it the status failed, the time and the reason, and returns it so; takes it off
  -- the worker that it was assigned to; and gives the entry of its batch, if there is one, the status failed and
  -- the reason under `failure_reason` in its metadata. No other task and no other entry changes.
  pub fail_task_lem :
      (reason : String)
      → let failed : TaskState F = record t {
        status = TaskStatus.failed;
        failed_at_ms = some now;
        failure_reason = reason;
      } in
        let (result, s') = fail_task now task_id reason s in
        (result ≡ ok failed)
        × ((k : String) → get k s'.tasks ≡ (if task_id == k then some failed else get k s.tasks))
        × ((k : String)
            → get k s'.payload_entries ≡ (
                if cache_key t.task.batch == k
                then Option.map {A = PayloadEntry}
                    (λ e. record e {
                      status = PayloadStatus.failed;
                      metadata = put "failure_reason" (text reason) e.metadata;
                    })
                    (get k s.payload_entries)
                else get k s.payload_entries))
        × (is_held t.assigned_worker_id task_id s'.workers ≡ false)
  unfolding fail_task get_task release_worker mark_failed fail_entry
  fail_task_lem reason =
      let fail : TaskState F → TaskState F = λ x. record x {
        status = TaskStatus.failed;
        failed_at_ms = some now;
        failure_reason = reason;
      } in
      let spoil : PayloadEntry → PayloadEntry = λ e. record e {
        status = PayloadStatus.failed;
        metadata = put "failure_reason" (text reason) e.metadata;
      } in
      (
        ground (arith, get-update task_id task_id fail s.tasks, eq_refl task_id),
        λ k.
            ground
              (arith, get-update task_id k fail s.tasks, eq_iff task_id k, ap (λ x. get x s.tasks)),
        λ k. ground (arith, get-update (cache_key t.task.batch) k spoil s.payload_entries),
        fail_task-is_held reason,
      )

-- The batch has a task that a new one would not replace.
abbrev is_settled : {F : Type 0} → Option (TaskState F) → Bool
is_settled none = false
is_settled (some t) = is_reusable t.status

-- What `create_task` answers for a batch with the task found through the index.
abbrev settled : {F : Type 0} → Option (TaskState F) → TaskState F → TaskState F
settled none new = new
settled (some t) new = if is_reusable t.status then t else new

enter_task_lem :
    {F : Type 0} (s : Store F) (now : ℕ) (task : MaterializeBatchTask F)
    → ((enter_task now task s).0 ≡ ok (new_task_state now task))
      × (get_task_for_batch task.batch.batch_id (enter_task now task s).1
          ≡ ok (some (new_task_state now task)))
unfolding enter_task get_task_for_batch
enter_task_lem s now task =
    let (p, q) = register_payload-tables now task (record s {
      tasks = put task.task_id (new_task_state now task) s.tasks;
      tasks_by_batch_id = put task.batch.batch_id task.task_id s.tasks_by_batch_id;
    }) in
    (
      refl,
      rw (p, q)
          (ground (
            arith,
            get-put task.batch.batch_id task.batch.batch_id task.task_id s.tasks_by_batch_id,
            get-put task.task_id task.task_id (new_task_state now task) s.tasks,
            eq_refl task.batch.batch_id,
            eq_refl task.task_id,
          )),
    )

module _ {F : Type 0} (s : Store F) (now : ℕ) (task : MaterializeBatchTask F)
    (owner : is_orphaned task.job_id s ≡ ok false) where
  create_task-free :
      get task.batch.batch_id s.tasks_by_batch_id ≡ none
      → create_task now task s ≡ enter_task now task s
  unfolding create_task create_unless_known
  create_task-free e = rw (owner, e, create_task)

  create_task-taken :
      (id : String) (t : TaskState F)
      → get task.batch.batch_id s.tasks_by_batch_id ≡ some id
      → get id s.tasks ≡ some t
      → create_task now task s ≡ (
          if is_reusable t.status
          then (ok t, s)
          else enter_task now task
              (record s { tasks_by_batch_id = remove task.batch.batch_id s.tasks_by_batch_id }))
  unfolding create_task create_unless_known
  create_task-taken id t e found = rw (owner, e, found, create_task) (ground arith)

  existing-taken :
      (id : String) (t : TaskState F)
      → get task.batch.batch_id s.tasks_by_batch_id ≡ some id
      → get id s.tasks ≡ some t
      → get_task_for_batch task.batch.batch_id s ≡ ok (some t)
  unfolding get_task_for_batch
  existing-taken id t e found = rw (e, found, get_task_for_batch)

  existing-cases :
      (existing : Option (TaskState F))
      → get_task_for_batch task.batch.batch_id s ≡ ok existing
      → ((get task.batch.batch_id s.tasks_by_batch_id ≡ none) × (existing ≡ none))
        ⊎ ((id : String) × (t : TaskState F) × (get task.batch.batch_id s.tasks_by_batch_id
              ≡ some id)
            × (get id s.tasks ≡ some t)
            × (existing ≡ some t))
  unfolding get_task_for_batch
  existing-cases existing known =
      elim (Option-cases (get task.batch.batch_id s.tasks_by_batch_id)) [
        | inl free ↦ inl (free, ground arith)
        | inr (id, taken) ↦ elim (Option-cases (get id s.tasks)) [
          | inl lost ↦ absurd (ground arith)
          | inr (t, there) ↦ inr (id, t, taken, there, ground arith)
        ]
      ]

-- Creating a task that is owned by no job or by an active one: if the batch has a task that waits, runs
-- or is completed, that one is returned and nothing changes; otherwise a new pending task is returned, and
-- it is the one that a lookup by the batch finds from then on.
pub create_task_lem :
    {F : Type 0} (s : Store F) (now : ℕ) (task : MaterializeBatchTask F)
    (existing : Option (TaskState F))
    → is_orphaned task.job_id s ≡ ok false
    → get_task_for_batch task.batch.batch_id s ≡ ok existing
    → let new = new_task_state now task in
      let (result, s') = create_task now task s in
      (result ≡ ok (settled existing new))
      × (get_task_for_batch task.batch.batch_id s' ≡ ok (some (settled existing new)))
      × ((is_settled existing ≡ false) ⊎ (s' ≡ s))
create_task_lem s now task existing owner known =
    elim (existing-cases s now task owner existing known) [
      | inl (free, e) ↦
          let (p, q) = enter_task_lem s now task in
          rw (create_task-free s now task owner free, e) (p, q, inl refl)
      | inr (id, t, taken, there, e) ↦ elim (Bool-cases (is_reusable t.status)) [
        | inl live ↦
            rw (create_task-taken s now task owner id t taken there, live, e)
              (rw live refl, rw live (existing-taken s now task owner id t taken there), inr refl)
        | inr dead ↦
            let (p, q) =
              enter_task_lem
                (record s { tasks_by_batch_id = remove task.batch.batch_id s.tasks_by_batch_id })
                now task in
            rw (create_task-taken s now task owner id t taken there, dead, e)
              (rw dead p, rw dead q, inl dead)
      ]
    ]
