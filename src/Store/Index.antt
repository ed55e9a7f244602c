-- ===== src/Store/Index.antt =====
-- The index of tasks by batch: what it names is there, so that a lookup through it never raises.
use ad_artifacts.Base.{
  ℕ, String, ◌≡◌, refl, none, some, List, [], ◌∷◌, ◌==◌, arith, eq_iff, ◌⊎◌, Bool-cases,
  Option-cases, inl, inr, ◌∙◌, ap,
}
use ad_artifacts.Core.{MaterializeBatchTask, JobStatus, PayloadEntry, BatchHandle, ok}
use ad_artifacts.Floats.{Floats}
use ad_artifacts.Dict.{Dict, get, put, remove, update, map_values}
use ad_artifacts.Dict.Laws.{get-put, get-remove, get-update}
use ad_artifacts.Dict.Distinct.{get-map_values}
use ad_artifacts.Store.State.{
  Store, TaskState, new_store, new_task_state, mark_running, mark_completed, mark_failed,
  mark_cancelled,
}
use ad_artifacts.Store.Jobs.{
  register_dataset, start_job, finish_job, update_job_progress, issue_batch_to_job, register_worker,
  heartbeat_worker, cancel_if_pending,
}
use ad_artifacts.Store.Metrics.{
  change_metrics, note_get_next_batch_call, note_batch_handle_served,
  note_materialization_completed, update_job_runtime_metrics, update_preparation_time,
  update_payload_size_estimate, text_at,
}
use ad_artifacts.Store.Plans.{set_planned_window, acknowledge_batch}
use ad_artifacts.Store.Tasks.{
  get_task_for_batch, register_payload, enter_task, create_unless_known, create_task,
  assign_task_to_worker, release_worker, complete_task, fail_task,
}
use ad_artifacts.Store.Payloads.{
  put_payload_entry, delete_payload_entry, put_batch_handle, delete_batch_handle, pin_payload,
  unpin_payload, release_job_payload_pins, forget_task, drop_payload, remove_payload_cases,
  touch_payload,
}
use ad_artifacts.Store.Calls.{Call, step, run}

-- A batch id names a task of that batch.
abbrev pub Names : {F : Type 0} → Dict (TaskState F) → String → String → Type 0
Names {F} tasks batch_id task_id =
    (t : TaskState F) × (get task_id tasks ≡ some t) × (t.task.batch.batch_id ≡ batch_id)

abbrev pub Indexed : {F : Type 0} → Dict (TaskState F) → Dict String → Type 0
Indexed tasks index =
    (batch_id task_id : String) → get batch_id index ≡ some task_id → Names tasks batch_id task_id

abbrev pub IsIndexed : {F : Type 0} → Store F → Type 0
IsIndexed s = Indexed s.tasks s.tasks_by_batch_id

-- The task that a state is for never changes.
abbrev KeepsTask : {F : Type 0} → (TaskState F → TaskState F) → Type 0
KeepsTask {F} g = (t : TaskState F) → (g t).task ≡ t.task

module _ {F : Type 0} (tasks : Dict (TaskState F)) (index : Dict String)
    (h : Indexed tasks index) where
  Indexed-update :
      (k : String) (g : TaskState F → TaskState F) → KeepsTask g → Indexed (update k g tasks) index
  Indexed-update k g keeps b t e =
      let (st, found, same) = h b t e in
      elim (Bool-cases (k == t)) [
        | inl hit ↦ (
          g st,
          ground (arith, get-update k t g tasks),
          ap (λ x. x.batch.batch_id) (keeps st) ∙ same,
        )
        | inr miss ↦ (st, ground (arith, get-update k t g tasks), same)
      ]

  Indexed-map_values :
      (g : TaskState F → TaskState F) → KeepsTask g → Indexed (map_values g tasks) index
  Indexed-map_values g keeps b t e =
      let (st, found, same) = h b t e in
      (g st, ground (arith, get-map_values t g tasks), ap (λ x. x.batch.batch_id) (keeps st) ∙ same)

  Indexed-put :
      (now : ℕ) (task : MaterializeBatchTask F)
      → get task.task_id tasks ≡ none
      → Indexed
          (put task.task_id (new_task_state now task) tasks)
          (put task.batch.batch_id task.task_id index)
  unfolding new_task_state
  Indexed-put now task fresh b t e = elim (Bool-cases (task.batch.batch_id == b)) [
    | inl hit ↦ (
      new_task_state now task,
      ground (
        arith,
        get-put task.batch.batch_id b task.task_id index,
        get-put task.task_id t (new_task_state now task) tasks,
        eq_iff task.task_id t,
      ),
      (eq_iff task.batch.batch_id b).0 hit,
    )
    | inr miss ↦
        let (st, found, same) =
          h b t (ground (arith, get-put task.batch.batch_id b task.task_id index)) in
        (
          st,
          ground (
            arith,
            get-put task.task_id t (new_task_state now task) tasks,
            eq_iff task.task_id t,
            ap (λ x. get x tasks),
          ),
          same,
        )
  ]

  Indexed-remove : (k : String) → Indexed tasks (remove k index)
  Indexed-remove k b t e = h b t (ground (arith, get-remove k b index))

  Indexed-forget : (k t : String) → get k index ≡ some t → Indexed (remove t tasks) (remove k index)
  Indexed-forget k t named b u e =
      let (st, found, same) = h b u (ground (arith, get-remove k b index)) in
      let (st', found', same') = h k t named in
      (st, ground (arith, get-remove k b index, get-remove t u tasks, eq_iff t u, eq_iff k b), same)

-- What a method does to the task table, if it changes no state's task.
abbrev TaskEffect : {F : Type 0} → Dict (TaskState F) → Dict (TaskState F) → Type 0
TaskEffect {F} old new =
    (new ≡ old)
    ⊎ ((k : String) × (g : TaskState F → TaskState F) × KeepsTask g × (new ≡ update k g old))

module _ {F : Type 0} where
  TaskEffect-IsIndexed :
      (s t : Store F)
      → TaskEffect s.tasks t.tasks
      → t.tasks_by_batch_id ≡ s.tasks_by_batch_id
      → IsIndexed s
      → IsIndexed t
  TaskEffect-IsIndexed s t (inl e) q h = rw (e, q) h
  TaskEffect-IsIndexed s t (inr (k, g, keeps, e)) q h =
      rw (e, q) (Indexed-update s.tasks s.tasks_by_batch_id h k g keeps)

  finish_job-tables :
      (now : ℕ) (job_id reason : String) (status : JobStatus) (s : Store F)
      → let t = (finish_job now job_id reason status s).1 in
        (t.tasks_by_batch_id ≡ s.tasks_by_batch_id)
        × ((t.tasks ≡ s.tasks)
            ⊎ (t.tasks ≡ map_values (cancel_if_pending now job_id reason) s.tasks))
  unfolding finish_job
  finish_job-tables now job_id reason status s = ground arith

  assign-tables :
      (now : ℕ) (task_id worker_id : String) (s : Store F)
      → let t = (assign_task_to_worker now task_id worker_id s).1 in
        (t.tasks_by_batch_id ≡ s.tasks_by_batch_id)
        × ((t.tasks ≡ s.tasks)
            ⊎ (t.tasks ≡ update task_id (mark_cancelled now "job closed before assignment") s.tasks)
            ⊎ (t.tasks ≡ update task_id (mark_running now worker_id) s.tasks))
  unfolding assign_task_to_worker
  assign-tables now task_id worker_id s = ground arith

  complete-tables :
      (now : ℕ) (task_id : String) (entry : PayloadEntry) (handle : BatchHandle) (s : Store F)
      → let t = (complete_task now task_id entry handle s).1 in
        (t.tasks_by_batch_id ≡ s.tasks_by_batch_id)
        × ((t.tasks ≡ s.tasks) ⊎ (t.tasks ≡ update task_id (mark_completed now) s.tasks))
  unfolding complete_task release_worker note_materialization_completed change_metrics
  complete-tables now task_id entry handle s = ground arith

  fail-tables :
      (now : ℕ) (task_id reason : String) (s : Store F)
      → let t = (fail_task now task_id reason s).1 in
        (t.tasks_by_batch_id ≡ s.tasks_by_batch_id)
        × ((t.tasks ≡ s.tasks) ⊎ (t.tasks ≡ update task_id (mark_failed now reason) s.tasks))
  unfolding fail_task release_worker
  fail-tables now task_id reason s = ground arith

  pub register_payload-tables :
      (now : ℕ) (task : MaterializeBatchTask F) (s : Store F)
      → ((register_payload now task s).tasks ≡ s.tasks)
        × ((register_payload now task s).tasks_by_batch_id ≡ s.tasks_by_batch_id)
  unfolding register_payload
  register_payload-tables now task s = ground arith

  enter_task-IsIndexed :
      (now : ℕ) (task : MaterializeBatchTask F) (s : Store F)
      → get task.task_id s.tasks ≡ none
      → IsIndexed s
      → IsIndexed (enter_task now task s).1
  unfolding enter_task
  enter_task-IsIndexed now task s fresh h =
      let (p, q) = register_payload-tables now task (record s {
        tasks = put task.task_id (new_task_state now task) s.tasks;
        tasks_by_batch_id = put task.batch.batch_id task.task_id s.tasks_by_batch_id;
      }) in
      rw (p, q) (Indexed-put s.tasks s.tasks_by_batch_id h now task fresh)

  abbrev without_index : MaterializeBatchTask F → Store F → Store F
  without_index task s = record s {
    tasks_by_batch_id = remove task.batch.batch_id s.tasks_by_batch_id;
  }

  create_task-cases :
      (now : ℕ) (task : MaterializeBatchTask F) (s : Store F)
      → ((create_task now task s).1 ≡ s)
        ⊎ ((create_task now task s).1 ≡ (enter_task now task s).1)
        ⊎ ((create_task now task s).1 ≡ (enter_task now task (without_index task s)).1)
  unfolding create_task create_unless_known
  create_task-cases now task s = ground arith

  create_task-IsIndexed :
      (now : ℕ) (task : MaterializeBatchTask F) (s : Store F)
      → get task.task_id s.tasks ≡ none
      → IsIndexed s
      → IsIndexed (create_task now task s).1
  create_task-IsIndexed now task s fresh h = elim (create_task-cases now task s) [
    | inl e ↦ rw e h
    | inr (inl e) ↦ rw e (enter_task-IsIndexed now task s fresh h)
    | inr (inr e) ↦ rw e (
        enter_task-IsIndexed now task (without_index task s) fresh
          (Indexed-remove s.tasks s.tasks_by_batch_id h task.batch.batch_id))
  ]

  drop_payload-IsIndexed :
      (key : String) (entry : PayloadEntry) (s : Store F)
      → IsIndexed s
      → IsIndexed (drop_payload key entry s)
  unfolding drop_payload forget_task
  drop_payload-IsIndexed key entry s h =
      elim (Option-cases (get (text_at "batch_id" key entry.metadata) s.tasks_by_batch_id)) [
        | inl e ↦ rw (e, drop_payload, forget_task) h
        | inr (t, e) ↦
            rw (e, drop_payload, forget_task) (Indexed-forget s.tasks s.tasks_by_batch_id h _ t e)
      ]

module _ {F : Type 0} where
  finish_job-IsIndexed :
      (now : ℕ) (job_id reason : String) (status : JobStatus) (s : Store F)
      → IsIndexed s
      → IsIndexed (finish_job now job_id reason status s).1
  finish_job-IsIndexed now job_id reason status s h =
      let (q, effect) = finish_job-tables now job_id reason status s in
      elim effect [
        | inl e ↦ rw (e, q) h
        | inr e ↦
            rw (e, q)
              (Indexed-map_values s.tasks s.tasks_by_batch_id h _
                (λ t. unfold cancel_if_pending mark_cancelled in ground arith))
      ]

  assign_task-IsIndexed :
      (now : ℕ) (task_id worker_id : String) (s : Store F)
      → IsIndexed s
      → IsIndexed (assign_task_to_worker now task_id worker_id s).1
  unfolding mark_cancelled mark_running
  assign_task-IsIndexed now task_id worker_id s h =
      let (q, e) = assign-tables now task_id worker_id s in
      TaskEffect-IsIndexed s (assign_task_to_worker now task_id worker_id s).1
        (elim e [
          | inl e' ↦ inl e'
          | inr (inl e') ↦ inr (task_id, _, (λ t. refl), e')
          | inr (inr e') ↦ inr (task_id, _, (λ t. refl), e')
        ])
        q h

  complete_task-IsIndexed :
      (now : ℕ) (task_id : String) (entry : PayloadEntry) (handle : BatchHandle) (s : Store F)
      → IsIndexed s
      → IsIndexed (complete_task now task_id entry handle s).1
  unfolding mark_completed
  complete_task-IsIndexed now task_id entry handle s h =
      let (q, e) = complete-tables now task_id entry handle s in
      TaskEffect-IsIndexed s (complete_task now task_id entry handle s).1
        (elim e [ inl e' ↦ inl e' | inr e' ↦ inr (task_id, _, (λ t. refl), e') ]) q h

  fail_task-IsIndexed :
      (now : ℕ) (task_id reason : String) (s : Store F)
      → IsIndexed s
      → IsIndexed (fail_task now task_id reason s).1
  unfolding mark_failed
  fail_task-IsIndexed now task_id reason s h =
      let (q, e) = fail-tables now task_id reason s in
      TaskEffect-IsIndexed s (fail_task now task_id reason s).1
        (elim e [ inl e' ↦ inl e' | inr e' ↦ inr (task_id, _, (λ t. refl), e') ]) q h

-- A new task's id is not in use: `make_id` draws a fresh one.
abbrev pub IsFresh : {F : Type 0} → Call F → Store F → Type 0
IsFresh (Call.create_task now task) s = get task.task_id s.tasks ≡ none
IsFresh _ s = Unit

abbrev pub AllFresh : {F : Type 0} ⦃f : Floats F⦄ → List (Call F) → Store F → Type 0
AllFresh [] s = Unit
AllFresh (c ∷ cs) s = IsFresh c s × AllFresh cs (step c s)

module _ {F : Type 0} ⦃f : Floats F⦄ where
  step-IsIndexed : (c : Call F) (s : Store F) → IsFresh c s → IsIndexed s → IsIndexed (step c s)
  unfolding step register_dataset start_job update_job_progress issue_batch_to_job register_worker
      heartbeat_worker change_metrics note_get_next_batch_call note_batch_handle_served
      note_materialization_completed update_job_runtime_metrics update_preparation_time
      update_payload_size_estimate set_planned_window acknowledge_batch assign_task_to_worker
      release_worker complete_task fail_task touch_payload pin_payload unpin_payload
      release_job_payload_pins put_payload_entry delete_payload_entry put_batch_handle
      delete_batch_handle
  step-IsIndexed (Call.create_task now task) s fresh h = create_task-IsIndexed now task s fresh h
  step-IsIndexed (Call.remove_payload key) s fresh h =
      remove_payload_cases (λ r. IsIndexed r.1) key s h
        (λ entry _ _. drop_payload-IsIndexed key entry s h)
  step-IsIndexed (Call.finish_job now job_id reason status) s fresh h =
      finish_job-IsIndexed now job_id reason status s h
  step-IsIndexed (Call.assign_task_to_worker now task_id worker_id) s fresh h =
      assign_task-IsIndexed now task_id worker_id s h
  step-IsIndexed (Call.complete_task now task_id entry handle) s fresh h =
      complete_task-IsIndexed now task_id entry handle s h
  step-IsIndexed (Call.fail_task now task_id reason) s fresh h =
      fail_task-IsIndexed now task_id reason s h
  step-IsIndexed c s fresh h =
      TaskEffect-IsIndexed s (step c s) (inl (ground arith)) (ground arith) h

  run-IsIndexed :
      (cs : List (Call F)) (s : Store F) → AllFresh cs s → IsIndexed s → IsIndexed (run cs s)
  unfolding run
  run-IsIndexed [] s fresh h = h
  run-IsIndexed (c ∷ cs) s fresh h =
      run-IsIndexed cs (step c s) fresh.1 (step-IsIndexed c s fresh.0 h)

  -- However the threads' calls interleave, from an empty store and with fresh task ids, looking up the
  -- task of a batch never raises, and a task that it finds is a task of that batch.
  pub run-get_task_for_batch :
      (cs : List (Call F)) (batch_id : String)
      → AllFresh cs (new_store F)
      → (get_task_for_batch batch_id (run cs (new_store F)) ≡ ok none)
        ⊎ ((t : TaskState F) × (get_task_for_batch batch_id (run cs (new_store F)) ≡ ok (some t))
            × (t.task.batch.batch_id ≡ batch_id))
  unfolding get_task_for_batch
  run-get_task_for_batch cs batch_id fresh =
      found (run cs (new_store F)) (run-IsIndexed cs (new_store F) fresh start)
    where
      start : IsIndexed (new_store F)
      start b t e = unfold new_store get in cc

      found :
          (s : Store F)
          → IsIndexed s
          → (get_task_for_batch batch_id s ≡ ok none)
            ⊎ ((t : TaskState F) × (get_task_for_batch batch_id s ≡ ok (some t))
                × (t.task.batch.batch_id ≡ batch_id))
      found s h = elim (Option-cases (get batch_id s.tasks_by_batch_id)) [
        | inl e ↦ inl (rw (e, get_task_for_batch))
        | inr (task_id, e) ↦
            let (t, here, same) = h batch_id task_id e in
            inr (t, rw (e, here, get_task_for_batch), same)
      ]
