-- ===== src/Scheduler/Choose.antt =====
-- Prefetch candidates, tasks to build and the next task of batchflow/coordinator/scheduler.py.
use ad_artifacts.Base.{
  ℕ, ◌+◌, String, Bool, true, false, not, ◌&&◌, Option, none, some, List, [], ◌∷◌, eqb, leb,
  if◌then◌else◌, max, take, select,
}
use Prim.Native.Char.{code}
use mathlib.Core.Option
use ad_artifacts.Base.Int.{pos_part}
use ad_artifacts.Core.{
  Batch, Job, StorageClass, MaterializeBatchTask, Result, ok, raise, Error, text, ◌>>=◌,
}
use ad_artifacts.Exec.{Reader}
use ad_artifacts.Floats.{Floats}
use ad_artifacts.Store.State.{Store, TaskState}
use ad_artifacts.Store.Jobs.{get_job, get_dataset, is_job_active}
use ad_artifacts.Store.Metrics.{text_at}
use ad_artifacts.Store.Plans.{upcoming_batches, is_batch_ready, is_batch_in_progress, is_covered}
use ad_artifacts.Store.Tasks.{list_pending_tasks}
use ad_artifacts.Scheduler.{SchedulerConfig}
use ad_artifacts.Scheduler.Value.{
  score_batch, compute_batch_value, estimate_reuse_potential, estimate_materialization_cost,
}

-- The number of a character in lower case, for ASCII.
abbrev pub lower_code : ℕ → ℕ
lower_code n = if leb 65 n && leb n 90 then n + 32 else n

-- text.lower() == lowered
unfoldable pub lower_is : String → String → Bool
lower_is String.[] String.[] = true
lower_is (String.◌∷◌ c s) (String.◌∷◌ d t) = eqb (lower_code (code c)) (code d) && lower_is s t
lower_is String.[] (String.◌∷◌ d t) = false
lower_is (String.◌∷◌ c s) String.[] = false

module _ {F : Type 0} ⦃f : Floats F⦄ where
  module _ {A : Type 0} (key : A → F) where
    -- `sort(key, reverse=True)` keeps equal elements in their order.
    unfoldable pub insert_descending : A → List A → List A
    insert_descending x [] = x ∷ []
    insert_descending x (y ∷ ys) =
        if f.lt (key x) (key y) then y ∷ insert_descending x ys else x ∷ y ∷ ys

    unfoldable pub sort_descending : List A → List A
    sort_descending [] = []
    sort_descending (x ∷ xs) = insert_descending x (sort_descending xs)

abbrev pub first {ℓ} : {A : Type ℓ} → List A → Option A
first [] = none
first (x ∷ xs) = some x

unfoldable pub is_opportunistic_task : {F : Type 0} → TaskState F → Bool
is_opportunistic_task t = lower_is (text_at "opportunistic_prefetch" "" t.task.metadata) "true"

unfoldable pub should_materialize : {F : Type 0} → Batch → Reader (Store F) Bool
should_materialize batch s =
    if is_batch_ready batch.batch_id s
    then ok false
    else is_batch_in_progress batch.batch_id s >>= λ busy. ok (not busy)

module _ {F : Type 0} ⦃f : Floats F⦄ where
  -- `normal_pending or pending`
  unfoldable pub candidates_of : List (TaskState F) → List (TaskState F)
  candidates_of pending = elim (select (λ t. not (is_opportunistic_task t)) pending) [
    | [] ↦ pending
    | t ∷ ts ↦ t ∷ ts
  ]

  -- The priority of `score_pending_task`.
  abbrev pub score_pending_task : TaskState F → F
  score_pending_task t = t.task.priority

  unfoldable pub choose_next_task_for_worker : String → Store F → Option (TaskState F)
  choose_next_task_for_worker worker_id s =
      first (sort_descending score_pending_task (candidates_of (list_pending_tasks s)))

  module _ (config : SchedulerConfig F) where
    unfoldable pub score_opportunistic_batch : Batch → Reader (Store F) F
    score_opportunistic_batch batch s = compute_batch_value config batch s

    unfoldable pub can_opportunistically_prefetch : Batch → Reader (Store F) Bool
    can_opportunistically_prefetch batch s =
        elim (config.reuse_enabled && config.opportunistic_prefetch_enabled) [
          | false ↦ ok false
          | true ↦ is_covered batch.batch_id s >>= elim [
            | true ↦ ok false
            | false ↦ compute_batch_value config batch s >>= λ value. ok (f.lt f.zero value)
          ]
        ]

    unfoldable pub build_opportunistic_task :
        ℕ → String → Batch → Reader (Store F) (MaterializeBatchTask F)
    build_opportunistic_task now task_id batch s = elim config.reuse_enabled [
      | false ↦ raise Error.reuse_disabled
      | true ↦ get_dataset batch.dataset_id s >>= λ dataset.
          score_opportunistic_batch batch s >>= λ value. ok (record {
            task_id = task_id;
            batch = batch;
            job_id = "";
            priority = value;
            storage_class = StorageClass.reusable;
            payload_format = dataset.payload_format;
            dataset_format = dataset.dataset_format;
            created_at_ms = now;
            not_before_ms = 0;
            metadata =
                ("opportunistic_prefetch", text "true") ∷ ("batch_value", text (f.show value)) ∷ [];
          })
    ]

    -- The comprehension `scored`.
    unfoldable pub score_all : ℕ → Job → Store F → List Batch → Result (List (F × Batch))
    score_all now job s [] = ok []
    score_all now job s (b ∷ bs) = score_batch config now b job s >>= λ score.
        score_all now job s bs >>= λ rest. ok ((score, b) ∷ rest)

    unfoldable pub choose_next_batch_for_job : ℕ → String → Reader (Store F) (Option Batch)
    choose_next_batch_for_job now job_id s = is_job_active job_id s >>= elim [
      | false ↦ ok none
      | true ↦ get_job job_id s >>= λ job. upcoming_batches job_id s >>= λ candidates.
          score_all now job s (take (max 1 (pos_part config.candidate_window_size)) candidates)
          >>= λ scored.
              ok (Option.map (λ item. item.1) (first (sort_descending (λ item. item.0) scored)))
    ]

    unfoldable pub choose_storage_class : Batch → Store F → StorageClass
    choose_storage_class batch s =
        let reuse = estimate_reuse_potential config batch s in
        let cost = estimate_materialization_cost config batch s in
        if not config.reuse_enabled
        then StorageClass.transient
        else if f.le config.reuse_threshold reuse
        then StorageClass.reusable
        else if f.le config.cache_cost_threshold cost && f.lt f.zero reuse
        then StorageClass.reusable
        else StorageClass.transient

    unfoldable pub build_task : ℕ → String → Batch → Job → Reader (Store F) (MaterializeBatchTask F)
    build_task now task_id batch job s = score_batch config now batch job s >>= λ priority.
        get_dataset batch.dataset_id s >>= λ dataset. ok (record {
          task_id = task_id;
          batch = batch;
          job_id = job.job_id;
          priority = priority;
          storage_class = choose_storage_class batch s;
          payload_format = dataset.payload_format;
          dataset_format = dataset.dataset_format;
          created_at_ms = now;
          not_before_ms = 0;
          metadata = [];
        })
