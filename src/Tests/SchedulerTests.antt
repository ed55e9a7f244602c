-- ===== src/Tests/SchedulerTests.antt =====
-- Tests of the scheduler.
use ad_artifacts.Base.{
  none, ℕ, ◌≤◌, ◌≡◌, refl, true, false, some, [], ◌∷◌, arith, count_if, eqb, min, max, ◌⊎◌,
}
use ad_artifacts.Base.Int.{ℤ, pos, pos_part}
use ad_artifacts.Core.{ok, raise, invalid_value, text, HandleStatus}
use ad_artifacts.Store.State.{TaskState, new_task_state, new_job_metrics}
use ad_artifacts.Store.Jobs.{is_pending}
use ad_artifacts.Store.Tasks.{create_task, complete_task, fail_task, list_pending_tasks}
use ad_artifacts.Scheduler.{SchedulerConfig}
use ad_artifacts.Scheduler.Value.{target_lookahead_depth}
use ad_artifacts.Scheduler.Choose.{
  choose_next_task_for_worker, is_opportunistic_task, candidates_of, score_pending_task,
  should_materialize,
}
use ad_artifacts.Scheduler.Handles.{resolve_batch_handle, unready_handle, with_cache_result}
use ad_artifacts.Scheduler.Depth.{target_lookahead_depth_lem}
use ad_artifacts.Scheduler.Selection.{
  choose_next_task_for_worker_lem, IsWeakOrder, IsMaximal, is_normal,
}
use ad_artifacts.Scheduler.Answers.{
  create_task-resolve_batch_handle, complete_task-resolve_batch_handle,
  fail_task-resolve_batch_handle,
}
use ad_artifacts.Tests.{
  nat_floats, dataset, job, batch, task, other_task, entry, handle, opened, waiting, waiting_task,
  running_store, running_task,
}
use ad_artifacts.Tests.Run.{program}

abbrev pub config : SchedulerConfig ℕ
config = record {
  reuse_enabled = true;
  candidate_window_size = pos 32;
  target_ready_batches = pos 16;
  job_urgency_weight = 8;
  batch_proximity_weight = 4;
  reuse_weight = 3;
  materialization_cost_weight = 1;
  ready_cache_bonus = 100;
  reuse_threshold = 1;
  cache_cost_threshold = 8;
  cache_capacity_bytes = pos 0;
  batch_value_beta = 1;
  preparation_time_ema_alpha = 0;
  opportunistic_prefetch_enabled = true;
  extended_lookahead_multiplier = pos 2;
}

weak_order : IsWeakOrder ℕ
unfolding nat_floats
weak_order = (λ a b h. ground arith, λ a b c h k. ground arith)

depth_example :
    ((some (pos 16) ≡ none)
      × (target_lookahead_depth config job waiting ≡ raise (invalid_value "ceil")))
    ⊎ ((n : ℤ) × (depth : ℕ) × (some (pos 16) ≡ some n)
        × (target_lookahead_depth config job waiting ≡ ok depth)
        × (1 ≤ depth)
        × (depth ≡ min (max 1 (pos_part n)) 4))
unfolding program nat_floats
depth_example = target_lookahead_depth_lem config job waiting new_job_metrics refl

next_task_example :
    (t : TaskState ℕ) × (choose_next_task_for_worker "w-1" waiting ≡ some t)
    × ((is_pending t ≡ true)
        × (is_opportunistic_task t ≡ eqb (count_if is_normal (list_pending_tasks waiting)) 0)
        × IsMaximal score_pending_task t (candidates_of (list_pending_tasks waiting)))
unfolding program
next_task_example =
    choose_next_task_for_worker_lem "w-1" waiting waiting_task (new_task_state 8 other_task ∷ [])
      weak_order refl

create_answer_example :
    let s' = (create_task 8 task opened).1 in
    (should_materialize batch s' ≡ ok false)
    × (resolve_batch_handle batch s'
        ≡ ok (
            unready_handle batch HandleStatus.pending dataset
              (("cache_result", text "in_flight") ∷ ("task_id", text "t-0") ∷ [])))
unfolding program
create_answer_example = create_task-resolve_batch_handle opened 8 task dataset refl refl refl refl

complete_answer_example :
    let s' = (complete_task 10 "t-0" entry handle running_store).1 in
    (resolve_batch_handle batch s' ≡ ok (with_cache_result handle "hit"))
    × (should_materialize batch s' ≡ ok false)
unfolding program
complete_answer_example =
    complete_task-resolve_batch_handle running_store 10 "t-0" running_task entry handle refl

fail_answer_example :
    let s' = (fail_task 10 "t-0" "no disk" running_store).1 in
    resolve_batch_handle batch s'
    ≡ ok (record {
      batch_id = "b-0";
      cache_key = "b-0";
      status = HandleStatus.failed;
      fetch_host = "";
      fetch_port = pos 0;
      fetch_key = "";
      payload_format = some dataset.payload_format;
      dataset_format = dataset.dataset_format;
      location = "";
      expires_at_ms = none;
      metadata =
          ("cache_result", text "failed")
          ∷ ("reason", text "no disk")
          ∷ ("task_id", text "t-0")
          ∷ [];
    })
unfolding program
fail_answer_example =
    fail_task-resolve_batch_handle running_store 10 "t-0" "no disk" running_task dataset refl refl
      refl refl
