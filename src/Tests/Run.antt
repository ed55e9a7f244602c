-- ===== src/Tests/Run.antt =====
-- The definitions that a test runs, under one name.
use ad_artifacts.Dict.{
  get, put, remove, update, map_values, member, add, discard, put_unless_empty, cons_unless_empty,
  discard_under, add_under, discard_everywhere,
}
use ad_artifacts.Dict.Sets.{holds}
use ad_artifacts.Core.{str, touch_entry, advance_to_next_epoch, advance, create_job}
use ad_artifacts.Core.Fetch.{
  sample_count, batches_per_epoch, is_expired, is_redis_location, is_grpc_location,
  require_ready_fetch_info,
}
use ad_artifacts.Base.Decimal.{show_ℕ, show_ℤ}
use ad_artifacts.Store.State.{
  new_task_state, mark_running, mark_completed, mark_failed, mark_cancelled, new_job_metrics,
  new_store,
}
use ad_artifacts.Store.Jobs.{
  register_dataset, get_dataset, get_job, is_job_active, start_job, cancel_if_pending, finish_job,
  update_job_progress, issue_batch_to_job, register_worker, get_worker, heartbeat_worker,
  count_idle_workers,
}
use ad_artifacts.Store.Metrics.{
  get_job_metrics, change_metrics, note_get_next_batch_call, note_batch_handle_served,
  note_materialization_completed, update_job_runtime_metrics, next_ema, update_preparation_time,
  update_payload_size_estimate, get_preparation_time_estimate, get_payload_size_estimate,
}
use ad_artifacts.Store.Plans.{
  find_batch, set_planned_window, get_planned_window, planned, get_batch, upcoming_batches,
  is_batch_ready, is_batch_in_progress, is_covered, count_covered,
  count_ready_or_inflight_from_index, count_window, count_ready_or_inflight_in_window,
  acknowledge_batch,
}
use ad_artifacts.Store.Tasks.{
  revive_entry, fail_entry, get_task, get_task_for_batch, list_pending_tasks, count_pending_tasks,
  is_orphaned, register_payload, enter_task, create_unless_known, create_task,
  assign_task_to_worker, release_worker, complete_task, fail_task,
}
use ad_artifacts.Store.Payloads.{
  is_reusable_entry, cached_bytes, release_keys, list_reusable_payload_entries,
  reusable_cache_bytes, pin_payload, unpin_payload, payload_pin_count, release_job_payload_pins,
  forget_task, drop_payload, remove_payload, put_payload_entry, get_payload_entry, touch_payload,
  delete_payload_entry, put_batch_handle, get_batch_handle, delete_batch_handle,
}
use ad_artifacts.Store.Calls.{step, run}
use ad_artifacts.Planner.{
  split_from, split_samples_into_batches, epoch_plan_id, make_batch_id, make_batch,
  effective_lookahead, batches_from, keep_first_plan, epoch_samples, build_epoch_plan,
  get_or_build_epoch_plan, get_batches_for_job,
}
use ad_artifacts.Scheduler.Value.{
  position_of, target_lookahead_depth, compute_job_urgency, estimate_reuse_potential,
  estimate_materialization_cost, score_batch, add_demand, compute_cache_key_value,
  compute_batch_value, compute_payload_value,
}
use ad_artifacts.Scheduler.Choose.{
  lower_is, insert_descending, sort_descending, is_opportunistic_task, should_materialize,
  candidates_of, choose_next_task_for_worker, score_opportunistic_batch,
  can_opportunistically_prefetch, build_opportunistic_task, score_all, choose_next_batch_for_job,
  choose_storage_class, build_task,
}
use ad_artifacts.Scheduler.Handles.{
  reason_of, with_cache_result, pending_handle, failed_handle, resolve_entry, resolve_batch_handle,
}
use ad_artifacts.Cache.{
  candidate_lt, insert_candidate, sort_candidates, take_victims, collect_candidates,
  choose_eviction_victims, can_admit_estimated_payload, evict_reusable_payload,
}
use ad_artifacts.Staging.{
  payload_key, count_key, publish_script, publish, consume_script, consume, exists, consume_times,
}
use ad_artifacts.PayloadStore.{
  evict_after, put_payload, get_payload, contains, remove_stored, size, total_bytes, expired_keys,
  remove_keys, cleanup_expired, payload_step, payload_run,
}
use ad_artifacts.CoordlPlan.{
  entry_id, make_entry, plan_epoch, plan_epochs, epoch_order, build_coordl_batch_plan,
}

unfoldable pub program : Unit {0}
unfolding payload_key count_key publish_script publish consume_script consume exists consume_times
    candidate_lt insert_candidate sort_candidates take_victims collect_candidates
    choose_eviction_victims can_admit_estimated_payload evict_reusable_payload holds get put remove
    update map_values member add discard put_unless_empty cons_unless_empty discard_under add_under
    discard_everywhere str touch_entry advance_to_next_epoch advance create_job sample_count
    batches_per_epoch is_expired is_redis_location is_grpc_location require_ready_fetch_info show_ℕ
    show_ℤ new_task_state mark_running mark_completed mark_failed mark_cancelled new_job_metrics
    new_store register_dataset get_dataset get_job is_job_active start_job cancel_if_pending
    finish_job update_job_progress issue_batch_to_job register_worker get_worker heartbeat_worker
    count_idle_workers get_job_metrics change_metrics note_get_next_batch_call
    note_batch_handle_served note_materialization_completed update_job_runtime_metrics next_ema
    update_preparation_time update_payload_size_estimate get_preparation_time_estimate
    get_payload_size_estimate find_batch set_planned_window get_planned_window planned get_batch
    upcoming_batches is_batch_ready is_batch_in_progress is_covered count_covered
    count_ready_or_inflight_from_index count_window count_ready_or_inflight_in_window
    acknowledge_batch revive_entry fail_entry get_task get_task_for_batch list_pending_tasks
    count_pending_tasks is_orphaned register_payload enter_task create_unless_known create_task
    assign_task_to_worker release_worker complete_task fail_task is_reusable_entry cached_bytes
    release_keys list_reusable_payload_entries reusable_cache_bytes pin_payload unpin_payload
    payload_pin_count release_job_payload_pins forget_task drop_payload remove_payload
    put_payload_entry get_payload_entry touch_payload delete_payload_entry put_batch_handle
    get_batch_handle delete_batch_handle step run split_from split_samples_into_batches
    epoch_plan_id make_batch_id make_batch effective_lookahead batches_from keep_first_plan
    epoch_samples build_epoch_plan get_or_build_epoch_plan get_batches_for_job position_of
    target_lookahead_depth compute_job_urgency estimate_reuse_potential
    estimate_materialization_cost score_batch add_demand compute_cache_key_value compute_batch_value
    compute_payload_value lower_is insert_descending sort_descending is_opportunistic_task
    should_materialize candidates_of choose_next_task_for_worker score_opportunistic_batch
    can_opportunistically_prefetch build_opportunistic_task score_all choose_next_batch_for_job
    choose_storage_class build_task reason_of with_cache_result pending_handle failed_handle
    resolve_entry resolve_batch_handle evict_after put_payload get_payload contains remove_stored
    size total_bytes expired_keys remove_keys cleanup_expired payload_step payload_run entry_id
    make_entry plan_epoch plan_epochs epoch_order build_coordl_batch_plan
program = tt
