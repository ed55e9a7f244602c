-- ===== src/Store/Frame.antt =====
-- Which calls leave which tables of the store alone.
use ad_artifacts.Base.{◌≡◌, Bool, true, false, arith}
use ad_artifacts.Floats.{Floats}
use ad_artifacts.Store.State.{Store}
use ad_artifacts.Store.Jobs.{
  register_dataset, start_job, finish_job, update_job_progress, issue_batch_to_job, register_worker,
  heartbeat_worker,
}
use ad_artifacts.Store.Metrics.{
  change_metrics, note_get_next_batch_call, note_batch_handle_served,
  note_materialization_completed, update_job_runtime_metrics, update_preparation_time,
  update_payload_size_estimate,
}
use ad_artifacts.Store.Plans.{set_planned_window, acknowledge_batch}
use ad_artifacts.Store.Tasks.{
  register_payload, enter_task, create_unless_known, create_task, assign_task_to_worker,
  release_worker, complete_task, fail_task,
}
use ad_artifacts.Store.Payloads.{
  touch_payload, put_payload_entry, delete_payload_entry, put_batch_handle, delete_batch_handle,
}
use ad_artifacts.Store.Calls.{Call, step}

abbrev pub touches_pins : {F : Type 0} → Call F → Bool
touches_pins (Call.pin_payload key job_id) = true
touches_pins (Call.unpin_payload key job_id) = true
touches_pins (Call.release_job_payload_pins job_id) = true
touches_pins (Call.remove_payload key) = true
touches_pins _ = false

pub record SamePins {F : Type 0} (s t : Store F) : Type 0 where
  pub pins : t.payload_pins ≡ s.payload_pins
  pub job_pins : t.job_payload_pins ≡ s.job_payload_pins

module _ {F : Type 0} ⦃f : Floats F⦄ where
  pub step-SamePins : (c : Call F) (s : Store F) → touches_pins c ≡ false → SamePins s (step c s)
  unfolding step register_dataset start_job finish_job update_job_progress issue_batch_to_job
      register_worker heartbeat_worker change_metrics note_get_next_batch_call
      note_batch_handle_served note_materialization_completed update_job_runtime_metrics
      update_preparation_time update_payload_size_estimate set_planned_window acknowledge_batch
      register_payload enter_task create_unless_known create_task assign_task_to_worker
      release_worker complete_task fail_task touch_payload put_payload_entry delete_payload_entry
      put_batch_handle delete_batch_handle
  step-SamePins (Call.pin_payload key job_id) s e = cc
  step-SamePins (Call.unpin_payload key job_id) s e = cc
  step-SamePins (Call.release_job_payload_pins job_id) s e = cc
  step-SamePins (Call.remove_payload key) s e = cc
  step-SamePins _ s e = ground arith
