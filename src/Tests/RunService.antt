-- ===== src/Tests/RunService.antt =====
-- The definitions of the service and the prefetcher that a test runs, under one name.
use ad_artifacts.Base.Numerals.{all_blank, parse_digits, neg, parse_signed, parse_int}
use ad_artifacts.Scheduler.Ready.{
  to_int, int_metadata, payload_format_of, payload_format_from_entry, add_metadata,
  build_ready_handle,
}
use ad_artifacts.Cache.Admission.{
  safe_int, has_fallback, delete_key, use_transient_fallback, evict_all, has_room, place,
  admit_reusable_payload,
}
use ad_artifacts.Service.Window.{refresh_job_window, replan}
use ad_artifacts.Service.Maintenance.{
  remove_expired, cleanup_expired_metadata, schedule_batches, schedule_job_batches, all_covered,
  may_prefetch, collect_batches, collect_prefetches, insert_prefetch, sort_prefetches,
  create_prefetches, prefetch_into, schedule_opportunistic_prefetch, schedule_jobs, maintain,
}
use ad_artifacts.Service.Trainers.{
  turn_epoch, hand_over, find_batch_or_replan, serve, get_next_batch, service_start_job,
  service_register_dataset, service_acknowledge_batch, service_finish_job,
}
use ad_artifacts.Service.Workers.{
  merge, to_float, service_register_worker, service_heartbeat_worker, fail_materialization,
  poll_materialization_task, place_payload, store_payload, complete_materialization,
}
use ad_artifacts.Proto.{
  add_items, kv_list_to_dict, dict_to_kv_list, storage_class_from_proto, storage_class_to_proto,
  batch_handle_status_from_proto, batch_handle_status_to_proto, job_status_from_proto,
  job_status_to_proto, payload_format_from_string, payload_format_to_string, sample_from_proto,
  sample_to_proto, samples_from_proto, samples_to_proto, dataset_from_proto, dataset_to_proto,
  batch_handle_to_proto, optional_payload_format, batch_handle_from_proto, batch_to_proto,
  batch_from_proto,
}
use ad_artifacts.Prefetcher.{
  metadata_to_dict, handle_status_name, validate_ready_handle, count_pending, fetch_task,
  get_next_fetch_task, fetch_payload, update_items, decorate_batch,
}
use ad_artifacts.Prefetcher.Pipeline.{
  drop_at, new_pipeline, buffered_at, without, publish_result, may_end, pipeline_step, run_pipeline,
}
use ad_artifacts.Prefetcher.Session.{
  new_session, take_item, finish_session_job, shutdown_session, session_step, run_session,
}

unfoldable pub service_program : Unit {0}
unfolding all_blank parse_digits neg parse_signed parse_int to_int int_metadata payload_format_of
    payload_format_from_entry add_metadata build_ready_handle safe_int has_fallback delete_key
    use_transient_fallback evict_all has_room place admit_reusable_payload refresh_job_window replan
    remove_expired cleanup_expired_metadata schedule_batches schedule_job_batches all_covered
    may_prefetch collect_batches collect_prefetches insert_prefetch sort_prefetches
    create_prefetches prefetch_into schedule_opportunistic_prefetch schedule_jobs maintain
    turn_epoch hand_over find_batch_or_replan serve get_next_batch service_start_job
    service_register_dataset service_acknowledge_batch service_finish_job merge to_float
    service_register_worker service_heartbeat_worker fail_materialization poll_materialization_task
    place_payload store_payload complete_materialization add_items kv_list_to_dict dict_to_kv_list
    storage_class_from_proto storage_class_to_proto batch_handle_status_from_proto
    batch_handle_status_to_proto job_status_from_proto job_status_to_proto
    payload_format_from_string payload_format_to_string sample_from_proto sample_to_proto
    samples_from_proto samples_to_proto dataset_from_proto dataset_to_proto batch_handle_to_proto
    optional_payload_format batch_handle_from_proto batch_to_proto batch_from_proto metadata_to_dict
    handle_status_name validate_ready_handle count_pending fetch_task get_next_fetch_task
    fetch_payload update_items decorate_batch drop_at new_pipeline buffered_at without
    publish_result may_end pipeline_step run_pipeline new_session take_item finish_session_job
    shutdown_session session_step run_session
service_program = tt
