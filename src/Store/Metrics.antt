-- ===== src/Store/Metrics.antt =====
-- Counters and online estimates of batchflow/coordinator/store.py.
use ad_artifacts.Base.{
  ℕ, ◌+◌, ◌-◌, String, not, Option, none, some, ◌==◌, if◌then◌else◌, or_default,
}
use ad_artifacts.Base.Int.{ℤ, is_positive}
use ad_artifacts.Core.{
  BatchHandle, HandleStatus, Metadata, text, str, or_raise, unknown_job_metrics,
}
use ad_artifacts.Exec.{Exec, Reader, reads, modify, ◌>>=◌}
use ad_artifacts.Floats.{Floats, max_float, min_float}
use ad_artifacts.Dict.{get, put, update}
use ad_artifacts.Store.State.{Store, JobMetrics}

-- str(metadata.get(key, default))
abbrev pub text_at : String → String → Metadata → String
text_at key default m = str (or_default (get key m) (text default))

module _ {F : Type 0} where
  unfoldable pub get_job_metrics : String → Reader (Store F) (JobMetrics F)
  get_job_metrics job_id s = or_raise (get job_id s.job_metrics) (unknown_job_metrics job_id)

  -- A method that looks the job's metrics up and then changes them in place.
  unfoldable pub change_metrics : String → (JobMetrics F → JobMetrics F) → Exec (Store F) (Unit {0})
  change_metrics job_id f = do
    _m ← reads (get_job_metrics job_id)
    modify (λ s. record s { job_metrics = update job_id f s.job_metrics })

  unfoldable pub note_get_next_batch_call : String → Exec (Store F) (Unit {0})
  note_get_next_batch_call job_id = change_metrics job_id (λ m. record m {
    get_next_batch_calls = m.get_next_batch_calls + 1;
    pending_batch_requests = m.pending_batch_requests + 1;
  })

  -- max(0, n - 1) is the truncated difference.
  abbrev count_response : HandleStatus → JobMetrics F → JobMetrics F
  count_response HandleStatus.ready m = record m { ready_responses = m.ready_responses + 1 }
  count_response HandleStatus.pending m = record m { pending_responses = m.pending_responses + 1 }
  count_response HandleStatus.failed m = record m { failed_responses = m.failed_responses + 1 }

  abbrev count_cache_result : String → JobMetrics F → JobMetrics F
  count_cache_result r m =
      if r == "hit"
      then record m { cache_hits = m.cache_hits + 1 }
      else if r == "miss"
      then record m { cache_misses = m.cache_misses + 1 }
      else if r == "in_flight"
      then record m { cache_in_flight = m.cache_in_flight + 1 }
      else if r == "failed"
      then record m { cache_failures = m.cache_failures + 1 }
      else m

  unfoldable pub note_batch_handle_served : String → BatchHandle → Exec (Store F) (Unit {0})
  note_batch_handle_served job_id handle = change_metrics job_id (λ m.
      let served : JobMetrics F = record m {
        pending_batch_requests = m.pending_batch_requests - 1;
      } in
      count_cache_result (text_at "cache_result" "" handle.metadata)
        (count_response handle.status served))

  unfoldable pub note_materialization_completed : String → Exec (Store F) (Unit {0})
  note_materialization_completed job_id =
      change_metrics job_id (λ m. record m { materializations = m.materializations + 1 })

  unfoldable pub update_job_runtime_metrics :
      ℕ
      → String
      → (data_bottleneck_percent avg_data_time_sec avg_compute_time_sec : F)
      → (avg_coordinator_wait_total_time_sec avg_coordinator_pending_polls : F)
      → Exec (Store F) (Unit {0})
  update_job_runtime_metrics now job_id percent data_time compute_time wait_time polls =
      change_metrics job_id (λ m. record m {
        data_bottleneck_percent = percent;
        avg_data_time_sec = data_time;
        avg_compute_time_sec = compute_time;
        avg_coordinator_wait_total_time_sec = wait_time;
        avg_coordinator_pending_polls = polls;
        last_runtime_metrics_update_ms = now;
      })

module _ {F : Type 0} ⦃f : Floats F⦄ where
  -- The exponential moving average of both estimates: the first sample starts it.
  unfoldable pub next_ema : F → F → Option F → F
  next_ema alpha sample none = sample
  next_ema alpha sample (some previous) =
      f.add (f.mul alpha sample) (f.mul (f.sub f.one alpha) previous)

  -- min(1.0, max(0.0, float(alpha)))
  abbrev pub clamp_alpha : F → F
  clamp_alpha alpha = min_float f.one (max_float f.zero alpha)

  unfoldable pub update_preparation_time : String → F → F → Store F → Store F
  update_preparation_time dataset_id duration_sec alpha s =
      if f.le duration_sec f.zero then s else record s {
        preparation_time_ema =
            put dataset_id
              (next_ema (clamp_alpha alpha) duration_sec (get dataset_id s.preparation_time_ema))
              s.preparation_time_ema;
      }

  unfoldable pub update_payload_size_estimate : String → ℤ → F → Store F → Store F
  update_payload_size_estimate dataset_id size_bytes alpha s =
      if not (is_positive size_bytes) then s else record s {
        payload_size_ema =
            put dataset_id
              (next_ema (clamp_alpha alpha) (f.of_ℤ size_bytes) (get dataset_id s.payload_size_ema))
              s.payload_size_ema;
      }

module _ {F : Type 0} where
  unfoldable pub get_preparation_time_estimate : String → F → Store F → F
  get_preparation_time_estimate dataset_id default s =
      or_default (get dataset_id s.preparation_time_ema) default

  unfoldable pub get_payload_size_estimate : String → F → Store F → F
  get_payload_size_estimate dataset_id default s =
      or_default (get dataset_id s.payload_size_ema) default
