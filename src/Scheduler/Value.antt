-- ===== src/Scheduler/Value.antt =====
-- Lookahead depth, urgency, score and value of batchflow/coordinator/scheduler.py.
use ad_artifacts.Base.{
  ℕ, ◌+◌, ◌-◌, ◌*◌, String, Bool, true, false, not, ◌&&◌, Option, none, some, List, [], ◌∷◌, ◌==◌,
  eqb, if◌then◌else◌, min, max, take, count_if,
}
use ad_artifacts.Base.Int.{ℤ, pos, pos_part, is_positive, sub_ℕ}
use ad_artifacts.Core.{
  Batch, Job, PayloadEntry, cache_key, Result, ok, or_raise, invalid_value, ◌>>=◌,
}
use ad_artifacts.Exec.{Reader}
use ad_artifacts.Floats.{Floats, max_float, min_float}
use ad_artifacts.Store.State.{Store, JobMetrics}
use ad_artifacts.Store.Jobs.{list_active_jobs}
use ad_artifacts.Store.Metrics.{get_job_metrics, get_preparation_time_estimate, text_at}
use ad_artifacts.Store.Plans.{upcoming_batches, count_ready_or_inflight_in_window}
use ad_artifacts.Store.Payloads.{get_payload_entry, is_available}
use ad_artifacts.Scheduler.{SchedulerConfig}

-- The first position of a batch with a cache key, from `index` on.
unfoldable pub position_of : String → ℕ → List Batch → Option ℕ
position_of key index [] = none
position_of key index (b ∷ bs) =
    if cache_key b == key then some index else position_of key (index + 1) bs

module _ {F : Type 0} ⦃f : Floats F⦄ (config : SchedulerConfig F) where
  -- The depth that the measured times ask for, or the configured one.
  abbrev pub raw_depth : JobMetrics F → F → Result ℤ
  raw_depth metrics prep_time =
      if f.lt f.zero metrics.avg_compute_time_sec && f.lt f.zero prep_time
      then or_raise (f.ceil (f.div prep_time metrics.avg_compute_time_sec)) (invalid_value "ceil")
      else ok config.target_ready_batches

  unfoldable pub target_lookahead_depth : Job → Reader (Store F) ℕ
  target_lookahead_depth job s = get_job_metrics job.job_id s >>= λ metrics.
      let prep_time = get_preparation_time_estimate job.dataset_id f.zero s in
      raw_depth metrics prep_time >>= λ raw.
      let depth = max 1 (pos_part raw) in
      ok (
        if is_positive job.lookahead_batches
        then min depth (pos_part job.lookahead_batches)
        else depth)

  -- min(1.0, float(ready) / float(depth))
  abbrev pub coverage : ℕ → ℕ → F
  coverage ready depth = min_float f.one (f.div (f.of_ℤ (pos ready)) (f.of_ℤ (pos depth)))

  -- How long ago the job acknowledged a batch, in seconds.
  abbrev pub stall_seconds : ℕ → JobMetrics F → F
  stall_seconds now metrics = elim metrics.last_acknowledged_at_ms [
    | none ↦ f.one
    | some t ↦ max_float f.zero (f.div (f.of_ℤ (sub_ℕ now t)) (f.of_ℤ (pos 1000)))
  ]

  unfoldable pub compute_job_urgency : ℕ → Job → Reader (Store F) F
  compute_job_urgency now job s = target_lookahead_depth job s >>= λ target_depth.
      count_ready_or_inflight_in_window job.job_id job.progress.epoch job.progress.next_batch_index
        (pos target_depth) s
      >>= λ ready_ahead. get_job_metrics job.job_id s >>= λ metrics.
          let deficit = f.of_ℤ (pos (target_depth - ready_ahead)) in
          let shortage = f.sub f.one (coverage ready_ahead target_depth) in
          let stall = min_float (stall_seconds now metrics) (f.of_ℤ (pos 10)) in
          let requests =
            f.mul (f.div (f.of_ℤ (pos 3)) (f.of_ℤ (pos 2)))
              (f.of_ℤ (pos metrics.pending_batch_requests)) in
          ok (f.add (f.add (f.add (f.mul (f.of_ℤ (pos 2)) deficit) shortage) stall) requests)

  -- Active jobs on the batch's dataset in the batch's epoch; the count starts at 1, and 1 is taken off.
  unfoldable pub estimate_reuse_potential : Batch → Store F → F
  estimate_reuse_potential batch s =
      let compatible =
        count_if (λ j. (j.dataset_id == batch.dataset_id) && eqb j.progress.epoch batch.epoch)
          (list_active_jobs s) in
      if not config.reuse_enabled then f.zero else f.of_ℤ (pos (1 + compatible - 1))

  unfoldable pub estimate_materialization_cost : Batch → Store F → F
  estimate_materialization_cost batch s =
      let estimate = get_preparation_time_estimate batch.dataset_id f.zero s in
      if f.lt f.zero estimate then estimate else f.of_ℤ batch.batch_size

  -- Whether the store has the batch's payload available, for the score.
  abbrev pub is_cached : Batch → Store F → Bool
  is_cached batch s =
      if config.reuse_enabled
      then elim (get_payload_entry (cache_key batch) s) [ none ↦ false | some e ↦ is_available e ]
      else false

  unfoldable pub score_batch : ℕ → Batch → Job → Reader (Store F) F
  score_batch now batch job s = compute_job_urgency now job s >>= λ urgency.
      let distance = f.of_ℤ (pos (batch.batch_index - job.progress.next_batch_index)) in
      let proximity = f.div f.one (f.add f.one distance) in
      let ready_bonus = if is_cached batch s then config.ready_cache_bonus else f.zero in
      let reuse_bonus = estimate_reuse_potential batch s in
      let cost = estimate_materialization_cost batch s in
      ok (
        f.add
          (f.add
            (f.add (f.add ready_bonus (f.mul config.job_urgency_weight urgency))
              (f.mul config.batch_proximity_weight proximity))
            (f.mul config.reuse_weight reuse_bonus))
          (f.mul config.materialization_cost_weight cost))

  -- max(1, multiplier * target_depth), with the multiplier that is at least 1
  abbrev pub extended_depth : ℕ → ℕ
  extended_depth target_depth =
      max 1 (max 1 (pos_part config.extended_lookahead_multiplier) * target_depth)

  -- The loop of `compute_cache_key_value`: the demand and the shortage so far, and the jobs to go.
  unfoldable pub add_demand : String → String → Store F → F → F → List Job → Result (F × F)
  add_demand key dataset_id s demand shortage [] = ok (demand, shortage)
  add_demand key dataset_id s demand shortage (job ∷ jobs) = elim (job.dataset_id == dataset_id) [
    | false ↦ add_demand key dataset_id s demand shortage jobs
    | true ↦ target_lookahead_depth job s >>= λ depth. upcoming_batches job.job_id s >>= λ upcoming.
        elim (position_of key 0 (take (extended_depth depth) upcoming)) [
          | none ↦ add_demand key dataset_id s demand shortage jobs
          | some position ↦
              count_ready_or_inflight_in_window job.job_id job.progress.epoch
                job.progress.next_batch_index (pos depth) s
              >>= λ prepared.
                  add_demand key dataset_id s
                    (f.add demand (f.div f.one (f.of_ℤ (pos (position + 1)))))
                    (f.add shortage (f.sub f.one (coverage prepared depth))) jobs
        ]
  ]

  unfoldable pub compute_cache_key_value : String → String → Reader (Store F) F
  compute_cache_key_value key dataset_id s = elim config.reuse_enabled [
    | false ↦ ok f.zero
    | true ↦ add_demand key dataset_id s f.zero f.zero (list_active_jobs s) >>= λ sums.
        let (demand, shortage) = sums in
        let preparation_time = get_preparation_time_estimate dataset_id f.one s in
        ok (
          if f.le demand f.zero
          then f.zero
          else f.mul (f.mul demand preparation_time)
              (f.add f.one (f.mul config.batch_value_beta shortage)))
  ]

  unfoldable pub compute_batch_value : Batch → Reader (Store F) F
  compute_batch_value batch s = compute_cache_key_value (cache_key batch) batch.dataset_id s

  unfoldable pub compute_payload_value : PayloadEntry → Reader (Store F) F
  compute_payload_value entry s =
      let dataset_id = text_at "dataset_id" "" entry.metadata in
      elim (dataset_id == "") [
        | true ↦ ok f.zero
        | false ↦ compute_cache_key_value entry.cache_key dataset_id s
      ]
