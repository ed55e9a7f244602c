-- ===== src/Scheduler/Depth.antt =====
-- The lookahead depth that the scheduler aims at.
use ad_artifacts.Base.{
  ℕ, Option, none, some, Option-cases, inl, inr, ◌⊎◌, ◌&&◌, ◌≤◌, ◌≡◌, refl, if◌then◌else◌, min, max,
  arith,
}
use ad_artifacts.Base.Int.{ℤ, pos_part, is_positive}
use ad_artifacts.Core.{Job, ok, raise, invalid_value}
use ad_artifacts.Floats.{Floats}
use ad_artifacts.Store.State.{Store, JobMetrics}
use ad_artifacts.Store.Metrics.{get_job_metrics, get_preparation_time_estimate}
use ad_artifacts.Scheduler.{SchedulerConfig}
use ad_artifacts.Scheduler.Value.{target_lookahead_depth}

-- For a job with metrics: where both the measured compute time and the dataset's estimated preparation time are
-- positive, the wanted depth is the ceiling of their quotient, otherwise the configured one, and at least 1. If that
-- ceiling does not exist, the code raises; in every other case the target depth is the smaller of the wanted depth and
-- the job's lookahead, if that is positive, and it is at least 1.
pub target_lookahead_depth_lem :
    {F : Type 0} ⦃f : Floats F⦄ (config : SchedulerConfig F) (job : Job) (s : Store F)
    (metrics : JobMetrics F)
    → get_job_metrics job.job_id s ≡ ok metrics
    → let prep = get_preparation_time_estimate job.dataset_id f.zero s in
      let compute = metrics.avg_compute_time_sec in
      let estimate : Option ℤ =
        if f.lt f.zero compute && f.lt f.zero prep
        then f.ceil (f.div prep compute)
        else some config.target_ready_batches in
      ((estimate ≡ none) × (target_lookahead_depth config job s ≡ raise (invalid_value "ceil")))
      ⊎ ((n : ℤ) × (depth : ℕ) × (estimate ≡ some n)
          × (target_lookahead_depth config job s ≡ ok depth)
          × (1 ≤ depth)
          × (depth ≡ (
              if is_positive job.lookahead_batches
              then min (max 1 (pos_part n)) (pos_part job.lookahead_batches)
              else max 1 (pos_part n))))
unfolding target_lookahead_depth
target_lookahead_depth_lem ⦃f⦄ config job s metrics known =
    let prep = get_preparation_time_estimate job.dataset_id f.zero s in
    let compute = metrics.avg_compute_time_sec in
    let estimate : Option ℤ =
      if f.lt f.zero compute && f.lt f.zero prep
      then f.ceil (f.div prep compute)
      else some config.target_ready_batches in
    elim (Option-cases estimate) [
      | inl missing ↦ inl (missing, ground (arith, known, missing))
      | inr (n, found) ↦
          let wanted = max 1 (pos_part n) in
          let depth =
            if is_positive job.lookahead_batches
            then min wanted (pos_part job.lookahead_batches)
            else wanted in
          inr (n, depth, found, ground (arith, known, found), ground arith, refl)
    ]
