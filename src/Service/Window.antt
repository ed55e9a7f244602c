-- ===== src/Service/Window.antt =====
-- `_refresh_job_window` of batchflow/coordinator/service.py.
use ad_artifacts.Base.{ℕ, String, Bool, not, ◌&&◌, List, [], leb, length, select, if◌then◌else◌}
use ad_artifacts.Base.Int.{ℤ}
use ad_artifacts.Core.{Sample, Job, Batch}
use ad_artifacts.Exec.{Exec, pure, gets, ◌>>=◌}
use ad_artifacts.Store.Jobs.{get_job, get_dataset, is_active}
use ad_artifacts.Store.Plans.{set_planned_window, get_planned_window, is_ahead}
use ad_artifacts.Planner.{effective_lookahead, get_batches_for_job}
use ad_artifacts.Scheduler.{SchedulerConfig}
use ad_artifacts.Service.{Service, on_store, read_store, on_planner}

-- The planned batches that the job has not been given.
abbrev pub future_batches : Job → List Batch → List Batch
future_batches job planned =
    select (is_ahead job.progress.epoch job.progress.next_batch_index) planned

module _ {F : Type 0} (config : SchedulerConfig F) (shuffle : ℤ → List Sample → List Sample) where
  -- The end of `_refresh_job_window`: plan anew.
  unfoldable pub replan : ℕ → String → Job → Exec (Service F) (Unit {0})
  replan now job_id job = do
    dataset ← read_store (get_dataset job.dataset_id)
    new_batches ← on_planner (get_batches_for_job shuffle now dataset job config.reuse_enabled)
    on_store (set_planned_window job_id new_batches)

  unfoldable pub refresh_job_window : ℕ → String → Bool → Exec (Service F) (Unit {0})
  refresh_job_window now job_id force = do
    job ← read_store (get_job job_id)
    if not (is_active job) then on_store (set_planned_window job_id []) else do
      planned ← read_store (get_planned_window job_id)
      default ← gets (λ c. c.planner.default_lookahead)
      if not force
            && leb (effective_lookahead job.lookahead_batches default)
                (length (future_batches job planned))
          then pure tt
          else replan now job_id job
