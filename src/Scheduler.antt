-- ===== src/Scheduler.antt =====
-- batchflow/coordinator/scheduler.py: what a batch and a cached payload are worth (`Value`), which batch or task
-- comes next (`Choose`), and what a client is told of a batch (`Handles`). A method that reads the
-- store is a `Reader`. The configuration, the clock and the new id of `make_id` are arguments. The
-- store is read once for a whole method, as if the coordinator's other threads were quiet meanwhile.
pub mod Value
pub mod Choose
pub mod Handles
pub mod Ready
pub mod Depth
pub mod Selection
pub mod Answers
use ad_artifacts.Base.{Bool}
use ad_artifacts.Base.Int.{ℤ}

-- batchflow/config/config_types.py
pub record SchedulerConfig (F : Type 0) : Type 0 where
  pub reuse_enabled : Bool
  pub candidate_window_size : ℤ
  pub target_ready_batches : ℤ
  pub job_urgency_weight : F
  pub batch_proximity_weight : F
  pub reuse_weight : F
  pub materialization_cost_weight : F
  pub ready_cache_bonus : F
  pub reuse_threshold : F
  pub cache_cost_threshold : F
  pub cache_capacity_bytes : ℤ
  pub batch_value_beta : F
  pub preparation_time_ema_alpha : F
  pub opportunistic_prefetch_enabled : Bool
  pub extended_lookahead_multiplier : ℤ
