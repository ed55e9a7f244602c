-- ===== src/CoordlPlan.antt =====
-- experiments/baselines/coordl/plan.py: the minibatch sequence that the jobs of the CoorDL baseline share.
-- `torch.randperm(n, generator)` with the generator of a seed is the parameter `randperm` : seed → n → order.
pub mod Shares
use ad_artifacts.Base.{
  ℕ, zero, suc, ◌+◌, ◌%◌, String, str_append, Bool, true, false, not, ◌&&◌, List, [], ◌∷◌, ◌++◌,
  eqb, ltb, leb, if◌then◌else◌, length, take, drop,
}
use ad_artifacts.Base.Int.{ℤ, pos, pos_part, is_positive, ◌+ℤ◌}
use ad_artifacts.Base.Decimal.{show_ℕ}
use ad_artifacts.Core.{Result, ok, raise, check, invalid_value, ◌>>◌}
use ad_artifacts.Planner.{range_length}

pub record CoorDlBatchPlanEntry : Type 0 where
  pub batch_id : String
  pub epoch : ℕ
  pub batch_index : ℕ
  pub owner_index : ℕ
  pub sample_indices : List ℕ

-- list(range(start, start + n))
abbrev pub range_from : ℕ → ℕ → List ℕ
range_from start zero = []
range_from start (suc n) = start ∷ range_from (start + 1) n

-- f"e{epoch}_b{batch_index}"
unfoldable pub entry_id : ℕ → ℕ → String
entry_id epoch batch_index =
    str_append "e" (str_append (show_ℕ epoch) (str_append "_b" (show_ℕ batch_index)))

unfoldable pub make_entry : ℕ → ℕ → ℕ → List ℕ → CoorDlBatchPlanEntry
make_entry num_jobs epoch batch_index batch_indices = record {
  batch_id = entry_id epoch batch_index;
  epoch = epoch;
  batch_index = batch_index;
  owner_index = batch_index % num_jobs;
  sample_indices = batch_indices;
}

module _ (batch_size total_batches num_jobs : ℕ) (drop_last : Bool) where
  -- The `for` loop over the epoch's starts: the plan and the batch index when it ends or breaks.
  unfoldable pub plan_epoch :
      ℕ → List ℕ → ℕ → ℕ → ℕ → List CoorDlBatchPlanEntry → List CoorDlBatchPlanEntry × ℕ
  plan_epoch epoch indices zero start batch_index plan = (plan, batch_index)
  plan_epoch epoch indices (suc rounds) start batch_index plan =
      let batch_indices = take batch_size (drop start indices) in
      let plan' = plan ++ make_entry num_jobs epoch batch_index batch_indices ∷ [] in
      elim (ltb (length batch_indices) batch_size && drop_last) [
        | true ↦ plan_epoch epoch indices rounds (start + batch_size) batch_index plan
        | false ↦ elim (leb total_batches (length plan')) [
          | true ↦ (plan', batch_index + 1)
          | false ↦ plan_epoch epoch indices rounds (start + batch_size) (batch_index + 1) plan'
        ]
      ]

  module _ (order : ℕ → List ℕ) (num_samples : ℕ) where
    -- The `while` loop. Each round plans a batch or raises, so as many rounds as batches are enough.
    unfoldable pub plan_epochs :
        ℕ → ℕ → List CoorDlBatchPlanEntry → Result (List CoorDlBatchPlanEntry)
    plan_epochs zero epoch plan = ok plan
    plan_epochs (suc fuel) epoch plan = elim (ltb (length plan) total_batches) [
      | false ↦ ok plan
      | true ↦
          let (plan', batches) =
            plan_epoch epoch (order epoch) (range_length num_samples batch_size) 0 0 plan in
          elim (eqb batches 0) [
            | true ↦ raise (invalid_value "no complete minibatch")
            | false ↦ plan_epochs fuel (epoch + 1) plan'
          ]
    ]

-- The indices in the order of an epoch.
unfoldable pub epoch_order : (ℤ → ℕ → List ℕ) → Bool → ℤ → ℕ → ℕ → List ℕ
epoch_order randperm shuffle seed num_samples epoch =
    if shuffle then randperm (seed +ℤ pos epoch) num_samples else range_from 0 num_samples

unfoldable pub build_coordl_batch_plan :
    (ℤ → ℕ → List ℕ)
    → (num_samples batch_size total_batches num_jobs : ℤ) → (shuffle drop_last : Bool) → (seed : ℤ)
    → Result (List CoorDlBatchPlanEntry)
build_coordl_batch_plan randperm num_samples batch_size total_batches num_jobs shuffle drop_last
      seed =
    check (is_positive num_samples) (invalid_value "num_samples")
    >> check (is_positive batch_size) (invalid_value "batch_size")
    >> check (is_positive total_batches) (invalid_value "total_batches")
    >> check (is_positive num_jobs) (invalid_value "num_jobs")
    >> plan_epochs (pos_part batch_size) (pos_part total_batches) (pos_part num_jobs) drop_last
        (epoch_order randperm shuffle seed (pos_part num_samples)) (pos_part num_samples)
        (pos_part total_batches) 0 []
