-- ===== src/Tests/PlannerTests.antt =====
-- Tests of the epoch planner and of the CoorDL plan.
use ad_artifacts.Base.{
  ℕ, ◌*◌, ◌≡◌, refl, true, some, List, [], ◌∷◌, length, take, All, get_elem?, arith,
}
use mathlib.Core.List.{flatten, Perm}
use mathlib.Core.List.Perm
use ad_artifacts.Base.Int.{ℤ, pos}
use ad_artifacts.Core.{Sample, Batch, ok}
use ad_artifacts.Core.Fetch.{batches_per_epoch}
use ad_artifacts.Planner.{
  EpochPlan, Planner, build_epoch_plan, get_or_build_epoch_plan, get_batches_for_job, epoch_samples,
}
use ad_artifacts.Planner.Epochs.{
  Permutes, build_epoch_plan-keeps_all, build_epoch_plan-full_groups, get_or_build_epoch_plan-again,
  get_batches_for_job_lem,
}
use ad_artifacts.CoordlPlan.{CoorDlBatchPlanEntry, build_coordl_batch_plan, range_from}
use ad_artifacts.CoordlPlan.Shares.{build_coordl_batch_plan_lem, IsShare, InTurn, length-range_from}
use ad_artifacts.Tests.{sample, dataset, dropping_dataset, job}
use ad_artifacts.Tests.Run.{program}

-- An order of the samples that is the one they came in.
abbrev same_order : ℤ → List Sample → List Sample
same_order seed xs = xs

same_order-Permutes : Permutes same_order
same_order-Permutes seed xs = Perm.refl xs

keeps_all_example :
    (plan : EpochPlan) × (build_epoch_plan same_order dataset 0 ≡ ok plan)
    × (batches_per_epoch dataset ≡ ok (length plan.sample_groups))
    × Perm (flatten plan.sample_groups) dataset.samples
keeps_all_example = build_epoch_plan-keeps_all same_order same_order-Permutes dataset 0 refl refl

full_groups_example :
    (plan : EpochPlan) × (build_epoch_plan same_order dropping_dataset 0 ≡ ok plan)
    × (batches_per_epoch dropping_dataset ≡ ok (length plan.sample_groups))
    × All (λ g. length g ≡ 2) plan.sample_groups
    × (flatten plan.sample_groups
        ≡ take (length plan.sample_groups * 2) (epoch_samples same_order dropping_dataset 0))
full_groups_example =
    build_epoch_plan-full_groups same_order same_order-Permutes dropping_dataset 0 refl refl

abbrev plan : EpochPlan
plan = record {
  plan_id = "ds:epoch-0";
  dataset_id = "ds";
  epoch = 0;
  sample_groups = (sample "a" ∷ sample "b" ∷ []) ∷ (sample "c" ∷ []) ∷ [];
}

abbrev planner : Planner
planner = record { default_lookahead = pos 32; epoch_plans_by_id = [] }

abbrev planned : Planner
planned = record { default_lookahead = pos 32; epoch_plans_by_id = ("ds:epoch-0", plan) ∷ [] }

plan-is_built : get_or_build_epoch_plan same_order dataset 0 planner ≡ (ok plan, planned)
unfolding program
plan-is_built = refl

again_example : get_or_build_epoch_plan same_order dropping_dataset 0 planned ≡ (ok plan, planned)
again_example =
    get_or_build_epoch_plan-again same_order dataset dropping_dataset 0 planner planned plan refl
      plan-is_built

batches_example :
    (batches : List Batch) × (group : List Sample) × (get_batches_for_job same_order 8 dataset job
        true planner
      ≡ (ok batches, planned))
    × (length batches ≡ 2)
    × (get_elem? plan.sample_groups 1 ≡ some group)
    × (get_elem? batches 1
        ≡ some (record {
          batch_id = "ds:epoch-0:batch-1";
          dataset_id = "ds";
          epoch = 0;
          batch_index = 1;
          batch_size = dataset.batch_size;
          samples = group;
          planned_at_ms = 8;
          transform_name = dataset.transform_name;
          metadata = dataset.metadata;
        }))
unfolding program
batches_example =
    get_batches_for_job_lem same_order 8 dataset job true planner planned plan plan-is_built 1
      (omega arith)

coordl_plan_example :
    (entries : List CoorDlBatchPlanEntry) × (build_coordl_batch_plan
        (λ seed n. range_from 0 n)
        (pos 5)
        (pos 2)
        (pos 7)
        (pos 2)
        true
        true
        (pos 0)
      ≡ ok entries)
    × ((length entries ≡ 7)
        × All (IsShare 2 2) entries
        × ((epoch : ℕ) × (index : ℕ) × InTurn entries epoch index))
coordl_plan_example =
    build_coordl_batch_plan_lem (λ seed n. range_from 0 n) 4 1 6 1 true true (pos 0)
      (λ seed n. length-range_from 0 n) refl
