-- ===== src/Planner.antt =====
-- batchflow/coordinator/batch_coordinator.py: epoch plans and the batches that a job is given next.
-- `random.Random(seed).shuffle` is the parameter `shuffle` : seed → list → shuffled list.
pub mod Splits
pub mod Epochs
use ad_artifacts.Base.{
  ℕ, zero, suc, ◌+◌, ◌-◌, ◌/◌, String, Bool, true, false, not, ◌&&◌, Option, none, some, List, [],
  ◌∷◌, ◌==◌, if◌then◌else◌, ltb, length, take, drop, get_elem?, or_default, min, max, str_append,
}
use ad_artifacts.Base.Int.{ℤ, pos, pos_part, is_positive, ◌+ℤ◌}
use ad_artifacts.Base.Decimal.{show_ℕ}
use ad_artifacts.Core.{Sample, Dataset, Batch, Job, Result, ok, raise, check, bad_batch_size}
use ad_artifacts.Core as Core
use ad_artifacts.Exec.{Exec, pure, reads, ◌>>=◌}
use ad_artifacts.Dict.{Dict, get, put}

pub record EpochPlan : Type 0 where
  pub plan_id : String
  pub dataset_id : String
  pub epoch : ℕ
  pub sample_groups : List (List Sample)

pub record Planner : Type 0 where
  pub default_lookahead : ℤ
  pub epoch_plans_by_id : Dict EpochPlan

-- len(range(0, n, step)), for a positive step
abbrev pub range_length : ℕ → ℕ → ℕ
range_length n step = (n + step - 1) / step

module _ {ℓ} {A : Type ℓ} where
  -- `groups.append(group)`, if the group is not empty.
  abbrev pub cons_group : List A → List (List A) → List (List A)
  cons_group [] groups = groups
  cons_group (x ∷ xs) groups = (x ∷ xs) ∷ groups

  -- The loop `for index in range(0, len(samples), batch_size)`, with the rounds that are left.
  unfoldable pub split_from : List A → ℕ → Bool → ℕ → ℕ → List (List A)
  split_from samples batch_size drop_last zero index = []
  split_from samples batch_size drop_last (suc rounds) index =
      let group = take batch_size (drop index samples) in
      let rest = split_from samples batch_size drop_last rounds (index + batch_size) in
      if ltb (length group) batch_size && drop_last then [] else cons_group group rest

  unfoldable pub split_samples_into_batches : List A → ℤ → Bool → Result (List (List A))
  split_samples_into_batches samples batch_size drop_last =
      let size = pos_part batch_size in
      if not (is_positive batch_size)
      then raise (bad_batch_size batch_size)
      else ok (split_from samples size drop_last (range_length (length samples) size) 0)

-- f"{dataset_id}:epoch-{epoch}"
unfoldable pub epoch_plan_id : String → ℕ → String
epoch_plan_id dataset_id epoch = str_append dataset_id (str_append ":epoch-" (show_ℕ epoch))

-- f"{dataset_id}:epoch-{epoch}:batch-{batch_index}", and f":job-{job_id}" behind it if there is a job id
unfoldable pub make_batch_id : String → ℕ → ℕ → Option String → String
make_batch_id dataset_id epoch batch_index job_id =
    let base = str_append dataset_id (
      str_append ":epoch-"
        (str_append (show_ℕ epoch) (str_append ":batch-" (show_ℕ batch_index)))) in
    elim job_id [
      | none ↦ base
      | some j ↦ if j == "" then base else str_append base (str_append ":job-" j)
    ]

unfoldable pub make_batch : ℕ → Dataset → ℕ → ℕ → List Sample → Option String → Batch
make_batch now dataset epoch batch_index samples job_id = record {
  batch_id = make_batch_id dataset.dataset_id epoch batch_index job_id;
  dataset_id = dataset.dataset_id;
  epoch = epoch;
  batch_index = batch_index;
  batch_size = dataset.batch_size;
  samples = samples;
  planned_at_ms = now;
  transform_name = dataset.transform_name;
  metadata = dataset.metadata;
}

-- max(1, job.lookahead_batches or default)
unfoldable pub effective_lookahead : ℤ → ℤ → ℕ
effective_lookahead (pos zero) default = max 1 (pos_part default)
effective_lookahead lookahead default = max 1 (pos_part lookahead)

-- The comprehension over `range(start_index, stop_index)`; a group is there at each of these indices.
unfoldable pub batches_from :
    ℕ → Dataset → ℕ → Option String → List (List Sample) → ℕ → ℕ → List Batch
batches_from now dataset epoch job_id groups zero batch_index = []
batches_from now dataset epoch job_id groups (suc rounds) batch_index =
    make_batch now dataset epoch batch_index (or_default (get_elem? groups batch_index) []) job_id
    ∷ batches_from now dataset epoch job_id groups rounds (suc batch_index)

-- The second locked section: another thread's plan wins over the one just built.
unfoldable pub keep_first_plan : EpochPlan → Exec Planner EpochPlan
keep_first_plan plan s = elim (get plan.plan_id s.epoch_plans_by_id) [
  | some existing ↦ pure existing s
  | none ↦ pure plan (record s { epoch_plans_by_id = put plan.plan_id plan s.epoch_plans_by_id })
]

module _ (shuffle : ℤ → List Sample → List Sample) where
  -- The samples in the order of an epoch.
  unfoldable pub epoch_samples : Dataset → ℕ → List Sample
  epoch_samples dataset epoch =
      if dataset.shuffle
      then shuffle (dataset.seed +ℤ pos epoch) dataset.samples
      else dataset.samples

  -- The plan that is built where none is known.
  unfoldable pub build_epoch_plan : Dataset → ℕ → Result EpochPlan
  build_epoch_plan dataset epoch =
      Core.◌>>=◌
        (split_samples_into_batches (epoch_samples dataset epoch) dataset.batch_size
          dataset.drop_last)
        (λ groups. ok (record {
          plan_id = epoch_plan_id dataset.dataset_id epoch;
          dataset_id = dataset.dataset_id;
          epoch = epoch;
          sample_groups = groups;
        }))

  unfoldable pub get_or_build_epoch_plan : Dataset → ℕ → Exec Planner EpochPlan
  get_or_build_epoch_plan dataset epoch s =
      elim (get (epoch_plan_id dataset.dataset_id epoch) s.epoch_plans_by_id) [
        | some existing ↦ pure existing s
        | none ↦ (reads (λ _. build_epoch_plan dataset epoch) >>= keep_first_plan) s
      ]

  unfoldable pub get_batches_for_job : ℕ → Dataset → Job → Bool → Exec Planner (List Batch)
  get_batches_for_job now dataset job reuse_enabled s =
      let epoch = job.progress.epoch in
      let start_index = job.progress.next_batch_index in
      let lookahead = effective_lookahead job.lookahead_batches s.default_lookahead in
      let job_id : Option String = if reuse_enabled then none else some job.job_id in
      (get_or_build_epoch_plan dataset epoch >>= λ plan.
      let stop_index = min (length plan.sample_groups) (start_index + lookahead) in
      pure (
        batches_from now dataset epoch job_id plan.sample_groups (stop_index - start_index)
          start_index))
        s
