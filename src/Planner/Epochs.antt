-- ===== src/Planner/Epochs.antt =====
-- An epoch's plan: every sample exactly once, in as many batches as the dataset counts, cached under the
-- epoch's id.
use ad_artifacts.Base.{
  ◌||◌, ◌==◌, str_append, ℕ, zero, suc, ◌+◌, ◌-◌, ◌*◌, ◌<◌, ◌≡◌, refl, sym, ap, ◌∙◌, Bool, true,
  false, String, List, [], Option, none, some, arith, length, take, All, if◌then◌else◌, Bool-cases,
  inl, inr, get_elem?, or_default, min, max, eq_refl, subst, get_elem?-in_range,
}
use mathlib.Core.Logic.{∥∥₁_elim}
use mathlib.Core.List.{flatten, Perm, Permᴰ}
use mathlib.Core.List.Perm
use native.Mathlib.Nat.{ℕ_set}
use ad_artifacts.Base.Decimal.{show_ℕ}
use ad_artifacts.Base.Int.{ℤ, pos, negsuc, eqb_ℤ, pos_part, is_positive}
use ad_artifacts.Core.{Sample, Dataset, Batch, Job, ok}
use ad_artifacts.Core.Fetch.{sample_count, batches_per_epoch}
use ad_artifacts.Dict.{get}
use ad_artifacts.Dict.Laws.{get-put}
use ad_artifacts.Planner.{
  EpochPlan, Planner, split_from, range_length, split_samples_into_batches, epoch_plan_id,
  make_batch, make_batch_id, effective_lookahead, batches_from, epoch_samples, build_epoch_plan,
  keep_first_plan, get_or_build_epoch_plan, get_batches_for_job,
}
use ad_artifacts.Planner.Splits.{split_false, split_true}

-- What `random.Random(seed).shuffle` promises: the list holds the same samples, as often.
abbrev pub Permutes : (ℤ → List Sample → List Sample) → Type 0
Permutes shuffle = (seed : ℤ) (xs : List Sample) → Perm (shuffle seed xs) xs

length-permᴰ {ℓ} : {A : Type ℓ} {xs ys : List A} → Permᴰ xs ys → length xs ≡ length ys
length-permᴰ Permᴰ.nil = refl
length-permᴰ (Permᴰ.cons e p) = ap suc (length-permᴰ p)
length-permᴰ (Permᴰ.swap e e') = refl
length-permᴰ (Permᴰ.trans p q) = length-permᴰ p ∙ length-permᴰ q

length-perm {ℓ} : {A : Type ℓ} (xs ys : List A) → Perm xs ys → length xs ≡ length ys
length-perm xs ys p = ∥∥₁_elim p (ℕ_set _ _) length-permᴰ

module _ (shuffle : ℤ → List Sample → List Sample) (permutes : Permutes shuffle) (d : Dataset)
    (epoch : ℕ) where
  epoch_samples-perm : Perm (epoch_samples shuffle d epoch) d.samples
  unfolding epoch_samples
  epoch_samples-perm = elim (Bool-cases d.shuffle) [
    | inl on ↦ rw (on, epoch_samples) (permutes _ d.samples)
    | inr off ↦ rw (off, epoch_samples) (Perm.refl d.samples)
  ]

  length-epoch_samples : length (epoch_samples shuffle d epoch) ≡ sample_count d
  unfolding sample_count
  length-epoch_samples = length-perm _ _ epoch_samples-perm

  -- The groups of an epoch, by the dataset's batch size.
  unfoldable pub epoch_groups : List (List Sample)
  epoch_groups =
      let order = epoch_samples shuffle d epoch in
      let size = pos_part d.batch_size in
      split_from order size d.drop_last (range_length (length order) size) 0

  unfoldable pub epoch_plan : EpochPlan
  epoch_plan = record {
    plan_id = epoch_plan_id d.dataset_id epoch;
    dataset_id = d.dataset_id;
    epoch = epoch;
    sample_groups = epoch_groups;
  }

  build_epoch_plan-epoch_plan :
      is_positive d.batch_size ≡ true → build_epoch_plan shuffle d epoch ≡ ok epoch_plan
  unfolding build_epoch_plan split_samples_into_batches epoch_plan epoch_groups
  build_epoch_plan-epoch_plan positive = rw positive refl

  counted : is_positive d.batch_size ≡ true → batches_per_epoch d ≡ ok (length epoch_groups)
  unfolding batches_per_epoch epoch_groups
  counted positive =
      let order = epoch_samples shuffle d epoch in
      let size = pos_part d.batch_size in
      ground (
        arith,
        (split_false order size (ground arith)).0,
        (split_true order size (ground arith)).0,
        length-epoch_samples,
      )

  -- Where the shuffle permutes: a dataset with a positive batch size that keeps its last batch gets a plan
  -- with as many groups as it counts batches, and the groups hold each of its samples exactly once.
  pub build_epoch_plan-keeps_all :
      is_positive d.batch_size ≡ true
      → d.drop_last ≡ false
      → (plan : EpochPlan) × (build_epoch_plan shuffle d epoch ≡ ok plan)
        × (batches_per_epoch d ≡ ok (length plan.sample_groups))
        × Perm (flatten plan.sample_groups) d.samples
  unfolding epoch_groups epoch_plan
  build_epoch_plan-keeps_all positive off =
      let order = epoch_samples shuffle d epoch in
      let e : flatten epoch_groups ≡ order =
        ground (arith, (split_false order (pos_part d.batch_size) (ground arith)).1) in
      (epoch_plan, build_epoch_plan-epoch_plan positive, counted positive, rw e epoch_samples-perm)

  -- Where the shuffle permutes: a dataset with a positive batch size that drops its last batch gets a plan
  -- with as many groups as it counts batches. Every group is full, and together they are the beginning of
  -- the epoch's order.
  pub build_epoch_plan-full_groups :
      is_positive d.batch_size ≡ true
      → d.drop_last ≡ true
      → let size = pos_part d.batch_size in
        (plan : EpochPlan) × (build_epoch_plan shuffle d epoch ≡ ok plan)
        × (batches_per_epoch d ≡ ok (length plan.sample_groups))
        × All (λ g. length g ≡ size) plan.sample_groups
        × (flatten plan.sample_groups
            ≡ take (length plan.sample_groups * size) (epoch_samples shuffle d epoch))
  unfolding epoch_groups epoch_plan
  build_epoch_plan-full_groups positive on =
      let order = epoch_samples shuffle d epoch in
      let size = pos_part d.batch_size in
      let (l, full, prefix) = split_true order size (ground arith) in
      let (full', prefix') =
        subst
          (λ b.
            let gs = split_from order size b (range_length (length order) size) 0 in
            All (λ g. length g ≡ size) gs × (flatten gs ≡ take (length gs * size) order))
          (sym on) (full, rw l prefix) in
      (epoch_plan, build_epoch_plan-epoch_plan positive, counted positive, full', prefix')

get_or_build_epoch_plan-stored :
    (shuffle : ℤ → List Sample → List Sample) (d : Dataset) (epoch : ℕ) (s s' : Planner)
    (plan : EpochPlan)
    → get_or_build_epoch_plan shuffle d epoch s ≡ (ok plan, s')
    → get (epoch_plan_id d.dataset_id epoch) s'.epoch_plans_by_id ≡ some plan
unfolding get_or_build_epoch_plan keep_first_plan build_epoch_plan
get_or_build_epoch_plan-stored shuffle d epoch s s' plan h =
    let key = epoch_plan_id d.dataset_id epoch in
    ground (arith, get-put key key plan s.epoch_plans_by_id, eq_refl key)

-- A plan that was returned is returned for its id from then on, whatever is asked for, and asking again
-- changes nothing.
pub get_or_build_epoch_plan-again :
    (shuffle : ℤ → List Sample → List Sample) (d d' : Dataset) (epoch : ℕ) (s s' : Planner)
    (plan : EpochPlan)
    → d'.dataset_id ≡ d.dataset_id
    → get_or_build_epoch_plan shuffle d epoch s ≡ (ok plan, s')
    → get_or_build_epoch_plan shuffle d' epoch s' ≡ (ok plan, s')
unfolding get_or_build_epoch_plan
get_or_build_epoch_plan-again shuffle d d' epoch s s' plan same h =
    let known : get (epoch_plan_id d'.dataset_id epoch) s'.epoch_plans_by_id ≡ some plan =
      subst (λ k. get (epoch_plan_id k epoch) s'.epoch_plans_by_id ≡ some plan) (sym same)
        (unfold get_or_build_epoch_plan in
          get_or_build_epoch_plan-stored shuffle d epoch s s' plan h) in
    rw (known, get_or_build_epoch_plan)

module _ (now : ℕ) (d : Dataset) (epoch : ℕ) (job_id : Option String)
    (groups : List (List Sample)) where
  length-batches_from :
      (rounds index : ℕ) → length (batches_from now d epoch job_id groups rounds index) ≡ rounds
  unfolding batches_from
  length-batches_from zero index = refl
  length-batches_from (suc rounds) index = ap suc (length-batches_from rounds (suc index))

  get_elem?-batches_from :
      (rounds index k : ℕ)
      → k < rounds
      → get_elem? (batches_from now d epoch job_id groups rounds index) k
        ≡ some (
            make_batch now d epoch
              (index + k)
              (or_default (get_elem? groups (index + k)) [])
              job_id)
  unfolding batches_from
  get_elem?-batches_from zero index k h = absurd (omega arith)
  get_elem?-batches_from (suc rounds) index zero h =
      let e : index + 0 ≡ index = omega arith in rw e refl
  get_elem?-batches_from (suc rounds) index (suc k) h =
      let e : index + suc k ≡ suc index + k = omega arith in
      rw e (get_elem?-batches_from rounds (suc index) k (omega arith))

effective_lookahead_lem :
    (n default : ℤ)
    → effective_lookahead n default ≡ max 1 (pos_part (if eqb_ℤ n (pos 0) then default else n))
unfolding effective_lookahead
effective_lookahead_lem (pos zero) default = refl
effective_lookahead_lem (pos (suc n)) default = ground arith
effective_lookahead_lem (negsuc n) default = ground arith

module _ (shuffle : ℤ → List Sample → List Sample) (now : ℕ) (d : Dataset) (job : Job)
    (reuse : Bool) (s s' : Planner) (plan : EpochPlan)
    (known : get_or_build_epoch_plan shuffle d job.progress.epoch s ≡ (ok plan, s')) where
  -- Where the job's next batch starts, and who owns it.
  abbrev start : ℕ
  start = job.progress.next_batch_index

  abbrev owner : Option String
  owner = if reuse then none else some job.job_id

  -- f"{dataset_id}:epoch-{epoch}:batch-{batch_index}" for the k-th batch from the job's next one on.
  abbrev shared_id : ℕ → String
  shared_id k = str_append d.dataset_id (
      str_append ":epoch-"
        (str_append (show_ℕ job.progress.epoch) (str_append ":batch-" (show_ℕ (start + k)))))

  make_batch_id-owner :
      (k : ℕ)
      → make_batch_id d.dataset_id job.progress.epoch (start + k) owner ≡ (
          if reuse || (job.job_id == "")
          then shared_id k
          else str_append (shared_id k) (str_append ":job-" job.job_id))
  unfolding make_batch_id
  make_batch_id-owner k = ground arith

  -- The job's lookahead, or the planner's default if that is 0, and at least 1.
  abbrev lookahead : ℕ
  lookahead = max 1 (
      pos_part (
        if eqb_ℤ job.lookahead_batches (pos 0) then s.default_lookahead else job.lookahead_batches))

  effective_lookahead-lookahead :
      effective_lookahead job.lookahead_batches s.default_lookahead ≡ lookahead
  effective_lookahead-lookahead = effective_lookahead_lem job.lookahead_batches s.default_lookahead

  abbrev planned_batches : List Batch
  planned_batches =
      batches_from now d job.progress.epoch owner plan.sample_groups
        (min (length plan.sample_groups) (start + lookahead) - start) start

  get_batches_for_job-planned :
      get_batches_for_job shuffle now d job reuse s ≡ (ok planned_batches, s')
  unfolding get_batches_for_job
  get_batches_for_job-planned = rw (known, effective_lookahead-lookahead) refl

  length-planned_batches :
      length planned_batches ≡ min lookahead (length plan.sample_groups - start)
  length-planned_batches =
      length-batches_from now d job.progress.epoch owner plan.sample_groups _ start ∙ omega arith

  -- Once the epoch's plan is known, a job is given as many batches as its lookahead (the planner's default if that
  -- is 0, and at least 1) and the rest of the epoch allow. The k-th of them has the job's epoch, the index k after the
  -- job's next, the plan's group there as its samples, the rest from the dataset and the clock, and the id
  -- `{dataset}:epoch-{epoch}:batch-{index}`, with `:job-{job}` behind it where batches are not shared and the job has
  -- an id.
  pub get_batches_for_job_lem :
      (k : ℕ)
      → k < min lookahead (length plan.sample_groups - start)
      → (batches : List Batch) × (group : List Sample) × (get_batches_for_job shuffle now d job
            reuse s
          ≡ (ok batches, s'))
        × (length batches ≡ min lookahead (length plan.sample_groups - start))
        × (get_elem? plan.sample_groups (start + k) ≡ some group)
        × (get_elem? batches k
            ≡ some (record {
              batch_id =
                  if reuse || (job.job_id == "")
                  then shared_id k
                  else str_append (shared_id k) (str_append ":job-" job.job_id);
              dataset_id = d.dataset_id;
              epoch = job.progress.epoch;
              batch_index = start + k;
              batch_size = d.batch_size;
              samples = group;
              planned_at_ms = now;
              transform_name = d.transform_name;
              metadata = d.metadata;
            }))
  unfolding make_batch
  get_batches_for_job_lem k below =
      let (group, here) = get_elem?-in_range plan.sample_groups (start + k) (omega arith) in
      (
        planned_batches,
        group,
        get_batches_for_job-planned,
        length-planned_batches,
        here,
        get_elem?-batches_from now d job.progress.epoch owner plan.sample_groups _ start k
              (omega arith)
            ∙ ap
                (λ o.
                  some (make_batch now d job.progress.epoch (start + k) (or_default o []) owner))
                here
            ∙ ap
                (λ id. some (record (make_batch now d job.progress.epoch (start + k) group owner) {
                  batch_id = id;
                }))
                (make_batch_id-owner k),
      )
