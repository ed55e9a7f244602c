-- ===== src/Service/Delivery.antt =====
-- A trainer is given the batches of its job one after the other.
use ad_artifacts.Base.{
  ◌&&◌, ◌==◌, ℕ, String, ◌≡◌, ap, ◌∙◌, subst, Bool, true, none, some, List, [], ◌∷◌, arith, eq_refl,
  if◌then◌else◌, Option-cases, inl, inr,
}
use ad_artifacts.Base.Int.{ℤ, is_positive}
use ad_artifacts.Core.{Sample, Dataset, Batch, Job, Result-cases, BatchHandle, Result, ok, text}
use ad_artifacts.Core.Fetch.{batches_per_epoch, is_ready}
use ad_artifacts.Exec.{Exec, pure, ◌>>=◌}
use ad_artifacts.Dict.{Dict, get, put, update, has, add_under}
use ad_artifacts.Dict.Laws.{get-update}
use ad_artifacts.Dict.Sets.{holds, holds-add_under}
use ad_artifacts.Store.Pins.{pinned}
use ad_artifacts.Store.State.{Store, JobMetrics}
use ad_artifacts.Store.Jobs.{get_job, get_dataset, is_active}
use ad_artifacts.Store.Metrics.{
  change_metrics, get_job_metrics, note_get_next_batch_call, note_batch_handle_served,
}
use ad_artifacts.Store.Plans.{
  set_planned_window, get_planned_window, get_batch, planned, find_batch,
}
use ad_artifacts.Store.Payloads.{get_batch_handle}
use ad_artifacts.Planner.{
  Planner, get_batches_for_job, get_or_build_epoch_plan, build_epoch_plan,
  split_samples_into_batches, keep_first_plan, epoch_plan_id,
}
use ad_artifacts.Store.Windows.{find_batch-matches}
use ad_artifacts.Scheduler.{SchedulerConfig}
use ad_artifacts.Scheduler.Handles.{resolve_batch_handle, with_cache_result}
use ad_artifacts.Service.{Service}
use ad_artifacts.Service.Window.{refresh_job_window, replan}
use ad_artifacts.Service.Trainers.{
  GetNextBatchResult, get_next_batch, serve, hand_over, find_batch_or_replan, batch_result,
  batch_at,
}
use ad_artifacts.Service.Handing.{given, Handed, hand_over-Handed}

-- Planning for a dataset with a positive batch size does not raise.
get_batches_for_job-ok :
    (shuffle : ℤ → List Sample → List Sample) (now : ℕ) (d : Dataset) (job : Job) (reuse : Bool)
    (p : Planner)
    → is_positive d.batch_size ≡ true
    → (batches : List Batch) × ((get_batches_for_job shuffle now d job reuse p).0 ≡ ok batches)
unfolding get_batches_for_job get_or_build_epoch_plan build_epoch_plan split_samples_into_batches
    keep_first_plan
get_batches_for_job-ok shuffle now d job reuse p positive =
    elim (Result-cases (get_batches_for_job shuffle now d job reuse p).0) [
      | inr returned ↦ returned
      | inl (e, raised) ↦
          elim (Option-cases
            (get (epoch_plan_id d.dataset_id job.progress.epoch) p.epoch_plans_by_id)) [
              | inl new ↦ absurd (ground (arith, positive, new, raised))
              | inr (plan, old) ↦ absurd (ground (arith, positive, old, raised))
            ]
    ]

module _ {F : Type 0} (config : SchedulerConfig F) (shuffle : ℤ → List Sample → List Sample)
    (now : ℕ) (job_id : String) (c : Service F) (job : Job) (d : Dataset) where
  -- Planning a job's window anew succeeds, and changes neither the jobs nor the pins.
  refresh-ok :
      get job_id c.store.jobs ≡ some job
      → is_active job ≡ true
      → has job_id c.store.planned_batches ≡ true
      → get job.dataset_id c.store.datasets ≡ some d
      → is_positive d.batch_size ≡ true
      → let (r, c') = refresh_job_window config shuffle now job_id true c in
        (r ≡ ok tt)
        × (c'.store.jobs ≡ c.store.jobs)
        × (c'.store.payload_pins ≡ c.store.payload_pins)
  unfolding refresh_job_window replan get_job get_dataset get_planned_window set_planned_window
  refresh-ok known active has_window registered positive =
      let (batches, e) =
        get_batches_for_job-ok shuffle now d job config.reuse_enabled c.planner positive in
      (
        ground (arith, known, active, has_window, registered, e),
        ground (arith, known, active, has_window, registered, e),
        ground (arith, known, active, has_window, registered, e),
      )

-- A job's metrics are changed, and nothing else.
record Counted {F : Type 0} (job_id : String) (s : Store F) (m : Exec (Store F) (Unit {0}))
    : Type 0 where
  table : Dict (JobMetrics F)
  runs : m s ≡ (ok tt, record s { job_metrics = table })
  still : has job_id table ≡ true

module _ {F : Type 0} (job_id : String) (s : Store F)
    (measured : has job_id s.job_metrics ≡ true) where
  change_metrics-Counted :
      (f : JobMetrics F → JobMetrics F) → Counted job_id s (change_metrics job_id f)
  unfolding change_metrics get_job_metrics
  change_metrics-Counted f = elim (Option-cases (get job_id s.job_metrics)) [
    | inl missing ↦ absurd (ground (arith, measured, missing))
    | inr (m, found) ↦ record {
      table = update job_id f s.job_metrics;
      runs = ground (arith, found);
      still = ground (arith, found, get-update job_id job_id f s.job_metrics, eq_refl job_id);
    }
  ]

  note_get_next_batch_call-Counted : Counted job_id s (note_get_next_batch_call job_id)
  unfolding note_get_next_batch_call
  note_get_next_batch_call-Counted = change_metrics-Counted _

  note_batch_handle_served-Counted :
      (handle : BatchHandle) → Counted job_id s (note_batch_handle_served job_id handle)
  unfolding note_batch_handle_served
  note_batch_handle_served-Counted handle = change_metrics-Counted _

module _ {F : Type 0} (config : SchedulerConfig F) (shuffle : ℤ → List Sample → List Sample)
    (now : ℕ) (job_id : String) (job : Job) (d : Dataset) (per_epoch : ℕ) (batch : Batch)
    (handle : BatchHandle) where
  abbrev answered : BatchHandle
  answered = with_cache_result handle "hit"

  -- The service and the answer after a ready batch was handed over.
  record Delivered (c : Service F) (r : Result GetNextBatchResult × Service F) : Type 0 where
    answer : r.0 ≡ ok (batch_result job_id batch answered)
    job_given : get job_id r.1.store.jobs ≡ some (given now per_epoch job)
    pins : r.1.store.payload_pins ≡ (
        if has handle.cache_key c.store.payload_entries
        then add_under handle.cache_key job_id c.store.payload_pins
        else c.store.payload_pins)

  module _ (c : Service F) (known : get job_id c.store.jobs ≡ some job)
      (named : job.job_id ≡ job_id) (active : is_active job ≡ true)
      (registered : get job.dataset_id c.store.datasets ≡ some d)
      (counted : batches_per_epoch d ≡ ok per_epoch) (same_epoch : batch.epoch ≡ job.progress.epoch)
      (same_index : batch.batch_index ≡ job.progress.next_batch_index)
      (has_window : has job_id c.store.planned_batches ≡ true)
      (stored : get batch.batch_id c.store.batch_handles ≡ some handle)
      (ready : is_ready handle ≡ true) (measured : has job_id c.store.job_metrics ≡ true) where
    positive : is_positive d.batch_size ≡ true
    unfolding batches_per_epoch
    positive = ground (arith, counted)

    abbrev noted : Counted job_id c.store (note_batch_handle_served job_id answered)
    noted = note_batch_handle_served-Counted job_id c.store measured answered

    abbrev before : Store F
    before = record (c.store) { job_metrics = noted.table }

    abbrev over : (Result (Unit {0})) × Store F
    over = hand_over now job_id batch answered before

    handed : (over.0 ≡ ok tt) × Handed now job_id handle.cache_key job per_epoch before over.1
    unfolding with_cache_result
    handed =
        hand_over-Handed now job_id job d per_epoch batch answered before known named active
          registered counted same_epoch same_index

    serve-refresh :
        serve config shuffle now job_id batch c
        ≡ (refresh_job_window config shuffle now job_id true >>= λ _.
              pure (batch_result job_id batch answered))
            (record c { store = over.1 })
    unfolding serve resolve_batch_handle get_batch_handle with_cache_result
    serve-refresh = ground (arith, stored, ready, noted.runs, handed.0)

    serve-Delivered : Delivered c (serve config shuffle now job_id batch c)
    serve-Delivered =
        let h = handed.1 in
        let (worked, kept, pins_kept) =
          refresh-ok config shuffle now job_id (record c { store = over.1 })
            (given now per_epoch job) d h.job_given active (h.planned_kept has_window)
            (ap (get job.dataset_id) h.datasets ∙ registered) positive in
        rw serve-refresh (record {
          answer = ground (arith, worked);
          job_given = ground (arith, worked, ap (get job_id) kept, h.job_given);
          pins = ground (arith, worked, pins_kept, h.pins);
        })

find_batch_or_replan-found :
    {F : Type 0} (config : SchedulerConfig F) (shuffle : ℤ → List Sample → List Sample) (now : ℕ)
    (job : Job) (c : Service F) (batch : Batch)
    → batch_at job c.store ≡ some batch
    → find_batch_or_replan config shuffle now job c ≡ (ok (some batch), c)
unfolding find_batch_or_replan
find_batch_or_replan-found config shuffle now job c batch found = ground (arith, found)

-- A window in which a batch is found was planned, and the batch stands where it was looked for.
batch_at-place :
    {F : Type 0} (job : Job) (s : Store F) (batch : Batch)
    → batch_at job s ≡ some batch
    → (has job.job_id s.planned_batches ≡ true)
      × (batch.epoch ≡ job.progress.epoch)
      × (batch.batch_index ≡ job.progress.next_batch_index)
unfolding get_batch planned find_batch
batch_at-place job s batch found = elim (Option-cases (get job.job_id s.planned_batches)) [
  | inl missing ↦ absurd (ground (arith, missing, found))
  | inr (bs, there) ↦
      let (e, i) =
        find_batch-matches job.progress.epoch job.progress.next_batch_index bs {b = batch}
          (ground (arith, there, found)) in
      (ground (arith, there), e, i)
]

module _ {F : Type 0} (config : SchedulerConfig F) (shuffle : ℤ → List Sample → List Sample) where
  -- A trainer without feedback asks for the next batch of an active job, whose place in a registered dataset of
  -- `per_epoch` batches per epoch is planned and whose batch there is ready. It gets the handle of that batch,
  -- with `hit` as the cache result in its metadata, and the batch's epoch and index. The job stands one batch further,
  -- or at batch 0 of the next epoch after the last one, and the job pins the payload if that has an entry, which is
  -- the one pin that changes.
  pub get_next_batch-delivers :
      (now : ℕ) (job_id : String) (job : Job) (d : Dataset) (per_epoch : ℕ) (batch : Batch)
      (handle : BatchHandle) (c : Service F)
      → get job_id c.store.jobs ≡ some job
      → job.job_id ≡ job_id
      → is_active job ≡ true
      → get job.dataset_id c.store.datasets ≡ some d
      → batches_per_epoch d ≡ ok per_epoch
      → batch_at job c.store ≡ some batch
      → get batch.batch_id c.store.batch_handles ≡ some handle
      → is_ready handle ≡ true
      → has job_id c.store.job_metrics ≡ true
      → let (r, c') = get_next_batch config shuffle now job_id none c in
        (r
          ≡ ok (record {
            batch_handle = record handle {
              metadata = put "cache_result" (text "hit") handle.metadata;
            };
            epoch = batch.epoch;
            batch_index = some batch.batch_index;
            metadata = ("job_id", text job_id) ∷ [];
          }))
        × (get job_id c'.store.jobs ≡ some (given now per_epoch job))
        × ((k j : String)
            → pinned k j c'.store ≡ (
                if has handle.cache_key c.store.payload_entries
                  && (handle.cache_key == k)
                  && (job_id == j)
                then true
                else pinned k j c.store))
  unfolding get_next_batch get_job get_dataset get_batch planned with_cache_result
  get_next_batch-delivers now job_id job d per_epoch batch handle c known named active registered
        counted found stored ready measured =
      let n = note_get_next_batch_call-Counted job_id c.store measured in
      let c' : Service F = record c { store = record (c.store) { job_metrics = n.table } } in
      let (has_window, same_epoch, same_index) = batch_at-place job c.store batch found in
      let has_window' : has job_id c.store.planned_batches ≡ true =
        subst (λ k. has k c.store.planned_batches ≡ true) named has_window in
      let v =
        serve-Delivered config shuffle now job_id job d per_epoch batch handle c' known named active
          registered counted same_epoch same_index has_window' stored ready n.still in
      let looked = find_batch_or_replan-found config shuffle now job c' batch found in
      let whole : get_next_batch config shuffle now job_id none c
          ≡ serve config shuffle now job_id batch c' =
        ground (arith, known, active, registered, n.runs, looked) in
      rw whole (
        v.answer,
        v.job_given,
        λ k j. ground (
          arith,
          ap (holds k j) v.pins,
          holds-add_under handle.cache_key job_id k j c.store.payload_pins,
        ),
      )
