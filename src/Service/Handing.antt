-- ===== src/Service/Handing.antt =====
-- What handing a batch to a trainer does to the store.
use ad_artifacts.Base.{
  ℕ, ◌+◌, String, ◌≡◌, refl, ap, ◌∙◌, true, false, some, [], arith, eq_refl, leb, if◌then◌else◌,
  Bool-cases, inl, inr,
}
use ad_artifacts.Base.Int.{negsuc}
use ad_artifacts.Core.{Dataset, Batch, Job, BatchHandle, ok, advance_to_next_epoch, touch_entry}
use ad_artifacts.Core.Fetch.{batches_per_epoch}
use ad_artifacts.Dict.{get, put, update, has, add_under}
use ad_artifacts.Dict.Laws.{get-put, get-update}
use ad_artifacts.Store.State.{Store}
use ad_artifacts.Store.Jobs.{
  get_job, get_dataset, is_active, issue_batch_to_job, update_job_progress,
}
use ad_artifacts.Store.Plans.{set_planned_window}
use ad_artifacts.Store.Payloads.{touch_payload, pin_payload}
use ad_artifacts.Service.Trainers.{hand_over, turn_epoch}

-- The job once it was given its next batch, of an epoch with so many batches: it stands at the next one, or at the
-- first of the next epoch, where it has no last batch yet.
abbrev pub given : ℕ → ℕ → Job → Job
given now per_epoch job = record job {
  progress =
      if leb per_epoch (job.progress.next_batch_index + 1)
      then record {
        epoch = job.progress.epoch + 1;
        next_batch_index = 0;
        last_batch_id = "";
        last_batch_index = negsuc 0;
        updated_at_ms = now;
      }
      else record (job.progress) { next_batch_index = job.progress.next_batch_index + 1 };
}

-- The job that moved past the batch it stood at.
abbrev moved : Job → Job
moved job = record job {
  progress = record (job.progress) { next_batch_index = job.progress.next_batch_index + 1 };
}

abbrev move : ℕ → Job → Job
move batch_index j = record j {
  progress = record (j.progress) { next_batch_index = batch_index + 1 };
}

module _ {F : Type 0} (now : ℕ) (job_id : String) (job : Job) (s : Store F)
    (known : get job_id s.jobs ≡ some job) where
  issue-moved :
      (batch : Batch)
      → is_active job ≡ true
      → batch.epoch ≡ job.progress.epoch
      → batch.batch_index ≡ job.progress.next_batch_index
      → issue_batch_to_job job_id batch.batch_id batch.epoch batch.batch_index s
        ≡ (ok (moved job), record s { jobs = update job_id (move batch.batch_index) s.jobs })
  unfolding issue_batch_to_job get_job
  issue-moved batch active same_epoch same_index =
      ground (arith, get-update job_id job_id (move batch.batch_index) s.jobs, eq_refl job_id)

  abbrev turned : Store F
  turned = record s {
    jobs =
        update job_id (λ j. record j { progress = advance_to_next_epoch now job.progress }) s.jobs;
    planned_batches = put job_id [] s.planned_batches;
  }

  turn_epoch-turned :
      (d : Dataset) (per_epoch : ℕ)
      → job.job_id ≡ job_id
      → get job.dataset_id s.datasets ≡ some d
      → batches_per_epoch d ≡ ok per_epoch
      → leb per_epoch job.progress.next_batch_index ≡ true
      → turn_epoch now job s ≡ (ok tt, turned)
  unfolding turn_epoch get_dataset get_job update_job_progress set_planned_window
  turn_epoch-turned d per_epoch named registered counted last =
      let f : Job → Job = λ j. record j { progress = advance_to_next_epoch now job.progress } in
      ground (
        arith,
        registered,
        counted,
        last,
        named,
        ap (λ k. get k s.jobs) named,
        ap (λ k. get k (update k f s.jobs)) named,
        ap (λ k. update k f s.jobs) named,
        ap (λ k. put k [] s.planned_batches) named,
        ap (λ k. has k s.jobs) named,
        get-update job_id job_id f s.jobs,
        get-update job.job_id job_id f s.jobs,
        eq_refl job_id,
      )

  turn_epoch-stays :
      (d : Dataset) (per_epoch : ℕ)
      → get job.dataset_id s.datasets ≡ some d
      → batches_per_epoch d ≡ ok per_epoch
      → leb per_epoch job.progress.next_batch_index ≡ false
      → turn_epoch now job s ≡ (ok tt, s)
  unfolding turn_epoch get_dataset
  turn_epoch-stays d per_epoch registered counted more = ground (arith, registered, counted, more)

-- The store that a trainer's batch leaves behind, up to the window that is planned next.
pub record Handed {F : Type 0} (now : ℕ) (job_id key : String) (job : Job) (per_epoch : ℕ)
    (s t : Store F) : Type 0 where
  pub job_given : get job_id t.jobs ≡ some (given now per_epoch job)
  pub pins :
      t.payload_pins
      ≡ (if has key s.payload_entries then add_under key job_id s.payload_pins else s.payload_pins)
  pub datasets : t.datasets ≡ s.datasets
  pub planned_kept : has job_id s.planned_batches ≡ true → has job_id t.planned_batches ≡ true

module _ {F : Type 0} (now : ℕ) (job_id : String) (job : Job) (d : Dataset) (per_epoch : ℕ)
    (batch : Batch) (handle : BatchHandle) (s : Store F) (known : get job_id s.jobs ≡ some job)
    (named : job.job_id ≡ job_id) (active : is_active job ≡ true)
    (registered : get job.dataset_id s.datasets ≡ some d)
    (counted : batches_per_epoch d ≡ ok per_epoch) (same_epoch : batch.epoch ≡ job.progress.epoch)
    (same_index : batch.batch_index ≡ job.progress.next_batch_index) where
  abbrev touched : Store F
  touched = pin_payload handle.cache_key job_id (touch_payload now handle.cache_key s)

  touched-tables :
      (touched.jobs ≡ s.jobs)
      × (touched.datasets ≡ s.datasets)
      × (touched.planned_batches ≡ s.planned_batches)
      × (touched.payload_pins ≡ (
          if has handle.cache_key s.payload_entries
          then add_under handle.cache_key job_id s.payload_pins
          else s.payload_pins))
  unfolding touch_payload pin_payload
  touched-tables =
      let there =
        get-update handle.cache_key handle.cache_key (touch_entry now) s.payload_entries in
      (ground arith, ground arith, ground arith, ground (arith, there, eq_refl handle.cache_key))

  abbrev issued : Store F
  issued = record touched { jobs = update job_id (move batch.batch_index) touched.jobs }

  issued-knows : get job_id issued.jobs ≡ some (moved job)
  issued-knows = ground (
    arith,
    touched-tables.0,
    get-update job_id job_id (move batch.batch_index) touched.jobs,
    ap (get job_id) touched-tables.0,
    eq_refl job_id,
  )

  hand_over-turn_epoch : hand_over now job_id batch handle s ≡ turn_epoch now (moved job) issued
  unfolding hand_over
  hand_over-turn_epoch =
      let at : get job_id touched.jobs ≡ some job = ap (get job_id) touched-tables.0 ∙ known in
      rw (issue-moved now job_id job touched at batch active same_epoch same_index) refl

  pub hand_over-Handed :
      ((hand_over now job_id batch handle s).0 ≡ ok tt)
      × Handed now job_id handle.cache_key job per_epoch s (hand_over now job_id batch handle s).1
  unfolding advance_to_next_epoch
  hand_over-Handed =
      let registered' : get job.dataset_id issued.datasets ≡ some d =
        ap (get job.dataset_id) touched-tables.1 ∙ registered in
      elim (Bool-cases (leb per_epoch (job.progress.next_batch_index + 1))) [
        | inl last ↦
            rw
              (
                hand_over-turn_epoch,
                turn_epoch-turned now job_id (moved job) issued issued-knows d per_epoch named
                    registered' counted last,
              )
              (
                refl,
                record {
                  job_given = ground (
                    arith,
                    last,
                    issued-knows,
                    get-update job_id job_id
                        (λ j. record j {
                          progress = advance_to_next_epoch now (moved job).progress;
                        })
                        issued.jobs,
                    eq_refl job_id,
                  );
                  pins = touched-tables.3;
                  datasets = touched-tables.1;
                  planned_kept = λ h.
                      ground
                        (arith, get-put job_id job_id [] touched.planned_batches, eq_refl job_id);
                },
              )
        | inr more ↦
            rw
              (
                hand_over-turn_epoch,
                turn_epoch-stays now job_id (moved job) issued issued-knows d per_epoch registered'
                    counted more,
              )
              (
                refl,
                record {
                  job_given = ground (arith, more, issued-knows);
                  pins = touched-tables.3;
                  datasets = touched-tables.1;
                  planned_kept = λ h. ap (has job_id) touched-tables.2 ∙ h;
                },
              )
      ]
