-- ===== src/Service/Acknowledged.antt =====
-- A trainer acknowledges a batch.
use ad_artifacts.Base.{
  ℕ, String, ◌≡◌, Bool, true, false, ◌&&◌, some, ◌==◌, arith, if◌then◌else◌, Option-cases, inl, inr,
}
use ad_artifacts.Base.Int.{ℤ, pos, ltb_ℤ}
use ad_artifacts.Core.{Job, Result, ok, raise, acknowledgement_ahead, Result-cases}
use ad_artifacts.Dict.{get}
use ad_artifacts.Dict.Sets.{holds-discard_under}
use ad_artifacts.Store.State.{Store}
use ad_artifacts.Store.Jobs.{get_job}
use ad_artifacts.Store.Metrics.{change_metrics, get_job_metrics}
use ad_artifacts.Store.Plans.{acknowledge_batch}
use ad_artifacts.Store.Payloads.{unpin_payload}
use ad_artifacts.Store.Pins.{pinned}
use ad_artifacts.Service.{Service}
use ad_artifacts.Service.Trainers.{service_acknowledge_batch}

abbrev pub returned {ℓ} : {A : Type ℓ} → Result A → Bool
returned (ok a) = true
returned (raise e) = false

module _ {F : Type 0} (now : ℕ) (job_id batch_id : String) (epoch batch_index : ℤ) where
  acknowledge_batch-pins :
      (s : Store F)
      → (acknowledge_batch now job_id batch_id batch_index s).1.payload_pins ≡ s.payload_pins
  unfolding acknowledge_batch get_job change_metrics get_job_metrics
  acknowledge_batch-pins s = ground arith

  -- Acknowledging a batch of an epoch that the known job has not reached raises, and changes nothing.
  pub service_acknowledge_batch-ahead :
      (job : Job) (c : Service F)
      → get job_id c.store.jobs ≡ some job
      → ltb_ℤ (pos job.progress.epoch) epoch ≡ true
      → service_acknowledge_batch now job_id batch_id epoch batch_index c
        ≡ (raise acknowledgement_ahead, c)
  unfolding service_acknowledge_batch get_job
  service_acknowledge_batch-ahead job c known ahead = ground (arith, known, ahead)

  -- An acknowledgement that returns takes the job's pin off the batch's payload; one that raises does not. The
  -- pins of other jobs and of other payloads stay as they are.
  pub service_acknowledge_batch-pinned :
      (c : Service F) (key other : String)
      → let (r, c') = service_acknowledge_batch now job_id batch_id epoch batch_index c in
        pinned key other c'.store ≡ (
          if returned r && ((batch_id == key) && (job_id == other))
          then false
          else pinned key other c.store)
  unfolding service_acknowledge_batch unpin_payload get_job
  service_acknowledge_batch-pinned c key other = elim (Option-cases (get job_id c.store.jobs)) [
    | inl missing ↦ ground (arith, missing)
    | inr (job, known) ↦
        elim (Result-cases (acknowledge_batch now job_id batch_id batch_index c.store).0) [
          | inl (e, raised) ↦ ground (arith, known, raised, acknowledge_batch-pins c.store)
          | inr (j, worked) ↦ ground (
            arith,
            known,
            worked,
            acknowledge_batch-pins c.store,
            holds-discard_under batch_id job_id key other
                (acknowledge_batch now job_id batch_id batch_index c.store).1.payload_pins,
          )
        ]
  ]
