-- ===== src/Store/Plans.antt =====
-- Planned windows of batchflow/coordinator/store.py, and what is ready or under way in them.
use ad_artifacts.Base.{
  ℕ, ◌+◌, String, Bool, true, false, not, ◌&&◌, Option, none, some, List, [], ◌∷◌, leb, eqb,
  if◌then◌else◌, or_default, select,
}
use ad_artifacts.Base.Int.{ℤ, pos_part, is_positive}
use ad_artifacts.Core.{Batch, Job, Result, ok, or_raise, ◌>>=◌, unknown_job}
use ad_artifacts.Exec.{Exec, Reader, throw, modify}
use ad_artifacts.Exec as Exec
use ad_artifacts.Dict.{get, put, has}
use ad_artifacts.Store.State.{Store}
use ad_artifacts.Store.Jobs.{get_job, set_job}
use ad_artifacts.Store.Metrics.{change_metrics}
use ad_artifacts.Store.Tasks.{get_task_for_batch, is_in_progress}

-- `batch.epoch == epoch and batch.batch_index >= start`
abbrev pub is_ahead : ℕ → ℕ → Batch → Bool
is_ahead epoch start b = eqb b.epoch epoch && leb start b.batch_index

-- The first batch of a list with an epoch and an index.
unfoldable pub find_batch : ℕ → ℕ → List Batch → Option Batch
find_batch epoch batch_index [] = none
find_batch epoch batch_index (b ∷ bs) =
    if eqb b.epoch epoch && eqb b.batch_index batch_index
    then some b
    else find_batch epoch batch_index bs

module _ {F : Type 0} where
  unfoldable pub set_planned_window : String → List Batch → Exec (Store F) (Unit {0})
  set_planned_window job_id batches s =
      if not (has job_id s.jobs)
      then throw (unknown_job job_id) s
      else modify (λ t. record t { planned_batches = put job_id batches t.planned_batches }) s

  unfoldable pub get_planned_window : String → Reader (Store F) (List Batch)
  get_planned_window job_id s = or_raise (get job_id s.planned_batches) (unknown_job job_id)

  -- self._planned_batches.get(job_id, [])
  unfoldable pub planned : String → Store F → List Batch
  planned job_id s = or_default (get job_id s.planned_batches) []

  unfoldable pub get_batch : String → ℕ → ℕ → Store F → Option Batch
  get_batch job_id epoch batch_index s = find_batch epoch batch_index (planned job_id s)

  unfoldable pub upcoming_batches : String → Reader (Store F) (List Batch)
  upcoming_batches job_id s = get_job job_id s >>= λ job.
      ok (select (is_ahead job.progress.epoch job.progress.next_batch_index) (planned job_id s))

  unfoldable pub is_batch_ready : String → Store F → Bool
  is_batch_ready batch_id s = has batch_id s.batch_handles

  unfoldable pub is_batch_in_progress : String → Reader (Store F) Bool
  is_batch_in_progress batch_id s =
      get_task_for_batch batch_id s
      >>= elim [ none ↦ ok false | some t ↦ ok (is_in_progress t.status) ]

  -- `is_batch_ready(b) or is_batch_in_progress(b)`
  unfoldable pub is_covered : String → Reader (Store F) Bool
  is_covered batch_id s =
      if is_batch_ready batch_id s then ok true else is_batch_in_progress batch_id s

  -- The loop of `count_ready_or_inflight_from_index`.
  unfoldable pub count_covered : ℕ → ℕ → Store F → ℕ → List Batch → Result ℕ
  count_covered epoch start s count [] = ok count
  count_covered epoch start s count (b ∷ bs) = elim (is_ahead epoch start b) [
    | false ↦ count_covered epoch start s count bs
    | true ↦ is_covered b.batch_id s >>= λ hit.
        count_covered epoch start s (if hit then count + 1 else count) bs
  ]

  unfoldable pub count_ready_or_inflight_from_index : String → ℕ → ℕ → Reader (Store F) ℕ
  count_ready_or_inflight_from_index job_id epoch start s =
      count_covered epoch start s 0 (planned job_id s)

  -- The loop of `count_ready_or_inflight_in_window`; `limit` is positive.
  unfoldable pub count_window : ℕ → ℕ → ℕ → Store F → ℕ → ℕ → List Batch → Result ℕ
  count_window epoch start limit s considered count [] = ok count
  count_window epoch start limit s considered count (b ∷ bs) = elim (is_ahead epoch start b) [
    | false ↦ count_window epoch start limit s considered count bs
    | true ↦ elim (leb limit considered) [
      | true ↦ ok count
      | false ↦ is_covered b.batch_id s >>= λ hit.
          count_window epoch start limit s (considered + 1) (if hit then count + 1 else count) bs
    ]
  ]

  unfoldable pub count_ready_or_inflight_in_window : String → ℕ → ℕ → ℤ → Reader (Store F) ℕ
  count_ready_or_inflight_in_window job_id epoch start limit s =
      if not (is_positive limit)
      then ok 0
      else count_window epoch start (pos_part limit) s 0 0 (planned job_id s)

  unfoldable pub acknowledge_batch : ℕ → String → String → ℤ → Exec (Store F) Job
  acknowledge_batch now job_id batch_id batch_index = Exec.◌>>=◌ (Exec.reads (get_job job_id)) λ _.
      Exec.◌>>◌
        (modify (
          set_job job_id (λ j. record j {
            progress = record (j.progress) {
              last_batch_id = batch_id;
              last_batch_index = batch_index;
            };
          })))
        (Exec.◌>>◌ (change_metrics job_id (λ m. record m { last_acknowledged_at_ms = some now }))
          (Exec.reads (get_job job_id)))
