-- ===== src/Service/Maintenance.antt =====
-- The background passes of batchflow/coordinator/service.py. The ids of new tasks come from `ids`, one after
-- the other.
use ad_artifacts.Base.{
  ℕ, ◌+◌, ◌-◌, ◌*◌, String, Bool, true, false, not, ◌&&◌, ◌||◌, List, [], ◌∷◌, ◌==◌, leb, ltb, eqb,
  length, take, drop, max, if◌then◌else◌, is_some,
}
use ad_artifacts.Base.Int.{ℤ, pos, pos_part}
use ad_artifacts.Core.{Sample, Job, Batch, PayloadEntry, cache_key, Result, ok, raise}
use ad_artifacts.Core.Fetch.{is_expired}
use ad_artifacts.Exec.{Exec, pure, reads, ◌>>=◌, ◌>>◌}
use ad_artifacts.Floats.{Floats}
use ad_artifacts.Dict.{Dict, put, has, values}
use ad_artifacts.Store.State.{Store}
use ad_artifacts.Store.Jobs.{get_job, is_active, list_active_jobs, count_idle_workers}
use ad_artifacts.Store.Plans.{
  set_planned_window, get_planned_window, is_ahead, is_covered, upcoming_batches,
  count_ready_or_inflight_in_window,
}
use ad_artifacts.Store.Tasks.{create_task, count_pending_tasks}
use ad_artifacts.Store.Payloads.{list_payload_entries, payload_pin_count, remove_payload}
use ad_artifacts.Scheduler.{SchedulerConfig}
use ad_artifacts.Scheduler.Value.{target_lookahead_depth}
use ad_artifacts.Scheduler.Choose.{
  should_materialize, build_task, can_opportunistically_prefetch, score_opportunistic_batch,
  build_opportunistic_task,
}
use ad_artifacts.Cache.{can_admit_estimated_payload, is_before}
use ad_artifacts.Service.{Service, on_store, read_store}
use ad_artifacts.Service.Window.{refresh_job_window}

module _ {F : Type 0} where
  -- The loop of `_cleanup_expired_payload_metadata` over the entries there were, with the count so far.
  unfoldable pub remove_expired : ℕ → List PayloadEntry → ℕ → Store F → ℕ × Store F
  remove_expired now [] count s = (count, s)
  remove_expired now (e ∷ es) count s =
      elim (not (is_expired now e) || ltb 0 (payload_pin_count e.cache_key s)) [
        | true ↦ remove_expired now es count s
        | false ↦
            let (removed, s') = remove_payload e.cache_key s in
            remove_expired now es (if is_some removed then count + 1 else count) s'
      ]

  unfoldable pub cleanup_expired_metadata : ℕ → Store F → Bool × Store F
  cleanup_expired_metadata now s =
      let (count, s') = remove_expired now (list_payload_entries s) 0 s in (ltb 0 count, s')

module _ {F : Type 0} ⦃f : Floats F⦄ (config : SchedulerConfig F)
    (shuffle : ℤ → List Sample → List Sample) where
  -- The loop of `_schedule_job_batches`: how many batches were considered and how many tasks built.
  unfoldable pub schedule_batches :
      ℕ → (ℕ → String) → Job → ℕ → ℕ → ℕ → List Batch → Exec (Store F) ℕ
  schedule_batches now ids job target considered scheduled [] s = pure scheduled s
  schedule_batches now ids job target considered scheduled (b ∷ bs) s =
      elim (is_ahead job.progress.epoch job.progress.next_batch_index b) [
        | false ↦ schedule_batches now ids job target considered scheduled bs s
        | true ↦ elim (leb target considered) [
          | true ↦ pure scheduled s
          | false ↦ elim (is_covered b.batch_id s) [
            | raise e ↦ (raise e, s)
            | ok true ↦ schedule_batches now ids job target (considered + 1) scheduled bs s
            | ok false ↦ elim (should_materialize b s) [
              | raise e ↦ (raise e, s)
              | ok false ↦ schedule_batches now ids job target (considered + 1) scheduled bs s
              | ok true ↦ elim (build_task config now (ids scheduled) b job s) [
                | raise e ↦ (raise e, s)
                | ok task ↦
                    (create_task now task >>= λ _.
                    schedule_batches now ids job target (considered + 1) (scheduled + 1) bs)
                      s
              ]
            ]
          ]
        ]
      ]

  unfoldable pub schedule_job_batches : ℕ → (ℕ → String) → String → Exec (Service F) Bool
  schedule_job_batches now ids job_id = do
    job ← read_store (get_job job_id)
    if not (is_active job)
        then (on_store (set_planned_window job_id []) >>= λ _. pure false)
        else do
          refresh_job_window config shuffle now job_id false
          planned ← read_store (get_planned_window job_id)
          if eqb (length planned) 0 then pure false else do
            target ← read_store (target_lookahead_depth config job)
            scheduled ← on_store (schedule_batches now ids job target 0 0 planned)
            pure (ltb 0 scheduled)

module _ {F : Type 0} ⦃f : Floats F⦄ (config : SchedulerConfig F) where
  -- Whether every active job has its target depth covered.
  unfoldable pub all_covered : List Job → Store F → Result Bool
  all_covered [] s = ok true
  all_covered (job ∷ jobs) s = elim (target_lookahead_depth config job s) [
    | raise e ↦ raise e
    | ok target ↦
        elim (count_ready_or_inflight_in_window job.job_id job.progress.epoch
          job.progress.next_batch_index (pos target) s) [
            | raise e ↦ raise e
            | ok covered ↦ elim (ltb covered target) [
              | true ↦ ok false
              | false ↦ all_covered jobs s
            ]
          ]
  ]

  -- `can_opportunistically_prefetch(batch)` and, with that, `can_admit_estimated_payload(batch)`
  unfoldable pub may_prefetch : Batch → Store F → Result Bool
  may_prefetch batch s = elim (can_opportunistically_prefetch config batch s) [
    | raise e ↦ raise e
    | ok false ↦ ok false
    | ok true ↦ can_admit_estimated_payload config batch s
  ]

  -- The inner loop that collects candidates of one job.
  unfoldable pub collect_batches :
      Store F → Dict (F × Batch) → List Batch → Result (Dict (F × Batch))
  collect_batches s found [] = ok found
  collect_batches s found (b ∷ bs) = elim (may_prefetch b s) [
    | raise e ↦ raise e
    | ok false ↦ collect_batches s found bs
    | ok true ↦ elim (has (cache_key b) found) [
      | true ↦ collect_batches s found bs
      | false ↦ elim (score_opportunistic_batch config b s) [
        | raise e ↦ raise e
        | ok value ↦
            collect_batches s
              (if f.le value f.zero then found else put (cache_key b) (value, b) found) bs
      ]
    ]
  ]

  -- upcoming[target_depth:extended_depth]
  abbrev pub beyond_target : ℕ → List Batch → List Batch
  beyond_target target upcoming =
      let extended = max target (max 1 (pos_part config.extended_lookahead_multiplier) * target) in
      take (extended - target) (drop target upcoming)

  unfoldable pub collect_prefetches :
      Store F → Dict (F × Batch) → List Job → Result (Dict (F × Batch))
  collect_prefetches s found [] = ok found
  collect_prefetches s found (job ∷ jobs) = elim (target_lookahead_depth config job s) [
    | raise e ↦ raise e
    | ok target ↦ elim (upcoming_batches job.job_id s) [
      | raise e ↦ raise e
      | ok upcoming ↦ elim (collect_batches s found (beyond_target target upcoming)) [
        | raise e ↦ raise e
        | ok collected ↦ collect_prefetches s collected jobs
      ]
    ]
  ]

  -- (value, cache_key) of one candidate is less than another's.
  abbrev pub prefetch_lt : F × Batch → F × Batch → Bool
  prefetch_lt (v, b) (w, b') =
      if f.lt v w then true else if f.lt w v then false else is_before (cache_key b) (cache_key b')

  unfoldable pub insert_prefetch : F × Batch → List (F × Batch) → List (F × Batch)
  insert_prefetch c [] = c ∷ []
  insert_prefetch c (d ∷ ds) = if prefetch_lt c d then d ∷ insert_prefetch c ds else c ∷ d ∷ ds

  unfoldable pub sort_prefetches : List (F × Batch) → List (F × Batch)
  sort_prefetches [] = []
  sort_prefetches (c ∷ cs) = insert_prefetch c (sort_prefetches cs)

  -- The loop that creates the tasks, with the free slots, the tasks built and those scheduled.
  unfoldable pub create_prefetches :
      ℕ → (ℕ → String) → ℕ → ℕ → ℕ → List (F × Batch) → Exec (Store F) ℕ
  create_prefetches now ids spare built scheduled [] s = pure scheduled s
  create_prefetches now ids spare built scheduled ((v, b) ∷ cs) s = elim (leb spare scheduled) [
    | true ↦ pure scheduled s
    | false ↦ elim (may_prefetch b s) [
      | raise e ↦ (raise e, s)
      | ok false ↦ create_prefetches now ids spare built scheduled cs s
      | ok true ↦ elim (build_opportunistic_task config now (ids built) b s) [
        | raise e ↦ (raise e, s)
        | ok task ↦
            (create_task now task >>= λ state.
            create_prefetches now ids spare (built + 1)
              (if state.task.task_id == task.task_id then scheduled + 1 else scheduled) cs)
              s
      ]
    ]
  ]

  unfoldable pub prefetch_into : ℕ → (ℕ → String) → ℕ → List Job → Exec (Store F) Bool
  prefetch_into now ids spare active_jobs = do
    found ← reads (λ s. collect_prefetches s [] active_jobs)
    scheduled ← create_prefetches now ids spare 0 0 (sort_prefetches (values found))
    pure (ltb 0 scheduled)

  -- `_schedule_opportunistic_prefetch`
  unfoldable pub schedule_opportunistic_prefetch : ℕ → (ℕ → String) → Exec (Service F) Bool
  schedule_opportunistic_prefetch now ids c =
      let active_jobs = list_active_jobs c.store in
      let spare = count_idle_workers c.store - count_pending_tasks c.store in
      elim (config.reuse_enabled
        && config.opportunistic_prefetch_enabled
        && c.redis_enabled
        && not (eqb (length active_jobs) 0)) [
          | false ↦ pure false c
          | true ↦ elim (all_covered active_jobs c.store) [
            | raise e ↦ (raise e, c)
            | ok false ↦ pure false c
            | ok true ↦
                if leb spare 0
                then pure false c
                else on_store (prefetch_into now ids spare active_jobs) c
          ]
        ]

-- What a pass that is caught on an exception leaves: no work reported, and the state as it was then.
abbrev pub attempt : {F : Type 0} → Exec (Service F) Bool → Service F → Bool × Service F
attempt m c = let (r, next) = m c in (elim r [ ok b ↦ b | raise e ↦ false ], next)

module _ {F : Type 0} ⦃f : Floats F⦄ (config : SchedulerConfig F)
    (shuffle : ℤ → List Sample → List Sample) where
  -- The `for` loop of the maintainer over the jobs; each job's pass has its own ids.
  unfoldable pub schedule_jobs : ℕ → (String → ℕ → String) → List Job → Service F → Bool × Service F
  schedule_jobs now ids [] c = (false, c)
  schedule_jobs now ids (job ∷ jobs) c =
      let (worked, next) =
        attempt (schedule_job_batches config shuffle now (ids job.job_id) job.job_id) c in
      let (more, last) = schedule_jobs now ids jobs next in (worked || more, last)

  -- One round of `_maintainer_loop`: whether it did work.
  unfoldable pub maintain : ℕ → (String → ℕ → String) → Service F → Bool × Service F
  maintain now ids c =
      let (cleaned, s') = cleanup_expired_metadata now c.store in
      let (worked, next) = schedule_jobs now ids (list_active_jobs s') (record c { store = s' }) in
      let (prefetched, last) = attempt (schedule_opportunistic_prefetch config now (ids "")) next in
      (cleaned || worked || prefetched, last)
