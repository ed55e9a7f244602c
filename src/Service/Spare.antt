-- ===== src/Service/Spare.antt =====
-- Opportunistic prefetching stays within the workers that are free.
use ad_artifacts.Base.{
  ℕ, ◌+◌, ◌-◌, ◌≤◌, String, ◌≡◌, refl, ◌⊎◌, List, [], ◌∷◌, ◌==◌, arith, Bool-cases, Option-cases,
  inl, inr, length, leb, eq_refl,
}
use ad_artifacts.Core.{Batch, MaterializeBatchTask, ok, Result-cases}
use ad_artifacts.Floats.{Floats}
use ad_artifacts.Dict.{Dict, get, put, remove, values}
use ad_artifacts.Store.State.{Store, new_task_state}
use ad_artifacts.Store.Jobs.{count_idle_workers, list_active_jobs}
use ad_artifacts.Store.Tasks.{
  create_task, create_unless_known, enter_task, register_payload, count_pending_tasks, is_orphaned,
  is_reusable,
}
use ad_artifacts.Scheduler.{SchedulerConfig}
use ad_artifacts.Scheduler.Choose.{build_opportunistic_task}
use ad_artifacts.Service.{Service}
use ad_artifacts.Service.Maintenance.{
  may_prefetch, create_prefetches, prefetch_into, collect_prefetches, sort_prefetches,
  schedule_opportunistic_prefetch,
}

length-put : {V : Type 0} (k : String) (v : V) (d : Dict V) → length (put k v d) ≤ length d + 1
unfolding put
length-put k v [] = ground arith
length-put k v ((j, w) ∷ d) = ground (arith, length-put k v d)

module _ {F : Type 0} (now : ℕ) (task : MaterializeBatchTask F) (s : Store F) where
  enter_task-entered :
      (t : Store F)
      → t.tasks ≡ s.tasks
      → ((enter_task now task t).0 ≡ ok (new_task_state now task))
        × (length (enter_task now task t).1.tasks ≤ length s.tasks + 1)
  unfolding enter_task register_payload
  enter_task-entered t same =
      let grows = length-put task.task_id (new_task_state now task) s.tasks in
      (refl, ground (arith, grows, same))

  -- Creating a task enters no task, or the one that is returned.
  create_task-entered :
      (length (create_task now task s).1.tasks ≤ length s.tasks)
      ⊎ (((create_task now task s).0 ≡ ok (new_task_state now task))
          × (length (create_task now task s).1.tasks ≤ length s.tasks + 1))
  unfolding create_task create_unless_known
  create_task-entered = elim (Result-cases (is_orphaned task.job_id s)) [
    | inl (e, raised) ↦ inl (ground (arith, raised))
    | inr (orphaned, owner) ↦ elim (Bool-cases orphaned) [
      | inl lost ↦ inl (ground (arith, owner, lost))
      | inr owned ↦ elim (Option-cases (get task.batch.batch_id s.tasks_by_batch_id)) [
        | inl new ↦
            let (e, n) = enter_task-entered s refl in
            inr (ground (arith, owner, owned, new, e), ground (arith, owner, owned, new, n))
        | inr (id, known) ↦ elim (Option-cases (get id s.tasks)) [
          | inl missing ↦ inl (ground (arith, owner, owned, known, missing))
          | inr (old, found) ↦ elim (Bool-cases (is_reusable old.status)) [
            | inl live ↦ inl (ground (arith, owner, owned, known, found, live))
            | inr dead ↦
                let (e, n) =
                  enter_task-entered
                    (record s {
                      tasks_by_batch_id = remove task.batch.batch_id s.tasks_by_batch_id;
                    })
                    refl in
                inr (
                  ground (arith, owner, owned, known, found, dead, e),
                  ground (arith, owner, owned, known, found, dead, n),
                )
          ]
        ]
      ]
    ]
  ]

module _ {F : Type 0} ⦃f : Floats F⦄ (config : SchedulerConfig F) (now : ℕ) (ids : ℕ → String)
    (spare : ℕ) where
  create_prefetches-tasks :
      (built scheduled : ℕ) (cs : List (F × Batch)) (s : Store F)
      → scheduled ≤ spare
      → length (create_prefetches config now ids spare built scheduled cs s).1.tasks + scheduled
        ≤ length s.tasks + spare
  unfolding create_prefetches new_task_state
  create_prefetches-tasks built scheduled [] s room = ground arith
  create_prefetches-tasks built scheduled ((v, b) ∷ cs) s room =
      elim (Bool-cases (leb spare scheduled)) [
        | inl full ↦ ground (arith, full)
        | inr free ↦ elim (Result-cases (may_prefetch config b s)) [
          | inl (e, raised) ↦ ground (arith, free, raised)
          | inr (may, asked) ↦ elim (Bool-cases may) [
            | inr refused ↦
                ground
                  (arith, free, asked, refused, create_prefetches-tasks built scheduled cs s room)
            | inl allowed ↦
                elim (Result-cases (build_opportunistic_task config now (ids built) b s)) [
                  | inl (e, raised) ↦ ground (arith, free, asked, allowed, raised)
                  | inr (task, made) ↦ elim (create_task-entered now task s) [
                    | inr (entered, more) ↦
                        let t = (create_task now task s).1 in
                        let rest =
                          create_prefetches-tasks (built + 1) (scheduled + 1) cs t
                            (ground (arith, free)) in
                        ground (
                          arith,
                          free,
                          asked,
                          allowed,
                          made,
                          entered,
                          more,
                          rest,
                          eq_refl task.task_id,
                        )
                    | inl kept ↦ elim (Result-cases (create_task now task s).0) [
                      | inl (e, raised) ↦ ground (arith, free, asked, allowed, made, raised, kept)
                      | inr (state, worked) ↦
                          elim (Bool-cases (state.task.task_id == task.task_id)) [
                            | inl counted ↦
                                let rest =
                                  create_prefetches-tasks (built + 1) (scheduled + 1) cs
                                    (create_task now task s).1 (ground (arith, free)) in
                                ground
                                  (arith, free, asked, allowed, made, worked, counted, kept, rest)
                            | inr other ↦
                                let rest =
                                  create_prefetches-tasks (built + 1) scheduled cs
                                    (create_task now task s).1 room in
                                ground
                                  (arith, free, asked, allowed, made, worked, other, kept, rest)
                          ]
                    ]
                  ]
                ]
          ]
        ]
      ]

module _ {F : Type 0} ⦃f : Floats F⦄ (config : SchedulerConfig F) (now : ℕ) (ids : ℕ → String) where
  -- A pass of opportunistic prefetching enters at most as many tasks as there are idle workers beyond the
  -- pending tasks, whether it works or raises.
  pub schedule_opportunistic_prefetch-tasks :
      (c : Service F)
      → let c' = (schedule_opportunistic_prefetch config now ids c).1 in
        length c'.store.tasks
        ≤ length c.store.tasks + (count_idle_workers c.store - count_pending_tasks c.store)
  unfolding schedule_opportunistic_prefetch prefetch_into
  schedule_opportunistic_prefetch-tasks c =
      let spare = count_idle_workers c.store - count_pending_tasks c.store in
      elim (Result-cases (collect_prefetches config c.store [] (list_active_jobs c.store))) [
        | inl (e, raised) ↦ ground (arith, raised)
        | inr (found, collected) ↦ ground (
          arith,
          collected,
          create_prefetches-tasks config now ids spare 0 0 (sort_prefetches config (values found))
              c.store (omega arith),
        )
      ]
