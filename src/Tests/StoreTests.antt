-- ===== src/Tests/StoreTests.antt =====
-- Tests of the store.
use ad_artifacts.Base.{
  ℕ, String, ◌≡◌, refl, Bool, true, false, ◌||◌, some, none, [], ◌∷◌, ◌==◌, ◌⊎◌, if◌then◌else◌,
  count_if, take, arith,
}
use mathlib.Core.Option
use ad_artifacts.Base.Int.{pos}
use ad_artifacts.Core.{Job, JobStatus, TaskStatus, PayloadStatus, PayloadEntry, text, ok}
use ad_artifacts.Dict.{get, has, put}
use ad_artifacts.Store.State.{Store, TaskState, new_store}
use ad_artifacts.Store.Calls.{Call, run, step}
use ad_artifacts.Store.Jobs.{finish_job}
use ad_artifacts.Store.Plans.{count_ready_or_inflight_in_window, is_covered}
use ad_artifacts.Store.Tasks.{
  create_task, complete_task, fail_task, assign_task_to_worker, get_task_for_batch,
}
use ad_artifacts.Store.Payloads.{release_job_payload_pins}
use ad_artifacts.Store.Pins.{
  pinned, job_pins, run-PinsAgree, release_job_payload_pins_lem, run-keeps_PinsAgree,
}
use ad_artifacts.Store.Live.{run-IsLive}
use ad_artifacts.Store.Index.{run-get_task_for_batch}
use ad_artifacts.Store.Progress.{
  run-closed_stays, step-position, finish_job-cancels, outcome, position,
}
use ad_artifacts.Store.Windows.{count_ready_or_inflight_in_window_lem, ahead}
use ad_artifacts.Store.Completion.{
  create_task_lem, complete_task_lem, fail_task_lem, assign_task_to_worker_lem, is_held, works_on,
}
use ad_artifacts.Tests.{
  nat_floats, job, task, handle, entry, opening, opened, calls, waiting, waiting_task,
  running_store, running_task,
}
use ad_artifacts.Tests.Run.{program}

run-PinsAgree_example :
    pinned "b-0" "job-1" (run calls (new_store ℕ))
    ≡ job_pins "job-1" "b-0" (run calls (new_store ℕ))
run-PinsAgree_example = run-PinsAgree calls "b-0" "job-1"

run-IsLive_example : has "b-0" (run calls (new_store ℕ)).payload_entries ≡ true
unfolding program
run-IsLive_example =
    run-IsLive calls "b-0" "job-1" (refl, (refl, (refl, (refl, (refl, (refl, (refl, tt))))))) refl

run-get_task_for_batch_example :
    (get_task_for_batch "b-0" (run calls (new_store ℕ)) ≡ ok none)
    ⊎ ((t : TaskState ℕ) × (get_task_for_batch "b-0" (run calls (new_store ℕ)) ≡ ok (some t))
        × (t.task.batch.batch_id ≡ "b-0"))
unfolding program
run-get_task_for_batch_example =
    run-get_task_for_batch calls "b-0" (tt, (tt, (tt, (tt, (refl, (refl, (tt, tt)))))))

create_task_example :
    let (result, s') = create_task 8 task opened in
    (result ≡ ok waiting_task)
    × (get_task_for_batch "b-0" s' ≡ ok (some waiting_task))
    × ((false ≡ false) ⊎ (s' ≡ opened))
unfolding program
create_task_example = create_task_lem opened 8 task none refl refl

complete_task_example :
    let s' = (complete_task 10 "t-0" entry handle running_store).1 in
    ((k : String)
      → get k s'.tasks ≡ (
          if "t-0" == k
          then some
              (record running_task { status = TaskStatus.completed; completed_at_ms = some 10 })
          else get k running_store.tasks))
    × ((k : String)
        → get k s'.batch_handles
          ≡ (if "b-0" == k then some handle else get k running_store.batch_handles))
    × ((k : String)
        → get k s'.payload_entries
          ≡ (if "b-0" == k then some entry else get k running_store.payload_entries))
    × (is_held (some "w-1") "t-0" s'.workers ≡ false)
unfolding program
complete_task_example = complete_task_lem running_store 10 "t-0" running_task refl entry handle

abbrev failed_task : TaskState ℕ
failed_task = record running_task {
  status = TaskStatus.failed;
  failed_at_ms = some 10;
  failure_reason = "no disk";
}

fail_task_example :
    let (result, s') = fail_task 10 "t-0" "no disk" running_store in
    (result ≡ ok failed_task)
    × ((k : String)
        → get k s'.tasks ≡ (if "t-0" == k then some failed_task else get k running_store.tasks))
    × ((k : String)
        → get k s'.payload_entries ≡ (
            if "b-0" == k
            then Option.map {A = PayloadEntry}
                (λ e. record e {
                  status = PayloadStatus.failed;
                  metadata = put "failure_reason" (text "no disk") e.metadata;
                })
                (get k running_store.payload_entries)
            else get k running_store.payload_entries))
    × (is_held (some "w-1") "t-0" s'.workers ≡ false)
unfolding program
fail_task_example = fail_task_lem running_store 10 "t-0" running_task refl "no disk"

assign_task_example :
    let (result, s') = assign_task_to_worker 9 "t-0" "w-1" waiting in
    (result ≡ ok running_task)
    × ((k : String)
        → get k s'.tasks ≡ (if "t-0" == k then some running_task else get k waiting.tasks))
    × (works_on "w-1" "t-0" s'.workers ≡ (true || works_on "w-1" "t-0" waiting.workers))
unfolding program
assign_task_example =
    assign_task_to_worker_lem waiting 9 "t-0" "w-1" waiting_task
      (record {
        worker_id = "w-1";
        hostname = "host";
        registered_at_ms = 5;
        last_heartbeat_at_ms = 5;
        active_task_ids = [];
        metadata = [];
      })
      false refl refl refl

abbrev closed_job : Job
closed_job = record job { status = JobStatus.completed; closed_reason = "done" }

abbrev closed_store : Store ℕ
closed_store = step (Call.finish_job 9 "job-1" "done" JobStatus.completed) waiting

run-closed_stays_example :
    Option.map outcome (
      get "job-1"
        (run (Call.finish_job 10 "job-1" "again" JobStatus.failed ∷ opening) closed_store).jobs)
    ≡ some (outcome closed_job)
unfolding program
run-closed_stays_example =
    run-closed_stays (Call.finish_job 10 "job-1" "again" JobStatus.failed ∷ opening) closed_store
      "job-1" closed_job refl refl

step-position_example :
    let now =
      Option.map position
        (get "job-1" (step (Call.issue_batch_to_job "job-1" "b-0" 0 0) waiting).jobs) in
    (now ≡ some (position job)) ⊎ (now ≡ some (0, 1))
unfolding program
step-position_example =
    step-position (Call.issue_batch_to_job "job-1" "b-0" 0 0) waiting "job-1" job refl refl

finish_job_example :
    let s' = (finish_job 9 "job-1" "done" JobStatus.completed waiting).1 in
    (get "job-1" s'.jobs ≡ some closed_job)
    × (get "t-0" s'.tasks
        ≡ some (record waiting_task {
          status = TaskStatus.cancelled;
          failed_at_ms = some 9;
          failure_reason = "job finished: done";
        }))
unfolding program
finish_job_example =
    finish_job-cancels waiting job 9 "job-1" "done" JobStatus.completed "t-0" waiting_task refl refl
      refl

-- The batches with a task in the store of the example.
abbrev covered : String → Bool
covered batch_id = ("b-0" == batch_id) || ("b-1" == batch_id)

waiting-covered : (batch_id : String) → is_covered batch_id waiting ≡ ok (covered batch_id)
unfolding program
waiting-covered batch_id = ground arith

count_window_example :
    count_ready_or_inflight_in_window "job-1" 0 0 (pos 2) waiting
    ≡ ok (count_if (λ b. covered b.batch_id) (take 2 (ahead "job-1" 0 0 waiting)))
count_window_example =
    count_ready_or_inflight_in_window_lem waiting covered "job-1" 0 0 2 waiting-covered

release_pins_example :
    pinned "b-0" "job-1" (release_job_payload_pins "job-1" waiting)
    ≡ (if "job-1" == "job-1" then false else pinned "b-0" "job-1" waiting)
unfolding program
release_pins_example =
    release_job_payload_pins_lem waiting "job-1" "b-0" "job-1" (run-keeps_PinsAgree calls)
