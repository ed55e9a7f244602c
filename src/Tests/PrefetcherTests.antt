-- ===== src/Tests/PrefetcherTests.antt =====
-- Tests of the prefetcher and of the messages.
use ad_artifacts.Base.{
  ℕ, ◌≡◌, refl, true, false, Option, none, some, List, [], ◌∷◌, length, take, ◌≤◌, get_elem?,
}
use ad_artifacts.Base.Int.{pos}
use ad_artifacts.Core.{BatchHandle, HandleStatus, ok, text}
use ad_artifacts.Core.Fetch.{require_ready_fetch_info}
use ad_artifacts.Proto.{
  batch_handle_to_proto, batch_handle_from_proto, dataset_to_proto, dataset_from_proto,
}
use ad_artifacts.Proto.RoundTrips.{dataset_from_proto-to_proto, batch_handle_from_proto-to_proto}
use ad_artifacts.Prefetcher.{FetchTask, Poll, get_next_fetch_task, no_polls, validate_ready_handle}
use ad_artifacts.Prefetcher.Pipeline.{
  Pipeline, ReadyItem, Event, Fetched, run_pipeline, new_pipeline,
}
use ad_artifacts.Prefetcher.Order.{tasks_of, put_count}
use ad_artifacts.Prefetcher.Moves.{run_pipeline-in_order}
use ad_artifacts.Prefetcher.Ends.{end_last}
use ad_artifacts.Prefetcher.Closing.{run_pipeline-end}
use ad_artifacts.Prefetcher.Progress.{run_pipeline-progress}
use ad_artifacts.Prefetcher.Session.{SessionCall, run_session, new_session}
use ad_artifacts.Prefetcher.Outcome.{run_session-completed}
use ad_artifacts.Prefetcher.Polls.{get_next_fetch_task_lem}
use ad_artifacts.Prefetcher.Handles.{validate_ready_handle-require, passes}
use ad_artifacts.Tests.{nat_floats, dataset, handle}
use ad_artifacts.Tests.Run.{program}
use ad_artifacts.Tests.RunService.{service_program}

abbrev poll : BatchHandle → Poll ℕ
poll h = record {
  batch_handle = batch_handle_to_proto h;
  epoch = pos 0;
  batch_index = pos 0;
  has_batch_index = true;
  done = false;
  rpc_time_sec = 1;
  sleep_time_sec = 2;
  wait_time_sec = 3;
}

abbrev waiting_poll : Poll ℕ
waiting_poll =
    poll (record handle {
      status = HandleStatus.pending;
      metadata = ("cache_result", text "miss") ∷ [];
    })

polls_example :
    (t : FetchTask ℕ) × (get_next_fetch_task "job-1" 0 no_polls (waiting_poll ∷ poll handle ∷ [])
      ≡ ok (some t))
    × (t.sequence ≡ 0)
    × (t.batch_id ≡ "b-0")
    × (t.coordinator_pending_polls ≡ 1)
    × (t.coordinator_miss_polls ≡ 1)
    × (t.coordinator_in_flight_polls ≡ 0)
    × (t.client_cache_result ≡ "miss")
unfolding program service_program nat_floats
polls_example =
    get_next_fetch_task_lem "job-1" 0 (waiting_poll ∷ []) [] (poll handle) (refl, tt) refl refl refl

handle_example :
    passes (validate_ready_handle (batch_handle_to_proto handle))
    ≡ passes (require_ready_fetch_info handle)
handle_example = validate_ready_handle-require handle

dataset_example : dataset_from_proto (dataset_to_proto dataset) ≡ ok dataset
dataset_example =
    dataset_from_proto-to_proto dataset (refl, (refl, (refl, tt))) refl refl
      (record { texts = tt; distinct = tt })

handle_message_example : batch_handle_from_proto (batch_handle_to_proto handle) ≡ ok handle
handle_message_example =
    batch_handle_from_proto-to_proto handle refl (record { texts = tt; distinct = tt })

abbrev fetch_task_of : ℕ → FetchTask ℕ
fetch_task_of n = record {
  sequence = n;
  job_id = "job-1";
  batch_id = "b";
  cache_key = "b";
  epoch = pos 0;
  batch_index = pos n;
  location = "";
  fetch_host = "host";
  fetch_port = pos 9;
  fetch_key = "b";
  payload_format = "torch_batch";
  dataset_format = "images";
  handle_status = "ready";
  cache_result = "hit";
  client_cache_result = "hot";
  coordinator_wait_total_time_sec = 0;
  coordinator_rpc_time_sec = 0;
  coordinator_sleep_time_sec = 0;
  coordinator_pending_polls = 0;
  coordinator_miss_polls = 0;
  coordinator_in_flight_polls = 0;
}

abbrev fetched : Fetched ℕ ℕ
fetched = record {
  batch = [];
  payload_bytes = 3;
  fetch_time_sec = 1;
  decode_time_sec = 1;
  pin_time_sec = 0;
}

-- Two tasks are fetched at the same time, and the second one is done first.
abbrev events : List (Event ℕ ℕ)
events =
    Event.put_task (fetch_task_of 0)
    ∷ Event.count_task
    ∷ Event.put_task (fetch_task_of 1)
    ∷ Event.take_task
    ∷ Event.count_task
    ∷ Event.take_task
    ∷ Event.mark_coordinator_done
    ∷ Event.put_fetched 0 fetched
    ∷ Event.buffer_result
    ∷ Event.put_fetched 0 fetched
    ∷ Event.buffer_result
    ∷ Event.publish
    ∷ Event.count_published
    ∷ Event.publish
    ∷ Event.count_published
    ∷ Event.maybe_send_end
    ∷ Event.get_item
    ∷ Event.get_item
    ∷ Event.put_end
    ∷ Event.get_item
    ∷ []

unfoldable last : Option (Pipeline ℕ ℕ) → Pipeline ℕ ℕ
unfolding service_program
last none = new_pipeline (pos 2) (pos 2)
last (some s) = s

abbrev after : Pipeline ℕ ℕ
after = last (run_pipeline (pos 2) events (new_pipeline (pos 2) (pos 2)))

in_order_example :
    (tasks_of after.ready ≡ take (put_count after) after.issued)
    × (put_count after ≤ length after.issued)
    × ((i : ℕ) (t : FetchTask ℕ) → get_elem? after.issued i ≡ some t → t.sequence ≡ i)
unfolding service_program last
in_order_example = run_pipeline-in_order (pos 2) (pos 2) (pos 2) events after refl

end_example :
    (after.coordinator_done ≡ true)
    × (tasks_of after.ready ≡ after.issued)
    × (end_last after.ready ≡ true)
unfolding service_program last
end_example = run_pipeline-end (pos 2) (pos 2) (pos 2) events after refl refl

-- A queue for one item has no place for a second one.
full_queue :
    run_pipeline
      (pos 2)
      (Event.put_task (fetch_task_of 0) ∷ Event.count_task ∷ Event.put_task (fetch_task_of 1) ∷ [])
      (new_pipeline {F = ℕ} {B = ℕ} (pos 1) (pos 2))
    ≡ none
unfolding service_program
full_queue = refl

both_are_ready : tasks_of after.ready ≡ fetch_task_of 0 ∷ fetch_task_of 1 ∷ []
unfolding service_program last
both_are_ready = refl

progress_example :
    (tasks_of after.ready ≡ after.issued) × (tasks_of (take after.got after.ready) ≡ after.issued)
unfolding service_program last
progress_example =
    run_pipeline-progress (pos 2) (pos 2) (pos 2) events after fetched refl refl refl refl refl refl
      refl

abbrev takes : List (ReadyItem ℕ ℕ) → List (SessionCall ℕ ℕ)
takes [] = SessionCall.shutdown ∷ SessionCall.close_job ∷ []
takes (item ∷ items) = SessionCall.get_item item ∷ takes items

-- The trainer takes all items and closes the job twice.
abbrev trainer_calls : List (SessionCall ℕ ℕ)
trainer_calls = SessionCall.connect ∷ takes after.ready

outcome_example : tasks_of (run_session true trainer_calls new_session).got ≡ after.issued
unfolding service_program last
outcome_example =
    run_session-completed (pos 2) (pos 2) (pos 2) events after true trainer_calls 3
      "PyTorch iterator completed" refl refl refl
