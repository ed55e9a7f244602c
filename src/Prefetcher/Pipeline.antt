-- ===== src/Prefetcher/Pipeline.antt =====
-- The threads of batchflow/integrations/pytorch/prefetcher.py, as events on what they share, in a run in which
-- no thread fails and the stop event is not set. A thread that waits on an empty or on a full queue is an event that
-- cannot happen. The calls of the coordinator, the fetch and the acknowledgement of a batch are left out, and
-- `_maybe_send_end` reads what it compares at once: after the coordinator thread is done, the count of published batches only comes up to the scheduled ones.
use ad_artifacts.Base.{
  ℕ, zero, suc, ◌+◌, Bool, true, false, not, ◌&&◌, Option, none, some, List, [], ◌∷◌, ◌++◌, eqb,
  leb, if◌then◌else◌, is_some, get_elem?, length, ltb, max, ◌-◌,
}
use ad_artifacts.Base.Int.{ℤ, pos, ltb_ℤ, pos_part}
use ad_artifacts.Dict.{Dict}
use ad_artifacts.Prefetcher.{FetchTask, FetchedTaskResult, Item}

pub data ReadyItem (F B : Type 0) : Type 0 where
  batch_item : FetchedTaskResult F B → ReadyItem F B
  end_item : ReadyItem F B

-- What a fetch thread adds to its task.
pub record Fetched (F B : Type 0) : Type 0 where
  pub batch : Dict (Item F B)
  pub payload_bytes : ℕ
  pub fetch_time_sec : F
  pub decode_time_sec : F
  pub pin_time_sec : F

-- The shared state. `task_queue` holds tasks and the sentinels that end fetch threads, `fetching` what fetch
-- threads have in hand, and `ready` all that was ever put on the ready queue, of which the trainer took the first `got`
-- items. Each of the three queues holds at most `queue_size` items, and `idle_threads` of the fetch threads wait for a
-- task. `counting` and `publishing` say that a thread stands between its put and its count, and `ending` that the end
-- is decided and not yet put. `issued` keeps all tasks that were put, for the statements only.
pub record Pipeline (F B : Type 0) : Type 0 where
  pub queue_size : ℕ
  pub idle_threads : ℕ
  pub task_queue : List (Option (FetchTask F))
  pub fetching : List (FetchTask F)
  pub fetched_queue : List (FetchedTaskResult F B)
  pub buffered : List (FetchedTaskResult F B)
  pub next_sequence : ℕ
  pub ready : List (ReadyItem F B)
  pub got : ℕ
  pub coordinator_done : Bool
  pub end_sent : Bool
  pub scheduled_batches : ℕ
  pub published_batches : ℕ
  pub counting : Bool
  pub publishing : Bool
  pub ending : Bool
  pub issued : List (FetchTask F)

pub data Event (F B : Type 0) : Type 0 where
  put_task : FetchTask F → Event F B
  count_task : Event F B
  mark_coordinator_done : Event F B
  put_task_sentinel : Event F B
  take_task : Event F B
  put_fetched : ℕ → Fetched F B → Event F B
  buffer_result : Event F B
  publish : Event F B
  count_published : Event F B
  maybe_send_end : Event F B
  put_end : Event F B
  get_item : Event F B

-- An event happens only if its condition holds.
abbrev pub when {ℓ} : {A : Type ℓ} → Bool → A → Option A
when b a = if b then some a else none

-- All but the element at a position.
unfoldable pub drop_at {ℓ} : {A : Type ℓ} → ℕ → List A → List A
drop_at n [] = []
drop_at zero (x ∷ xs) = xs
drop_at (suc n) (x ∷ xs) = x ∷ drop_at n xs

abbrev pub is_empty {ℓ} : {A : Type ℓ} → List A → Bool
is_empty [] = true
is_empty (x ∷ xs) = false

module _ {F B : Type 0} where
  -- The queues as `__init__` makes them, with `max(1, config.max_ready_batches)` as their size, and
  -- `max(1, config.parallel_fetch_workers)` fetch threads.
  unfoldable pub new_pipeline : ℤ → ℤ → Pipeline F B
  new_pipeline max_ready_batches parallel_fetch_workers = record {
    queue_size = max 1 (pos_part max_ready_batches);
    idle_threads = max 1 (pos_part parallel_fetch_workers);
    task_queue = [];
    fetching = [];
    fetched_queue = [];
    buffered = [];
    next_sequence = 0;
    ready = [];
    got = 0;
    coordinator_done = false;
    end_sent = false;
    scheduled_batches = 0;
    published_batches = 0;
    counting = false;
    publishing = false;
    ending = false;
    issued = [];
  }

  -- buffered.get(sequence)
  unfoldable pub buffered_at : ℕ → List (FetchedTaskResult F B) → Option (FetchedTaskResult F B)
  buffered_at n [] = none
  buffered_at n (r ∷ rs) = if eqb r.task.sequence n then some r else buffered_at n rs

  -- buffered.pop(sequence)
  unfoldable pub without : ℕ → List (FetchedTaskResult F B) → List (FetchedTaskResult F B)
  without n [] = []
  without n (r ∷ rs) = let rest = without n rs in if eqb r.task.sequence n then rest else r ∷ rest

  abbrev pub fetched_result : FetchTask F → Fetched F B → FetchedTaskResult F B
  fetched_result t r = record {
    task = t;
    batch = r.batch;
    payload_bytes = r.payload_bytes;
    fetch_time_sec = r.fetch_time_sec;
    decode_time_sec = r.decode_time_sec;
    pin_time_sec = r.pin_time_sec;
  }

  -- `self._ready_queue.put(BatchItem(...))` for a buffered result.
  unfoldable pub publish_result : FetchedTaskResult F B → Pipeline F B → Pipeline F B
  publish_result r s = record s {
    buffered = without s.next_sequence s.buffered;
    ready = s.ready ++ (ReadyItem.batch_item r ∷ []);
    publishing = true;
  }

  -- An idle fetch thread takes the first of the task queue; a sentinel ends the thread.
  abbrev pub taken : Pipeline F B → List (Option (FetchTask F)) → Option (Pipeline F B)
  taken s [] = none
  taken s (none ∷ rest) =
      when (ltb 0 s.idle_threads)
        (record s { task_queue = rest; idle_threads = s.idle_threads - 1 })
  taken s (some t ∷ rest) =
      when (ltb 0 s.idle_threads) (record s {
        task_queue = rest;
        fetching = t ∷ s.fetching;
        idle_threads = s.idle_threads - 1;
      })

  -- The publisher buffers the first of the fetched queue, once it has published what it could.
  abbrev pub received : Pipeline F B → List (FetchedTaskResult F B) → Option (Pipeline F B)
  received s [] = none
  received s (r ∷ rest) =
      when (not s.publishing && not (is_some (buffered_at s.next_sequence s.buffered)))
        (record s { fetched_queue = rest; buffered = r ∷ without r.task.sequence s.buffered })

  -- Another item fits into a queue with so many items.
  abbrev pub fits : ℕ → Pipeline F B → Bool
  fits n s = ltb n s.queue_size

  -- How many items the trainer has not taken from the ready queue.
  abbrev pub unread : Pipeline F B → ℕ
  unread s = length s.ready - s.got

  -- `_maybe_send_end` under its lock.
  unfoldable pub may_end : Pipeline F B → Bool
  may_end s =
      not s.end_sent
      && s.coordinator_done
      && is_empty s.task_queue
      && is_empty s.fetched_queue
      && leb s.scheduled_batches s.published_batches

  -- `_coordinator_loop`, `_fetch_worker_loop`, `_ordered_publish_loop` and `_maybe_send_end`, an event at a time.
  -- The coordinator thread numbers a task by the tasks it has counted.
  unfoldable pub pipeline_step : ℤ → Event F B → Pipeline F B → Option (Pipeline F B)
  pipeline_step max_batches (Event.put_task t) s =
      when
        (not s.coordinator_done
          && not s.counting
          && fits (length s.task_queue) s
          && ltb_ℤ (pos s.scheduled_batches) max_batches
          && eqb t.sequence s.scheduled_batches)
        (record s {
          task_queue = s.task_queue ++ (some t ∷ []);
          counting = true;
          issued = s.issued ++ (t ∷ []);
        })
  pipeline_step max_batches Event.count_task s =
      when s.counting (record s { scheduled_batches = s.scheduled_batches + 1; counting = false })
  pipeline_step max_batches Event.mark_coordinator_done s =
      when (not s.counting) (record s { coordinator_done = true })
  pipeline_step max_batches Event.put_task_sentinel s =
      when (s.coordinator_done && fits (length s.task_queue) s)
        (record s { task_queue = s.task_queue ++ (none ∷ []) })
  pipeline_step max_batches Event.take_task s = taken s s.task_queue
  pipeline_step max_batches (Event.put_fetched i r) s = elim (get_elem? s.fetching i) [
    | none ↦ none
    | some t ↦ when (fits (length s.fetched_queue) s) (record s {
      fetching = drop_at i s.fetching;
      idle_threads = s.idle_threads + 1;
      fetched_queue = s.fetched_queue ++ (fetched_result t r ∷ []);
    })
  ]
  pipeline_step max_batches Event.buffer_result s = received s s.fetched_queue
  pipeline_step max_batches Event.publish s = elim (buffered_at s.next_sequence s.buffered) [
    | none ↦ none
    | some r ↦ when (not s.publishing && fits (unread s) s) (publish_result r s)
  ]
  pipeline_step max_batches Event.count_published s = when s.publishing (record s {
    published_batches = s.published_batches + 1;
    next_sequence = s.next_sequence + 1;
    publishing = false;
  })
  pipeline_step max_batches Event.maybe_send_end s =
      when (may_end s) (record s { end_sent = true; ending = true })
  pipeline_step max_batches Event.put_end s =
      when (s.ending && fits (unread s) s)
        (record s { ready = s.ready ++ (ReadyItem.end_item ∷ []); ending = false })
  pipeline_step max_batches Event.get_item s =
      when (ltb s.got (length s.ready)) (record s { got = s.got + 1 })

  -- A run is a sequence of events that can happen one after the other.
  unfoldable pub run_pipeline : ℤ → List (Event F B) → Pipeline F B → Option (Pipeline F B)
  run_pipeline max_batches [] s = some s
  run_pipeline max_batches (e ∷ es) s = elim (pipeline_step max_batches e s) [
    | none ↦ none
    | some t ↦ run_pipeline max_batches es t
  ]
