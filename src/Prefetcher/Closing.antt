-- ===== src/Prefetcher/Closing.antt =====
-- Every event of the prefetcher keeps the end where it belongs.
use ad_artifacts.Base.{
  ℕ, ◌≡◌, refl, ◌∙◌, subst, true, false, Option, none, some, List, [], ◌∷◌, arith, length,
  get_elem?, Option-cases, inl, inr, Bool-cases,
}
use ad_artifacts.Base.Int.{ℤ}
use ad_artifacts.Prefetcher.{FetchTask, FetchedTaskResult}
use ad_artifacts.Prefetcher.Positions.{when-cases, take-all}
use ad_artifacts.Prefetcher.Pipeline.{
  Pipeline, ReadyItem, Event, pipeline_step, taken, received, run_pipeline, new_pipeline,
  buffered_at,
}
use ad_artifacts.Prefetcher.Order.{tasks_of, put_count, Sound}
use ad_artifacts.Prefetcher.Moves.{step-Sound, run_induction, new_pipeline-Sound}
use ad_artifacts.Prefetcher.Ends.{
  has_end, end_last, Ended, has_end-end, end_last-append, publish-unended, publish-Ended,
  maybe_send_end-Ended,
}

module _ {F B : Type 0} where
  put_task-Ended :
      (s : Pipeline F B) (queue : List (Option (FetchTask F))) (issued : List (FetchTask F))
      → Ended s
      → s.coordinator_done ≡ false
      → Ended (record s { task_queue = queue; counting = true; issued = issued })
  put_task-Ended s queue issued k going =
      let opened : s.end_sent ≡ false = elim (Bool-cases s.end_sent) [
        | inl sent ↦ absurd (ground (arith, k.done sent, going))
        | inr opened ↦ opened
      ] in
      record {
        done_counted = λ done. absurd (ground (arith, done, going));
        done = k.done;
        quiet = k.quiet;
        complete = λ sent. absurd (ground (arith, sent, opened));
        ending_sent = k.ending_sent;
        put = k.put;
        last = k.last;
      }

  -- The events that move tasks and results leave the end alone.
  Ended-moved :
      (s : Pipeline F B) (queue : List (Option (FetchTask F))) (fetching : List (FetchTask F))
      (fetched buffered : List (FetchedTaskResult F B))
      → Ended s
      → Ended (record s {
        task_queue = queue;
        fetching = fetching;
        fetched_queue = fetched;
        buffered = buffered;
      })
  Ended-moved s queue fetching fetched buffered k = record {
    done_counted = k.done_counted;
    done = k.done;
    quiet = k.quiet;
    complete = k.complete;
    ending_sent = k.ending_sent;
    put = k.put;
    last = k.last;
  }

  Ended-idle : (s : Pipeline F B) (n : ℕ) → Ended s → Ended (record s { idle_threads = n })
  Ended-idle s n k = record {
    done_counted = k.done_counted;
    done = k.done;
    quiet = k.quiet;
    complete = k.complete;
    ending_sent = k.ending_sent;
    put = k.put;
    last = k.last;
  }

  taken-Ended :
      (s t : Pipeline F B) (queue : List (Option (FetchTask F)))
      → Ended s
      → taken s queue ≡ some t
      → Ended t
  taken-Ended s t [] k made = absurd (ground (arith, made))
  taken-Ended s t (none ∷ rest) k made =
      subst Ended (when-cases _ _ t made).1
        (Ended-idle _ _ (Ended-moved s rest s.fetching s.fetched_queue s.buffered k))
  taken-Ended s t (some u ∷ rest) k made =
      subst Ended (when-cases _ _ t made).1
        (Ended-idle _ _ (Ended-moved s rest (u ∷ s.fetching) s.fetched_queue s.buffered k))

  received-Ended :
      (s t : Pipeline F B) (queue : List (FetchedTaskResult F B))
      → Ended s
      → received s queue ≡ some t
      → Ended t
  received-Ended s t [] k made = absurd (ground (arith, made))
  received-Ended s t (r ∷ rest) k made =
      subst Ended (when-cases _ _ t made).1 (Ended-moved s s.task_queue s.fetching rest _ k)

  step-Ended :
      (max_batches : ℤ) (e : Event F B) (s t : Pipeline F B)
      → Sound s
      → Ended s
      → pipeline_step max_batches e s ≡ some t
      → Ended t
  unfolding pipeline_step
  step-Ended max_batches (Event.put_task u) s t h k e =
      let (met, made) = when-cases _ _ t e in
      subst Ended made (put_task-Ended s _ _ k (ground (arith, met)))
  step-Ended max_batches Event.count_task s t h k e =
      let (met, made) = when-cases _ _ t e in
      subst Ended made (record {
        done_counted = λ done. refl;
        done = k.done;
        quiet = k.quiet;
        complete = k.complete;
        ending_sent = k.ending_sent;
        put = k.put;
        last = k.last;
      })
  step-Ended max_batches Event.mark_coordinator_done s t h k e =
      let (met, made) = when-cases _ _ t e in
      subst Ended made (record {
        done_counted = λ done. ground (arith, met);
        done = λ sent. refl;
        quiet = k.quiet;
        complete = k.complete;
        ending_sent = k.ending_sent;
        put = k.put;
        last = k.last;
      })
  step-Ended max_batches Event.put_task_sentinel s t h k e =
      subst Ended (when-cases _ _ t e).1 (Ended-moved s _ s.fetching s.fetched_queue s.buffered k)
  step-Ended max_batches Event.take_task s t h k e = taken-Ended s t s.task_queue k e
  step-Ended max_batches (Event.put_fetched i r) s t h k e =
      elim (Option-cases (get_elem? s.fetching i)) [
        | inl missing ↦ absurd (ground (arith, missing, e))
        | inr (u, found) ↦
            subst Ended (when-cases _ _ t (rw (found, pipeline_step) at e)).1
              (Ended-idle _ _ (Ended-moved s s.task_queue _ _ s.buffered k))
      ]
  step-Ended max_batches Event.buffer_result s t h k e = received-Ended s t s.fetched_queue k e
  step-Ended max_batches Event.publish s t h k e =
      elim (Option-cases (buffered_at s.next_sequence s.buffered)) [
        | inl missing ↦ absurd (ground (arith, missing, e))
        | inr (r, found) ↦
            subst Ended (when-cases _ _ t (rw (found, pipeline_step) at e)).1
              (publish-Ended s r (publish-unended s r h k found) k)
      ]
  step-Ended max_batches Event.count_published s t h k e =
      let (met, made) = when-cases _ _ t e in
      subst Ended made (record {
        done_counted = k.done_counted;
        done = k.done;
        quiet = λ sent. refl;
        complete = λ sent. absurd (ground (arith, met, k.quiet sent));
        ending_sent = k.ending_sent;
        put = k.put;
        last = k.last;
      })
  step-Ended max_batches Event.maybe_send_end s t h k e =
      let (met, made) = when-cases _ _ t e in subst Ended made (maybe_send_end-Ended s h k met)
  step-Ended max_batches Event.put_end s t h k e =
      let (met, made) = when-cases _ _ t e in
      let ending : s.ending ≡ true = ground (arith, met) in
      let sent = k.ending_sent ending in
      subst Ended made (record {
        done_counted = k.done_counted;
        done = k.done;
        quiet = k.quiet;
        complete = k.complete;
        ending_sent = λ ending. sent;
        put = ground (arith, has_end-end s.ready, sent);
        last = end_last-append s.ready ReadyItem.end_item (ground (arith, k.put, ending));
      })
  step-Ended max_batches Event.get_item s t h k e = subst Ended (when-cases _ _ t e).1 (record {
    done_counted = k.done_counted;
    done = k.done;
    quiet = k.quiet;
    complete = k.complete;
    ending_sent = k.ending_sent;
    put = k.put;
    last = k.last;
  })

  new_pipeline-Ended :
      (max_ready workers : ℤ) → Ended (new_pipeline {F = F} {B = B} max_ready workers)
  unfolding new_pipeline
  new_pipeline-Ended max_ready workers = record {
    done_counted = λ done. refl;
    done = λ sent. absurd (ground (arith, sent));
    quiet = λ sent. refl;
    complete = λ sent. refl;
    ending_sent = λ ending. ending;
    put = refl;
    last = refl;
  }

  run-both :
      (max_batches max_ready workers : ℤ) (es : List (Event F B)) (s : Pipeline F B)
      → run_pipeline max_batches es (new_pipeline max_ready workers) ≡ some s
      → Sound s × Ended s
  run-both max_batches max_ready workers es s =
      run_induction (λ p. Sound p × Ended p) max_batches
        (λ e p q both happened. (
          step-Sound max_batches e p q both.0 happened,
          step-Ended max_batches e p q both.0 both.1 happened,
        ))
        es (new_pipeline max_ready workers) s
        (new_pipeline-Sound max_ready workers, new_pipeline-Ended max_ready workers)

  -- Once the trainer finds the end on the ready queue, the coordinator thread is done and all batches of the
  -- tasks it issued were put there, in order and before the end; nothing follows the end.
  pub run_pipeline-end :
      (max_batches max_ready workers : ℤ) (es : List (Event F B)) (s : Pipeline F B)
      → run_pipeline max_batches es (new_pipeline max_ready workers) ≡ some s
      → has_end s.ready ≡ true
      → (s.coordinator_done ≡ true) × (tasks_of s.ready ≡ s.issued) × (end_last s.ready ≡ true)
  run_pipeline-end max_batches max_ready workers es s e found =
      let (h, k) = run-both max_batches max_ready workers es s e in
      let sent : s.end_sent ≡ true = ground (arith, found, k.put) in
      let all : put_count s ≡ length s.issued = ground (arith, k.quiet sent, k.complete sent) in
      (k.done sent, h.in_order ∙ take-all s.issued (put_count s) all, k.last)
