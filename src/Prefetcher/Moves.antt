-- ===== src/Prefetcher/Moves.antt =====
-- Every event of the prefetcher keeps the order of the batches.
use ad_artifacts.Base.{
  ℕ, ◌+◌, ◌≤◌, ◌≡◌, refl, ◌∙◌, subst, Bool, true, false, Option, none, some, List, [], ◌∷◌, ◌++◌,
  arith, length, take, get_elem?, All, Option-cases, inl, inr,
}
use ad_artifacts.Base.Int.{ℤ}
use ad_artifacts.Prefetcher.{FetchTask, FetchedTaskResult}
use ad_artifacts.Prefetcher.Positions.{
  All-append, All-get_elem?, All-drop_at, when-cases, some-injective,
}
use ad_artifacts.Prefetcher.Pipeline.{
  Pipeline, ReadyItem, Event, pipeline_step, taken, received, run_pipeline, new_pipeline,
  buffered_at, without, drop_at, fetched_result,
}
use ad_artifacts.Prefetcher.Order.{
  From, Queued, tasks_of, put_count, Sound, put_task-Sound, tasks_of-end, All-without,
  publish-Sound,
}

module _ {F B : Type 0} where
  -- Tasks and results may move between the queues, as long as they were issued.
  Sound-moved :
      (s : Pipeline F B) (queue : List (Option (FetchTask F))) (fetching : List (FetchTask F))
      (fetched buffered : List (FetchedTaskResult F B)) (done sent ending : Bool)
      → Sound s
      → All (Queued s.issued) queue
      → All (From s.issued) fetching
      → All (λ r. From s.issued r.task) fetched
      → All (λ r. From s.issued r.task) buffered
      → Sound (record s {
        task_queue = queue;
        fetching = fetching;
        fetched_queue = fetched;
        buffered = buffered;
        coordinator_done = done;
        end_sent = sent;
        ending = ending;
      })
  Sound-moved s queue fetching fetched buffered done sent ending h a b c d = record {
    sized = h.sized;
    numbered = h.numbered;
    counted = h.counted;
    queued = a;
    in_hand = b;
    fetched = c;
    held = d;
    published = h.published;
    in_order = h.in_order;
    bounded = h.bounded;
  }

  Sound-idle : (s : Pipeline F B) (n : ℕ) → Sound s → Sound (record s { idle_threads = n })
  Sound-idle s n h = record {
    sized = h.sized;
    numbered = h.numbered;
    counted = h.counted;
    queued = h.queued;
    in_hand = h.in_hand;
    fetched = h.fetched;
    held = h.held;
    published = h.published;
    in_order = h.in_order;
    bounded = h.bounded;
  }

  count_task-Sound :
      (s : Pipeline F B)
      → Sound s
      → s.counting ≡ true
      → Sound (record s { scheduled_batches = s.scheduled_batches + 1; counting = false })
  count_task-Sound s h met = record {
    sized = h.sized;
    numbered = h.numbered;
    counted = ground (arith, h.counted, met);
    queued = h.queued;
    in_hand = h.in_hand;
    fetched = h.fetched;
    held = h.held;
    published = h.published;
    in_order = h.in_order;
    bounded = h.bounded;
  }

  count_published-Sound :
      (s : Pipeline F B)
      → Sound s
      → s.publishing ≡ true
      → Sound (record s {
        published_batches = s.published_batches + 1;
        next_sequence = s.next_sequence + 1;
        publishing = false;
      })
  count_published-Sound s h met = record {
    sized = h.sized;
    numbered = h.numbered;
    counted = h.counted;
    queued = h.queued;
    in_hand = h.in_hand;
    fetched = h.fetched;
    held = h.held;
    published = ground (arith, h.published);
    in_order = ground (arith, h.in_order, met);
    bounded = ground (arith, h.bounded, met);
  }

  put_end-Sound :
      (s : Pipeline F B)
      → Sound s
      → Sound (record s { ready = s.ready ++ (ReadyItem.end_item ∷ []); ending = false })
  put_end-Sound s h = record {
    sized = h.sized;
    numbered = h.numbered;
    counted = h.counted;
    queued = h.queued;
    in_hand = h.in_hand;
    fetched = h.fetched;
    held = h.held;
    published = h.published;
    in_order = tasks_of-end s.ready ∙ h.in_order;
    bounded = h.bounded;
  }

  get_item-Sound : (s : Pipeline F B) → Sound s → Sound (record s { got = s.got + 1 })
  get_item-Sound s h = record {
    sized = h.sized;
    numbered = h.numbered;
    counted = h.counted;
    queued = h.queued;
    in_hand = h.in_hand;
    fetched = h.fetched;
    held = h.held;
    published = h.published;
    in_order = h.in_order;
    bounded = h.bounded;
  }

  take_task-Sound :
      (s t : Pipeline F B) (queue : List (Option (FetchTask F)))
      → s.task_queue ≡ queue
      → Sound s
      → taken s queue ≡ some t
      → Sound t
  take_task-Sound s t [] e h made = absurd (ground (arith, made))
  take_task-Sound s t (none ∷ rest) e h made = subst Sound (when-cases _ _ t made).1 (
      Sound-idle _ _ (
        Sound-moved s rest s.fetching s.fetched_queue s.buffered s.coordinator_done s.end_sent
          s.ending h (subst (All (Queued s.issued)) e h.queued).1 h.in_hand h.fetched h.held))
  take_task-Sound s t (some u ∷ rest) e h made =
      let (new, others) = subst (All (Queued s.issued)) e h.queued in
      subst Sound (when-cases _ _ t made).1 (
        Sound-idle _ _ (
          Sound-moved s rest (u ∷ s.fetching) s.fetched_queue s.buffered s.coordinator_done
            s.end_sent s.ending h others (new, h.in_hand) h.fetched h.held))

  buffer-Sound :
      (s t : Pipeline F B) (queue : List (FetchedTaskResult F B))
      → s.fetched_queue ≡ queue
      → Sound s
      → received s queue ≡ some t
      → Sound t
  buffer-Sound s t [] e h made = absurd (ground (arith, made))
  buffer-Sound s t (r ∷ rest) e h made =
      let (new, others) = subst (All (λ x. From s.issued x.task)) e h.fetched in
      let (met, got) = when-cases _ _ t made in
      subst Sound got (
        Sound-moved s s.task_queue s.fetching rest (r ∷ without r.task.sequence s.buffered)
          s.coordinator_done s.end_sent s.ending h h.queued h.in_hand others
          (new, All-without (λ x. From s.issued x.task) r.task.sequence s.buffered h.held))

  -- Every event keeps the order.
  pub step-Sound :
      (max_batches : ℤ) (e : Event F B) (s t : Pipeline F B)
      → Sound s
      → pipeline_step max_batches e s ≡ some t
      → Sound t
  unfolding pipeline_step
  step-Sound max_batches (Event.put_task u) s t h e =
      let (met, made) = when-cases _ _ t e in
      subst Sound made (put_task-Sound u s h (ground (arith, met)) (ground (arith, met)))
  step-Sound max_batches Event.count_task s t h e =
      let (met, made) = when-cases _ _ t e in subst Sound made (count_task-Sound s h met)
  step-Sound max_batches Event.mark_coordinator_done s t h e =
      let (met, made) = when-cases _ _ t e in
      subst Sound made (
        Sound-moved s s.task_queue s.fetching s.fetched_queue s.buffered true s.end_sent s.ending h
          h.queued h.in_hand h.fetched h.held)
  step-Sound max_batches Event.put_task_sentinel s t h e =
      let (met, made) = when-cases _ _ t e in
      subst Sound made (
        Sound-moved s (s.task_queue ++ (none ∷ [])) s.fetching s.fetched_queue s.buffered
          s.coordinator_done s.end_sent s.ending h
          (All-append (Queued s.issued) s.task_queue (none ∷ []) h.queued (tt, tt)) h.in_hand
          h.fetched h.held)
  step-Sound max_batches Event.take_task s t h e = take_task-Sound s t s.task_queue refl h e
  step-Sound max_batches (Event.put_fetched i r) s t h e =
      elim (Option-cases (get_elem? s.fetching i)) [
        | inl missing ↦ absurd (ground (arith, missing, e))
        | inr (u, found) ↦ subst Sound (when-cases _ _ t (rw (found, pipeline_step) at e)).1 (
            Sound-idle _ _ (
              Sound-moved s s.task_queue (drop_at i s.fetching)
                (s.fetched_queue ++ (fetched_result u r ∷ [])) s.buffered s.coordinator_done
                s.end_sent s.ending h h.queued (All-drop_at (From s.issued) i s.fetching h.in_hand)
                (All-append (λ x. From s.issued x.task) s.fetched_queue (fetched_result u r ∷ [])
                  h.fetched (All-get_elem? (From s.issued) s.fetching i u h.in_hand found, tt))
                h.held))
      ]
  step-Sound max_batches Event.buffer_result s t h e = buffer-Sound s t s.fetched_queue refl h e
  step-Sound max_batches Event.publish s t h e =
      elim (Option-cases (buffered_at s.next_sequence s.buffered)) [
        | inl missing ↦ absurd (ground (arith, missing, e))
        | inr (r, found) ↦
            let (met, made) = when-cases _ _ t (rw (found, pipeline_step) at e) in
            subst Sound made (publish-Sound s r h found (ground (arith, met)))
      ]
  step-Sound max_batches Event.count_published s t h e =
      let (met, made) = when-cases _ _ t e in subst Sound made (count_published-Sound s h met)
  step-Sound max_batches Event.maybe_send_end s t h e =
      let (met, made) = when-cases _ _ t e in
      subst Sound made (
        Sound-moved s s.task_queue s.fetching s.fetched_queue s.buffered s.coordinator_done true
          true h h.queued h.in_hand h.fetched h.held)
  step-Sound max_batches Event.put_end s t h e =
      let (met, made) = when-cases _ _ t e in subst Sound made (put_end-Sound s h)
  step-Sound max_batches Event.get_item s t h e =
      let (met, made) = when-cases _ _ t e in subst Sound made (get_item-Sound s h)

  pub new_pipeline-Sound :
      (max_ready workers : ℤ) → Sound (new_pipeline {F = F} {B = B} max_ready workers)
  unfolding new_pipeline
  new_pipeline-Sound max_ready workers = record {
    sized = omega arith;
    numbered = λ i t e. absurd (ground (arith, e));
    counted = refl;
    queued = tt;
    in_hand = tt;
    fetched = tt;
    held = tt;
    published = refl;
    in_order = refl;
    bounded = omega arith;
  }

  -- What every event keeps holds after every run.
  pub run_induction :
      (P : Pipeline F B → Type 0) (max_batches : ℤ)
      → ((e : Event F B) (s t : Pipeline F B) → P s → pipeline_step max_batches e s ≡ some t → P t)
      → (es : List (Event F B)) (s t : Pipeline F B) → P s
      → run_pipeline max_batches es s ≡ some t
      → P t
  unfolding run_pipeline
  run_induction P max_batches keep [] s t h e = subst P (some-injective e) h
  run_induction P max_batches keep (x ∷ es) s t h e =
      elim (Option-cases (pipeline_step max_batches x s)) [
        | inl missing ↦ absurd (ground (arith, missing, e))
        | inr (u, happened) ↦
            run_induction P max_batches keep es u t (keep x s u h happened)
              (rw (happened, run_pipeline) at e)
      ]

  pub run-Sound :
      (max_batches max_ready workers : ℤ) (es : List (Event F B)) (s : Pipeline F B)
      → run_pipeline max_batches es (new_pipeline max_ready workers) ≡ some s
      → Sound s
  run-Sound max_batches max_ready workers es s =
      run_induction Sound max_batches (step-Sound max_batches) es (new_pipeline max_ready workers) s
        (new_pipeline-Sound max_ready workers)

  -- Whatever the threads do in whatever order, what the trainer finds on the ready queue are the batches of the
  -- tasks that the coordinator thread issued first, each once and in the order of their issue; the tasks are
  -- numbered in that order.
  pub run_pipeline-in_order :
      (max_batches max_ready workers : ℤ) (es : List (Event F B)) (s : Pipeline F B)
      → run_pipeline max_batches es (new_pipeline max_ready workers) ≡ some s
      → (tasks_of s.ready ≡ take (put_count s) s.issued)
        × (put_count s ≤ length s.issued)
        × ((i : ℕ) (t : FetchTask F) → get_elem? s.issued i ≡ some t → t.sequence ≡ i)
  run_pipeline-in_order max_batches max_ready workers es s e =
      let h = run-Sound max_batches max_ready workers es s e in (h.in_order, h.bounded, h.numbered)
