-- ===== src/Prefetcher/Threads.antt =====
-- While tasks wait in the prefetcher's queue, some fetch thread is there for them.
use ad_artifacts.Base.{
  ℕ, zero, suc, ◌+◌, ◌≤◌, ◌≡◌, refl, ap, sym, subst, Bool, true, false, not, Option, none, some,
  List, [], ◌∷◌, ◌++◌, arith, length, get_elem?, Option-cases, inl, inr,
}
use ad_artifacts.Base.Int.{ℤ}
use ad_artifacts.Prefetcher.{FetchTask, FetchedTaskResult}
use ad_artifacts.Prefetcher.Located.{in_queue}
use ad_artifacts.Prefetcher.Positions.{when-cases}
use ad_artifacts.Prefetcher.Pipeline.{
  Pipeline, Event, pipeline_step, publish_result, taken, received, new_pipeline, buffered_at,
  drop_at,
}

length-drop_at {ℓ} :
    {A : Type ℓ} (i : ℕ) (xs : List A) (x : A)
    → get_elem? xs i ≡ some x
    → length (drop_at i xs) + 1 ≡ length xs
unfolding drop_at
length-drop_at i [] x e = absurd (ground (arith, e))
length-drop_at zero (y ∷ xs) x e = omega arith
length-drop_at (suc i) (y ∷ xs) x e = omega (arith, length-drop_at i xs x e)

module _ {F : Type 0} where
  abbrev pub has_task : List (Option (FetchTask F)) → Bool
  has_task [] = false
  has_task (none ∷ q) = has_task q
  has_task (some t ∷ q) = true

  abbrev has_sentinel : List (Option (FetchTask F)) → Bool
  has_sentinel [] = false
  has_sentinel (none ∷ q) = true
  has_sentinel (some t ∷ q) = has_sentinel q

  -- No task stands behind a sentinel.
  abbrev tasks_first : List (Option (FetchTask F)) → Bool
  tasks_first [] = true
  tasks_first (none ∷ q) = not (has_task q)
  tasks_first (some t ∷ q) = tasks_first q

  has_sentinel-task :
      (q : List (Option (FetchTask F))) (t : FetchTask F)
      → has_sentinel (q ++ (some t ∷ [])) ≡ has_sentinel q
  has_sentinel-task [] t = refl
  has_sentinel-task (none ∷ q) t = refl
  has_sentinel-task (some u ∷ q) t = has_sentinel-task q t

  tasks_first-tasks :
      (q : List (Option (FetchTask F))) → has_sentinel q ≡ false → tasks_first q ≡ true
  tasks_first-tasks [] e = refl
  tasks_first-tasks (none ∷ q) e = absurd (ground (arith, e))
  tasks_first-tasks (some u ∷ q) e = tasks_first-tasks q e

  has_task-sentinel : (q : List (Option (FetchTask F))) → has_task (q ++ (none ∷ [])) ≡ has_task q
  has_task-sentinel [] = refl
  has_task-sentinel (none ∷ q) = has_task-sentinel q
  has_task-sentinel (some u ∷ q) = refl

  tasks_first-sentinel :
      (q : List (Option (FetchTask F))) → tasks_first (q ++ (none ∷ [])) ≡ tasks_first q
  tasks_first-sentinel [] = refl
  tasks_first-sentinel (none ∷ q) = ground (arith, has_task-sentinel q)
  tasks_first-sentinel (some u ∷ q) = tasks_first-sentinel q

  in_queue-task_free :
      (n : ℕ) (q : List (Option (FetchTask F))) → has_task q ≡ false → in_queue n q ≡ false
  in_queue-task_free n [] e = refl
  in_queue-task_free n (none ∷ q) e = in_queue-task_free n q e
  in_queue-task_free n (some t ∷ q) e = absurd (ground (arith, e))

module _ {F B : Type 0} where
  -- The fetch threads that have not ended.
  abbrev pub running : Pipeline F B → ℕ
  running s = s.idle_threads + length s.fetching

  pub record Manned (s : Pipeline F B) : Type 0 where
    pub going : s.coordinator_done ≡ false → 1 ≤ running s
    pub unended : s.coordinator_done ≡ false → has_sentinel s.task_queue ≡ false
    pub ordered : tasks_first s.task_queue ≡ true
    pub served : has_task s.task_queue ≡ true → 1 ≤ running s

  -- The threads and the task queue are all that counts.
  Manned-same :
      (s t : Pipeline F B)
      → Manned s
      → t.coordinator_done ≡ s.coordinator_done
      → t.task_queue ≡ s.task_queue
      → running t ≡ running s
      → Manned t
  Manned-same s t h a b c = record {
    going = λ e. ground (arith, a, c, e, h.going);
    unended = λ e. subst (λ q. has_sentinel q ≡ false) (sym b) (h.unended (ground (arith, a, e)));
    ordered = subst (λ q. tasks_first q ≡ true) (sym b) h.ordered;
    served = λ e. ground (arith, c, h.served (subst (λ q. has_task q ≡ true) b e));
  }

  taken-Manned :
      (s t : Pipeline F B) (queue : List (Option (FetchTask F)))
      → s.task_queue ≡ queue
      → Manned s
      → taken s queue ≡ some t
      → Manned t
  taken-Manned s t [] q h e = absurd (ground (arith, e))
  taken-Manned s t (none ∷ rest) q h e =
      let (met, made) = when-cases _ _ t e in
      let alone = subst (λ x. tasks_first x ≡ true) q h.ordered in
      let sentinel : (x : s.coordinator_done ≡ false) → has_sentinel (none ∷ rest) ≡ false =
        λ x. subst (λ y. has_sentinel y ≡ false) q (h.unended x) in
      subst Manned made (record {
        going = λ x. absurd (ground (arith, sentinel x));
        unended = λ x. absurd (ground (arith, sentinel x));
        ordered = last_sentinels rest (ground (arith, alone));
        served = λ x. absurd (ground (arith, alone, x));
      })
    where
      last_sentinels : (r : List (Option (FetchTask F))) → has_task r ≡ false → tasks_first r ≡ true
      last_sentinels [] x = refl
      last_sentinels (none ∷ r) x = ground (arith, x)
      last_sentinels (some u ∷ r) x = absurd (ground (arith, x))
  taken-Manned s t (some u ∷ rest) q h e =
      let (met, made) = when-cases _ _ t e in
      let some_left : 1 ≤ running s = h.served (subst (λ x. has_task x ≡ true) (sym q) refl) in
      subst Manned made (record {
        going = λ x. ground (arith, met);
        unended = λ x. subst (λ y. has_sentinel y ≡ false) q (h.unended x);
        ordered = subst (λ y. tasks_first y ≡ true) q h.ordered;
        served = λ x. ground (arith, met);
      })

  pub step-Manned :
      (max_batches : ℤ) (e : Event F B) (s t : Pipeline F B)
      → Manned s
      → pipeline_step max_batches e s ≡ some t
      → Manned t
  unfolding pipeline_step publish_result
  step-Manned max_batches (Event.put_task u) s t h e =
      let (met, made) = when-cases _ _ t e in
      let opened : s.coordinator_done ≡ false = ground (arith, met) in
      let tasks : has_sentinel (s.task_queue ++ (some u ∷ [])) ≡ false =
        ground (arith, has_sentinel-task s.task_queue u, h.unended opened) in
      subst Manned made (record {
        going = h.going;
        unended = λ x. tasks;
        ordered = tasks_first-tasks (s.task_queue ++ (some u ∷ [])) tasks;
        served = λ x. h.going opened;
      })
  step-Manned max_batches Event.mark_coordinator_done s t h e =
      subst Manned (when-cases _ _ t e).1 (record {
        going = λ x. absurd (ground (arith, x));
        unended = λ x. absurd (ground (arith, x));
        ordered = h.ordered;
        served = h.served;
      })
  step-Manned max_batches Event.put_task_sentinel s t h e =
      let (met, made) = when-cases _ _ t e in
      subst Manned made (record {
        going = λ x. absurd (ground (arith, met, x));
        unended = λ x. absurd (ground (arith, met, x));
        ordered = ground (arith, tasks_first-sentinel s.task_queue, h.ordered);
        served = λ x. h.served (ground (arith, has_task-sentinel s.task_queue, x));
      })
  step-Manned max_batches Event.take_task s t h e = taken-Manned s t s.task_queue refl h e
  step-Manned max_batches (Event.put_fetched i r) s t h e =
      elim (Option-cases (get_elem? s.fetching i)) [
        | inl missing ↦ absurd (ground (arith, missing, e))
        | inr (u, found) ↦
            subst Manned (when-cases _ _ t (rw (found, pipeline_step) at e)).1
              (Manned-same s _ h refl refl (omega (arith, length-drop_at i s.fetching u found)))
      ]
  step-Manned max_batches Event.buffer_result s t h e = buffered s.fetched_queue e
    where
      buffered : (q : List (FetchedTaskResult F B)) → received s q ≡ some t → Manned t
      buffered [] x = absurd (ground (arith, x))
      buffered (r ∷ q) x = subst Manned (when-cases _ _ t x).1 (Manned-same s _ h refl refl refl)
  step-Manned max_batches Event.publish s t h e =
      elim (Option-cases (buffered_at s.next_sequence s.buffered)) [
        | inl missing ↦ absurd (ground (arith, missing, e))
        | inr (r, found) ↦
            subst Manned (when-cases _ _ t (rw (found, pipeline_step) at e)).1
              (Manned-same s _ h refl refl refl)
      ]
  step-Manned max_batches _ s t h e =
      subst Manned (when-cases _ _ t e).1 (Manned-same s _ h refl refl refl)

  pub new_pipeline-Manned :
      (max_ready workers : ℤ) → Manned (new_pipeline {F = F} {B = B} max_ready workers)
  unfolding new_pipeline
  new_pipeline-Manned max_ready workers = record {
    going = λ x. omega arith;
    unended = λ x. refl;
    ordered = refl;
    served = λ x. omega arith;
  }

  -- Where no thread fetches and none can take a task, no task waits.
  pub in_queue-stuck :
      (n : ℕ) (s : Pipeline F B) (q : List (Option (FetchTask F)))
      → Manned s
      → s.task_queue ≡ q
      → s.fetching ≡ []
      → taken s q ≡ none
      → in_queue n q ≡ false
  in_queue-stuck n s [] h e free stuck = refl
  in_queue-stuck n s (none ∷ q) h e free stuck =
      let alone = subst (λ x. tasks_first x ≡ true) e h.ordered in
      in_queue-task_free n q (ground (arith, alone))
  in_queue-stuck n s (some t ∷ q) h e free stuck =
      let some_left : 1 ≤ running s = h.served (subst (λ x. has_task x ≡ true) (sym e) refl) in
      absurd (ground (arith, some_left, ap length free, stuck))
