-- ===== src/Prefetcher/Located.antt =====
-- No batch is lost between the threads of the prefetcher.
use ad_artifacts.Base.{
  ℕ, zero, suc, ◌≤◌, ◌<◌, ◌≡◌, refl, ap, subst, Bool, true, false, not, ◌&&◌, ◌||◌, Option, none,
  some, List, [], ◌∷◌, ◌++◌, arith, eqb, length, get_elem?, length-append, Option-cases, Bool-cases,
  inl, inr,
}
use ad_artifacts.Base.Int.{ℤ}
use ad_artifacts.Prefetcher.{FetchTask, FetchedTaskResult}
use ad_artifacts.Prefetcher.Positions.{when-cases, some-injective}
use ad_artifacts.Prefetcher.Pipeline.{
  Pipeline, Event, pipeline_step, taken, received, buffered_at, without, drop_at, fetched_result,
  publish_result,
}
use ad_artifacts.Prefetcher.Order.{Sound, put_count}

module _ {F : Type 0} where
  abbrev pub in_queue : ℕ → List (Option (FetchTask F)) → Bool
  in_queue n [] = false
  in_queue n (none ∷ q) = in_queue n q
  in_queue n (some t ∷ q) = eqb t.sequence n || in_queue n q

  abbrev in_tasks : ℕ → List (FetchTask F) → Bool
  in_tasks n [] = false
  in_tasks n (t ∷ ts) = eqb t.sequence n || in_tasks n ts

  in_queue-append :
      (n : ℕ) (p q : List (Option (FetchTask F)))
      → in_queue n (p ++ q) ≡ (in_queue n p || in_queue n q)
  in_queue-append n [] q = refl
  in_queue-append n (none ∷ p) q = in_queue-append n p q
  in_queue-append n (some t ∷ p) q = ground (arith, in_queue-append n p q)

  in_tasks-drop_at :
      (n i : ℕ) (ts : List (FetchTask F)) (t : FetchTask F)
      → get_elem? ts i ≡ some t
      → in_tasks n ts ≡ (eqb t.sequence n || in_tasks n (drop_at i ts))
  unfolding drop_at
  in_tasks-drop_at n i [] t e = absurd (ground (arith, e))
  in_tasks-drop_at n zero (u ∷ ts) t e =
      ap (λ x. eqb x.sequence n || in_tasks n ts) (some-injective e)
  in_tasks-drop_at n (suc i) (u ∷ ts) t e = ground (arith, in_tasks-drop_at n i ts t e)

module _ {F B : Type 0} where
  abbrev pub in_results : ℕ → List (FetchedTaskResult F B) → Bool
  in_results n [] = false
  in_results n (r ∷ rs) = eqb r.task.sequence n || in_results n rs

  in_results-append :
      (n : ℕ) (p q : List (FetchedTaskResult F B))
      → in_results n (p ++ q) ≡ (in_results n p || in_results n q)
  in_results-append n [] q = refl
  in_results-append n (r ∷ p) q = ground (arith, in_results-append n p q)

  in_results-without :
      (n k : ℕ) (rs : List (FetchedTaskResult F B))
      → in_results n (without k rs) ≡ (not (eqb k n) && in_results n rs)
  unfolding without
  in_results-without n k [] = ground arith
  in_results-without n k (r ∷ rs) = ground (arith, in_results-without n k rs)

  pub in_results-none :
      (n : ℕ) (rs : List (FetchedTaskResult F B))
      → buffered_at n rs ≡ none
      → in_results n rs ≡ false
  unfolding buffered_at
  in_results-none n [] e = refl
  in_results-none n (r ∷ rs) e = ground (arith, e, in_results-none n rs)

  -- A thread or a queue has the task of this number, or its result.
  abbrev pub located : ℕ → Pipeline F B → Bool
  located n s =
      in_queue n s.task_queue
      || in_tasks n s.fetching
      || in_results n s.fetched_queue
      || in_results n s.buffered

  pub located-drained :
      (n : ℕ) (s : Pipeline F B)
      → in_queue n s.task_queue ≡ false
      → s.fetching ≡ []
      → s.fetched_queue ≡ []
      → located n s ≡ in_results n s.buffered
  located-drained n s a b c = ground (arith, a, ap (in_tasks n) b, ap (in_results n) c)

  -- Every issued task that was not published is somewhere.
  abbrev pub Located : Pipeline F B → Type 0
  Located s = (n : ℕ) → put_count s ≤ n → n < length s.issued → located n s ≡ true

  taken-Located :
      (s t : Pipeline F B) (queue : List (Option (FetchTask F)))
      → s.task_queue ≡ queue
      → Located s
      → taken s queue ≡ some t
      → Located t
  taken-Located s t [] q h e = absurd (ground (arith, e))
  taken-Located s t (none ∷ rest) q h e =
      subst Located (when-cases _ _ t e).1
        (λ n low high. ground (arith, h n low high, ap (in_queue n) q))
  taken-Located s t (some u ∷ rest) q h e =
      subst Located (when-cases _ _ t e).1
        (λ n low high. ground (arith, h n low high, ap (in_queue n) q))

  received-Located :
      (s t : Pipeline F B) (queue : List (FetchedTaskResult F B))
      → s.fetched_queue ≡ queue
      → Located s
      → received s queue ≡ some t
      → Located t
  received-Located s t [] q h e = absurd (ground (arith, e))
  received-Located s t (r ∷ rest) q h e = subst Located (when-cases _ _ t e).1 (λ n low high.
      ground
        (arith, h n low high, ap (in_results n) q, in_results-without n r.task.sequence s.buffered))

  -- Every event keeps what is not yet published in some place.
  pub step-Located :
      (max_batches : ℤ) (e : Event F B) (s t : Pipeline F B)
      → Sound s
      → Located s
      → pipeline_step max_batches e s ≡ some t
      → Located t
  unfolding pipeline_step publish_result
  step-Located max_batches (Event.put_task u) s t k h e =
      let (met, made) = when-cases _ _ t e in
      subst Located made (λ n low high. elim (Bool-cases (eqb u.sequence n)) [
        | inl new ↦ ground (arith, new, in_queue-append n s.task_queue (some u ∷ []))
        | inr old ↦
            let size : length s.issued ≡ s.scheduled_batches = ground (arith, met, k.counted) in
            let below : n < length s.issued =
              ground (arith, high, length-append s.issued (u ∷ []), old, met, size) in
            ground (arith, h n low below, in_queue-append n s.task_queue (some u ∷ []))
      ])
  step-Located max_batches Event.count_task s t k h e = subst Located (when-cases _ _ t e).1 h
  step-Located max_batches Event.mark_coordinator_done s t k h e =
      subst Located (when-cases _ _ t e).1 h
  step-Located max_batches Event.put_task_sentinel s t k h e =
      subst Located (when-cases _ _ t e).1
        (λ n low high. ground (arith, h n low high, in_queue-append n s.task_queue (none ∷ [])))
  step-Located max_batches Event.take_task s t k h e = taken-Located s t s.task_queue refl h e
  step-Located max_batches (Event.put_fetched i r) s t k h e =
      elim (Option-cases (get_elem? s.fetching i)) [
        | inl missing ↦ absurd (ground (arith, missing, e))
        | inr (u, found) ↦
            subst Located (when-cases _ _ t (rw (found, pipeline_step) at e)).1 (λ n low high.
              ground (
                arith,
                h n low high,
                in_tasks-drop_at n i s.fetching u found,
                in_results-append n s.fetched_queue (fetched_result u r ∷ []),
              ))
      ]
  step-Located max_batches Event.buffer_result s t k h e =
      received-Located s t s.fetched_queue refl h e
  step-Located max_batches Event.publish s t k h e =
      elim (Option-cases (buffered_at s.next_sequence s.buffered)) [
        | inl missing ↦ absurd (ground (arith, missing, e))
        | inr (r, found) ↦
            let (met, made) = when-cases _ _ t (rw (found, pipeline_step) at e) in
            subst Located made (λ n low high. ground (
              arith,
              h n (ground (arith, low, met)) high,
              in_results-without n s.next_sequence s.buffered,
              low,
            ))
      ]
  step-Located max_batches Event.count_published s t k h e =
      let (met, made) = when-cases _ _ t e in
      subst Located made (λ n low high. h n (ground (arith, low, met)) high)
  step-Located max_batches Event.maybe_send_end s t k h e = subst Located (when-cases _ _ t e).1 h
  step-Located max_batches Event.put_end s t k h e = subst Located (when-cases _ _ t e).1 h
  step-Located max_batches Event.get_item s t k h e = subst Located (when-cases _ _ t e).1 h
