-- ===== src/Prefetcher/Progress.antt =====
-- The prefetcher does not get stuck.
use ad_artifacts.Base.{
  ℕ, zero, suc, ◌≤◌, take, ◌≡◌, refl, ap, ◌∙◌, false, none, some, List, [], ◌∷◌, arith, length,
  Bool-cases, Option-cases, inl, inr, ltb, get_elem?,
}
use ad_artifacts.Base.Int.{ℤ}
use ad_artifacts.Prefetcher.{FetchedTaskResult}
use ad_artifacts.Prefetcher.Positions.{take-all}
use ad_artifacts.Prefetcher.Pipeline.{
  Pipeline, Event, Fetched, pipeline_step, received, run_pipeline, new_pipeline, buffered_at,
}
use ad_artifacts.Prefetcher.Order.{Sound, put_count, tasks_of}
use ad_artifacts.Prefetcher.Moves.{step-Sound, run_induction, new_pipeline-Sound}
use ad_artifacts.Prefetcher.Threads.{Manned, step-Manned, new_pipeline-Manned, in_queue-stuck}
use ad_artifacts.Prefetcher.Located.{Located, located-drained, step-Located, in_results-none}

fetching-stuck {ℓ} : {A : Type ℓ} (ts : List A) → get_elem? ts 0 ≡ none → ts ≡ []
fetching-stuck [] e = refl
fetching-stuck (t ∷ ts) e = absurd (ground (arith, e))

take-long {ℓ} : {A : Type ℓ} (n : ℕ) (xs : List A) → length xs ≤ n → take n xs ≡ xs
take-long zero [] h = refl
take-long zero (x ∷ xs) h = absurd (omega (arith, h))
take-long (suc n) [] h = refl
take-long (suc n) (x ∷ xs) h = ap (◌∷◌ x) (take-long n xs (omega (arith, h)))

module _ {F B : Type 0} where
  run-Located :
      (max_batches max_ready workers : ℤ) (es : List (Event F B)) (s : Pipeline F B)
      → run_pipeline max_batches es (new_pipeline max_ready workers) ≡ some s
      → Sound s × Located s × Manned s
  unfolding new_pipeline
  run-Located max_batches max_ready workers es s =
      run_induction (λ p. Sound p × Located p × Manned p) max_batches
        (λ e p q both happened. (
          step-Sound max_batches e p q both.0 happened,
          step-Located max_batches e p q both.0 both.1 happened,
          step-Manned max_batches e p q both.2 happened,
        ))
        es (new_pipeline max_ready workers) s
        (
          new_pipeline-Sound max_ready workers,
          λ n low high. absurd (ground (arith, high)),
          new_pipeline-Manned max_ready workers,
        )

  received-stuck :
      (s : Pipeline F B) (q : List (FetchedTaskResult F B))
      → s.publishing ≡ false
      → buffered_at s.next_sequence s.buffered ≡ none
      → received s q ≡ none
      → q ≡ []
  received-stuck s [] idle gap e = refl
  received-stuck s (r ∷ q) idle gap e = absurd (ground (arith, idle, gap, e))

  -- The queues hold at most `max(1, max_ready)` items each, and there are `max(1, workers)` fetch threads. In a run
  -- after which the trainer cannot take an item, no idle fetch thread can take a task, no thread can put the result of
  -- the first task being fetched, and the publisher can neither receive a result nor publish one nor count one, every
  -- task that was issued has its batch among the items put on the ready queue, in order, and the trainer took them
  -- all.
  pub run_pipeline-progress :
      (max_batches max_ready workers : ℤ) (es : List (Event F B)) (s : Pipeline F B)
      (r : Fetched F B)
      → run_pipeline max_batches es (new_pipeline max_ready workers) ≡ some s
      → pipeline_step max_batches Event.get_item s ≡ none
      → pipeline_step max_batches Event.take_task s ≡ none
      → pipeline_step max_batches (Event.put_fetched 0 r) s ≡ none
      → pipeline_step max_batches Event.buffer_result s ≡ none
      → pipeline_step max_batches Event.publish s ≡ none
      → pipeline_step max_batches Event.count_published s ≡ none
      → (tasks_of s.ready ≡ s.issued) × (tasks_of (take s.got s.ready) ≡ s.issued)
  unfolding pipeline_step
  run_pipeline-progress max_batches max_ready workers es s r e getting taking fetching receiving
        publishing counting =
      let (h, l, m) = run-Located max_batches max_ready workers es s e in
      let idle : s.publishing ≡ false = ground (arith, counting) in
      let gap : buffered_at s.next_sequence s.buffered ≡ none =
        elim (Option-cases (buffered_at s.next_sequence s.buffered)) [
          | inl missing ↦ missing
          | inr (q, found) ↦ absurd (ground (arith, found, publishing, idle, getting, h.sized))
        ] in
      let no_result : s.fetched_queue ≡ [] = received-stuck s s.fetched_queue idle gap receiving in
      let no_fetch : s.fetching ≡ [] =
        fetching-stuck s.fetching (elim (Option-cases (get_elem? s.fetching 0)) [
          | inl missing ↦ missing
          | inr (t, found) ↦ absurd (ground (arith, found, fetching, ap length no_result, h.sized))
        ]) in
      let all : put_count s ≡ length s.issued =
        elim (Bool-cases (ltb s.next_sequence (length s.issued))) [
          | inl left ↦
              let held = l s.next_sequence (ground (arith, idle)) (ground (arith, left)) in
              absurd (
                ground (
                  arith,
                  held,
                  located-drained s.next_sequence s
                      (in_queue-stuck s.next_sequence s s.task_queue m refl no_fetch taking)
                      no_fetch no_result,
                  in_results-none s.next_sequence s.buffered gap,
                ))
          | inr none_left ↦ ground (arith, none_left, idle, h.bounded)
        ] in
      let order = h.in_order ∙ take-all s.issued (put_count s) all in
      (order, ap tasks_of (take-long s.got s.ready (ground (arith, getting))) ∙ order)
