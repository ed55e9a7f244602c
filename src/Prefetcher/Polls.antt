-- ===== src/Prefetcher/Polls.antt =====
-- What the prefetcher counts while it polls for a batch.
use ad_artifacts.Base.{
  ℕ, ◌+◌, String, ◌≡◌, refl, sym, subst, str_eq→eq, ◌∙◌, Bool, true, false, ◌&&◌, not, some, List,
  [], ◌∷◌, ◌++◌, ◌==◌, arith, All, length, count_if, eqb, if◌then◌else◌,
}
use ad_artifacts.Core.{ok}
use ad_artifacts.Floats.{Floats}
use ad_artifacts.Prefetcher.{
  Poll, PollCounts, FetchTask, count_pending, get_next_fetch_task, fetch_task, is_pending_poll,
  cache_result_of, no_polls, validate_ready_handle,
}

miss_or_in_flight : (r : String) → (r == "miss") ≡ true → (r == "in_flight") ≡ false
miss_or_in_flight r h = subst (λ k. (k == "in_flight") ≡ false) (sym (str_eq→eq r "miss" h)) refl

module _ {F : Type 0} ⦃f : Floats F⦄ where
  -- The counters after pending answers.
  abbrev pub counts_after : PollCounts F → List (Poll F) → PollCounts F
  counts_after n [] = n
  counts_after n (p ∷ ps) = counts_after (count_pending p n) ps

  abbrev pub goes_on : Poll F → Bool
  goes_on p = is_pending_poll p && not p.done

  counts_after_lem :
      (n : PollCounts F) (ps : List (Poll F))
      → ((counts_after n ps).pending_polls ≡ n.pending_polls + length ps)
        × ((counts_after n ps).miss_polls
            ≡ n.miss_polls + count_if (λ p. cache_result_of p == "miss") ps)
        × ((counts_after n ps).in_flight_polls
            ≡ n.in_flight_polls + count_if (λ p. cache_result_of p == "in_flight") ps)
  unfolding count_pending
  counts_after_lem n [] = (omega arith, omega arith, omega arith)
  counts_after_lem n (p ∷ ps) =
      let (a, b, c) = counts_after_lem (count_pending p n) ps in
      (
        ground (arith, a),
        ground (arith, b),
        ground (arith, c, miss_or_in_flight (cache_result_of p)),
      )

  get_next_fetch_task-counts :
      (job_id : String) (sequence : ℕ) (n : PollCounts F) (waiting rest : List (Poll F))
      → All (λ p. goes_on p ≡ true) waiting
      → get_next_fetch_task job_id sequence n (waiting ++ rest)
        ≡ get_next_fetch_task job_id sequence (counts_after n waiting) rest
  unfolding get_next_fetch_task
  get_next_fetch_task-counts job_id sequence n [] rest pending = refl
  get_next_fetch_task-counts job_id sequence n (p ∷ ps) rest pending = ground (
    arith,
    pending.0,
    get_next_fetch_task-counts job_id sequence (count_pending p n) ps rest pending.1,
  )

  -- A batch that comes after so many pending answers makes a task with the numbers of all of them, of those for
  -- which the payload was missing, and of those for which it was under way; it is hot if there were none.
  pub get_next_fetch_task_lem :
      (job_id : String) (sequence : ℕ) (waiting rest : List (Poll F)) (p : Poll F)
      → All (λ q. goes_on q ≡ true) waiting
      → is_pending_poll p ≡ false
      → p.done ≡ false
      → validate_ready_handle p.batch_handle ≡ ok tt
      → (t : FetchTask F) × (get_next_fetch_task job_id sequence no_polls (waiting ++ (p ∷ rest))
          ≡ ok (some t))
        × (t.sequence ≡ sequence)
        × (t.batch_id ≡ p.batch_handle.batch_id)
        × (t.coordinator_pending_polls ≡ length waiting)
        × (t.coordinator_miss_polls ≡ count_if (λ q. cache_result_of q == "miss") waiting)
        × (t.coordinator_in_flight_polls ≡ count_if (λ q. cache_result_of q == "in_flight") waiting)
        × (t.client_cache_result ≡ (if eqb (length waiting) 0 then "hot" else "miss"))
  unfolding get_next_fetch_task fetch_task
  get_next_fetch_task_lem job_id sequence waiting rest p pending answered more valid =
      let n = counts_after no_polls waiting in
      let (a, b, c) = counts_after_lem no_polls waiting in
      let all : n.pending_polls ≡ length waiting = omega (arith, a) in
      (
        fetch_task job_id sequence p n,
        get_next_fetch_task-counts job_id sequence no_polls waiting (p ∷ rest) pending
            ∙ ground (arith, answered, more, valid),
        refl,
        refl,
        all,
        omega (arith, b),
        omega (arith, c),
        ground (arith, all),
      )
