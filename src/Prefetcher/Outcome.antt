-- ===== src/Prefetcher/Outcome.antt =====
-- What a trainer's job is finished as.
use ad_artifacts.Base.{
  ℕ, zero, suc, ◌≤◌, ◌≡◌, refl, sym, ap, ◌∙◌, subst, Bool, true, false, String, some, List, [], ◌∷◌,
  ◌++◌, arith, if◌then◌else◌, length, length-append, take, Bool-cases, inl, inr, All,
}
use ad_artifacts.Base.Int.{ℤ}
use ad_artifacts.Core.{JobStatus}
use ad_artifacts.Prefetcher.Pipeline.{Pipeline, ReadyItem, Event, run_pipeline, new_pipeline}
use ad_artifacts.Prefetcher.Positions.{All-append, All-map}
use ad_artifacts.Prefetcher.Order.{tasks_of}
use ad_artifacts.Prefetcher.Ends.{has_end, end_last, has_end-batch, has_end-end}
use ad_artifacts.Prefetcher.Closing.{run_pipeline-end}
use ad_artifacts.Prefetcher.Session.{
  Session, SessionCall, new_session, take_item, outcome, finish_session_job, shutdown_session,
  session_step, run_session,
}

abbrev pub is_completed : JobStatus × String → Bool
is_completed (JobStatus.completed, reason) = true
is_completed (_, reason) = false

take-nil {ℓ} : {A : Type ℓ} (n : ℕ) → take {A = A} n [] ≡ []
take-nil zero = refl
take-nil (suc n) = refl

module _ {F B : Type 0} where
  record Truthful (s : Session F B) : Type 0 where
    ended : s.completed_normally ≡ has_end s.got
    once : length s.finished ≤ (if s.job_closed then 1 else 0)
    true_finish : All (λ o. is_completed o ≡ true → has_end s.got ≡ true) s.finished

  has_end-append :
      (items : List (ReadyItem F B)) (item : ReadyItem F B)
      → has_end items ≡ true
      → has_end (items ++ (item ∷ [])) ≡ true
  has_end-append [] item e = absurd (ground (arith, e))
  has_end-append (ReadyItem.batch_item q ∷ items) item e = has_end-append items item e
  has_end-append (ReadyItem.end_item ∷ items) item e = refl

  finish-Truthful : (s : Session F B) → Truthful s → Truthful (finish_session_job s)
  unfolding finish_session_job
  finish-Truthful s h = elim (Bool-cases s.job_closed) [
    | inl closed ↦
        let same : s ≡ finish_session_job s = ground (arith, closed) in subst Truthful same h
    | inr opened ↦ elim (Bool-cases s.connected) [
      | inl here ↦
          rw (opened, here)
            (record {
              ended = h.ended;
              once = ground (
                arith,
                opened,
                h.once,
                length-append s.finished (outcome s.completed_normally ∷ []),
              );
              true_finish =
                  All-append (λ o. is_completed o ≡ true → has_end s.got ≡ true) s.finished
                    (outcome s.completed_normally ∷ []) h.true_finish
                    (λ c. ground (arith, c, h.ended), tt);
            })
      | inr away ↦
          rw (opened, away)
            (record {
              ended = h.ended;
              once = ground (arith, opened, h.once);
              true_finish = h.true_finish;
            })
    ]
  ]

  -- Only what is known of the connection and of the shutdown changes.
  Truthful-marked :
      (s : Session F B) (off on : Bool)
      → Truthful s
      → Truthful (record s { is_shutdown = off; connected = on })
  Truthful-marked s off on h = record {
    ended = h.ended;
    once = h.once;
    true_finish = h.true_finish;
  }

  take_item-Truthful :
      (item : ReadyItem F B) (s : Session F B) → Truthful s → Truthful (take_item item s)
  unfolding take_item
  take_item-Truthful (ReadyItem.batch_item r) s h = record {
    ended = h.ended ∙ sym (has_end-batch s.got r);
    once = h.once;
    true_finish =
        All-map (λ o k c. has_end-append s.got (ReadyItem.batch_item r) (k c)) s.finished
          h.true_finish;
  }
  take_item-Truthful ReadyItem.end_item s h = record {
    ended = sym (has_end-end s.got);
    once = h.once;
    true_finish =
        All-map (λ o k c. has_end-append s.got ReadyItem.end_item (k c)) s.finished h.true_finish;
  }

  shutdown-Truthful :
      (on_close : Bool) (s : Session F B) → Truthful s → Truthful (shutdown_session on_close s)
  unfolding shutdown_session
  shutdown-Truthful on_close s h = elim (Bool-cases s.is_shutdown) [
    | inl off ↦
        let same : s ≡ shutdown_session on_close s = ground (arith, off) in subst Truthful same h
    | inr up ↦
        let stopped : Session F B = record s { is_shutdown = true } in
        let k : Truthful stopped = Truthful-marked s true s.connected h in
        rw up (elim (Bool-cases on_close) [
          | inl finishing ↦ rw finishing (
              Truthful-marked (finish_session_job stopped) (finish_session_job stopped).is_shutdown
                false (finish-Truthful stopped k))
          | inr leaving ↦ rw leaving (Truthful-marked stopped true false k)
        ])
  ]

  step-Truthful :
      (on_close : Bool) (c : SessionCall F B) (s : Session F B)
      → Truthful s
      → Truthful (session_step on_close c s)
  unfolding session_step
  step-Truthful on_close SessionCall.connect s h = Truthful-marked s s.is_shutdown true h
  step-Truthful on_close (SessionCall.get_item item) s h = take_item-Truthful item s h
  step-Truthful on_close SessionCall.shutdown s h = shutdown-Truthful on_close s h
  step-Truthful on_close SessionCall.close_job s h =
      Truthful-marked (finish_session_job s) (finish_session_job s).is_shutdown false
        (finish-Truthful s h)

  run-Truthful :
      (on_close : Bool) (cs : List (SessionCall F B)) (s : Session F B)
      → Truthful s
      → Truthful (run_session on_close cs s)
  unfolding run_session
  run-Truthful on_close [] s h = h
  run-Truthful on_close (c ∷ cs) s h =
      run-Truthful on_close cs (session_step on_close c s) (step-Truthful on_close c s h)

  new_session-Truthful : Truthful (new_session {F = F} {B = B})
  unfolding new_session
  new_session-Truthful = record { ended = refl; once = omega arith; true_finish = tt }

  -- Items that reach the end are all items.
  take-ended :
      (n : ℕ) (items : List (ReadyItem F B))
      → end_last items ≡ true
      → has_end (take n items) ≡ true
      → take n items ≡ items
  take-ended zero items last found = absurd (ground (arith, found))
  take-ended (suc n) [] last found = refl
  take-ended (suc n) (ReadyItem.batch_item r ∷ items) last found =
      ap (◌∷◌ (ReadyItem.batch_item r)) (take-ended n items last found)
  take-ended (suc n) (ReadyItem.end_item ∷ []) last found = ap (◌∷◌ ReadyItem.end_item) (take-nil n)
  take-ended (suc n) (ReadyItem.end_item ∷ item ∷ items) last found = absurd (ground (arith, last))

  has_end-take :
      (n : ℕ) (items : List (ReadyItem F B)) → has_end (take n items) ≡ true → has_end items ≡ true
  has_end-take zero items e = absurd (ground (arith, e))
  has_end-take (suc n) [] e = e
  has_end-take (suc n) (ReadyItem.batch_item r ∷ items) e = has_end-take n items e
  has_end-take (suc n) (ReadyItem.end_item ∷ items) e = refl

  -- A trainer takes items from the front of the ready queue of a run, and closes its job in whatever way. If the
  -- job is finished as completed, the trainer has taken the batches of all issued tasks, in order.
  pub run_session-completed :
      (max_batches max_ready workers : ℤ) (es : List (Event F B)) (p : Pipeline F B)
      (on_close : Bool) (cs : List (SessionCall F B)) (n : ℕ) (reason : String)
      → run_pipeline max_batches es (new_pipeline max_ready workers) ≡ some p
      → (run_session on_close cs new_session).got ≡ take n p.ready
      → (run_session on_close cs new_session).finished ≡ (JobStatus.completed, reason) ∷ []
      → tasks_of (run_session on_close cs new_session).got ≡ p.issued
  run_session-completed max_batches max_ready workers es p on_close cs n reason ran taken finished =
      let s = run_session on_close cs new_session in
      let h = run-Truthful on_close cs new_session new_session-Truthful in
      let ended : has_end s.got ≡ true =
        (subst (All (λ o. is_completed o ≡ true → has_end s.got ≡ true)) finished h.true_finish).0
          refl in
      let here : has_end (take n p.ready) ≡ true = sym (ap has_end taken) ∙ ended in
      let (done, all, last) =
        run_pipeline-end max_batches max_ready workers es p ran (has_end-take n p.ready here) in
      ap tasks_of (taken ∙ take-ended n p.ready last here) ∙ all
