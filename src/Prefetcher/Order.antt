-- ===== src/Prefetcher/Order.antt =====
-- The order in which the prefetcher hands batches to the trainer.
use ad_artifacts.Base.{
  ℕ, suc, ◌+◌, ◌≤◌, ◌≡◌, refl, sym, ap, ◌∙◌, subst, true, false, Option, none, some, List, [], ◌∷◌,
  ◌++◌, arith, eqb, if◌then◌else◌, length, take, get_elem?, All, length-append, Bool-cases, inl,
  inr,
}
use ad_artifacts.Prefetcher.Positions.{
  get_elem?-append, get_elem?-last, get_elem?-bound, get_elem?-grown, take-append-le, take-suc,
  All-append, All-map,
}
use ad_artifacts.Prefetcher.{FetchTask, FetchedTaskResult}
use ad_artifacts.Prefetcher.Pipeline.{Pipeline, ReadyItem, buffered_at, without, publish_result}

module _ {F : Type 0} where
  -- The task that stands at its own number among those that were issued.
  abbrev pub From : List (FetchTask F) → FetchTask F → Type 0
  From issued t = get_elem? issued t.sequence ≡ some t

  abbrev pub Queued : List (FetchTask F) → Option (FetchTask F) → Type 0
  Queued issued none = Unit
  Queued issued (some t) = From issued t

  -- A task that was issued keeps its place when another one is issued.
  From-grown :
      (issued : List (FetchTask F)) (n t : FetchTask F)
      → From issued t
      → From (issued ++ (n ∷ [])) t
  From-grown issued n t h = get_elem?-append issued (n ∷ []) t.sequence t h

  Queued-grown :
      (issued : List (FetchTask F)) (n : FetchTask F) (o : Option (FetchTask F))
      → Queued issued o
      → Queued (issued ++ (n ∷ [])) o
  Queued-grown issued n none h = tt
  Queued-grown issued n (some t) h = From-grown issued n t h

module _ {F B : Type 0} where
  abbrev pub tasks_of : List (ReadyItem F B) → List (FetchTask F)
  tasks_of [] = []
  tasks_of (ReadyItem.batch_item r ∷ items) = r.task ∷ tasks_of items
  tasks_of (ReadyItem.end_item ∷ items) = tasks_of items

  -- How many batches are on the ready queue.
  abbrev pub put_count : Pipeline F B → ℕ
  put_count s = if s.publishing then s.next_sequence + 1 else s.next_sequence

  pub record Sound (s : Pipeline F B) : Type 0 where
    pub sized : 1 ≤ s.queue_size
    pub numbered : (i : ℕ) (t : FetchTask F) → get_elem? s.issued i ≡ some t → t.sequence ≡ i
    pub counted :
        length s.issued ≡ (if s.counting then s.scheduled_batches + 1 else s.scheduled_batches)
    pub queued : All (Queued s.issued) s.task_queue
    pub in_hand : All (From s.issued) s.fetching
    pub fetched : All (λ r. From s.issued r.task) s.fetched_queue
    pub held : All (λ r. From s.issued r.task) s.buffered
    pub published : s.published_batches ≡ s.next_sequence
    pub in_order : tasks_of s.ready ≡ take (put_count s) s.issued
    pub bounded : put_count s ≤ length s.issued

  pub put_task-Sound :
      (t : FetchTask F) (s : Pipeline F B)
      → Sound s
      → s.counting ≡ false
      → t.sequence ≡ s.scheduled_batches
      → Sound (record s {
        task_queue = s.task_queue ++ (some t ∷ []);
        counting = true;
        issued = s.issued ++ (t ∷ []);
      })
  put_task-Sound t s h idle next =
      let issued = s.issued in
      let size : length issued ≡ s.scheduled_batches = ground (arith, h.counted, idle) in
      let new : From (issued ++ (t ∷ [])) t =
        subst (λ n. get_elem? (issued ++ (t ∷ [])) n ≡ some t) (size ∙ sym next)
          (get_elem?-last issued t) in
      record {
        sized = h.sized;
        numbered = λ i u e. elim (get_elem?-grown issued t i u e) [
          | inl old ↦ h.numbered i u old
          | inr (at, same) ↦ ground (arith, at, ap (λ x. x.sequence) same, size, next)
        ];
        counted = ground (arith, length-append issued (t ∷ []), size);
        queued =
            All-append (Queued (issued ++ (t ∷ []))) s.task_queue (some t ∷ [])
              (All-map (Queued-grown issued t) s.task_queue h.queued) (new, tt);
        in_hand = All-map (From-grown issued t) s.fetching h.in_hand;
        fetched = All-map (λ r. From-grown issued t r.task) s.fetched_queue h.fetched;
        held = All-map (λ r. From-grown issued t r.task) s.buffered h.held;
        published = h.published;
        in_order = h.in_order ∙ sym (take-append-le (put_count s) issued (t ∷ []) h.bounded);
        bounded = ground (arith, length-append issued (t ∷ []), h.bounded);
      }

  pub tasks_of-batch :
      (items : List (ReadyItem F B)) (r : FetchedTaskResult F B)
      → tasks_of (items ++ (ReadyItem.batch_item r ∷ [])) ≡ tasks_of items ++ (r.task ∷ [])
  tasks_of-batch [] r = refl
  tasks_of-batch (ReadyItem.batch_item q ∷ items) r = ap (◌∷◌ q.task) (tasks_of-batch items r)
  tasks_of-batch (ReadyItem.end_item ∷ items) r = tasks_of-batch items r

  pub tasks_of-end :
      (items : List (ReadyItem F B))
      → tasks_of (items ++ (ReadyItem.end_item ∷ [])) ≡ tasks_of items
  tasks_of-end [] = refl
  tasks_of-end (ReadyItem.batch_item q ∷ items) = ap (◌∷◌ q.task) (tasks_of-end items)
  tasks_of-end (ReadyItem.end_item ∷ items) = tasks_of-end items

  module _ (P : FetchedTaskResult F B → Type 0) (n : ℕ) where
    pub All-without : (rs : List (FetchedTaskResult F B)) → All P rs → All P (without n rs)
    unfolding without
    All-without [] h = tt
    All-without (r ∷ rs) h = elim (Bool-cases (eqb r.task.sequence n)) [
      | inl here ↦ rw here (All-without rs h.1)
      | inr other ↦ rw other (h.0, All-without rs h.1)
    ]

    -- A result that is found in the buffer is one of it, and has the number asked for.
    pub buffered_at-found :
        (rs : List (FetchedTaskResult F B)) (r : FetchedTaskResult F B)
        → All P rs
        → buffered_at n rs ≡ some r
        → P r × (r.task.sequence ≡ n)
    unfolding buffered_at
    buffered_at-found [] r h e = absurd (ground (arith, e))
    buffered_at-found (q ∷ rs) r h e = elim (Bool-cases (eqb q.task.sequence n)) [
      | inl here ↦
          let same : q ≡ r = ground (arith, here, e) in
          subst (λ x. P x × (x.task.sequence ≡ n)) same (h.0, ground (arith, here))
      | inr other ↦ buffered_at-found rs r h.1 (ground (arith, other, e))
    ]

  -- The buffered result with the next number is the task that was issued in that place.
  pub next_issued :
      (s : Pipeline F B) (r : FetchedTaskResult F B)
      → Sound s
      → buffered_at s.next_sequence s.buffered ≡ some r
      → get_elem? s.issued s.next_sequence ≡ some r.task
  next_issued s r h e =
      let (from, at) =
        buffered_at-found (λ x. From s.issued x.task) s.next_sequence s.buffered r h.held e in
      subst (λ n. get_elem? s.issued n ≡ some r.task) at from

  pub publish-Sound :
      (s : Pipeline F B) (r : FetchedTaskResult F B)
      → Sound s
      → buffered_at s.next_sequence s.buffered ≡ some r
      → s.publishing ≡ false
      → Sound (publish_result r s)
  unfolding publish_result
  publish-Sound s r h e idle =
      let here = next_issued s r h e in
      let order : tasks_of s.ready ≡ take s.next_sequence s.issued =
        ground (arith, h.in_order, idle) in
      record {
        sized = h.sized;
        numbered = h.numbered;
        counted = h.counted;
        queued = h.queued;
        in_hand = h.in_hand;
        fetched = h.fetched;
        held = All-without (λ x. From s.issued x.task) s.next_sequence s.buffered h.held;
        published = h.published;
        in_order =
            tasks_of-batch s.ready r
            ∙ ap (λ ts. ts ++ (r.task ∷ [])) order
            ∙ sym (
                ap (λ n. take n s.issued) {y = suc s.next_sequence} (omega arith)
                ∙ take-suc s.next_sequence s.issued r.task here);
        bounded = ground (arith, get_elem?-bound s.issued s.next_sequence r.task here);
      }
