-- ===== src/Prefetcher/Ends.antt =====
-- The end of a prefetcher's batches.
use ad_artifacts.Base.{
  ◌≡◌, refl, ◌∙◌, Bool, true, false, not, ◌&&◌, some, List, [], ◌∷◌, ◌++◌, arith, length, inl, inr,
  Bool-cases,
}
use ad_artifacts.Prefetcher.{FetchedTaskResult}
use ad_artifacts.Prefetcher.Positions.{get_elem?-bound}
use ad_artifacts.Prefetcher.Pipeline.{
  Pipeline, ReadyItem, buffered_at, publish_result, may_end, is_empty,
}
use ad_artifacts.Prefetcher.Order.{Sound, next_issued}

module _ {F B : Type 0} where
  -- The end is on the ready queue.
  abbrev pub has_end : List (ReadyItem F B) → Bool
  has_end [] = false
  has_end (ReadyItem.batch_item r ∷ items) = has_end items
  has_end (ReadyItem.end_item ∷ items) = true

  -- Nothing follows the end.
  abbrev pub end_last : List (ReadyItem F B) → Bool
  end_last [] = true
  end_last (ReadyItem.batch_item r ∷ items) = end_last items
  end_last (ReadyItem.end_item ∷ items) = is_empty items

  pub has_end-batch :
      (items : List (ReadyItem F B)) (r : FetchedTaskResult F B)
      → has_end (items ++ (ReadyItem.batch_item r ∷ [])) ≡ has_end items
  has_end-batch [] r = refl
  has_end-batch (ReadyItem.batch_item q ∷ items) r = has_end-batch items r
  has_end-batch (ReadyItem.end_item ∷ items) r = refl

  pub has_end-end :
      (items : List (ReadyItem F B)) → has_end (items ++ (ReadyItem.end_item ∷ [])) ≡ true
  has_end-end [] = refl
  has_end-end (ReadyItem.batch_item q ∷ items) = has_end-end items
  has_end-end (ReadyItem.end_item ∷ items) = refl

  pub end_last-append :
      (items : List (ReadyItem F B)) (item : ReadyItem F B)
      → has_end items ≡ false
      → end_last (items ++ (item ∷ [])) ≡ true
  end_last-append [] (ReadyItem.batch_item r) opened = refl
  end_last-append [] ReadyItem.end_item opened = refl
  end_last-append (ReadyItem.batch_item q ∷ items) item opened = end_last-append items item opened
  end_last-append (ReadyItem.end_item ∷ items) item opened = absurd (ground (arith, opened))

  pub record Ended (s : Pipeline F B) : Type 0 where
    pub done_counted : s.coordinator_done ≡ true → s.counting ≡ false
    pub done : s.end_sent ≡ true → s.coordinator_done ≡ true
    pub quiet : s.end_sent ≡ true → s.publishing ≡ false
    pub complete : s.end_sent ≡ true → s.next_sequence ≡ length s.issued
    pub ending_sent : s.ending ≡ true → s.end_sent ≡ true
    pub put : has_end s.ready ≡ (s.end_sent && not s.ending)
    pub last : end_last s.ready ≡ true

  -- While a batch is buffered for the next place, the end is not decided.
  pub publish-unended :
      (s : Pipeline F B) (r : FetchedTaskResult F B)
      → Sound s
      → Ended s
      → buffered_at s.next_sequence s.buffered ≡ some r
      → s.end_sent ≡ false
  publish-unended s r h k found = elim (Bool-cases s.end_sent) [
    | inr opened ↦ opened
    | inl sent ↦
        let below = get_elem?-bound s.issued s.next_sequence r.task (next_issued s r h found) in
        absurd (ground (arith, k.complete sent, below))
  ]

  pub publish-Ended :
      (s : Pipeline F B) (r : FetchedTaskResult F B)
      → s.end_sent ≡ false
      → Ended s
      → Ended (publish_result r s)
  unfolding publish_result
  publish-Ended s r opened k = record {
    done_counted = k.done_counted;
    done = k.done;
    quiet = λ sent. absurd (ground (arith, sent, opened));
    complete = k.complete;
    ending_sent = k.ending_sent;
    put = has_end-batch s.ready r ∙ k.put;
    last = end_last-append s.ready (ReadyItem.batch_item r) (ground (arith, k.put, opened));
  }

  pub maybe_send_end-Ended :
      (s : Pipeline F B)
      → Sound s
      → Ended s
      → may_end s ≡ true
      → Ended (record s { end_sent = true; ending = true })
  unfolding may_end
  maybe_send_end-Ended s h k may =
      let counted = k.done_counted (ground (arith, may)) in
      let quiet : s.publishing ≡ false =
        ground (arith, may, h.bounded, h.counted, h.published, counted) in
      record {
        done_counted = k.done_counted;
        done = λ sent. ground (arith, may);
        quiet = λ sent. quiet;
        complete = λ sent. ground (arith, may, quiet, h.bounded, h.counted, h.published, counted);
        ending_sent = λ ending. refl;
        put = ground (arith, may, k.put);
        last = k.last;
      }
