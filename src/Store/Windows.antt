-- ===== src/Store/Windows.antt =====
-- Planned windows: what the counting loops count, and what a lookup in a window finds.
use ad_artifacts.Base.{
  ℕ, zero, suc, ◌+◌, ◌-◌, ◌≤◌, String, ◌≡◌, refl, Bool, some, List, [], ◌∷◌, arith, leb, select,
  take, count_if, Bool-cases, inl, inr, ap,
}
use ad_artifacts.Base.Int.{pos}
use ad_artifacts.Core.{Batch, ok}
use ad_artifacts.Store.State.{Store}
use ad_artifacts.Store.Plans.{
  is_ahead, find_batch, planned, is_covered, count_covered, count_window,
  count_ready_or_inflight_from_index, count_ready_or_inflight_in_window,
}

-- The batches of a window that are not behind a position.
abbrev pub ahead : {F : Type 0} → String → ℕ → ℕ → Store F → List Batch
ahead job_id epoch start s = select (is_ahead epoch start) (planned job_id s)

module _ {F : Type 0} (s : Store F) (covered : String → Bool)
    (tells : (batch_id : String) → is_covered batch_id s ≡ ok (covered batch_id))
    (epoch start : ℕ) where
  count_covered_lem :
      (count : ℕ) (bs : List Batch)
      → count_covered epoch start s count bs
        ≡ ok (count + count_if (λ b. covered b.batch_id) (select (is_ahead epoch start) bs))
  unfolding count_covered
  count_covered_lem count [] = ground arith
  count_covered_lem count (b ∷ bs) =
      ground (arith, tells b.batch_id, count_covered_lem count bs, count_covered_lem (count + 1) bs)

  count_window_lem :
      (limit considered count : ℕ) (bs : List Batch)
      → considered ≤ limit
      → count_window epoch start limit s considered count bs
        ≡ ok (
            count
            + count_if
                (λ b. covered b.batch_id)
                (take (limit - considered) (select (is_ahead epoch start) bs)))
  unfolding count_window
  count_window_lem limit considered count [] h = ap ok (at_nil (limit - considered))
    where
      at_nil : (n : ℕ) → count ≡ count + count_if (λ (b : Batch). covered b.batch_id) (take n [])
      at_nil zero = omega arith
      at_nil (suc n) = omega arith
  count_window_lem limit considered count (b ∷ bs) h = elim (Bool-cases (leb limit considered)) [
    | inl full ↦
        let none_left : limit - considered ≡ 0 = ground arith in
        rw none_left
          (ground (arith, rw none_left at (count_window_lem limit considered count bs h)))
    | inr room ↦
        let some_left : limit - considered ≡ suc (limit - (considered + 1)) = ground arith in
        rw some_left (
          ground (
            arith,
            tells b.batch_id,
            rw some_left at (count_window_lem limit considered count bs h),
            count_window_lem limit (considered + 1) count bs (ground arith),
            count_window_lem limit (considered + 1) (count + 1) bs (ground arith),
          ))
  ]

-- Where no lookup of a task raises, the lookahead count is the number of covered batches (ready, or with
-- a task waiting or running) among the first `limit` planned batches from the position on.
pub count_ready_or_inflight_in_window_lem :
    {F : Type 0} (s : Store F) (covered : String → Bool) (job_id : String) (epoch start limit : ℕ)
    → ((batch_id : String) → is_covered batch_id s ≡ ok (covered batch_id))
    → count_ready_or_inflight_in_window job_id epoch start (pos limit) s
      ≡ ok (count_if (λ b. covered b.batch_id) (take limit (ahead job_id epoch start s)))
unfolding count_ready_or_inflight_in_window
count_ready_or_inflight_in_window_lem s covered job_id epoch start zero tells = refl
count_ready_or_inflight_in_window_lem s covered job_id epoch start (suc n) tells =
    ground (arith, count_window_lem s covered tells epoch start (suc n) 0 0 (planned job_id s))

-- The count from an index is the number of covered planned batches from the position on.
pub count_ready_or_inflight_from_index_lem :
    {F : Type 0} (s : Store F) (covered : String → Bool) (job_id : String) (epoch start : ℕ)
    → ((batch_id : String) → is_covered batch_id s ≡ ok (covered batch_id))
    → count_ready_or_inflight_from_index job_id epoch start s
      ≡ ok (count_if (λ b. covered b.batch_id) (ahead job_id epoch start s))
unfolding count_ready_or_inflight_from_index
count_ready_or_inflight_from_index_lem s covered job_id epoch start tells =
    ground (arith, count_covered_lem s covered tells epoch start 0 (planned job_id s))

-- A batch that a lookup finds has the epoch and the index that were asked for.
pub find_batch-matches :
    (epoch batch_index : ℕ) (bs : List Batch) {b : Batch}
    → find_batch epoch batch_index bs ≡ some b
    → (b.epoch ≡ epoch) × (b.batch_index ≡ batch_index)
unfolding find_batch
find_batch-matches epoch batch_index [] h = absurd (ground arith)
find_batch-matches epoch batch_index (x ∷ xs) {b} h =
    ground (arith, find_batch-matches epoch batch_index xs {b = b})
