-- ===== src/Staging/Uses.antt =====
-- A staged payload is given out exactly as often as there are consumers.
use ad_artifacts.Base.{
  ℕ, zero, suc, ◌+◌, ◌<◌, String, ◌≡◌, false, Option, none, some, List, [], ◌∷◌, ◌++◌, arith,
  eq_refl,
}
use ad_artifacts.Core.{ok}
use ad_artifacts.Dict.{get}
use ad_artifacts.Dict.Laws.{get-put, get-remove}
use ad_artifacts.Staging.{
  StagingArea, payload_key, count_key, publish_script, publish, consume_script, consume,
  consume_times, exists,
}

-- The payload with the numbers of its uses from `used + 1` on.
abbrev pub uses : List ℕ → ℕ → ℕ → List (Option (List ℕ × ℕ))
uses payload used zero = []
uses payload used (suc left) = some (payload, used + 1) ∷ uses payload (used + 1) left

abbrev IsStaged : String → List ℕ → ℕ → StagingArea → Type 0
IsStaged batch_id payload used s =
    (get (payload_key s.namespace batch_id) s.payloads ≡ some payload)
    × (get (count_key s.namespace batch_id) s.counts ≡ some used)

module _ (batch_id : String) (num_consumers : ℕ) (payload : List ℕ) where
  consume-more :
      (used : ℕ) (s : StagingArea)
      → IsStaged batch_id payload used s
      → used + 1 < num_consumers
      → ((consume batch_id num_consumers s).0 ≡ some (payload, used + 1))
        × IsStaged batch_id payload (used + 1) (consume batch_id num_consumers s).1
  unfolding consume consume_script
  consume-more used s (p, q) h = (
    ground (arith, p, q, h),
    (
      ground (arith, p, q, h),
      ground (
        arith,
        p,
        q,
        h,
        get-put (count_key s.namespace batch_id) (count_key s.namespace batch_id) (used + 1)
            s.counts,
        eq_refl (count_key s.namespace batch_id),
      ),
    ),
  )

  consume-last :
      (used : ℕ) (s : StagingArea)
      → IsStaged batch_id payload used s
      → used + 1 ≡ num_consumers
      → let (answer, s') = consume batch_id num_consumers s in
        (answer ≡ some (payload, used + 1))
        × (get (payload_key s'.namespace batch_id) s'.payloads ≡ none)
        × (get (count_key s'.namespace batch_id) s'.counts ≡ none)
  unfolding consume consume_script
  consume-last used s (p, q) h = (
    ground (arith, p, q, h),
    ground (
      arith,
      p,
      q,
      h,
      get-remove (payload_key s.namespace batch_id) (payload_key s.namespace batch_id) s.payloads,
      eq_refl (payload_key s.namespace batch_id),
    ),
    ground (
      arith,
      p,
      q,
      h,
      get-remove (count_key s.namespace batch_id) (count_key s.namespace batch_id) s.counts,
      eq_refl (count_key s.namespace batch_id),
    ),
  )

  consume-none :
      (s : StagingArea)
      → get (payload_key s.namespace batch_id) s.payloads ≡ none
      → consume batch_id num_consumers s ≡ (none, s)
  unfolding consume consume_script
  consume-none s p = ground (arith, p)

  consume_times-staged :
      (left used : ℕ) (s : StagingArea)
      → IsStaged batch_id payload used s
      → used + suc left ≡ num_consumers
      → let (answers, s') = consume_times batch_id num_consumers (suc (suc left)) s in
        (answers ≡ uses payload used (suc left) ++ none ∷ []) × (exists batch_id s' ≡ false)
  unfolding consume_times exists
  consume_times-staged zero used s staged h =
      let s' = (consume batch_id num_consumers s).1 in
      let (answer, gone, _) = consume-last used s staged h in
      let after : consume batch_id num_consumers s' ≡ (none, s') = consume-none s' gone in
      (ground (arith, answer, after), ground (arith, after, gone))
  consume_times-staged (suc left) used s staged h =
      let s' = (consume batch_id num_consumers s).1 in
      let (answer, staged') = consume-more used s staged (omega arith) in
      let (answers, gone) = consume_times-staged left (used + 1) s' staged' (omega arith) in
      (ground (arith, answer, answers), gone)

-- A batch that is published where it is not staged yet is given to exactly as many attempts as there are
-- consumers, with the number of the use; the next attempt finds nothing, and the batch can be staged again.
pub publish-consume_times :
    (batch_id : String) (others : ℕ) (payload : List ℕ) (s : StagingArea)
    → exists batch_id s ≡ false
    → let (published, s') = publish batch_id payload s in
      let (answers, s'') = consume_times batch_id (suc others) (suc (suc others)) s' in
      (published ≡ ok tt)
      × (answers ≡ uses payload 0 (suc others) ++ none ∷ [])
      × (exists batch_id s'' ≡ false)
unfolding exists publish publish_script
publish-consume_times batch_id others payload s fresh =
    let pkey = payload_key s.namespace batch_id in
    let ckey = count_key s.namespace batch_id in
    let s' : StagingArea = (publish batch_id payload s).1 in
    let staged : IsStaged batch_id payload 0 s' = (
      ground (arith, fresh, get-put pkey pkey payload s.payloads, eq_refl pkey),
      ground (arith, fresh, get-put ckey ckey 0 s.counts, eq_refl ckey),
    ) in
    let (answers, gone) =
      consume_times-staged batch_id (suc others) payload others 0 s' staged (omega arith) in
    (ground (arith, fresh), answers, gone)
