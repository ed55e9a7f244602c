-- ===== src/Tests/WorkerTests.antt =====
-- Tests of a worker's payload store.
use ad_artifacts.Base.{ℕ, ◌≡◌, some, none, List, [], ◌∷◌, count_if}
use ad_artifacts.Dict.{get}
use ad_artifacts.Dict.{values}
use ad_artifacts.PayloadStore.{PayloadCall, put_call, payload_run, cleanup_expired, is_overdue}
use ad_artifacts.PayloadStore.Cleanup.{cleanup_expired_lem, kept}
use ad_artifacts.Tests.{nat_floats}

-- One payload that lives on, and one that is overdue a second later.
abbrev puts : List (PayloadCall ℕ)
puts = put_call 5 "b-0" (1 ∷ 2 ∷ []) "torch" none ∷ put_call 5 "b-1" (3 ∷ []) "torch" (some 1) ∷ []

cleanup_example :
    let d = payload_run puts [] in
    let (removed, d') = cleanup_expired 2000 d in
    (get "b-1" d' ≡ kept 2000 (get "b-1" d)) × (removed ≡ count_if (is_overdue 2000) (values d))
cleanup_example = cleanup_expired_lem puts 2000 "b-1"
