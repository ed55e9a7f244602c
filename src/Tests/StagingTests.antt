-- ===== src/Tests/StagingTests.antt =====
-- Tests of the staging area.
use ad_artifacts.Base.{◌≡◌, refl, false, none, [], ◌∷◌, ◌++◌}
use ad_artifacts.Core.{ok}
use ad_artifacts.Staging.{StagingArea, publish, consume_times, exists}
use ad_artifacts.Staging.Uses.{uses, publish-consume_times}
use ad_artifacts.Tests.Run.{program}

abbrev empty_area : StagingArea
empty_area = record { namespace = "coordl"; payloads = []; counts = [] }

two_jobs_example :
    let (published, s') = publish "e0_b0" (7 ∷ []) empty_area in
    let (answers, s'') = consume_times "e0_b0" 2 3 s' in
    (published ≡ ok tt) × (answers ≡ uses (7 ∷ []) 0 2 ++ none ∷ []) × (exists "e0_b0" s'' ≡ false)
unfolding program
two_jobs_example = publish-consume_times "e0_b0" 1 (7 ∷ []) empty_area refl
