-- ===== src/Tests/CacheTests.antt =====
-- Tests of the choice of victims.
use ad_artifacts.Base.{none, some, ℕ, ◌+◌, ◌≤◌, ◌≡◌, refl, [], ◌∷◌, All, sum_by, arith}
use ad_artifacts.Base.Int.{pos, pos_part}
use ad_artifacts.Core.{PayloadEntry, ok}
use ad_artifacts.Store.State.{Store}
use ad_artifacts.Store.Payloads.{reusable_cache_bytes}
use ad_artifacts.Scheduler.{SchedulerConfig}
use ad_artifacts.Dict.{get}
use ad_artifacts.Cache.{evict_reusable_payload}
use ad_artifacts.Cache.Evictions.{evict_reusable_payload_lem}
use ad_artifacts.Cache.Victims.{choose_eviction_victims_lem, IsVictim}
use ad_artifacts.Tests.{nat_floats, opened, batch, entry}
use ad_artifacts.Tests.SchedulerTests.{config}
use ad_artifacts.Tests.Run.{program}

abbrev small_config : SchedulerConfig ℕ
small_config = record config { cache_capacity_bytes = pos 4 }

abbrev old_entry : PayloadEntry
old_entry = record entry { cache_key = "b-9"; location = some "redis://host:1" }

-- Three of four bytes are taken by a payload that no job waits for.
abbrev cached : Store ℕ
cached = record opened { payload_entries = ("b-9", old_entry) ∷ [] }

victims_example :
    All (IsVictim small_config cached 2) (old_entry ∷ [])
    × (reusable_cache_bytes cached + 2 ≤ 4 + sum_by (λ e. pos_part e.size_bytes) (old_entry ∷ []))
unfolding program nat_floats
victims_example =
    let used : reusable_cache_bytes cached ≡ 3 = refl in
    choose_eviction_victims_lem small_config cached batch (pos 2) (old_entry ∷ []) 2 refl
      (omega (arith, used)) refl refl

evict_example :
    let (result, c') =
      evict_reusable_payload small_config old_entry
        (record { store = cached; deleted_keys = [] }) in
    (result ≡ ok tt)
    × (get "b-9" c'.store.payload_entries ≡ none)
    × (reusable_cache_bytes c'.store + 3 ≤ reusable_cache_bytes cached)
    × (c'.deleted_keys ≡ [])
unfolding program nat_floats
evict_example =
    evict_reusable_payload_lem small_config (record { store = cached; deleted_keys = [] }) old_entry
      old_entry 0 refl refl refl
