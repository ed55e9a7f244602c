-- ===== src/Cache/Rooms.antt =====
-- What stays in the reusable cache fits it.
use ad_artifacts.Base.{
  String, ◌≡◌, true, false, Option, none, some, List, arith, Bool-cases, inl, inr,
}
use ad_artifacts.Base.Int.{ℤ}
use ad_artifacts.Core.{Batch, PayloadEntry, Metadata, text, ok, Result-cases}
use ad_artifacts.Dict.{put}
use ad_artifacts.Dict.Laws.{get-put}
use ad_artifacts.Floats.{Floats}
use ad_artifacts.Store.Payloads.{is_reusable_class}
use ad_artifacts.Scheduler.{SchedulerConfig}
use ad_artifacts.Scheduler.Value.{compute_batch_value}
use ad_artifacts.Cache.{CacheState, choose_eviction_victims}
use ad_artifacts.Cache.Admission.{
  PayloadPlacement, has_fallback, use_transient_fallback, evict_all, has_room, place,
  admit_reusable_payload,
}

module _ {F : Type 0} ⦃f : Floats F⦄ (config : SchedulerConfig F) where
  -- With a worker's copy to fall back on, a payload for which no room is found is transient.
  fallback-transient :
      (location : String) (expires_at_ms : Option ℤ) (metadata : Metadata) (c : CacheState F)
      (p : PayloadPlacement)
      → has_fallback metadata ≡ true
      → (use_transient_fallback location expires_at_ms metadata c).0 ≡ ok p
      → is_reusable_class p.storage_class ≡ false
  unfolding use_transient_fallback
  fallback-transient location expires_at_ms metadata c p copied placed =
      ground (arith, copied, placed)

  -- A chosen set of victims is evicted, and then the room is looked at again.
  place-evicted :
      (size_bytes : ℤ) (location : String) (expires_at_ms : Option ℤ) (metadata : Metadata)
      (victims : List PayloadEntry) (c d : CacheState F) (p : PayloadPlacement)
      → evict_all config victims c ≡ (ok tt, d)
      → has_fallback metadata ≡ true
      → (place config size_bytes location expires_at_ms metadata (some victims) c).0 ≡ ok p
      → is_reusable_class p.storage_class ≡ true
      → has_room config size_bytes
          (place config size_bytes location expires_at_ms metadata (some victims) c).1
        ≡ true
  unfolding place
  place-evicted size_bytes location expires_at_ms metadata victims c d p evicted copied placed
        reusable =
      elim (Bool-cases (has_room config size_bytes d)) [
        | inl room ↦ ground (arith, evicted, room)
        | inr full ↦ absurd (
            ground (
              arith,
              evicted,
              full,
              placed,
              fallback-transient location expires_at_ms metadata d p copied,
            ))
      ]

  place-has_room :
      (size_bytes : ℤ) (location : String) (expires_at_ms : Option ℤ) (metadata : Metadata)
      (victims : Option (List PayloadEntry)) (c : CacheState F) (p : PayloadPlacement)
      → has_fallback metadata ≡ true
      → (place config size_bytes location expires_at_ms metadata victims c).0 ≡ ok p
      → is_reusable_class p.storage_class ≡ true
      → has_room config size_bytes
          (place config size_bytes location expires_at_ms metadata victims c).1
        ≡ true
  unfolding place
  place-has_room size_bytes location expires_at_ms metadata none c p copied placed reusable =
      absurd (ground (arith, fallback-transient location expires_at_ms metadata c p copied placed))
  place-has_room size_bytes location expires_at_ms metadata (some victims) c p copied placed
        reusable =
      elim (Result-cases (evict_all config victims c).0) [
        | inl (e, raised) ↦ absurd (ground (arith, raised, placed))
        | inr (u, worked) ↦
            place-evicted size_bytes location expires_at_ms metadata victims c
              (evict_all config victims c).1 p (ground (arith, worked)) copied placed reusable
      ]

  has_fallback-value :
      (metadata : Metadata) (v : String)
      → has_fallback (put "batch_value" (text v) metadata) ≡ has_fallback metadata
  unfolding has_fallback
  has_fallback-value metadata v = ground (
    arith,
    get-put "batch_value" "fallback_fetch_host" (text v) metadata,
    get-put "batch_value" "fallback_fetch_port" (text v) metadata,
    get-put "batch_value" "fallback_fetch_key" (text v) metadata,
  )

  -- A payload whose metadata name a worker's copy, and which is admitted as reusable, has its room: with it the
  -- cache stays within its capacity, if it has one.
  pub admit_reusable_payload-has_room :
      (batch : Batch) (size_bytes : ℤ) (location : String) (expires_at_ms : Option ℤ)
      (metadata : Metadata) (c : CacheState F) (p : PayloadPlacement)
      → has_fallback metadata ≡ true
      → (admit_reusable_payload config batch size_bytes location expires_at_ms metadata c).0 ≡ ok p
      → is_reusable_class p.storage_class ≡ true
      → has_room config size_bytes
          (admit_reusable_payload config batch size_bytes location expires_at_ms metadata c).1
        ≡ true
  unfolding admit_reusable_payload
  admit_reusable_payload-has_room batch size_bytes location expires_at_ms metadata c p copied placed
        reusable =
      elim (Result-cases (compute_batch_value config batch c.store)) [
        | inl (e, raised) ↦ absurd (ground (arith, raised, placed))
        | inr (v, valued) ↦
            elim (Result-cases (choose_eviction_victims config batch size_bytes c.store)) [
              | inl (e, raised) ↦ absurd (ground (arith, valued, raised, placed))
              | inr (victims, chosen) ↦ ground (
                arith,
                valued,
                chosen,
                has_fallback-value metadata (f.show v),
                place-has_room size_bytes location expires_at_ms
                    (put "batch_value" (text (f.show v)) metadata) victims c p,
              )
            ]
      ]
