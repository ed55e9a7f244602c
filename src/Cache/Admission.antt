-- ===== src/Cache/Admission.antt =====
-- `admit_reusable_payload` of batchflow/coordinator/cache_manager.py: a payload stays in Redis if room for it is
-- found, and is otherwise served from the worker that made it.
use ad_artifacts.Base.{
  ℕ, String, str_append, Bool, not, ◌&&◌, ◌||◌, Option, none, some, List, [], ◌∷◌, ◌==◌,
  if◌then◌else◌, or_default,
}
use ad_artifacts.Base.Int.{ℤ, pos, ◌+ℤ◌, ltb_ℤ, is_positive}
use ad_artifacts.Base.Decimal.{show_ℤ}
use ad_artifacts.Core.{Batch, PayloadEntry, StorageClass, Metadata, Value, text}
use ad_artifacts.Exec.{Exec, pure, reads, ◌>>=◌}
use ad_artifacts.Floats.{Floats}
use ad_artifacts.Dict.{get, put}
use ad_artifacts.Store.Metrics.{text_at}
use ad_artifacts.Store.Payloads.{reusable_cache_bytes}
use ad_artifacts.Scheduler.{SchedulerConfig}
use ad_artifacts.Scheduler.Value.{compute_batch_value}
use ad_artifacts.Scheduler.Ready.{to_int, is_missing}
use ad_artifacts.Cache.{CacheState, choose_eviction_victims, evict_reusable_payload}

pub record PayloadPlacement : Type 0 where
  pub location : String
  pub storage_class : StorageClass
  pub expires_at_ms : Option ℤ
  pub metadata : Metadata

-- `_safe_int`, for a value that may be missing
unfoldable pub safe_int : Option Value → ℤ → ℤ
safe_int none default = default
safe_int (some value) default =
    if is_missing (some value) then default else or_default (to_int value) default

-- n or None
abbrev pub unless_zero : ℤ → Option ℤ
unless_zero (pos ℕ.zero) = none
unless_zero n = some n

-- f"grpc://{host}:{port}"
abbrev pub grpc_location : String → ℤ → String
grpc_location host port = str_append "grpc://" (str_append host (str_append ":" (show_ℤ port)))

-- The worker's copy that the metadata name, if all its parts are there.
unfoldable pub has_fallback : Metadata → Bool
has_fallback metadata =
    not (text_at "fallback_fetch_host" "" metadata == "")
    && is_positive (safe_int (get "fallback_fetch_port" metadata) (pos 0))
    && not (text_at "fallback_fetch_key" "" metadata == "")

module _ {F : Type 0} where
  -- Deletes a Redis key, unless it is empty.
  unfoldable pub delete_key : String → CacheState F → CacheState F
  delete_key redis_key c = record c {
    deleted_keys = if redis_key == "" then c.deleted_keys else redis_key ∷ c.deleted_keys;
  }

  unfoldable pub use_transient_fallback :
      String → Option ℤ → Metadata → Exec (CacheState F) PayloadPlacement
  use_transient_fallback location expires_at_ms metadata c =
      let host = text_at "fallback_fetch_host" "" metadata in
      let port = safe_int (get "fallback_fetch_port" metadata) (pos 0) in
      let key = text_at "fallback_fetch_key" "" metadata in
      let expires = safe_int (get "fallback_expires_at_ms" metadata) (pos 0) in
      let c' = delete_key (text_at "fetch_key" "" metadata) c in
      if not (has_fallback metadata)
      then pure
          (record {
            location = location;
            storage_class = StorageClass.reusable;
            expires_at_ms = expires_at_ms;
            metadata = put "cache_admission" (text "forced_no_fallback") metadata;
          })
          c'
      else pure
          (record {
            location = grpc_location host port;
            storage_class = StorageClass.transient;
            expires_at_ms = unless_zero expires;
            metadata = put "cache_admission" (text "rejected") (
                put "fetch_key" (text key)
                  (put "fetch_port" (text (show_ℤ port)) (put "fetch_host" (text host) metadata)));
          })
          c'

module _ {F : Type 0} ⦃f : Floats F⦄ (config : SchedulerConfig F) where
  -- `for victim in victims: self._evict_reusable_payload(victim)`
  unfoldable pub evict_all : List PayloadEntry → Exec (CacheState F) (Unit {0})
  evict_all [] c = pure tt c
  evict_all (v ∷ vs) c = (evict_reusable_payload config v >>= λ _. evict_all vs) c

  -- `capacity <= 0 or self.store.reusable_cache_bytes() + int(size_bytes) <= capacity`
  unfoldable pub has_room : ℤ → CacheState F → Bool
  has_room size_bytes c =
      not (is_positive config.cache_capacity_bytes)
      || not (ltb_ℤ config.cache_capacity_bytes (pos (reusable_cache_bytes c.store) +ℤ size_bytes))

  -- What follows the choice of the victims.
  unfoldable pub place :
      ℤ
      → String
      → Option ℤ
      → Metadata
      → Option (List PayloadEntry)
      → Exec (CacheState F) PayloadPlacement
  place size_bytes location expires_at_ms metadata none c =
      use_transient_fallback location expires_at_ms metadata c
  place size_bytes location expires_at_ms metadata (some victims) c =
      (evict_all victims >>= λ _ c'.
      if has_room size_bytes c'
      then pure
          (record {
            location = location;
            storage_class = StorageClass.reusable;
            expires_at_ms = expires_at_ms;
            metadata = put "cache_admission" (text "admitted") metadata;
          })
          c'
      else use_transient_fallback location expires_at_ms metadata c')
        c

  unfoldable pub admit_reusable_payload :
      Batch → ℤ → String → Option ℤ → Metadata → Exec (CacheState F) PayloadPlacement
  admit_reusable_payload batch size_bytes location expires_at_ms metadata c =
      (reads (λ c'. compute_batch_value config batch c'.store) >>= λ incoming_value.
      reads (λ c'. choose_eviction_victims config batch size_bytes c'.store) >>= λ victims.
      place size_bytes location expires_at_ms
        (put "batch_value" (text (f.show incoming_value)) metadata) victims)
        c
