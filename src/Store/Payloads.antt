-- ===== src/Store/Payloads.antt =====
-- Payload entries, batch handles and pins of batchflow/coordinator/store.py.
use ad_artifacts.Base.{
  ℕ, String, Bool, true, false, ◌&&◌, Option, none, some, List, [], ◌∷◌, if◌then◌else◌, or_default,
  select, sum_by, length, ltb, ◌≡◌, Bool-cases, Option-cases, inl, inr, arith,
}
use ad_artifacts.Base.Int.{pos_part}
use ad_artifacts.Core.{BatchHandle, PayloadEntry, PayloadStatus, StorageClass, touch_entry}
use ad_artifacts.Core.Fetch.{is_redis_location}
use ad_artifacts.Dict.{
  Dict, get, put, remove, update, values, has, discard_under, add_under, discard_everywhere,
}
use ad_artifacts.Store.State.{Store}
use ad_artifacts.Store.Metrics.{text_at}

abbrev pub is_available : PayloadEntry → Bool
is_available e = elim e.status [ PayloadStatus.available ↦ true | _ ↦ false ]

abbrev pub is_reusable_class : StorageClass → Bool
is_reusable_class StorageClass.reusable = true
is_reusable_class StorageClass.transient = false

-- Available, of the reusable class, and in Redis.
unfoldable pub is_reusable_entry : PayloadEntry → Bool
is_reusable_entry e =
    is_available e
    && is_reusable_class e.storage_class
    && is_redis_location (or_default e.location "")

-- What an entry counts for in the reusable cache.
unfoldable pub cached_bytes : PayloadEntry → ℕ
cached_bytes e = if is_reusable_entry e then pos_part e.size_bytes else 0

-- The loop of `release_job_payload_pins` over the keys that the job had pinned.
unfoldable pub release_keys : String → List String → Dict (List String) → Dict (List String)
release_keys job_id [] d = d
release_keys job_id (key ∷ keys) d = release_keys job_id keys (discard_under key job_id d)

module _ {F : Type 0} where
  abbrev pub list_payload_entries : Store F → List PayloadEntry
  list_payload_entries s = values s.payload_entries

  unfoldable pub list_reusable_payload_entries : Store F → List PayloadEntry
  list_reusable_payload_entries s = select is_reusable_entry (values s.payload_entries)

  unfoldable pub reusable_cache_bytes : Store F → ℕ
  reusable_cache_bytes s = sum_by cached_bytes (values s.payload_entries)

  unfoldable pub pin_payload : String → String → Store F → Store F
  pin_payload key job_id s =
      if has key s.payload_entries
      then record s {
        payload_pins = add_under key job_id s.payload_pins;
        job_payload_pins = add_under job_id key s.job_payload_pins;
      }
      else s

  unfoldable pub unpin_payload : String → String → Store F → Store F
  unpin_payload key job_id s = record s {
    payload_pins = discard_under key job_id s.payload_pins;
    job_payload_pins = discard_under job_id key s.job_payload_pins;
  }

  unfoldable pub payload_pin_count : String → Store F → ℕ
  payload_pin_count key s = length (or_default (get key s.payload_pins) [])

  unfoldable pub release_job_payload_pins : String → Store F → Store F
  release_job_payload_pins job_id s = record s {
    payload_pins =
        release_keys job_id (or_default (get job_id s.job_payload_pins) []) s.payload_pins;
    job_payload_pins = remove job_id s.job_payload_pins;
  }

  -- self._tasks_by_batch_id.pop(batch_id, None), and the task that it named
  unfoldable pub forget_task : String → Store F → Store F
  forget_task batch_id s = elim (get batch_id s.tasks_by_batch_id) [
    | none ↦ s
    | some task_id ↦ record s {
      tasks_by_batch_id = remove batch_id s.tasks_by_batch_id;
      tasks = remove task_id s.tasks;
    }
  ]

  -- What `remove_payload` drops with an entry that is there and not pinned.
  unfoldable pub drop_payload : String → PayloadEntry → Store F → Store F
  drop_payload key entry s =
      let batch_id = text_at "batch_id" key entry.metadata in
      forget_task batch_id (record s {
        payload_entries = remove key s.payload_entries;
        batch_handles = remove batch_id s.batch_handles;
        payload_pins = remove key s.payload_pins;
        job_payload_pins = discard_everywhere key s.job_payload_pins;
      })

  unfoldable pub remove_payload : String → Store F → Option PayloadEntry × Store F
  remove_payload key s =
      if ltb 0 (payload_pin_count key s) then (none, s) else elim (get key s.payload_entries) [
        | none ↦ (none, s)
        | some entry ↦ (some entry, drop_payload key entry s)
      ]

  -- `remove_payload` does nothing, or drops an entry that is there and has no pin.
  pub remove_payload_cases {κ} :
      (P : Option PayloadEntry × Store F → Type κ) (key : String) (s : Store F)
      → P (none, s)
      → ((entry : PayloadEntry)
          → payload_pin_count key s ≡ 0
          → get key s.payload_entries ≡ some entry
          → P (some entry, drop_payload key entry s))
      → P (remove_payload key s)
  unfolding remove_payload
  remove_payload_cases P key s kept dropped = elim (Bool-cases (ltb 0 (payload_pin_count key s))) [
    | inl held ↦ rw (held, remove_payload) kept
    | inr free ↦ elim (Option-cases (get key s.payload_entries)) [
      | inl missing ↦ rw (free, missing, remove_payload) kept
      | inr (entry, found) ↦ rw (free, found, remove_payload) (dropped entry (ground arith) found)
    ]
  ]

  unfoldable pub put_payload_entry : PayloadEntry → Store F → Store F
  put_payload_entry e s = record s { payload_entries = put e.cache_key e s.payload_entries }

  unfoldable pub get_payload_entry : String → Store F → Option PayloadEntry
  get_payload_entry key s = get key s.payload_entries

  unfoldable pub touch_payload : ℕ → String → Store F → Store F
  touch_payload now key s = record s {
    payload_entries = update key (touch_entry now) s.payload_entries;
  }

  unfoldable pub delete_payload_entry : String → Store F → Store F
  delete_payload_entry key s = record s { payload_entries = remove key s.payload_entries }

  unfoldable pub put_batch_handle : String → BatchHandle → Store F → Store F
  put_batch_handle batch_id handle s = record s {
    batch_handles = put batch_id handle s.batch_handles;
  }

  unfoldable pub get_batch_handle : String → Store F → Option BatchHandle
  get_batch_handle batch_id s = get batch_id s.batch_handles

  unfoldable pub delete_batch_handle : String → Store F → Store F
  delete_batch_handle batch_id s = record s { batch_handles = remove batch_id s.batch_handles }
