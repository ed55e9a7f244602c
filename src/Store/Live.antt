-- ===== src/Store/Live.antt =====
-- Which pinned payloads are known to the store, however the calls interleave.
use ad_artifacts.Base.{
  ◌∷◌, All, Bool, ℕ, String, ◌≡◌, refl, true, false, List, [], or_default, arith, eq_iff, subst,
}
use ad_artifacts.Core.{PayloadEntry, MaterializeBatchTask, cache_key, touch_entry}
use ad_artifacts.Floats.{Floats}
use ad_artifacts.Dict.{Dict, get, put, update, has, member}
use ad_artifacts.Dict.Laws.{get-put, get-remove, get-update}
use ad_artifacts.Dict.Sets.{holds, holds-add_under, holds-discard_under, holds-remove}
use ad_artifacts.Store.State.{Store, new_store}
use ad_artifacts.Store.Metrics.{
  change_metrics, note_get_next_batch_call, note_batch_handle_served,
  note_materialization_completed, update_job_runtime_metrics, update_preparation_time,
  update_payload_size_estimate,
}
use ad_artifacts.Store.Jobs.{
  register_dataset, start_job, finish_job, update_job_progress, issue_batch_to_job, register_worker,
  heartbeat_worker,
}
use ad_artifacts.Store.Plans.{set_planned_window, acknowledge_batch}
use ad_artifacts.Store.Tasks.{
  revive_entry, pending_entry, register_payload, enter_task, create_unless_known, create_task,
  assign_task_to_worker, release_worker, complete_task, fail_task,
}
use ad_artifacts.Store.Payloads.{
  pin_payload, unpin_payload, release_job_payload_pins, forget_task, drop_payload,
  remove_payload_cases, touch_payload, put_payload_entry, delete_payload_entry, put_batch_handle,
  delete_batch_handle,
}
use ad_artifacts.Store.Frame.{touches_pins, step-SamePins}
use ad_artifacts.Store.Pins.{pinned, holds-release_keys}
use ad_artifacts.Store.Calls.{Call, step, run}

abbrev pub IsLive : {F : Type 0} → Store F → Type 0
IsLive s = (key job_id : String) → pinned key job_id s ≡ true → has key s.payload_entries ≡ true

-- `delete_payload_entry`, which removes an entry whether or not it is pinned.
abbrev pub deletes_entry : {F : Type 0} → Call F → Bool
deletes_entry (Call.delete_payload_entry key) = true
deletes_entry _ = false

-- A write under any key, or a change in place, keeps a key that is there.
has-put :
    (k j : String) (v : PayloadEntry) (d : Dict PayloadEntry)
    → has j d ≡ true
    → has j (put k v d) ≡ true
has-put k j v d h = ground (arith, get-put k j v d)

has-update :
    (k j : String) (g : PayloadEntry → PayloadEntry) (d : Dict PayloadEntry)
    → has j d ≡ true
    → has j (update k g d) ≡ true
has-update k j g d h = ground (arith, get-update k j g d)

module _ {F : Type 0} where
  register_payload-has :
      (now : ℕ) (task : MaterializeBatchTask F) (s : Store F) (key : String)
      → has key s.payload_entries ≡ true
      → has key (register_payload now task s).payload_entries ≡ true
  unfolding register_payload
  register_payload-has now task s key h = ground (
    arith,
    has-put (cache_key task.batch) key (pending_entry now task) s.payload_entries,
    has-update (cache_key task.batch) key revive_entry s.payload_entries,
  )

  create_task-has :
      (now : ℕ) (task : MaterializeBatchTask F) (s : Store F) (key : String)
      → has key s.payload_entries ≡ true
      → has key (create_task now task s).1.payload_entries ≡ true
  unfolding create_task create_unless_known enter_task
  create_task-has now task s key h = grind (arith, register_payload-has)

module _ {F : Type 0} ⦃f : Floats F⦄ where
  step-has :
      (c : Call F) (s : Store F) (key : String)
      → touches_pins c ≡ false
      → deletes_entry c ≡ false
      → has key s.payload_entries ≡ true
      → has key (step c s).payload_entries ≡ true
  unfolding step register_dataset start_job finish_job update_job_progress issue_batch_to_job
      register_worker heartbeat_worker change_metrics note_get_next_batch_call
      note_batch_handle_served note_materialization_completed update_job_runtime_metrics
      update_preparation_time update_payload_size_estimate set_planned_window acknowledge_batch
      assign_task_to_worker release_worker complete_task fail_task touch_payload put_payload_entry
      delete_payload_entry put_batch_handle delete_batch_handle
  step-has (Call.create_task now task) s key e d h = create_task-has now task s key h
  step-has (Call.put_payload_entry entry) s key e d h =
      ground (arith, has-put entry.cache_key key entry s.payload_entries)
  step-has (Call.delete_payload_entry k) s key e d h = cc
  step-has (Call.complete_task now task_id entry handle) s key e d h =
      ground (arith, has-put entry.cache_key key entry s.payload_entries)
  step-has (Call.fail_task now task_id reason) s key e d h = grind (arith, has-update)
  step-has (Call.touch_payload now k) s key e d h =
      ground (arith, has-update k key (touch_entry now) s.payload_entries)
  step-has (Call.pin_payload k job_id) s key e d h = cc
  step-has (Call.unpin_payload k job_id) s key e d h = cc
  step-has (Call.release_job_payload_pins job_id) s key e d h = cc
  step-has (Call.remove_payload k) s key e d h = cc
  step-has _ s key e d h = ground arith

module _ {F : Type 0} (s : Store F) (live : IsLive s) where
  pin_payload-IsLive : (key job_id : String) → IsLive (pin_payload key job_id s)
  unfolding pin_payload
  pin_payload-IsLive key job_id k j h =
      ground (arith, holds-add_under key job_id k j s.payload_pins, live k j, eq_iff key k)

  unpin_payload-IsLive : (key job_id : String) → IsLive (unpin_payload key job_id s)
  unfolding unpin_payload
  unpin_payload-IsLive key job_id k j h =
      ground (arith, holds-discard_under key job_id k j s.payload_pins, live k j)

  release_job_payload_pins-IsLive : (job_id : String) → IsLive (release_job_payload_pins job_id s)
  unfolding release_job_payload_pins
  release_job_payload_pins-IsLive job_id k j h = ground (
    arith,
    holds-release_keys job_id (or_default (get job_id s.job_payload_pins) []) s.payload_pins k j,
    live k j,
  )

  drop_payload-IsLive : (key : String) (entry : PayloadEntry) → IsLive (drop_payload key entry s)
  unfolding drop_payload forget_task
  drop_payload-IsLive key entry k j h =
      ground
        (arith, holds-remove key k j s.payload_pins, live k j, get-remove key k s.payload_entries)

module _ {F : Type 0} ⦃f : Floats F⦄ where
  step-IsLive : (c : Call F) (s : Store F) → deletes_entry c ≡ false → IsLive s → IsLive (step c s)
  unfolding step
  step-IsLive (Call.pin_payload key job_id) s d h = pin_payload-IsLive s h key job_id
  step-IsLive (Call.unpin_payload key job_id) s d h = unpin_payload-IsLive s h key job_id
  step-IsLive (Call.release_job_payload_pins job_id) s d h =
      release_job_payload_pins-IsLive s h job_id
  step-IsLive (Call.remove_payload key) s d h =
      remove_payload_cases (λ r. IsLive r.1) key s h
        (λ entry _ _. drop_payload-IsLive s h key entry)
  step-IsLive c s d h = λ k j p.
      step-has c s k refl d
        (h k j (subst (λ d. holds k j d ≡ true) (step-SamePins c s refl).pins p))

  run-keeps_IsLive :
      (cs : List (Call F)) (s : Store F)
      → All (λ c. deletes_entry c ≡ false) cs
      → IsLive s
      → IsLive (run cs s)
  unfolding run
  run-keeps_IsLive [] s kept h = h
  run-keeps_IsLive (c ∷ cs) s (d, kept) h =
      run-keeps_IsLive cs (step c s) kept (step-IsLive c s d h)

  -- However the threads' calls interleave, from an empty store and where none of the calls is
  -- `delete_payload_entry`, a payload that some job pins has an entry in the store.
  pub run-IsLive :
      (cs : List (Call F)) (key job_id : String)
      → All (λ c. deletes_entry c ≡ false) cs
      → pinned key job_id (run cs (new_store F)) ≡ true
      → has key (run cs (new_store F)).payload_entries ≡ true
  run-IsLive cs key job_id kept = run-keeps_IsLive cs (new_store F) kept start key job_id
    where
      start : IsLive (new_store F)
      start k j h = unfold new_store holds get member in cc
