-- ===== src/Store/Pins.antt =====
-- The pins of batchflow/coordinator/store.py: the two tables agree, and a pinned payload stays.
use ad_artifacts.Base.{
  String, ◌≡◌, refl, Bool, true, false, ◌&&◌, none, List, [], ◌∷◌, ◌==◌, if◌then◌else◌, or_default,
  arith, eq_iff, Bool-cases, inl, inr,
}
use ad_artifacts.Core.{PayloadEntry}
use ad_artifacts.Floats.{Floats}
use ad_artifacts.Dict.{Dict, get, remove, member, has, discard_under, discard_everywhere}
use ad_artifacts.Dict.Distinct.{
  IsDistinct, remove-IsDistinct, add_under-IsDistinct, discard_under-IsDistinct,
  discard_everywhere-IsDistinct,
}
use ad_artifacts.Dict.Sets.{
  holds, holds_lem, holds-add_under, holds-discard_under, holds-remove, holds-discard_everywhere,
}
use ad_artifacts.Store.State.{Store, new_store}
use ad_artifacts.Store.Metrics.{text_at}
use ad_artifacts.Dict.Members.{length-pos_of_member}
use ad_artifacts.Store.Frame.{SamePins, step-SamePins}
use ad_artifacts.Store.Calls.{Call, step, run, run_induction}
use ad_artifacts.Store.Payloads.{
  pin_payload, unpin_payload, release_keys, release_job_payload_pins, forget_task, drop_payload,
  remove_payload, payload_pin_count, remove_payload_cases,
}

-- The job is among the jobs that pin the payload.
abbrev pub pinned : {F : Type 0} → String → String → Store F → Bool
pinned key job_id s = holds key job_id s.payload_pins

-- The payload is among those that the job pins.
abbrev pub job_pins : {F : Type 0} → String → String → Store F → Bool
job_pins job_id key s = holds job_id key s.job_payload_pins

pub record PinsAgree {F : Type 0} (s : Store F) : Type 0 where
  pub agree : (key job_id : String) → pinned key job_id s ≡ job_pins job_id key s
  pub distinct : IsDistinct s.job_payload_pins

pub holds-release_keys :
    (job_id : String) (keys : List String) (d : Dict (List String)) (key other : String)
    → holds key other (release_keys job_id keys d)
      ≡ (if (job_id == other) && member key keys then false else holds key other d)
unfolding release_keys member
holds-release_keys job_id [] d key other = ground arith
holds-release_keys job_id (k ∷ keys) d key other = ground (
  arith,
  holds-release_keys job_id keys (discard_under k job_id d) key other,
  holds-discard_under k job_id key other d,
)

module _ {F : Type 0} (s : Store F) where
  -- Two stores with the same pins agree on them or not together.
  PinsAgree-frame :
      (t : Store F)
      → t.payload_pins ≡ s.payload_pins
      → t.job_payload_pins ≡ s.job_payload_pins
      → PinsAgree s
      → PinsAgree t
  PinsAgree-frame t p q h = record {
    agree = λ key job_id. rw (p, q) (h.agree key job_id);
    distinct = rw q h.distinct;
  }

  pin_payload-PinsAgree : (key job_id : String) → PinsAgree s → PinsAgree (pin_payload key job_id s)
  unfolding pin_payload
  pin_payload-PinsAgree key job_id h = elim (Bool-cases (has key s.payload_entries)) [
    | inl known ↦
        rw (known, pin_payload)
          (record {
            agree = λ k j. ground (
              arith,
              holds-add_under key job_id k j s.payload_pins,
              holds-add_under job_id key j k s.job_payload_pins,
              h.agree k j,
            );
            distinct = add_under-IsDistinct job_id key s.job_payload_pins h.distinct;
          })
    | inr unknown ↦ rw (unknown, pin_payload) h
  ]

  unpin_payload-PinsAgree :
      (key job_id : String) → PinsAgree s → PinsAgree (unpin_payload key job_id s)
  unfolding unpin_payload
  unpin_payload-PinsAgree key job_id h = record {
    agree = λ k j. ground (
      arith,
      holds-discard_under key job_id k j s.payload_pins,
      holds-discard_under job_id key j k s.job_payload_pins,
      h.agree k j,
    );
    distinct = discard_under-IsDistinct job_id key s.job_payload_pins h.distinct;
  }

  release_job_payload_pins-PinsAgree :
      (job_id : String) → PinsAgree s → PinsAgree (release_job_payload_pins job_id s)
  unfolding release_job_payload_pins
  release_job_payload_pins-PinsAgree job_id h = record {
    agree = λ k j. ground (
      arith,
      holds-release_keys job_id (or_default (get job_id s.job_payload_pins) []) s.payload_pins k j,
      holds-remove job_id j k s.job_payload_pins,
      holds_lem job_id k s.job_payload_pins,
      eq_iff job_id j,
      h.agree k j,
    );
    distinct = remove-IsDistinct job_id s.job_payload_pins h.distinct;
  }

  forget_task-payload_pins : (b : String) → (forget_task b s).payload_pins ≡ s.payload_pins
  unfolding forget_task
  forget_task-payload_pins b = ground arith

  forget_task-job_payload_pins :
      (b : String) → (forget_task b s).job_payload_pins ≡ s.job_payload_pins
  unfolding forget_task
  forget_task-job_payload_pins b = ground arith

module _ {F : Type 0} (s : Store F) where
  drop_payload-PinsAgree :
      (key : String) (entry : PayloadEntry) → PinsAgree s → PinsAgree (drop_payload key entry s)
  unfolding drop_payload
  drop_payload-PinsAgree key entry h =
      PinsAgree-frame dropped _ (forget_task-payload_pins dropped _)
        (forget_task-job_payload_pins dropped _)
        (record {
          agree = λ k j. ground (
            arith,
            holds-remove key k j s.payload_pins,
            holds-discard_everywhere key j k s.job_payload_pins h.distinct,
            h.agree k j,
          );
          distinct = discard_everywhere-IsDistinct key s.job_payload_pins h.distinct;
        })
    where
      batch_id : String
      batch_id = text_at "batch_id" key entry.metadata

      dropped : Store F
      dropped = record s {
        payload_entries = remove key s.payload_entries;
        batch_handles = remove batch_id s.batch_handles;
        payload_pins = remove key s.payload_pins;
        job_payload_pins = discard_everywhere key s.job_payload_pins;
      }

  remove_payload-PinsAgree : (key : String) → PinsAgree s → PinsAgree (remove_payload key s).1
  remove_payload-PinsAgree key h =
      remove_payload_cases (λ r. PinsAgree r.1) key s h
        (λ entry _ _. drop_payload-PinsAgree key entry h)

module _ {F : Type 0} ⦃f : Floats F⦄ where
  step-PinsAgree : (c : Call F) (s : Store F) → PinsAgree s → PinsAgree (step c s)
  unfolding step
  step-PinsAgree (Call.pin_payload key job_id) s h = pin_payload-PinsAgree s key job_id h
  step-PinsAgree (Call.unpin_payload key job_id) s h = unpin_payload-PinsAgree s key job_id h
  step-PinsAgree (Call.release_job_payload_pins job_id) s h =
      release_job_payload_pins-PinsAgree s job_id h
  step-PinsAgree (Call.remove_payload key) s h = remove_payload-PinsAgree s key h
  step-PinsAgree c s h =
      let same : SamePins s (step c s) = step-SamePins c s refl in
      PinsAgree-frame s (step c s) same.pins same.job_pins h

  new_store-PinsAgree : PinsAgree (new_store F)
  unfolding new_store holds get member
  new_store-PinsAgree = record { agree = λ key job_id. refl; distinct = tt }

  pub run-keeps_PinsAgree : (cs : List (Call F)) → PinsAgree (run cs (new_store F))
  run-keeps_PinsAgree cs =
      run_induction PinsAgree step-PinsAgree cs (new_store F) new_store-PinsAgree

  -- However the threads' calls interleave, from an empty store a job is recorded among the jobs that
  -- pin a payload exactly when the payload is recorded among those that the job pins.
  pub run-PinsAgree :
      (cs : List (Call F)) (key job_id : String)
      → pinned key job_id (run cs (new_store F)) ≡ job_pins job_id key (run cs (new_store F))
  run-PinsAgree cs key job_id = (run-keeps_PinsAgree cs).agree key job_id

-- Where the two pin tables agree: once a job's pins are released, no payload is pinned for it, and every
-- other pin stays.
pub release_job_payload_pins_lem :
    {F : Type 0} (s : Store F) (job_id key other : String)
    → PinsAgree s
    → pinned key other (release_job_payload_pins job_id s)
      ≡ (if job_id == other then false else pinned key other s)
unfolding release_job_payload_pins
release_job_payload_pins_lem s job_id key other h = ground (
  arith,
  holds-release_keys job_id (or_default (get job_id s.job_payload_pins) []) s.payload_pins key
      other,
  holds_lem job_id key s.job_payload_pins,
  eq_iff job_id other,
  h.agree key other,
)

-- While a job pins a payload, `remove_payload` returns None for it and changes nothing.
pub remove_payload-pinned :
    {F : Type 0} (s : Store F) (key job_id : String)
    → pinned key job_id s ≡ true
    → remove_payload key s ≡ (none, s)
unfolding remove_payload payload_pin_count
remove_payload-pinned s key job_id h = ground (
  arith,
  holds_lem key job_id s.payload_pins,
  length-pos_of_member job_id (or_default (get key s.payload_pins) []),
)
