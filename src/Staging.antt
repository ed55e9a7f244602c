-- ===== src/Staging.antt =====
-- experiments/baselines/coordl/staging.py: the staging area of the CoorDL baseline, where each prepared batch waits
-- in Redis until every job has used it. The two scripts run atomically, so a run of several jobs is a
-- sequence of them. The state is what Redis holds under the payload keys and under the count keys, which
-- their last part keeps apart. The polling loop with its clock is not modelled.
pub mod Uses
use ad_artifacts.Base.{
  ℕ, zero, suc, ◌+◌, String, str_append, Bool, true, false, Option, none, some, List, [], ◌∷◌, leb,
  if◌then◌else◌, or_default,
}
use ad_artifacts.Core.{Result, ok, raise, invalid_value}
use ad_artifacts.Exec.{Exec, pure, throw}
use ad_artifacts.Dict.{Dict, get, put, remove, has}

pub record StagingArea : Type 0 where
  pub namespace : String
  pub payloads : Dict (List ℕ)
  pub counts : Dict ℕ

-- f"{namespace}:batch:{batch_id}:payload"
unfoldable pub payload_key : String → String → String
payload_key namespace batch_id =
    str_append namespace (str_append ":batch:" (str_append batch_id ":payload"))

-- f"{namespace}:batch:{batch_id}:used"
unfoldable pub count_key : String → String → String
count_key namespace batch_id =
    str_append namespace (str_append ":batch:" (str_append batch_id ":used"))

-- The publishing script: whether the payload was created.
unfoldable pub publish_script : String → String → List ℕ → StagingArea → Bool × StagingArea
publish_script pkey ckey payload s =
    if has pkey s.payloads
    then (false, s)
    else (true, record s { counts = put ckey 0 s.counts; payloads = put pkey payload s.payloads })

unfoldable pub publish : String → List ℕ → Exec StagingArea (Unit {0})
publish batch_id payload s =
    let (created, s') =
      publish_script (payload_key s.namespace batch_id) (count_key s.namespace batch_id) payload
        s in
    if created then pure tt s' else throw (invalid_value batch_id) s'

-- The consuming script: the payload and the number of its uses, if it is there. `INCR` takes a missing
-- count for 0.
unfoldable pub consume_script :
    String → String → ℕ → StagingArea → Option (List ℕ × ℕ) × StagingArea
consume_script pkey ckey num_consumers s = elim (get pkey s.payloads) [
  | none ↦ (none, s)
  | some payload ↦
      let used = or_default (get ckey s.counts) 0 + 1 in
      if leb num_consumers used
      then (
        some (payload, used),
        record s { payloads = remove pkey s.payloads; counts = remove ckey s.counts },
      )
      else (some (payload, used), record s { counts = put ckey used s.counts })
]

-- One attempt of `wait_and_consume`.
unfoldable pub consume : String → ℕ → StagingArea → Option (List ℕ × ℕ) × StagingArea
consume batch_id num_consumers s =
    consume_script (payload_key s.namespace batch_id) (count_key s.namespace batch_id) num_consumers
      s

unfoldable pub exists : String → StagingArea → Bool
exists batch_id s = has (payload_key s.namespace batch_id) s.payloads

-- The answers of several attempts for one batch, in their order.
unfoldable pub consume_times :
    String → ℕ → ℕ → StagingArea → List (Option (List ℕ × ℕ)) × StagingArea
consume_times batch_id num_consumers zero s = ([], s)
consume_times batch_id num_consumers (suc times) s =
    let (answer, s') = consume batch_id num_consumers s in
    let (answers, s'') = consume_times batch_id num_consumers times s' in (answer ∷ answers, s'')
