-- ===== src/Prefetcher.antt =====
-- batchflow/integrations/pytorch/prefetcher.py: what the trainer's prefetcher does for one batch, from asking the
-- coordinator to decorating the decoded batch. The times it measures are given with the polls and the results.
pub mod Pipeline
pub mod Positions
pub mod Polls
pub mod Handles
pub mod Order
pub mod Moves
pub mod Ends
pub mod Closing
pub mod Threads
pub mod Located
pub mod Progress
pub mod Session
pub mod Outcome
use ad_artifacts.Base.{
  ℕ, ◌+◌, String, str_append, Bool, true, false, not, ◌&&◌, Option, none, some, List, [], ◌∷◌, ◌==◌,
  eqb, if◌then◌else◌,
}
use ad_artifacts.Base.Int.{eqb_ℤ, ℤ, pos, negsuc, is_positive}
use ad_artifacts.Base.Decimal.{show_ℤ}
use ad_artifacts.Core.{
  Metadata, Result, ok, raise, check, ◌>>=◌, ◌>>◌, batch_failed, unexpected_status,
  missing_fetch_key, missing_payload_format, missing_dataset_format, missing_fetch_information,
  unsupported_location,
}
use ad_artifacts.Core.Fetch.{is_redis_location, is_grpc_location}
use ad_artifacts.Dict.{Dict, put}
use ad_artifacts.Floats.{Floats}
use ad_artifacts.Store.Metrics.{text_at}
use ad_artifacts.Proto.{add_items}
use ad_artifacts.Proto.Messages.{BatchHandleMessage, KeyValue}

pub record FetchTask (F : Type 0) : Type 0 where
  pub sequence : ℕ
  pub job_id : String
  pub batch_id : String
  pub cache_key : String
  pub epoch : ℤ
  pub batch_index : ℤ
  pub location : String
  pub fetch_host : String
  pub fetch_port : ℤ
  pub fetch_key : String
  pub payload_format : String
  pub dataset_format : String
  pub handle_status : String
  pub cache_result : String
  pub client_cache_result : String
  pub coordinator_wait_total_time_sec : F
  pub coordinator_rpc_time_sec : F
  pub coordinator_sleep_time_sec : F
  pub coordinator_pending_polls : ℕ
  pub coordinator_miss_polls : ℕ
  pub coordinator_in_flight_polls : ℕ

-- A value of a batch's dict: what the payload was decoded to, or what the prefetcher adds.
pub data Item (F B : Type 0) : Type 0 where
  decoded : B → Item F B
  text : String → Item F B
  int : ℤ → Item F B
  float : F → Item F B

pub record FetchedTaskResult (F B : Type 0) : Type 0 where
  pub task : FetchTask F
  pub batch : Dict (Item F B)
  pub payload_bytes : ℕ
  pub fetch_time_sec : F
  pub decode_time_sec : F
  pub pin_time_sec : F

-- `_metadata_to_dict`
unfoldable pub metadata_to_dict : List KeyValue → Metadata
metadata_to_dict items = add_items [] items

-- `_handle_status_name`
unfoldable pub handle_status_name : ℤ → String
handle_status_name value =
    if eqb_ℤ value (pos 1)
    then "pending"
    else if eqb_ℤ value (pos 2)
    then "ready"
    else if eqb_ℤ value (pos 3)
    then "failed"
    else str_append "unknown(" (str_append (show_ℤ value) ")")

-- `_validate_ready_handle`
unfoldable pub validate_ready_handle : BatchHandleMessage → Result (Unit {0})
validate_ready_handle m = do
  check (not (eqb_ℤ m.status (pos 3))) batch_failed
  check (eqb_ℤ m.status (pos 2)) (unexpected_status m.status)
  check (not (m.fetch_key == "")) missing_fetch_key
  check (not (m.payload_format == "")) missing_payload_format
  check (not (m.dataset_format == "")) missing_dataset_format
  if is_redis_location m.location
      then ok tt
      else if is_grpc_location m.location
      then check (not (m.fetch_host == "") && is_positive m.fetch_port) missing_fetch_information
      else raise unsupported_location

-- One answer of the coordinator, with what the clock measured: for the call, for the sleep that follows a
-- pending answer, and since the first call.
pub record Poll (F : Type 0) : Type 0 where
  pub batch_handle : BatchHandleMessage
  pub epoch : ℤ
  pub batch_index : ℤ
  pub has_batch_index : Bool
  pub done : Bool
  pub rpc_time_sec : F
  pub sleep_time_sec : F
  pub wait_time_sec : F

-- The local counters of `_get_next_fetch_task`.
pub record PollCounts (F : Type 0) : Type 0 where
  pub rpc_time : F
  pub sleep_time : F
  pub pending_polls : ℕ
  pub miss_polls : ℕ
  pub in_flight_polls : ℕ

module _ {F : Type 0} ⦃f : Floats F⦄ where
  abbrev pub no_polls : PollCounts F
  no_polls = record {
    rpc_time = f.zero;
    sleep_time = f.zero;
    pending_polls = 0;
    miss_polls = 0;
    in_flight_polls = 0;
  }

  abbrev pub cache_result_of : Poll F → String
  cache_result_of p = text_at "cache_result" "" (metadata_to_dict p.batch_handle.metadata)

  abbrev pub is_pending_poll : Poll F → Bool
  is_pending_poll p = eqb_ℤ p.batch_handle.status (pos 1)

  -- A pending answer is counted, and slept on.
  unfoldable pub count_pending : Poll F → PollCounts F → PollCounts F
  count_pending p n = record {
    rpc_time = f.add n.rpc_time p.rpc_time_sec;
    sleep_time = f.add n.sleep_time p.sleep_time_sec;
    pending_polls = n.pending_polls + 1;
    miss_polls = if cache_result_of p == "miss" then n.miss_polls + 1 else n.miss_polls;
    in_flight_polls =
        if cache_result_of p == "miss"
        then n.in_flight_polls
        else if cache_result_of p == "in_flight"
        then n.in_flight_polls + 1
        else n.in_flight_polls;
  }

  -- The task for an answer that is not pending.
  unfoldable pub fetch_task : String → ℕ → Poll F → PollCounts F → FetchTask F
  fetch_task job_id sequence p n = record {
    sequence = sequence;
    job_id = job_id;
    batch_id = p.batch_handle.batch_id;
    cache_key = p.batch_handle.cache_key;
    epoch = p.epoch;
    batch_index = if p.has_batch_index then p.batch_index else negsuc 0;
    location = p.batch_handle.location;
    fetch_host = p.batch_handle.fetch_host;
    fetch_port = p.batch_handle.fetch_port;
    fetch_key = p.batch_handle.fetch_key;
    payload_format = p.batch_handle.payload_format;
    dataset_format = p.batch_handle.dataset_format;
    handle_status = handle_status_name p.batch_handle.status;
    cache_result = cache_result_of p;
    client_cache_result = if eqb n.pending_polls 0 then "hot" else "miss";
    coordinator_wait_total_time_sec = p.wait_time_sec;
    coordinator_rpc_time_sec = f.add n.rpc_time p.rpc_time_sec;
    coordinator_sleep_time_sec = n.sleep_time;
    coordinator_pending_polls = n.pending_polls;
    coordinator_miss_polls = n.miss_polls;
    coordinator_in_flight_polls = n.in_flight_polls;
  }

  -- The loop of `_get_next_fetch_task` over the answers that come before the stop event is set.
  unfoldable pub get_next_fetch_task :
      String → ℕ → PollCounts F → List (Poll F) → Result (Option (FetchTask F))
  get_next_fetch_task job_id sequence n [] = ok none
  get_next_fetch_task job_id sequence n (p ∷ ps) =
      let more = get_next_fetch_task job_id sequence (count_pending p n) ps in
      if p.done
      then ok none
      else if is_pending_poll p
      then more
      else validate_ready_handle p.batch_handle >>= λ _. ok (some (fetch_task job_id sequence p n))

-- Where `_fetch_payload` gets the bytes from.
pub data Fetch (F : Type 0) : Type 0 where
  redis_fetch : (location key : String) → Fetch F
  worker_fetch :
      (host : String) → (port : ℤ) → (key : String) → (timeout_seconds : Option F) → Fetch F

unfoldable pub fetch_payload : {F : Type 0} → Option F → FetchTask F → Fetch F
fetch_payload timeout_seconds t =
    if is_redis_location t.location
    then Fetch.redis_fetch t.location t.fetch_key
    else Fetch.worker_fetch t.fetch_host t.fetch_port t.fetch_key timeout_seconds

module _ {F B : Type 0} where
  -- dict.update(items)
  unfoldable pub update_items : Dict (Item F B) → Dict (Item F B) → Dict (Item F B)
  update_items d [] = d
  update_items d ((k, v) ∷ items) = update_items (put k v d) items

  -- The items that `_decorate_batch` sets; `qsize` is the length of the ready queue.
  abbrev pub decoration : String → ℕ → FetchedTaskResult F B → Dict (Item F B)
  decoration dataset_id qsize r =
      ("job_id", Item.text r.task.job_id)
      ∷ ("dataset_id", Item.text dataset_id)
      ∷ ("batch_id", Item.text r.task.batch_id)
      ∷ ("cache_key", Item.text r.task.cache_key)
      ∷ ("epoch", Item.int r.task.epoch)
      ∷ ("batch_index", Item.int r.task.batch_index)
      ∷ ("handle_status", Item.text r.task.handle_status)
      ∷ ("dataset_format", Item.text r.task.dataset_format)
      ∷ ("payload_format", Item.text r.task.payload_format)
      ∷ ("fetch_location", Item.text r.task.location)
      ∷ ("cache_result", Item.text r.task.cache_result)
      ∷ ("client_cache_result", Item.text r.task.client_cache_result)
      ∷ ("pending_polls_before_batch", Item.int (pos r.task.coordinator_pending_polls))
      ∷ ("miss_polls_before_batch", Item.int (pos r.task.coordinator_miss_polls))
      ∷ ("in_flight_polls_before_batch", Item.int (pos r.task.coordinator_in_flight_polls))
      ∷ ("coordinator_wait_total_time_sec", Item.float r.task.coordinator_wait_total_time_sec)
      ∷ ("coordinator_rpc_time_sec", Item.float r.task.coordinator_rpc_time_sec)
      ∷ ("coordinator_sleep_time_sec", Item.float r.task.coordinator_sleep_time_sec)
      ∷ ("fetch_time_sec", Item.float r.fetch_time_sec)
      ∷ ("trainer_decode_time_sec", Item.float r.decode_time_sec)
      ∷ ("trainer_pin_time_sec", Item.float r.pin_time_sec)
      ∷ ("payload_bytes", Item.int (pos r.payload_bytes))
      ∷ ("prefetch_queue_size_before_put", Item.int (pos qsize))
      ∷ []

  unfoldable pub decorate_batch : String → ℕ → FetchedTaskResult F B → Dict (Item F B)
  decorate_batch dataset_id qsize r = update_items r.batch (decoration dataset_id qsize r)
