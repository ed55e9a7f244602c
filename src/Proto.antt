-- ===== src/Proto.antt =====
-- batchflow/common/proto_conversions.py: between the records of the program and its messages.
pub mod Messages
pub mod RoundTrips
use ad_artifacts.Base.{
  ℕ, String, Bool, true, false, ◌&&◌, not, Option, none, some, List, [], ◌∷◌, ◌==◌, eqb,
  if◌then◌else◌, or_default, is_some,
}
use ad_artifacts.Base.Int.{eqb_ℤ, ℤ, pos, pos_part, neg_part, is_positive}
use ad_artifacts.Base.Decimal.{show_ℤ}
use ad_artifacts.Core.{
  Sample, Dataset, Batch, BatchHandle, HandleStatus, JobStatus, StorageClass, MaterializeBatchTask,
  PayloadFormat, torch_batch, Metadata, Value, text, str, Result, ok, raise, ◌>>=◌, invalid_value,
}
use ad_artifacts.Dict.{put}
use ad_artifacts.Proto.Messages.{
  KeyValue, SampleMessage, DatasetMessage, BatchMessage, BatchHandleMessage,
  MaterializeBatchTaskMessage,
}
use ad_artifacts.Store.State.{TaskState}
use ad_artifacts.Store.Metrics.{text_at}

-- value or None
abbrev pub or_none : String → Option String
or_none s = if s == "" then none else some s

-- The loop of the comprehension over the items: a later item replaces an earlier one.
unfoldable pub add_items : Metadata → List KeyValue → Metadata
add_items d [] = d
add_items d (item ∷ items) = add_items (put item.key (text item.value) d) items

unfoldable pub kv_list_to_dict : List KeyValue → Metadata
kv_list_to_dict items = add_items [] items

unfoldable pub dict_to_kv_list : Metadata → List KeyValue
dict_to_kv_list [] = []
dict_to_kv_list ((k, v) ∷ d) = record { key = k; value = str v } ∷ dict_to_kv_list d

unfoldable pub storage_class_from_proto : ℤ → Result StorageClass
storage_class_from_proto value =
    if eqb_ℤ value (pos 1)
    then ok StorageClass.reusable
    else if eqb_ℤ value (pos 2)
    then ok StorageClass.transient
    else raise (invalid_value (show_ℤ value))

unfoldable pub storage_class_to_proto : StorageClass → ℤ
storage_class_to_proto StorageClass.reusable = pos 1
storage_class_to_proto StorageClass.transient = pos 2

unfoldable pub batch_handle_status_from_proto : ℤ → Result HandleStatus
batch_handle_status_from_proto value =
    if eqb_ℤ value (pos 1)
    then ok HandleStatus.pending
    else if eqb_ℤ value (pos 2)
    then ok HandleStatus.ready
    else if eqb_ℤ value (pos 3)
    then ok HandleStatus.failed
    else raise (invalid_value (show_ℤ value))

unfoldable pub batch_handle_status_to_proto : HandleStatus → ℤ
batch_handle_status_to_proto HandleStatus.pending = pos 1
batch_handle_status_to_proto HandleStatus.ready = pos 2
batch_handle_status_to_proto HandleStatus.failed = pos 3

unfoldable pub job_status_from_proto : ℤ → JobStatus
job_status_from_proto value =
    if eqb_ℤ value (pos 1)
    then JobStatus.active
    else if eqb_ℤ value (pos 2)
    then JobStatus.completed
    else if eqb_ℤ value (pos 3)
    then JobStatus.cancelled
    else if eqb_ℤ value (pos 4)
    then JobStatus.failed
    else JobStatus.cancelled

unfoldable pub job_status_to_proto : JobStatus → ℤ
job_status_to_proto JobStatus.active = pos 1
job_status_to_proto JobStatus.completed = pos 2
job_status_to_proto JobStatus.cancelled = pos 3
job_status_to_proto JobStatus.failed = pos 4

-- PayloadFormat(value), of a text that is not empty.
unfoldable pub payload_format_from_string : String → Result PayloadFormat
payload_format_from_string value =
    if value == "torch_batch" then ok torch_batch else raise (invalid_value value)

unfoldable pub payload_format_to_string : Option PayloadFormat → String
payload_format_to_string none = ""
payload_format_to_string (some torch_batch) = "torch_batch"

unfoldable pub sample_from_proto : SampleMessage → Sample
sample_from_proto m = record {
  sample_id = m.sample_id;
  source_uri = m.source_uri;
  label = if m.has_label then some m.label else none;
  class_name = or_none m.class_name;
  transform_name = or_none m.transform_name;
}

unfoldable pub sample_to_proto : Sample → SampleMessage
sample_to_proto s = record {
  sample_id = s.sample_id;
  source_uri = s.source_uri;
  label = or_default s.label (pos 0);
  class_name = or_default s.class_name "";
  transform_name = or_default s.transform_name "";
  has_label = is_some s.label;
}

unfoldable pub samples_from_proto : List SampleMessage → List Sample
samples_from_proto [] = []
samples_from_proto (m ∷ ms) = sample_from_proto m ∷ samples_from_proto ms

unfoldable pub samples_to_proto : List Sample → List SampleMessage
samples_to_proto [] = []
samples_to_proto (s ∷ ss) = sample_to_proto s ∷ samples_to_proto ss

unfoldable pub dataset_from_proto : DatasetMessage → Result Dataset
dataset_from_proto m =
    let metadata = kv_list_to_dict m.metadata in
    let payload_format_value =
      if m.payload_format == "" then text_at "payload_format" "" metadata else m.payload_format in
    let dataset_format =
      if m.dataset_format == "" then text_at "format" "" metadata else m.dataset_format in
    payload_format_from_string payload_format_value >>= λ payload_format. ok (record {
      dataset_id = m.dataset_id;
      samples = samples_from_proto m.samples;
      batch_size = m.batch_size;
      payload_format = payload_format;
      dataset_format = dataset_format;
      drop_last = m.drop_last;
      shuffle = m.shuffle;
      seed = m.seed;
      transform_name = or_none m.transform_name;
      metadata = metadata;
    })

unfoldable pub dataset_to_proto : Dataset → DatasetMessage
dataset_to_proto d = record {
  dataset_id = d.dataset_id;
  samples = samples_to_proto d.samples;
  batch_size = d.batch_size;
  drop_last = d.drop_last;
  shuffle = d.shuffle;
  seed = d.seed;
  transform_name = or_default d.transform_name "";
  metadata = dict_to_kv_list d.metadata;
  payload_format = payload_format_to_string (some d.payload_format);
  dataset_format = d.dataset_format;
}

unfoldable pub batch_handle_to_proto : BatchHandle → BatchHandleMessage
batch_handle_to_proto h = record {
  batch_id = h.batch_id;
  cache_key = h.cache_key;
  status = batch_handle_status_to_proto h.status;
  fetch_host = h.fetch_host;
  fetch_port = h.fetch_port;
  fetch_key = h.fetch_key;
  payload_format = payload_format_to_string h.payload_format;
  dataset_format = h.dataset_format;
  location = h.location;
  expires_at_ms = or_default h.expires_at_ms (pos 0);
  metadata = dict_to_kv_list h.metadata;
}

-- `payload_format_from_string(value) if value else None`
unfoldable pub optional_payload_format : String → Result (Option PayloadFormat)
optional_payload_format value =
    if value == "" then ok none else payload_format_from_string value >>= λ f. ok (some f)

unfoldable pub batch_handle_from_proto : BatchHandleMessage → Result BatchHandle
batch_handle_from_proto m = optional_payload_format m.payload_format >>= λ payload_format.
    batch_handle_status_from_proto m.status >>= λ status. ok (record {
      batch_id = m.batch_id;
      cache_key = m.cache_key;
      status = status;
      fetch_host = m.fetch_host;
      fetch_port = m.fetch_port;
      fetch_key = m.fetch_key;
      payload_format = payload_format;
      dataset_format = m.dataset_format;
      location = m.location;
      expires_at_ms = if is_positive m.expires_at_ms then some m.expires_at_ms else none;
      metadata = kv_list_to_dict m.metadata;
    })

unfoldable pub batch_to_proto : Batch → BatchMessage
batch_to_proto b = record {
  batch_id = b.batch_id;
  dataset_id = b.dataset_id;
  epoch = b.epoch;
  batch_index = b.batch_index;
  batch_size = b.batch_size;
  samples = samples_to_proto b.samples;
  planned_at_ms = b.planned_at_ms;
  transform_name = or_default b.transform_name "";
  metadata = dict_to_kv_list b.metadata;
}

unfoldable pub batch_from_proto : BatchMessage → Batch
batch_from_proto m = record {
  batch_id = m.batch_id;
  dataset_id = m.dataset_id;
  epoch = m.epoch;
  batch_index = m.batch_index;
  batch_size = m.batch_size;
  samples = samples_from_proto m.samples;
  planned_at_ms = m.planned_at_ms;
  transform_name = or_none m.transform_name;
  metadata = kv_list_to_dict m.metadata;
}

module _ {F : Type 0} where
  unfoldable pub materialize_batch_task_to_proto :
      MaterializeBatchTask F → MaterializeBatchTaskMessage F
  materialize_batch_task_to_proto t = record {
    task_id = t.task_id;
    batch = batch_to_proto t.batch;
    job_id = t.job_id;
    priority = t.priority;
    storage_class = storage_class_to_proto t.storage_class;
    created_at_ms = t.created_at_ms;
    not_before_ms = t.not_before_ms;
    metadata = dict_to_kv_list t.metadata;
    payload_format = payload_format_to_string (some t.payload_format);
    dataset_format = t.dataset_format;
  }

  unfoldable pub task_state_to_proto : TaskState F → MaterializeBatchTaskMessage F
  task_state_to_proto state = materialize_batch_task_to_proto state.task
