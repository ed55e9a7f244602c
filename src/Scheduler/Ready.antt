-- ===== src/Scheduler/Ready.antt =====
-- The handle of a ready batch, of batchflow/coordinator/scheduler.py, and the numbers it reads from metadata.
use ad_artifacts.Base.{
  String, Bool, true, false, Option, none, some, List, [], ◌∷◌, ◌==◌, if◌then◌else◌, or_default,
}
use ad_artifacts.Base.Int.{ℤ, pos}
use ad_artifacts.Base.Numerals.{parse_int}
use ad_artifacts.Core.{
  Batch, BatchHandle, HandleStatus, PayloadEntry, StorageClass, PayloadFormat, torch_batch,
  Metadata, Value, text, int, flag, format, str, Result, ok, raise, or_raise, invalid_value, ◌>>=◌,
}
use ad_artifacts.Exec.{Reader}
use ad_artifacts.Dict.{get, put, member}
use ad_artifacts.Store.State.{Store}
use ad_artifacts.Store.Jobs.{get_dataset}
use ad_artifacts.Store.Metrics.{text_at}

-- int(value), none where it raises
unfoldable pub to_int : Value → Option ℤ
to_int (text s) = parse_int s
to_int (int n) = some n
to_int (flag true) = some (pos 1)
to_int (flag false) = some (pos 0)
to_int (format torch_batch) = none

-- `value is None or value == ""`
abbrev pub is_missing : Option Value → Bool
is_missing none = true
is_missing (some (text s)) = s == ""
is_missing (some (int n)) = false
is_missing (some (flag b)) = false
is_missing (some (format p)) = false

unfoldable pub int_metadata : Metadata → String → ℤ → Result ℤ
int_metadata metadata key default = elim (is_missing (get key metadata)) [
  | true ↦ ok default
  | false ↦ elim (get key metadata) [
    | none ↦ ok default
    | some value ↦ or_raise (to_int value) (invalid_value key)
  ]
]

-- PayloadFormat(text)
unfoldable pub payload_format_of : String → Result PayloadFormat
payload_format_of s = if s == "torch_batch" then ok torch_batch else raise (invalid_value s)

abbrev format_of : Value → Result PayloadFormat
format_of (format p) = ok p
format_of value = payload_format_of (str value)

unfoldable pub payload_format_from_entry : PayloadEntry → PayloadFormat → Result PayloadFormat
payload_format_from_entry entry default =
    let raw = get "payload_format" entry.metadata in
    elim (is_missing raw) [
      | true ↦ ok default
      | false ↦ elim raw [ none ↦ ok default | some value ↦ format_of value ]
    ]

abbrev pub handle_field_keys : List String
handle_field_keys =
    "fetch_host" ∷ "fetch_port" ∷ "fetch_key" ∷ "payload_format" ∷ "dataset_format"
    ∷ "fallback_fetch_host" ∷ "fallback_fetch_port" ∷ "fallback_fetch_key"
    ∷ "fallback_expires_at_ms" ∷ []

-- StorageClass.value
abbrev pub storage_value : StorageClass → String
storage_value StorageClass.reusable = "reusable"
storage_value StorageClass.transient = "transient"

-- The update by an entry's metadata that are no fields of a handle, as texts.
unfoldable pub add_metadata : Metadata → Metadata → Metadata
add_metadata [] m = m
add_metadata ((k, v) ∷ rest) m =
    add_metadata rest (if member k handle_field_keys then m else put k (text (str v)) m)

unfoldable pub build_ready_handle :
    {F : Type 0} → Batch → PayloadEntry → Reader (Store F) BatchHandle
build_ready_handle batch entry s = get_dataset batch.dataset_id s >>= λ dataset.
    payload_format_from_entry entry dataset.payload_format >>= λ payload_format.
    int_metadata entry.metadata "fetch_port" (pos 0) >>= λ fetch_port. ok (record {
      batch_id = batch.batch_id;
      cache_key = entry.cache_key;
      status = HandleStatus.ready;
      fetch_host = text_at "fetch_host" "" entry.metadata;
      fetch_port = fetch_port;
      fetch_key = text_at "fetch_key" batch.batch_id entry.metadata;
      payload_format = some payload_format;
      dataset_format = dataset.dataset_format;
      location = or_default entry.location "";
      expires_at_ms = entry.expires_at_ms;
      metadata = add_metadata entry.metadata (
          ("cache_result", text "hit")
          ∷ ("worker_id", text (or_default entry.worker_id ""))
          ∷ ("storage_class", text (storage_value entry.storage_class))
          ∷ []);
    })
