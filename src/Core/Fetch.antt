-- ===== src/Core/Fetch.antt =====
-- The checks and properties of the records of batchflow/common/core.py.
use ad_artifacts.Base.{
  ℕ, ◌+◌, ◌-◌, ◌/◌, String, Bool, true, false, not, ◌||◌, none, some, ◌==◌, leb, if◌then◌else◌,
  length, is_some,
}
use ad_artifacts.Base.Int.{pos_part, neg_part, is_positive}
use ad_artifacts.Core.{
  Dataset, PayloadEntry, BatchHandle, HandleStatus, Result, ok, raise, check, ◌>>◌, bad_batch_size,
  handle_not_ready, missing_fetch_key, missing_payload_format, missing_dataset_format,
  missing_fetch_host, invalid_fetch_port, unsupported_location,
}
use text.Mathlib.Text.{starts_with}

unfoldable pub sample_count : Dataset → ℕ
sample_count d = length d.samples

-- Dataset.batches_per_epoch; the division is by a positive number.
unfoldable pub batches_per_epoch : Dataset → Result ℕ
batches_per_epoch d = do
  check (is_positive d.batch_size) (bad_batch_size d.batch_size)
  let size = pos_part d.batch_size
  ok (if d.drop_last then sample_count d / size else (sample_count d + size - 1) / size)

-- PayloadEntry.is_expired
unfoldable pub is_expired : ℕ → PayloadEntry → Bool
is_expired now e = elim e.expires_at_ms [
  | none ↦ false
  | some t ↦ leb (pos_part t) (now + neg_part t)
]

unfoldable pub is_redis_location : String → Bool
is_redis_location l = starts_with l "redis://" || starts_with l "rediss://"

unfoldable pub is_grpc_location : String → Bool
is_grpc_location l = starts_with l "grpc://" || l == ""

abbrev pub is_ready : BatchHandle → Bool
is_ready h = elim h.status [ HandleStatus.ready ↦ true | _ ↦ false ]

-- BatchHandle.require_ready_fetch_info
unfoldable pub require_ready_fetch_info : BatchHandle → Result (Unit {0})
require_ready_fetch_info h = do
  check (is_ready h) handle_not_ready
  check (not (h.fetch_key == "")) missing_fetch_key
  check (is_some h.payload_format) missing_payload_format
  check (not (h.dataset_format == "")) missing_dataset_format
  if is_redis_location h.location
      then ok tt
      else if is_grpc_location h.location
      then (do
        check (not (h.fetch_host == "")) missing_fetch_host
        check (is_positive h.fetch_port) invalid_fetch_port)
      else raise unsupported_location
