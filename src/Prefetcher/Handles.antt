-- ===== src/Prefetcher/Handles.antt =====
-- The trainer's check of a handle and the coordinator's are the same.
use ad_artifacts.Base.{◌≡◌, refl, Bool, true, false, Option, none, some, arith}
use ad_artifacts.Core.{BatchHandle, HandleStatus, PayloadFormat, torch_batch, Result, ok, raise}
use ad_artifacts.Core.Fetch.{require_ready_fetch_info}
use ad_artifacts.Proto.{
  batch_handle_to_proto, batch_handle_status_to_proto, payload_format_to_string,
}
use ad_artifacts.Prefetcher.{validate_ready_handle}

abbrev pub passes : Result (Unit {0}) → Bool
passes (ok u) = true
passes (raise e) = false

module _ (h : BatchHandle) where
  -- By the status and the format.
  passes_alike :
      (status : HandleStatus) (payload_format : Option PayloadFormat)
      → let g : BatchHandle = record h { status = status; payload_format = payload_format } in
        passes (validate_ready_handle (batch_handle_to_proto g))
        ≡ passes (require_ready_fetch_info g)
  unfolding validate_ready_handle require_ready_fetch_info batch_handle_to_proto
      batch_handle_status_to_proto payload_format_to_string
  passes_alike HandleStatus.pending payload_format = refl
  passes_alike HandleStatus.failed payload_format = refl
  passes_alike HandleStatus.ready none = ground arith
  passes_alike HandleStatus.ready (some torch_batch) = ground arith

  -- A handle that is sent to a trainer passes the trainer's check if and only if it has what the coordinator
  -- requires of a ready handle.
  pub validate_ready_handle-require :
      passes (validate_ready_handle (batch_handle_to_proto h)) ≡ passes (require_ready_fetch_info h)
  validate_ready_handle-require = passes_alike h.status h.payload_format
