-- ===== src/Core.antt =====
-- batchflow/common/core.py, batchflow/common/payload_formats.py: the records that the coordinator keeps and
-- passes around. Every model type over the program's floats takes their type `F` as a parameter.
-- `dict[str, Any]` holds texts, integers, flags and payload formats. Time is an argument `now`.
pub mod Fetch
use ad_artifacts.Base.{
  ◌⊎◌, ◌≡◌, refl, inl, inr, ℕ, suc, ◌+◌, String, Bool, true, false, Option, none, some, List, [],
  ◌∷◌, ◌==◌, leb, if◌then◌else◌,
}
use ad_artifacts.Base.Int.{ℤ, pos, negsuc}
use ad_artifacts.Base.Decimal.{show_ℤ}
use ad_artifacts.Dict.{Dict}

pub data PayloadFormat : Type 0 where
  torch_batch : PayloadFormat

pub data Value : Type 0 where
  text : String → Value
  int : ℤ → Value
  flag : Bool → Value
  format : PayloadFormat → Value

-- str(value)
unfoldable pub str : Value → String
str (text s) = s
str (int n) = show_ℤ n
str (flag true) = "True"
str (flag false) = "False"
str (format torch_batch) = "PayloadFormat.TORCH_BATCH"

abbrev pub Metadata : Type 0
Metadata = Dict Value

pub data StorageClass : Type 0 where
  reusable transient : StorageClass

pub data PayloadStatus : Type 0 where
  pending available failed evicted : PayloadStatus

pub data TaskStatus : Type 0 where
  pending running completed failed cancelled : TaskStatus

pub data JobStatus : Type 0 where
  active completed cancelled failed : JobStatus

pub record Worker : Type 0 where
  pub worker_id : String
  pub hostname : String
  pub registered_at_ms : ℕ
  pub last_heartbeat_at_ms : ℕ
  pub active_task_ids : List String
  pub metadata : Metadata

pub record Sample : Type 0 where
  pub sample_id : String
  pub source_uri : String
  pub label : Option ℤ
  pub class_name : Option String
  pub transform_name : Option String

pub record Dataset : Type 0 where
  pub dataset_id : String
  pub samples : List Sample
  pub batch_size : ℤ
  pub payload_format : PayloadFormat
  pub dataset_format : String
  pub drop_last : Bool
  pub shuffle : Bool
  pub seed : ℤ
  pub transform_name : Option String
  pub metadata : Metadata

pub record Batch : Type 0 where
  pub batch_id : String
  pub dataset_id : String
  pub epoch : ℕ
  pub batch_index : ℕ
  pub batch_size : ℤ
  pub samples : List Sample
  pub planned_at_ms : ℕ
  pub transform_name : Option String
  pub metadata : Metadata

abbrev pub cache_key : Batch → String
cache_key b = b.batch_id

pub record MaterializeBatchTask (F : Type 0) : Type 0 where
  pub task_id : String
  pub batch : Batch
  pub job_id : String
  pub priority : F
  pub storage_class : StorageClass
  pub payload_format : PayloadFormat
  pub dataset_format : String
  pub created_at_ms : ℕ
  pub not_before_ms : ℕ
  pub metadata : Metadata

pub record PayloadEntry : Type 0 where
  pub cache_key : String
  pub status : PayloadStatus
  pub storage_class : StorageClass
  pub location : Option String
  pub size_bytes : ℤ
  pub worker_id : Option String
  pub created_at_ms : ℕ
  pub last_accessed_at_ms : ℕ
  pub expires_at_ms : Option ℤ
  pub access_count : ℕ
  pub metadata : Metadata

-- PayloadEntry.touch
unfoldable pub touch_entry : ℕ → PayloadEntry → PayloadEntry
touch_entry now e = record e { last_accessed_at_ms = now; access_count = e.access_count + 1 }

pub record JobProgress : Type 0 where
  pub epoch : ℕ
  pub next_batch_index : ℕ
  pub last_batch_id : String
  pub last_batch_index : ℤ
  pub updated_at_ms : ℕ

unfoldable pub advance_to_next_epoch : ℕ → JobProgress → JobProgress
advance_to_next_epoch now p = record {
  epoch = p.epoch + 1;
  next_batch_index = 0;
  last_batch_id = "";
  last_batch_index = negsuc 0;
  updated_at_ms = now;
}

unfoldable pub advance : ℕ → String → ℕ → JobProgress → JobProgress
advance now batch_id batch_index p = record p {
  next_batch_index = batch_index + 1;
  last_batch_id = batch_id;
  last_batch_index = pos batch_index;
  updated_at_ms = now;
}

pub record Job : Type 0 where
  pub job_id : String
  pub dataset_id : String
  pub lookahead_batches : ℤ
  pub progress : JobProgress
  pub status : JobStatus
  pub closed_reason : String
  pub metadata : Metadata

-- Job.create
unfoldable pub create_job : ℕ → String → String → ℤ → Metadata → Job
create_job now job_id dataset_id lookahead_batches metadata = record {
  job_id = job_id;
  dataset_id = dataset_id;
  lookahead_batches = lookahead_batches;
  progress = record {
    epoch = 0;
    next_batch_index = 0;
    last_batch_id = "";
    last_batch_index = negsuc 0;
    updated_at_ms = now;
  };
  status = JobStatus.active;
  closed_reason = "";
  metadata = metadata;
}

pub data HandleStatus : Type 0 where
  pending ready failed : HandleStatus

pub record BatchHandle : Type 0 where
  pub batch_id : String
  pub cache_key : String
  pub status : HandleStatus
  pub fetch_host : String
  pub fetch_port : ℤ
  pub fetch_key : String
  pub payload_format : Option PayloadFormat
  pub dataset_format : String
  pub location : String
  pub expires_at_ms : Option ℤ
  pub metadata : Metadata

-- The exceptions that the modelled code raises, with what their messages name.
pub data Error : Type 0 where
  unknown_dataset unknown_job unknown_job_metrics unknown_worker unknown_task : String → Error
  job_already_exists no_such_key : String → Error
  bad_batch_size : ℤ → Error
  invalid_value : String → Error
  handle_not_ready missing_fetch_key missing_payload_format missing_dataset_format : Error
  missing_fetch_host invalid_fetch_port unsupported_location : Error
  acknowledgement_ahead reuse_disabled : Error
  batch_failed missing_fetch_information : Error
  unexpected_status : ℤ → Error
  invalid_setting : String → Error

pub data Result {ℓ} (A : Type ℓ) : Type ℓ where
  ok : A → Result A
  raise : Error → Result A

infixl 5 ◌>>=◌ ◌>>◌
abbrev pub ◌>>=◌ {ℓ κ} : {A : Type ℓ} {B : Type κ} → Result A → (A → Result B) → Result B
ok a >>= f = f a
raise e >>= f = raise e

abbrev pub ◌>>◌ {ℓ} : {B : Type ℓ} → Result (Unit {0}) → Result B → Result B
m >> k = m >>= λ _. k

-- `if not present: raise error`
abbrev pub or_raise {ℓ} : {A : Type ℓ} → Option A → Error → Result A
or_raise none e = raise e
or_raise (some a) e = ok a

abbrev pub check : Bool → Error → Result (Unit {0})
check true e = ok tt
check false e = raise e

pub Result-cases {ℓ} :
    {A : Type ℓ} (r : Result A) → ((e : Error) × (r ≡ raise e)) ⊎ ((a : A) × (r ≡ ok a))
Result-cases (raise e) = inl (e, refl)
Result-cases (ok a) = inr (a, refl)
