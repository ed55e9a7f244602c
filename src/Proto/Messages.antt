-- ===== src/Proto/Messages.antt =====
-- The messages of batchflow/proto/batchflow.proto that are modelled: a message is a record of its fields, and an
-- enum is its number. The integers are taken to fit the fields, and those that count something are natural numbers.
use ad_artifacts.Base.{ℕ, String, Bool, List}
use ad_artifacts.Base.Int.{ℤ}

pub record KeyValue : Type 0 where
  pub key : String
  pub value : String

pub record SampleMessage : Type 0 where
  pub sample_id : String
  pub source_uri : String
  pub label : ℤ
  pub class_name : String
  pub transform_name : String
  pub has_label : Bool

pub record DatasetMessage : Type 0 where
  pub dataset_id : String
  pub samples : List SampleMessage
  pub batch_size : ℤ
  pub drop_last : Bool
  pub shuffle : Bool
  pub seed : ℤ
  pub transform_name : String
  pub metadata : List KeyValue
  pub payload_format : String
  pub dataset_format : String

pub record BatchMessage : Type 0 where
  pub batch_id : String
  pub dataset_id : String
  pub epoch : ℕ
  pub batch_index : ℕ
  pub batch_size : ℤ
  pub samples : List SampleMessage
  pub planned_at_ms : ℕ
  pub transform_name : String
  pub metadata : List KeyValue

pub record BatchHandleMessage : Type 0 where
  pub batch_id : String
  pub cache_key : String
  pub status : ℤ
  pub fetch_host : String
  pub fetch_port : ℤ
  pub fetch_key : String
  pub payload_format : String
  pub dataset_format : String
  pub location : String
  pub expires_at_ms : ℤ
  pub metadata : List KeyValue

pub record MaterializeBatchTaskMessage (F : Type 0) : Type 0 where
  pub task_id : String
  pub batch : BatchMessage
  pub job_id : String
  pub priority : F
  pub storage_class : ℤ
  pub created_at_ms : ℕ
  pub not_before_ms : ℕ
  pub metadata : List KeyValue
  pub payload_format : String
  pub dataset_format : String
