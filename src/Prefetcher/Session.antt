-- ===== src/Prefetcher/Session.antt =====
-- The trainer's side of batchflow/integrations/pytorch/prefetcher.py: taking items from the ready queue, and
-- closing the job. An exception of the coordinator's `finish_job` is only logged by the code.
use ad_artifacts.Base.{Bool, true, false, String, List, [], ◌∷◌, ◌++◌, if◌then◌else◌}
use ad_artifacts.Core.{JobStatus}
use ad_artifacts.Prefetcher.Pipeline.{ReadyItem}

-- `finished` are the calls of `finish_job`, with status and reason, and `got` the items that were taken.
pub record Session (F B : Type 0) : Type 0 where
  pub completed_normally : Bool
  pub is_shutdown : Bool
  pub job_closed : Bool
  pub connected : Bool
  pub finished : List (JobStatus × String)
  pub got : List (ReadyItem F B)

pub data SessionCall (F B : Type 0) : Type 0 where
  connect : SessionCall F B
  get_item : ReadyItem F B → SessionCall F B
  shutdown : SessionCall F B
  close_job : SessionCall F B

-- The status and the reason that a job is finished with.
abbrev pub outcome : Bool → JobStatus × String
outcome completed_normally =
    if completed_normally
    then (JobStatus.completed, "PyTorch iterator completed")
    else (JobStatus.cancelled, "PyTorch iterator closed")

module _ {F B : Type 0} where
  unfoldable pub new_session : Session F B
  new_session = record {
    completed_normally = false;
    is_shutdown = false;
    job_closed = false;
    connected = false;
    finished = [];
    got = [];
  }

  abbrev pub is_end_item : ReadyItem F B → Bool
  is_end_item (ReadyItem.batch_item r) = false
  is_end_item ReadyItem.end_item = true

  unfoldable pub take_item : ReadyItem F B → Session F B → Session F B
  take_item item s = record s {
    completed_normally = if is_end_item item then true else s.completed_normally;
    got = s.got ++ (item ∷ []);
  }

  unfoldable pub finish_session_job : Session F B → Session F B
  finish_session_job s =
      if s.job_closed
      then s
      else if s.connected
      then record s {
        job_closed = true;
        finished = s.finished ++ (outcome s.completed_normally ∷ []);
      }
      else record s { job_closed = true }

  abbrev pub close_coordinator_client : Session F B → Session F B
  close_coordinator_client s = record s { connected = false }

  unfoldable pub shutdown_session : Bool → Session F B → Session F B
  shutdown_session finish_job_on_close s =
      let stopped : Session F B = record s { is_shutdown = true } in
      if s.is_shutdown
      then s
      else close_coordinator_client
          (if finish_job_on_close then finish_session_job stopped else stopped)

  unfoldable pub session_step : Bool → SessionCall F B → Session F B → Session F B
  session_step finish_job_on_close SessionCall.connect s = record s { connected = true }
  session_step finish_job_on_close (SessionCall.get_item item) s = take_item item s
  session_step finish_job_on_close SessionCall.shutdown s = shutdown_session finish_job_on_close s
  session_step finish_job_on_close SessionCall.close_job s =
      close_coordinator_client (finish_session_job s)

  unfoldable pub run_session : Bool → List (SessionCall F B) → Session F B → Session F B
  run_session finish_job_on_close [] s = s
  run_session finish_job_on_close (c ∷ cs) s =
      run_session finish_job_on_close cs (session_step finish_job_on_close c s)
