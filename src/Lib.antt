-- ===== src/Lib.antt =====
-- BatchFlow: a coordinator that plans the batches of training jobs, has workers materialize them, keeps the
-- payloads for reuse and hands them to the trainers; with the baselines that it is compared to.
--
-- Parts and how they interact. A dataset and the jobs on it are registered in the coordinator's store. The
-- epoch planner cuts the samples of an epoch into batches and gives a job its next ones; the store keeps
-- them as the job's planned window. The scheduler scores batches, builds materialization tasks and chooses
-- the task that a worker is given; the store tracks tasks, the payloads they produce, the handles of ready
-- batches, and the pins that keep a payload while a job uses it. A client that asks for a batch is answered
-- by the scheduler from the store. A worker keeps payload bytes in a store of its own. The coordinator's service
-- joins these parts: its calls serve trainers and workers, and its background passes clean up, schedule the tasks of
-- each job and prefetch for workers that are free. In a trainer's process the prefetcher asks for handles, fetches
-- payloads in several threads and puts the batches in order again.
--
-- Files.
-- Base, Dict, Exec, Floats: what the components share. Numbers are natural numbers and integers of any size,
-- as Python's are; Dict is Python's dict and set with text keys; Exec is a method that changes an object and
-- may raise; Floats is the interface of Python's float, with no law assumed but where a theorem names it.
-- Core: batchflow/common/core.py and payload_formats.py, the records and enumerations; Core/Fetch the checks
-- of a handle.
-- Store: batchflow/coordinator/store.py. Store/State has the records, Jobs, Metrics, Plans, Tasks and Payloads
-- the methods of CoordinatorStore under their names, Calls the runs of calls. Store/Frame, Pins, Live, Index,
-- Progress, Windows and Completion are proofs.
-- Planner: batchflow/coordinator/batch_coordinator.py; Planner/Splits and Planner/Epochs are proofs.
-- Scheduler: batchflow/coordinator/scheduler.py. Value, Choose, Handles and Ready are the methods; Depth, Selection
-- and Answers are proofs.
-- Cache: batchflow/coordinator/cache_manager.py, with the admission of a payload in Cache/Admission; Victims,
-- Evictions, Rooms and Lowers are proofs.
-- Service: batchflow/coordinator/service.py. Trainers, Workers, Window and Maintenance are the calls and passes;
-- Handing, Delivery, Acknowledged, Fits, Expiry and Spare are proofs.
-- Proto: batchflow/common/proto_conversions.py; Proto/Messages the messages of batchflow/proto/batchflow.proto, and
-- RoundTrips proofs.
-- Prefetcher: batchflow/integrations/pytorch/prefetcher.py, its threads in Pipeline, and the trainer's side in
-- Session; Positions, Order, Moves, Ends, Closing, Threads, Located, Progress, Outcome, Polls and Handles are proofs.
-- PayloadStore: batchflow/data_worker/payload_store.py, with proofs in Cleanup.
-- CoordlPlan: experiments/baselines/coordl/plan.py, with proofs in Shares.
-- Staging: experiments/baselines/coordl/staging.py, with proofs in Uses.
-- Tests: example data, tests, and the theorems at concrete inputs.
--
-- Conventions. The clock (now_ms) and new ids (make_id) are arguments. Shuffling by random.Random and
-- torch.randperm are parameters; a theorem that needs them to permute, or to keep the length, says so. A
-- method that holds the store's lock from its first to its last line is one step, so that the interleavings
-- of threads are sequences of calls. A loop over a range is recursion on the number of its rounds; the while
-- loop of the CoorDL plan has as fuel the number of batches wanted, since each round plans one or raises,
-- and the theorem on it proves that this is enough. A call or a pass of the service runs as if no other one ran in
-- between. The prefetcher's threads are events in any order, up to the first error or stop. Their
-- queues hold at most max(1, max_ready_batches) items, there are max(1, parallel_fetch_workers) fetch threads, and a
-- thread that waits on a full or an empty queue is an event that cannot happen.
--
-- Not modelled: errors of the prefetcher and the stopping of its threads, the gRPC clients and services, the
-- polling loop of the CoorDL staging store, the range of a message's integers, and code that is input and
-- output: data worker threads, S3 and Redis access, deployment, experiments, generated code.
pub mod Base
pub mod Dict
pub mod Core
pub mod Exec
pub mod Floats
pub mod Store
pub mod Planner
pub mod Scheduler
pub mod Cache
pub mod Service
pub mod PayloadStore
pub mod Proto
pub mod Prefetcher
pub mod CoordlPlan
pub mod Staging
pub mod Tests
