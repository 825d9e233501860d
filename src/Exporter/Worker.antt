-- ===== src/Exporter/Worker.antt =====
-- `TraceExporterWorker::run` of datadog-opentelemetry/src/span_exporter.rs beside the threads that send:
-- a step is what one thread does between two releases of the lock.
pub mod Rounds
pub mod Delivery
pub mod Progress
use dd_trace_rs.Prelude.{ℕ, Bool, List, [], ◌∷◌, ◌++◌, Option, none, some, if◌then◌else◌, is_empty}
use dd_trace_rs.Sampler.Float.{Float}
use dd_trace_rs.Mapping.Value.{OpenTelemetry}
use dd_trace_rs.Exporter.{
  SenderError, Chunk, SharedState, TraceExporterMessage, add_trace_chunk, set_resource,
  trigger_flush, trigger_shutdown, fetch_metrics, shutdown_done, ready, on_timeout,
}

-- Where the worker is: at the head of the loop of `receive`, in its wait, past the loop of `run` but
-- with its `Receiver` still there, or ended.
pub data Worker : Type 0 where
  checking : Worker
  waiting : Worker
  closing : Worker
  stopped : Worker

module _ (float : Float) (Resource : Type 0) where
  -- The worker's own state beside the shared one. `sent` is what `export_trace_chunks` was called with,
  -- and the resource at that time.
  pub record System : Type 0 where
    pub shared : SharedState float Resource
    pub worker : Worker
    pub otel_resource : Resource
    pub sent : List (Resource × List (Chunk float))

  pub data Step : Type 0 where
    send_chunk : Chunk float → Step
    send_resource : Resource → Step
    send_flush : Step
    send_shutdown : Step
    fetch : Step
    -- The head of the loop, at an instant.
    check : ℕ → Step
    -- The end of a wait, which timed out or not, at an instant.
    wake : Bool → ℕ → Step
    close : Step

  -- The call of `export_trace_chunks`, for data that is not empty.
  unfoldable pub export_trace_chunks : List (Chunk float) → System → System
  export_trace_chunks chunks y =
      if is_empty chunks then y else record y { sent = y.sent ++ (y.otel_resource, chunks) ∷ [] }

  -- The match on the message.
  unfoldable pub on_message : TraceExporterMessage float Resource → System → System
  on_message TraceExporterMessage.shutdown y = record y { worker = closing }
  on_message TraceExporterMessage.flush_trace_chunks y = record y { worker = checking }
  on_message TraceExporterMessage.flush_trace_chunks_with_timeout y = record y { worker = checking }
  on_message (TraceExporterMessage.set_resource_to r) y = record y {
    worker = checking;
    otel_resource = r;
  }

  -- One round of the loop of `run`, once `receive` has returned.
  unfoldable pub handle :
      TraceExporterMessage float Resource × List (Chunk float) × SharedState float Resource
      → System
      → System
  unfolding export_trace_chunks on_message
  handle (message, chunks, s) y =
      on_message message (export_trace_chunks chunks (record y { shared = s }))

  unfoldable pub on_check :
      Option (TraceExporterMessage float Resource × List (Chunk float) × SharedState float Resource)
      → System
      → System
  unfolding handle
  on_check (some received) y = handle received y
  on_check none y = record y { worker = waiting }

  -- `receive` fails on a poisoned lock, and the loop of `run` ends.
  unfoldable pub check_round : ℕ → System → System
  unfolding on_check
  check_round now y =
      if y.shared.poisoned
      then record y { worker = closing }
      else on_check (ready float Resource now y.shared) y

  -- A wait that ends on a poisoned lock panics.
  unfoldable pub wake_round : Bool → ℕ → System → System
  unfolding handle
  wake_round timed_out now y =
      if y.shared.poisoned
      then record y { worker = stopped }
      else if timed_out
      then handle (on_timeout float Resource now y.shared) y
      else record y { worker = checking }

  -- What a step does where the worker stands; it does nothing elsewhere.
  unfoldable pub worker_step : Step → Worker → System → System
  unfolding check_round wake_round
  worker_step (check now) checking y = check_round now y
  worker_step (wake timed_out now) waiting y = wake_round timed_out now y
  worker_step close closing y = record y {
    worker = stopped;
    shared = shutdown_done float Resource y.shared;
  }
  worker_step other at y = y

  module _ (otel : OpenTelemetry float) (flush_trigger : ℕ) where
    unfoldable pub step : Step → System → System
    unfolding worker_step
    step (send_chunk chunk) y = record y {
      shared = (add_trace_chunk float Resource otel flush_trigger chunk y.shared).1;
    }
    step (send_resource r) y = record y { shared = (set_resource float Resource r y.shared).1 }
    step send_flush y = record y { shared = (trigger_flush float Resource y.shared).1 }
    step send_shutdown y = record y { shared = (trigger_shutdown float Resource y.shared).1 }
    step fetch y = record y { shared = (fetch_metrics float Resource y.shared).1 }
    step other y = worker_step other y.worker y

    unfoldable pub run : List Step → System → System
    unfolding step
    run [] y = y
    run (s ∷ steps) y = run steps (step s y)
