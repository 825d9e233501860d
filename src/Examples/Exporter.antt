-- ===== src/Examples/Exporter.antt =====
-- A queue with one chunk, and a worker that waits.
use dd_trace_rs.Prelude.{ℕ, ◌≡◌, refl, inl, inr, true, false, none, some, List, [], ◌∷◌, ◌++◌}
use dd_trace_rs.Prelude.Text.{codes}
use dd_trace_rs.Tracer.Processor.{SpanData}
use dd_trace_rs.Exporter.{
  SharedState, channel, add_trace_chunk, get_running_state, ready, batch_add, trigger_flush, export,
  span_flush_threshold, max_buffered_spans,
}
use dd_trace_rs.Exporter.Services.{ExtraServices}
use dd_trace_rs.Exporter.Worker.{Worker, System, Step, step, run}
use dd_trace_rs.Exporter.Worker.Rounds.{chunks_of, all_chunks}
use dd_trace_rs.Exporter.Worker.Delivery.{accepted, all_chunks-run}
use dd_trace_rs.Exporter.Worker.Progress.{everything_is_sent}
use dd_trace_rs.Examples.Exact.{exact}
use dd_trace_rs.Examples.Names.{ascii}

abbrev services : ExtraServices
services = record {
  remote_config_enabled = true;
  main_service = codes "shop";
  extra_services_sent = [];
  extra_services_queue = some [];
}

abbrev small : SpanData exact
small = record {
  span_context = record {
    trace_id = 1;
    span_id = 2;
    trace_flags = 1;
    is_remote = false;
    trace_state = none;
  };
  attributes = [];
}

abbrev started : System exact ℕ
started = record {
  shared = channel exact ℕ max_buffered_spans services 0;
  worker = Worker.checking;
  otel_resource = 7;
  sent = [];
}

abbrev traffic : List (Step exact ℕ)
traffic =
    Step.check 1
    ∷ Step.send_chunk (small ∷ [])
    ∷ Step.send_flush
    ∷ Step.wake false 2
    ∷ Step.check 3
    ∷ Step.send_chunk (small ∷ small ∷ [])
    ∷ []

all_chunks-run_example :
    all_chunks exact ℕ (run exact ℕ ascii span_flush_threshold traffic started)
    ≡ all_chunks exact ℕ started ++ accepted exact ℕ ascii span_flush_threshold traffic started
all_chunks-run_example = all_chunks-run exact ℕ ascii span_flush_threshold traffic started

-- Two chunks are accepted in it, and the first has been sent.
two_accepted :
    accepted exact ℕ ascii span_flush_threshold traffic started
    ≡ (small ∷ []) ∷ (small ∷ small ∷ []) ∷ []
unfolding accepted add_trace_chunk get_running_state step channel ready batch_add trigger_flush
    export
two_accepted = refl

one_sent :
    chunks_of exact ℕ (run exact ℕ ascii span_flush_threshold traffic started).sent
    ≡ (small ∷ []) ∷ []
unfolding run channel ready trigger_flush get_running_state add_trace_chunk batch_add export
one_sent = refl

abbrev requested : SharedState exact ℕ
requested = record (channel exact ℕ max_buffered_spans services 0) {
  flush_needed = true;
  resource = some 9;
}

abbrev waiting : System exact ℕ
waiting = record {
  shared = record requested {
    batch = record requested.batch { chunks = (small ∷ []) ∷ []; span_count = 1 };
  };
  worker = Worker.waiting;
  otel_resource = 7;
  sent = [];
}

everything_is_sent_example :
    chunks_of exact ℕ
      (run exact ℕ ascii span_flush_threshold
        (Step.wake false 1 ∷ Step.check 2 ∷ Step.check 3 ∷ [])
        waiting).sent
    ≡ all_chunks exact ℕ waiting
unfolding channel
everything_is_sent_example =
    everything_is_sent exact ℕ ascii span_flush_threshold 1 2 3 waiting (inr refl)
      (record { sound = refl; asked = inl refl })
