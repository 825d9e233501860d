-- ===== src/Exporter/Worker/Delivery.antt =====
-- What becomes of the chunks that the queue accepts.
use dd_trace_rs.Prelude.{
  ℕ, ◌≡◌, refl, sym, ap, ◌∙◌, true, List, [], ◌∷◌, ◌++◌, append-nil, append_assoc, Option, none,
  some, if◌then◌else◌, is_empty, is_some, ltb, Bool-cases, inl, inr,
}
use dd_trace_rs.Sampler.Float.{Float}
use dd_trace_rs.Mapping.Value.{OpenTelemetry}
use dd_trace_rs.Exporter.{
  SenderError, Chunk, Batch, SharedState, add_trace_chunk, set_resource, trigger_flush,
  trigger_shutdown, fetch_metrics, batch_add, get_running_state, queued, or_error,
}
use dd_trace_rs.Exporter.Worker.{System, Step, step, run}
use dd_trace_rs.Exporter.Worker.Rounds.{chunks_of, all_chunks, all_chunks-worker_step}

module _ (float : Float) (Resource : Type 0) where
  or_error-chunks :
      (e : Option SenderError) (s : SharedState float Resource)
      (answer : Option SenderError × SharedState float Resource)
      → answer.1.batch.chunks ≡ s.batch.chunks
      → (or_error float Resource e s answer).1.batch.chunks ≡ s.batch.chunks
  or_error-chunks none s answer h = h
  or_error-chunks (some e) s answer h = refl

  fetch_metrics-chunks :
      (s : SharedState float Resource)
      → (fetch_metrics float Resource s).1.batch.chunks ≡ s.batch.chunks
  unfolding fetch_metrics
  fetch_metrics-chunks s = elim (Bool-cases s.poisoned) [ inl e ↦ rw e refl | inr e ↦ rw e refl ]

  -- A chunk whose adding gave no error, unless it is empty.
  abbrev pub taken_if : {E : Type 0} → Chunk float → Option E → List (Chunk float)
  taken_if c error = if is_empty c then [] else if is_some error then [] else c ∷ []

  module _ (otel : OpenTelemetry float) (flush_trigger : ℕ) where
    -- The chunk of a call of `add_trace_chunk` that succeeds, unless it is empty.
    unfoldable pub taken : Step float Resource → System float Resource → List (Chunk float)
    taken (Step.send_chunk c) y =
        taken_if c (add_trace_chunk float Resource otel flush_trigger c y.shared).0
    taken other y = []

    -- The chunks that are accepted in a run, in order.
    unfoldable pub accepted :
        List (Step float Resource) → System float Resource → List (Chunk float)
    unfolding taken
    accepted [] y = []
    accepted (s ∷ steps) y =
        taken s y ++ accepted steps (step float Resource otel flush_trigger s y)

    batch_add-chunks :
        (c : Chunk float) (b : Batch float)
        → (batch_add float otel c b).1.chunks ≡ b.chunks ++ taken_if c (batch_add float otel c b).0
    unfolding batch_add
    batch_add-chunks c b = elim (Bool-cases (is_empty c)) [
      | inl g ↦ elim (Bool-cases (ltb b.max_buffered_spans b.span_count)) [
        | inl f ↦ rw (f, g) (sym (append-nil b.chunks))
        | inr f ↦ rw (f, g) (sym (append-nil b.chunks))
      ]
      | inr g ↦ elim (Bool-cases (ltb b.max_buffered_spans b.span_count)) [
        | inl f ↦ rw (f, g) (sym (append-nil b.chunks))
        | inr f ↦ rw (f, g) refl
      ]
    ]

    queued-chunks :
        (c : Chunk float) (answer : Option ℕ) (b : Batch float) (s : SharedState float Resource)
        → b.chunks ≡ s.batch.chunks ++ taken_if c answer
        → let (error, s') = queued float Resource otel flush_trigger c (answer, b) s in
          s'.batch.chunks ≡ s.batch.chunks ++ taken_if c error
    unfolding queued
    queued-chunks c none b s h = h
    queued-chunks c (some n) b s h = h

    or_error-taken :
        (e : Option SenderError) (c : Chunk float) (s : SharedState float Resource)
        (answer : Option SenderError × SharedState float Resource)
        → answer.1.batch.chunks ≡ s.batch.chunks ++ taken_if c answer.0
        → let (error, s') = or_error float Resource e s answer in
          s'.batch.chunks ≡ s.batch.chunks ++ taken_if c error
    or_error-taken none c s answer h = h
    or_error-taken (some e) c s answer h = elim (Bool-cases (is_empty c)) [
      | inl g ↦ rw g (sym (append-nil s.batch.chunks))
      | inr g ↦ rw g (sym (append-nil s.batch.chunks))
    ]

    add_trace_chunk-chunks :
        (c : Chunk float) (y : System float Resource)
        → (add_trace_chunk float Resource otel flush_trigger c y.shared).1.batch.chunks
          ≡ y.shared.batch.chunks ++ taken (Step.send_chunk c) y
    unfolding taken add_trace_chunk
    add_trace_chunk-chunks c y =
        let s = y.shared in
        let added = batch_add float otel c s.batch in
        or_error-taken (get_running_state float Resource s) c s
          (queued float Resource otel flush_trigger c added s)
          (queued-chunks c added.0 added.1 s (batch_add-chunks c s.batch))

    all_chunks-shared :
        (y : System float Resource) (s : SharedState float Resource) (cs : List (Chunk float))
        → s.batch.chunks ≡ y.shared.batch.chunks ++ cs
        → all_chunks float Resource (record y { shared = s }) ≡ all_chunks float Resource y ++ cs
    all_chunks-shared y s cs e =
        ap (λ ds. chunks_of float Resource y.sent ++ ds) e
        ∙ sym (append_assoc (chunks_of float Resource y.sent) y.shared.batch.chunks cs)

    all_chunks-same :
        (y : System float Resource) (s : SharedState float Resource)
        → s.batch.chunks ≡ y.shared.batch.chunks
        → all_chunks float Resource (record y { shared = s }) ≡ all_chunks float Resource y ++ []
    all_chunks-same y s e = all_chunks-shared y s [] (e ∙ sym (append-nil y.shared.batch.chunks))

    all_chunks-step :
        (s : Step float Resource) (y : System float Resource)
        → all_chunks float Resource (step float Resource otel flush_trigger s y)
          ≡ all_chunks float Resource y ++ taken s y
    unfolding step taken set_resource trigger_flush trigger_shutdown
    all_chunks-step (Step.send_chunk c) y =
        all_chunks-shared y (add_trace_chunk float Resource otel flush_trigger c y.shared).1
          (taken (Step.send_chunk c) y) (add_trace_chunk-chunks c y)
    all_chunks-step (Step.send_resource r) y =
        all_chunks-same y (set_resource float Resource r y.shared).1 (
          or_error-chunks (get_running_state float Resource y.shared) y.shared
            (none, record y.shared { resource = some r }) refl)
    all_chunks-step Step.send_flush y =
        all_chunks-same y (trigger_flush float Resource y.shared).1 (
          or_error-chunks (get_running_state float Resource y.shared) y.shared
            (none, record y.shared { flush_needed = true }) refl)
    all_chunks-step Step.send_shutdown y =
        all_chunks-same y (trigger_shutdown float Resource y.shared).1 (
          or_error-chunks (get_running_state float Resource y.shared) y.shared
            (none, record y.shared { shutdown_needed = true }) refl)
    all_chunks-step Step.fetch y =
        all_chunks-same y (fetch_metrics float Resource y.shared).1 (fetch_metrics-chunks y.shared)
    all_chunks-step (Step.check now) y =
        all_chunks-worker_step float Resource (Step.check now) y.worker y ∙ sym (append-nil _)
    all_chunks-step (Step.wake b now) y =
        all_chunks-worker_step float Resource (Step.wake b now) y.worker y ∙ sym (append-nil _)
    all_chunks-step Step.close y =
        all_chunks-worker_step float Resource Step.close y.worker y ∙ sym (append-nil _)

    -- Whatever the senders and the worker do, in whatever order, every chunk that the queue accepts is
    -- handed to the trace exporter once, in the order of acceptance, or waits in the batch.
    pub all_chunks-run :
        (steps : List (Step float Resource)) (y : System float Resource)
        → all_chunks float Resource (run float Resource otel flush_trigger steps y)
          ≡ all_chunks float Resource y ++ accepted steps y
    unfolding run accepted
    all_chunks-run [] y = sym (append-nil _)
    all_chunks-run (s ∷ steps) y =
        let later = step float Resource otel flush_trigger s y in
        all_chunks-run steps later
        ∙ ap (λ cs. cs ++ accepted steps later) (all_chunks-step s y)
        ∙ append_assoc (all_chunks float Resource y) (taken s y) (accepted steps later)
