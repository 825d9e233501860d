-- ===== src/Exporter/Worker/Rounds.antt =====
-- The chunks through the rounds of the worker.
use dd_trace_rs.Prelude.{
  ℕ, ◌≡◌, refl, sym, ap, ◌∙◌, Bool, true, false, List, [], ◌∷◌, ◌++◌, append-nil, append_assoc,
  Option, none, some, if◌then◌else◌, Bool-cases, Option-cases, inl, inr,
}
use dd_trace_rs.Sampler.Float.{Float}
use dd_trace_rs.Exporter.{
  Chunk, SharedState, TraceExporterMessage, shutdown_done, ready, on_timeout, export,
}
use dd_trace_rs.Exporter.Worker.{
  Worker, System, Step, export_trace_chunks, on_message, handle, on_check, check_round, wake_round,
  worker_step,
}

module _ (float : Float) (Resource : Type 0) where
  abbrev pub chunks_of : List (Resource × List (Chunk float)) → List (Chunk float)
  chunks_of [] = []
  chunks_of ((r, chunks) ∷ sent) = chunks ++ chunks_of sent

  chunks_of-append :
      (sent : List (Resource × List (Chunk float))) (r : Resource) (chunks : List (Chunk float))
      → chunks_of (sent ++ (r, chunks) ∷ []) ≡ chunks_of sent ++ chunks
  chunks_of-append [] r chunks = append-nil chunks
  chunks_of-append ((_, first) ∷ sent) r chunks =
      rw (chunks_of-append sent r chunks) (sym (append_assoc first (chunks_of sent) chunks))

  -- The chunks that were handed to the trace exporter, in order, then those that wait in the batch.
  abbrev pub all_chunks : System float Resource → List (Chunk float)
  all_chunks y = chunks_of y.sent ++ y.shared.batch.chunks

  all_chunks-on_message :
      (m : TraceExporterMessage float Resource) (y : System float Resource)
      → all_chunks (on_message float Resource m y) ≡ all_chunks y
  unfolding on_message
  all_chunks-on_message TraceExporterMessage.shutdown y = refl
  all_chunks-on_message TraceExporterMessage.flush_trace_chunks y = refl
  all_chunks-on_message TraceExporterMessage.flush_trace_chunks_with_timeout y = refl
  all_chunks-on_message (TraceExporterMessage.set_resource_to r) y = refl

  all_chunks-export :
      (chunks : List (Chunk float)) (y : System float Resource)
      → all_chunks (export_trace_chunks float Resource chunks y)
        ≡ chunks_of y.sent ++ (chunks ++ y.shared.batch.chunks)
  unfolding export_trace_chunks
  all_chunks-export [] y = refl
  all_chunks-export (c ∷ chunks) y =
      rw (chunks_of-append y.sent y.otel_resource (c ∷ chunks))
        (append_assoc (chunks_of y.sent) (c ∷ chunks) y.shared.batch.chunks)

  all_chunks-handle :
      (m : TraceExporterMessage float Resource) (chunks : List (Chunk float))
      (s : SharedState float Resource) (y : System float Resource)
      → chunks ++ s.batch.chunks ≡ y.shared.batch.chunks
      → all_chunks (handle float Resource (m, chunks, s) y) ≡ all_chunks y
  unfolding handle
  all_chunks-handle m chunks s y e =
      all_chunks-on_message m _
      ∙ all_chunks-export chunks (record y { shared = s })
      ∙ ap (λ cs. chunks_of y.sent ++ cs) e

  -- What `receive` returns is taken from the batch.
  abbrev FromBatch :
      SharedState float Resource
      → Option
          (TraceExporterMessage float Resource × List (Chunk float) × SharedState float Resource)
      → Type 0
  FromBatch s none = s ≡ s
  FromBatch s (some (m, chunks, s')) = chunks ++ s'.batch.chunks ≡ s.batch.chunks

  ready-FromBatch :
      (now : ℕ) (s : SharedState float Resource) → FromBatch s (ready float Resource now s)
  unfolding ready export
  ready-FromBatch now s = elim (Option-cases s.resource) [
    | inr (r, e) ↦ rw e refl
    | inl e ↦ elim (Bool-cases s.shutdown_needed) [
      | inl e' ↦ rw (e, e') (append-nil s.batch.chunks)
      | inr e' ↦ elim (Bool-cases s.flush_needed) [
        | inl f ↦ rw (e, e', f) (append-nil s.batch.chunks)
        | inr f ↦ rw (e, e', f) refl
      ]
    ]
  ]

  all_chunks-if :
      (b : Bool) (x z : System float Resource) (cs : List (Chunk float))
      → all_chunks x ≡ cs
      → all_chunks z ≡ cs
      → all_chunks (if b then x else z) ≡ cs
  all_chunks-if true x z cs e e' = e
  all_chunks-if false x z cs e e' = e'

  all_chunks-on_check :
      (o : Option
        (TraceExporterMessage float Resource × List (Chunk float) × SharedState float Resource))
      (y : System float Resource)
      → FromBatch y.shared o
      → all_chunks (on_check float Resource o y) ≡ all_chunks y
  unfolding on_check
  all_chunks-on_check none y e = refl
  all_chunks-on_check (some (m, chunks, s)) y e = all_chunks-handle m chunks s y e

  all_chunks-check :
      (now : ℕ) (y : System float Resource)
      → all_chunks (check_round float Resource now y) ≡ all_chunks y
  unfolding check_round
  all_chunks-check now y =
      all_chunks-if y.shared.poisoned (record y { worker = Worker.closing })
        (on_check float Resource (ready float Resource now y.shared) y) (all_chunks y) refl
        (all_chunks-on_check (ready float Resource now y.shared) y (ready-FromBatch now y.shared))

  all_chunks-timeout :
      (now : ℕ) (y : System float Resource)
      → all_chunks (handle float Resource (on_timeout float Resource now y.shared) y) ≡ all_chunks y
  unfolding on_timeout export
  all_chunks-timeout now y =
      all_chunks-handle TraceExporterMessage.flush_trace_chunks_with_timeout y.shared.batch.chunks
        (record y.shared { batch = (export float now y.shared.batch).1 }) y
        (append-nil y.shared.batch.chunks)

  all_chunks-wake :
      (b : Bool) (now : ℕ) (y : System float Resource)
      → all_chunks (wake_round float Resource b now y) ≡ all_chunks y
  unfolding wake_round
  all_chunks-wake b now y =
      all_chunks-if y.shared.poisoned (record y { worker = Worker.stopped }) _ (all_chunks y) refl
        (all_chunks-if b (handle float Resource (on_timeout float Resource now y.shared) y)
          (record y { worker = Worker.checking }) (all_chunks y) (all_chunks-timeout now y) refl)

  shutdown_done-chunks :
      (s : SharedState float Resource)
      → (shutdown_done float Resource s).batch.chunks ≡ s.batch.chunks
  unfolding shutdown_done
  shutdown_done-chunks s = elim (Bool-cases s.poisoned) [ inl e ↦ rw e refl | inr e ↦ rw e refl ]

  pub all_chunks-worker_step :
      (s : Step float Resource) (at : Worker) (y : System float Resource)
      → all_chunks (worker_step float Resource s at y) ≡ all_chunks y
  unfolding worker_step
  all_chunks-worker_step (Step.check now) Worker.checking y = all_chunks-check now y
  all_chunks-worker_step (Step.check now) Worker.waiting y = refl
  all_chunks-worker_step (Step.check now) Worker.closing y = refl
  all_chunks-worker_step (Step.check now) Worker.stopped y = refl
  all_chunks-worker_step (Step.wake b now) Worker.checking y = refl
  all_chunks-worker_step (Step.wake b now) Worker.waiting y = all_chunks-wake b now y
  all_chunks-worker_step (Step.wake b now) Worker.closing y = refl
  all_chunks-worker_step (Step.wake b now) Worker.stopped y = refl
  all_chunks-worker_step Step.close Worker.checking y = refl
  all_chunks-worker_step Step.close Worker.waiting y = refl
  all_chunks-worker_step Step.close Worker.closing y =
      ap (λ cs. chunks_of y.sent ++ cs) (shutdown_done-chunks y.shared)
  all_chunks-worker_step Step.close Worker.stopped y = refl
  all_chunks-worker_step (Step.send_chunk c) at y = refl
  all_chunks-worker_step (Step.send_resource r) at y = refl
  all_chunks-worker_step Step.send_flush at y = refl
  all_chunks-worker_step Step.send_shutdown at y = refl
  all_chunks-worker_step Step.fetch at y = refl
