-- ===== src/Exporter/Worker/Progress.antt =====
-- What a request to flush or to shut down leads to.
use dd_trace_rs.Prelude.{
  ℕ, ◌≡◌, refl, sym, ap, ◌∙◌, Bool, true, false, List, [], ◌∷◌, Option, none, some, ◌⊎◌, inl, inr,
  Bool-cases, Option-cases, if◌then◌else◌, ◌++◌, append-nil, subst,
}
use dd_trace_rs.Sampler.Float.{Float}
use dd_trace_rs.Mapping.Value.{OpenTelemetry}
use dd_trace_rs.Exporter.{Chunk, SharedState, TraceExporterMessage, ready, export}
use dd_trace_rs.Exporter.Worker.{
  Worker, System, Step, export_trace_chunks, on_message, handle, on_check, check_round, wake_round,
  worker_step, step, run,
}
use dd_trace_rs.Exporter.Worker.Rounds.{chunks_of, all_chunks}
use dd_trace_rs.Exporter.Worker.Delivery.{all_chunks-run, accepted, taken}

module _ (float : Float) (Resource : Type 0) where
  -- Something was asked for, the lock is good and the worker is in `receive`.
  pub record Asked (y : System float Resource) : Type 0 where
    pub sound : y.shared.poisoned ≡ false
    pub asked : (y.shared.flush_needed ≡ true) ⊎ (y.shared.shutdown_needed ≡ true)

  export_trace_chunks-shared :
      (chunks : List (Chunk float)) (y : System float Resource)
      → (export_trace_chunks float Resource chunks y).shared ≡ y.shared
  unfolding export_trace_chunks
  export_trace_chunks-shared [] y = refl
  export_trace_chunks-shared (c ∷ chunks) y = refl

  on_message-shared :
      (m : TraceExporterMessage float Resource) (y : System float Resource)
      → (on_message float Resource m y).shared ≡ y.shared
  unfolding on_message
  on_message-shared TraceExporterMessage.shutdown y = refl
  on_message-shared TraceExporterMessage.flush_trace_chunks y = refl
  on_message-shared TraceExporterMessage.flush_trace_chunks_with_timeout y = refl
  on_message-shared (TraceExporterMessage.set_resource_to r) y = refl

  handle-shared :
      (m : TraceExporterMessage float Resource) (chunks : List (Chunk float))
      (s : SharedState float Resource) (y : System float Resource)
      → (handle float Resource (m, chunks, s) y).shared ≡ s
  unfolding handle
  handle-shared m chunks s y =
      on_message-shared m _ ∙ export_trace_chunks-shared chunks (record y { shared = s })

  -- What `receive` leaves is empty.
  abbrev Emptied :
      Option (TraceExporterMessage float Resource × List (Chunk float) × SharedState float Resource)
      → Type 0
  Emptied none = true ≡ false
  Emptied (some (m, chunks, s)) = s.batch.chunks ≡ []

  ready-Emptied :
      (now : ℕ) (y : System float Resource)
      → Asked y
      → y.shared.resource ≡ none
      → Emptied (ready float Resource now y.shared)
  unfolding ready export
  ready-Emptied now y h e = elim (Bool-cases y.shared.shutdown_needed) [
    | inl e' ↦ rw (e, e') refl
    | inr e' ↦ elim (Bool-cases y.shared.flush_needed) [
      | inl f ↦ rw (e, e', f) refl
      | inr f ↦ elim h.asked [ inl a ↦ cc | inr a ↦ cc ]
    ]
  ]

  on_check-Emptied :
      (o : Option
        (TraceExporterMessage float Resource × List (Chunk float) × SharedState float Resource))
      (y : System float Resource)
      → Emptied o
      → (on_check float Resource o y).shared.batch.chunks ≡ []
  unfolding on_check
  on_check-Emptied none y h = cc
  on_check-Emptied (some (m, chunks, s)) y h =
      ap (λ s. s.batch.chunks) (handle-shared m chunks s y) ∙ h

  if_false : (b : Bool) (x z : System float Resource) → b ≡ false → (if b then x else z) ≡ z
  if_false true x z e = cc
  if_false false x z e = refl

  check_round_sound :
      (now : ℕ) (y : System float Resource)
      → y.shared.poisoned ≡ false
      → check_round float Resource now y
        ≡ on_check float Resource (ready float Resource now y.shared) y
  unfolding check_round
  check_round_sound now y e = if_false y.shared.poisoned _ _ e

  -- A round without a resource to set hands out the batch.
  check-Emptied :
      (now : ℕ) (y : System float Resource)
      → Asked y
      → y.shared.resource ≡ none
      → (check_round float Resource now y).shared.batch.chunks ≡ []
  check-Emptied now y h e =
      ap (λ z. z.shared.batch.chunks) (check_round_sound now y h.sound)
      ∙ on_check-Emptied (ready float Resource now y.shared) y (ready-Emptied now y h e)

  ready-set :
      (now : ℕ) (s : SharedState float Resource) (r : Resource)
      → s.resource ≡ some r
      → ready float Resource now s
        ≡ some (TraceExporterMessage.set_resource_to r, [], record s { resource = none })
  unfolding ready
  ready-set now s r e = rw e refl

  -- A round with a resource to set does just that.
  check-set :
      (now : ℕ) (y : System float Resource) (r : Resource)
      → y.shared.poisoned ≡ false
      → y.shared.resource ≡ some r
      → check_round float Resource now y ≡ record y {
        shared = record y.shared { resource = none };
        worker = Worker.checking;
        otel_resource = r;
      }
  unfolding on_check handle on_message export_trace_chunks
  check-set now y r e e' =
      check_round_sound now y e
      ∙ ap (λ o. on_check float Resource o y) (ready-set now y.shared r e')

  -- What is empty stays so.
  StaysEmpty :
      Option (TraceExporterMessage float Resource × List (Chunk float) × SharedState float Resource)
      → Type 0
  StaysEmpty none = true ≡ true
  StaysEmpty (some (m, chunks, s)) = s.batch.chunks ≡ []

  ready-StaysEmpty :
      (now : ℕ) (s : SharedState float Resource)
      → s.batch.chunks ≡ []
      → StaysEmpty (ready float Resource now s)
  unfolding StaysEmpty ready export
  ready-StaysEmpty now s h = elim (Option-cases s.resource) [
    | inr (r, e) ↦ rw e h
    | inl e ↦ elim (Bool-cases s.shutdown_needed) [
      | inl e' ↦ rw (e, e') refl
      | inr e' ↦ elim (Bool-cases s.flush_needed) [
        | inl f ↦ rw (e, e', f) refl
        | inr f ↦ rw (e, e', f) refl
      ]
    ]
  ]

  on_check-StaysEmpty :
      (o : Option
        (TraceExporterMessage float Resource × List (Chunk float) × SharedState float Resource))
      (y : System float Resource)
      → StaysEmpty o
      → y.shared.batch.chunks ≡ []
      → (on_check float Resource o y).shared.batch.chunks ≡ []
  unfolding StaysEmpty on_check
  on_check-StaysEmpty none y h h' = h'
  on_check-StaysEmpty (some (m, chunks, s)) y h h' =
      ap (λ s. s.batch.chunks) (handle-shared m chunks s y) ∙ h

  if_empty :
      (b : Bool) (x z : System float Resource)
      → x.shared.batch.chunks ≡ []
      → z.shared.batch.chunks ≡ []
      → (if b then x else z).shared.batch.chunks ≡ []
  if_empty true x z h h' = h
  if_empty false x z h h' = h'

  check_stays_empty :
      (now : ℕ) (at : Worker) (y : System float Resource)
      → y.shared.batch.chunks ≡ []
      → (worker_step float Resource (Step.check now) at y).shared.batch.chunks ≡ []
  unfolding worker_step check_round
  check_stays_empty now Worker.checking y h =
      if_empty y.shared.poisoned (record y { worker = Worker.closing })
        (on_check float Resource (ready float Resource now y.shared) y) h
        (on_check-StaysEmpty (ready float Resource now y.shared) y (ready-StaysEmpty now y.shared h)
          h)
  check_stays_empty now Worker.waiting y h = h
  check_stays_empty now Worker.closing y h = h
  check_stays_empty now Worker.stopped y h = h

  check_both :
      (n n' : ℕ) (y : System float Resource)
      → Asked y
      → let z = check_round float Resource n y in
        (worker_step float Resource (Step.check n') z.worker z).shared.batch.chunks ≡ []
  unfolding worker_step
  check_both n n' y h = elim (Option-cases y.shared.resource) [
    | inl e ↦
        let z = check_round float Resource n y in
        check_stays_empty n' z.worker z (check-Emptied n y h e)
    | inr (r, e) ↦
        let z : System float Resource = record y {
          shared = record y.shared { resource = none };
          worker = Worker.checking;
          otel_resource = r;
        } in
        subst
          (λ x. (worker_step float Resource (Step.check n') x.worker x).shared.batch.chunks ≡ [])
          (sym (check-set n y r h.sound e))
          (check-Emptied n' z (record { sound = h.sound; asked = h.asked }) refl)
  ]

  woken :
      (now : ℕ) (at : Worker) (y : System float Resource)
      → (at ≡ Worker.checking) ⊎ (at ≡ Worker.waiting)
      → y.worker ≡ at
      → y.shared.poisoned ≡ false
      → worker_step float Resource (Step.wake false now) at y
        ≡ record y { worker = Worker.checking }
  unfolding worker_step wake_round
  woken now Worker.checking y h e sound = ap (λ w. record y { worker = w }) e
  woken now Worker.waiting y h e sound = if_false y.shared.poisoned _ _ sound
  woken now Worker.closing y (inl h) e sound = cc
  woken now Worker.closing y (inr h) e sound = cc
  woken now Worker.stopped y (inl h) e sound = cc
  woken now Worker.stopped y (inr h) e sound = cc

  module _ (otel : OpenTelemetry float) (flush_trigger : ℕ) where
    -- Once a flush or a shutdown has been asked for, a worker that is in `receive` under a sound lock
    -- hands everything to the trace exporter within two rounds after it is woken, also when there is
    -- a resource to set before.
    pub everything_is_sent :
        (n n' n'' : ℕ) (y : System float Resource)
        → (y.worker ≡ Worker.checking) ⊎ (y.worker ≡ Worker.waiting)
        → Asked y
        → chunks_of float Resource
            (run float Resource otel flush_trigger
              (Step.wake false n ∷ Step.check n' ∷ Step.check n'' ∷ [])
              y).sent
          ≡ all_chunks float Resource y
    unfolding run step worker_step accepted taken
    everything_is_sent n n' n'' y at h =
        let steps = Step.wake false n ∷ Step.check n' ∷ Step.check n'' ∷ [] in
        let z : System float Resource = record y { worker = Worker.checking } in
        let after_checks : System float Resource → System float Resource =
          λ x. (run float Resource otel flush_trigger (Step.check n' ∷ Step.check n'' ∷ []) x) in
        let emptied : (run float Resource otel flush_trigger steps y).shared.batch.chunks ≡ [] =
          ap (λ x. (after_checks x).shared.batch.chunks) (woken n y.worker y at refl h.sound)
          ∙ check_both n' n'' z (record { sound = h.sound; asked = h.asked }) in
        sym (append-nil _)
        ∙ ap
            (λ cs.
              chunks_of float Resource (run float Resource otel flush_trigger steps y).sent ++ cs)
            (sym emptied)
        ∙ all_chunks-run float Resource otel flush_trigger steps y
        ∙ append-nil (all_chunks float Resource y)
