-- ===== src/Tracer/Propagator/Inherits.antt =====
-- A sampling decision that comes in with a remote context, and the one that goes out.
use dd_trace_rs.Prelude.{
  ℕ, ◌≡◌, refl, Bool, true, not, ◌&&◌, Option, none, some, ◌==◌, if◌then◌else◌, is_some,
  Option-cases, Bool-cases, inl, inr,
}
use dd_trace_rs.Decision.{SamplingPriority, SamplingDecision}
use dd_trace_rs.Decision.Priority
use dd_trace_rs.Registry.Segment.{TracePropagationData}
use dd_trace_rs.Propagation.Context.{SpanContext}
use dd_trace_rs.Tracer.Context.{
  Context, OtelSpanContext, DatadogExtractData, from_span_context, is_sampled,
}
use dd_trace_rs.Tracer.ShouldSample.{is_parent_sampled, remote_data, keeps}
use dd_trace_rs.Sampler.Float.{Float}
use dd_trace_rs.Tracer.Propagator.{
  OtelContexts, extract_trace_flags, otel_span_context, with_extracted, sampling_of,
}

-- A context with a remote span has that span as its active one, and the data beside it.
pub record RemoteLaws (contexts : OtelContexts) : Type 0 where
  pub active :
      (sc : OtelSpanContext) (d : DatadogExtractData) (cx : Context)
      → (contexts.with_remote sc d cx).has_active_span ≡ true
  pub context_kept :
      (sc : OtelSpanContext) (d : DatadogExtractData) (cx : Context)
      → (contexts.with_remote sc d cx).span_context ≡ sc
  pub data_kept :
      (sc : OtelSpanContext) (d : DatadogExtractData) (cx : Context)
      → (contexts.with_remote sc d cx).extract_data ≡ some d

-- What the next span inherits of an extracted context.
abbrev pub inherited : SpanContext → Option Bool
inherited sc = elim sc.sampling.priority [ some p ↦ some (Priority.is_keep p) | none ↦ none ]

flags_of_decision :
    (sc : SpanContext) (priority : Option SamplingPriority)
    → priority ≡ sc.sampling.priority
    → (if not (extract_trace_flags sc == 2) && true
        then some (is_sampled (extract_trace_flags sc))
        else none)
      ≡ inherited sc
unfolding extract_trace_flags
flags_of_decision sc none e = rw (extract_trace_flags, ← e)
flags_of_decision sc (some p) e =
    rw (extract_trace_flags, ← e)
      (elim (Bool-cases (Priority.is_keep p)) [ inl keep ↦ rw keep | inr reject ↦ rw reject ])

-- The injected priority keeps the trace as its decision does, or, when there is none, as the span's
-- flags say.
pub sampling_of_sound :
    (d : SamplingDecision) (flags : ℕ)
    → (p : SamplingPriority) × ((sampling_of d flags).priority ≡ some p)
      × (Priority.is_keep p ≡ (if is_some d.priority then keeps d else is_sampled flags))
unfolding sampling_of
sampling_of_sound d flags = elim (Option-cases d.priority) [
  | inr (p, e) ↦ (p, rw (sampling_of, e), rw e)
  | inl e ↦ elim (Bool-cases (is_sampled flags)) [
    | inl sampled ↦ (Priority.auto_keep, rw (sampling_of, e, sampled), rw (e, sampled))
    | inr not_sampled ↦
        (Priority.auto_reject, rw (sampling_of, e, not_sampled), rw (e, not_sampled))
  ]
]

module _ (contexts : OtelContexts) (laws : RemoteLaws contexts) where
  -- A decision that is extracted is what the next span inherits; where none is extracted the sampler
  -- is left to decide.
  pub extracted_inherits :
      (cx : Context) (sc : SpanContext)
      → is_parent_sampled (some (with_extracted contexts cx (some sc))) ≡ inherited sc
  unfolding with_extracted is_parent_sampled otel_span_context
  extracted_inherits cx sc =
      let otel = otel_span_context contexts sc in
      let d = from_span_context sc in
      rw (laws.active otel d cx, laws.context_kept otel d cx)
        (flags_of_decision sc sc.sampling.priority refl)

  -- The data of an extracted remote context.
  pub extracted_data :
      (float : Float) (cx : Context) (sc : SpanContext)
      → sc.is_remote ≡ true
      → (d : TracePropagationData) × (remote_data float
            (some (with_extracted contexts cx (some sc)))
          ≡ some d)
        × (d.sampling_decision
            ≡ record { priority = sc.sampling.priority; mechanism = sc.sampling.mechanism })
  unfolding with_extracted remote_data otel_span_context from_span_context
  extracted_data float cx sc remote =
      let otel = otel_span_context contexts sc in
      let d = from_span_context sc in
      rw (laws.data_kept otel d cx, laws.context_kept otel d cx, remote) (_, refl, refl)
