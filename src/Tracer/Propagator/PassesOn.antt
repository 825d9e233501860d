-- ===== src/Tracer/Propagator/PassesOn.antt =====
-- A decision that comes in with a request goes out with the requests that follow from it.
use dd_trace_rs.Prelude.{ℕ, ◌≡◌, ap, ◌∙◌, Bool, true, List, Option, none, some}
use dd_trace_rs.Prelude.Text.{Bytes}
use dd_trace_rs.Decision.{SamplingPriority, SamplingDecision}
use dd_trace_rs.Decision.Priority
use dd_trace_rs.Registry.Segment.{TracePropagationData}
use dd_trace_rs.Registry.Shards.{TraceRegistry, registry_propagation_data}
use dd_trace_rs.Propagation.Context.{SpanContext}
use dd_trace_rs.Propagation.Tracestate.{Sampling}
use dd_trace_rs.Sampler.Float.{Float}
use dd_trace_rs.Sampler.Datadog.{DatadogSampler, DdSamplingResult, sample}
use dd_trace_rs.Mapping.Keys.{Semconv}
use dd_trace_rs.Mapping.Value.{SpanKind, OpenTelemetry, KeyValue}
use dd_trace_rs.Tracer.Context.{Context}
use dd_trace_rs.Tracer.ShouldSample.{
  is_parent_sampled, remote_data, trace_propagation_data, register, should_sample,
}
use dd_trace_rs.Tracer.ShouldSample.Agrees.{registry_register_undecided}
use dd_trace_rs.Tracer.Propagator.{OtelContexts, with_extracted, sampling_of}
use dd_trace_rs.Tracer.Propagator.Inherits.{RemoteLaws, extracted_inherits, extracted_data}

module _ (float : Float) (SpanData : Type 0) (span_id : SpanData → ℕ) (hash : ℕ → ℕ) where
  register_inherited :
      (trace_id : ℕ) (parent : Option Context) (keep : Bool) (d : TracePropagationData)
      (registry : TraceRegistry SpanData span_id hash)
      → remote_data float parent ≡ some d
      → (registry_propagation_data SpanData span_id hash trace_id
          registry).sampling_decision.priority
        ≡ none
      → let result : DdSamplingResult float = record { is_keep = keep; trace_root_info = none } in
        registry_propagation_data SpanData span_id hash trace_id
          (register float SpanData span_id hash trace_id parent result
            (trace_propagation_data float parent result)
            registry).1
        ≡ d
  unfolding register trace_propagation_data
  register_inherited trace_id parent keep d registry e undecided =
      rw e (registry_register_undecided SpanData span_id hash trace_id d registry undecided)

  module _ (contexts : OtelContexts) (laws : RemoteLaws contexts) (conv : Semconv)
      (otel : OpenTelemetry float) where
    should_sample_inherited :
        (now : ℕ) (parent : Option Context) (trace_id : ℕ) (keep : Bool) (d : TracePropagationData)
        (name : Bytes) (kind : SpanKind) (attributes : List (KeyValue float))
        (sampler : DatadogSampler float) (registry : TraceRegistry SpanData span_id hash)
        → is_parent_sampled parent ≡ some keep
        → remote_data float parent ≡ some d
        → (registry_propagation_data SpanData span_id hash trace_id
            registry).sampling_decision.priority
          ≡ none
        → registry_propagation_data SpanData span_id hash trace_id
            (should_sample float SpanData span_id hash conv otel true now parent trace_id name kind
              attributes sampler registry).2
          ≡ d
    unfolding should_sample sample
    should_sample_inherited now parent trace_id keep d name kind attributes sampler registry h e
          undecided =
        rw h (register_inherited trace_id parent keep d registry e undecided)

    sampling_of_decided :
        (d : SamplingDecision) (s : Sampling) (p : SamplingPriority) (flags : ℕ)
        → d ≡ record { priority = s.priority; mechanism = s.mechanism }
        → s.priority ≡ some p
        → sampling_of d flags ≡ s
    unfolding sampling_of
    sampling_of_decided d s p flags e h =
        let m : d.mechanism ≡ s.mechanism = ap (λ d. d.mechanism) e in rw (e, sampling_of, h, m)

    -- A priority that is extracted, with its mechanism, is what is injected into the requests that
    -- follow, once a span of a trace that was not decided before has been sampled.
    pub should_sample_passes_on :
        (now : ℕ) (cx : Context) (sc : SpanContext) (p : SamplingPriority) (flags : ℕ)
        (name : Bytes) (kind : SpanKind) (attributes : List (KeyValue float))
        (sampler : DatadogSampler float) (registry : TraceRegistry SpanData span_id hash)
        → sc.is_remote ≡ true
        → sc.sampling.priority ≡ some p
        → (registry_propagation_data SpanData span_id hash sc.trace_id
            registry).sampling_decision.priority
          ≡ none
        → let parent = some (with_extracted contexts cx (some sc)) in
          let registry' =
            (should_sample float SpanData span_id hash conv otel true now parent sc.trace_id name
              kind attributes sampler registry).2 in
          sampling_of
            (registry_propagation_data SpanData span_id hash sc.trace_id
              registry').sampling_decision
            flags
          ≡ sc.sampling
    should_sample_passes_on now cx sc p flags name kind attributes sampler registry remote decided
          undecided =
        let parent = some (with_extracted contexts cx (some sc)) in
        let (d, e, same) = extracted_data contexts laws float cx sc remote in
        let inherits : is_parent_sampled parent ≡ some (Priority.is_keep p) =
          extracted_inherits contexts laws cx sc ∙ rw decided in
        sampling_of_decided _ sc.sampling p flags
          (ap (λ f. f.sampling_decision)
              (should_sample_inherited now parent sc.trace_id (Priority.is_keep p) d name kind
                attributes sampler registry inherits e undecided)
            ∙ same)
          decided
