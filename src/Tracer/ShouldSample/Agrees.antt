-- ===== src/Tracer/ShouldSample/Agrees.antt =====
-- The result of sampling and the decision that the registry holds.
use dd_trace_rs.Prelude.{
  ℕ, ◌≡◌, refl, sym, ap, ◌∙◌, true, List, Option, none, some, ◌==◌, is_some, ◌%◌, ==_iff,
  Option-cases, Bool-cases, inl, inr,
}
use dd_trace_rs.Prelude.Text.{Bytes}
use dd_trace_rs.Prelude.Dict.{lookup, nat_eq, lookup-insert_self}
use dd_trace_rs.Decision.Priority
use dd_trace_rs.Registry.{
  InnerTraceRegistry, RegisterTracePropagationResult, existing,
  register_local_root_trace_propagation_data, get_trace_propagation_data,
}
use dd_trace_rs.Registry.Segment.{Trace, TracePropagationData}
use dd_trace_rs.Registry.Shards.{
  TraceRegistry, registry_register_data, registry_propagation_data, get_shard,
}
use dd_trace_rs.Sampler.Float.{Float}
use dd_trace_rs.Sampler.Datadog.{
  DatadogSampler, DdSamplingResult, TraceRootSamplingInfo, to_decision,
}
use dd_trace_rs.Sampler.Datadog.Decides.{sample_decides}
use dd_trace_rs.Mapping.Keys.{Semconv}
use dd_trace_rs.Mapping.Value.{SpanKind, OpenTelemetry, KeyValue}
use dd_trace_rs.Tracer.Context.{Context}
use dd_trace_rs.Tracer.ShouldSample.{
  is_parent_sampled, root_data, trace_propagation_data, SamplingResult, keeps, register, result_of,
  should_sample,
}

module _ (SpanData : Type 0) (span_id : SpanData → ℕ) where
  -- The registry holds the answer's decision, or else the data that was given.
  pub Held :
      ℕ
      → TracePropagationData
      → RegisterTracePropagationResult SpanData span_id
      → TracePropagationData
      → Type 0
  Held trace_id given (existing d) found =
      (is_some d.priority ≡ true) × (found.sampling_decision ≡ d)
  Held trace_id given RegisterTracePropagationResult.new found = found ≡ given

  register-Held :
      (trace_id : ℕ) (given : TracePropagationData) (r : InnerTraceRegistry SpanData span_id)
      → let (r', answer) =
          register_local_root_trace_propagation_data SpanData span_id trace_id given r in
        Held trace_id given answer (get_trace_propagation_data SpanData span_id trace_id r')
  unfolding Held register_local_root_trace_propagation_data get_trace_propagation_data
  register-Held trace_id given r = elim (Option-cases (lookup trace_id r.registry)) [
    | inl e ↦
        rw
          (
            register_local_root_trace_propagation_data, e, get_trace_propagation_data,
            lookup-insert_self,
          )
          refl
    | inr (t, e) ↦ elim (Bool-cases (is_some t.propagation_data.sampling_decision.priority)) [
      | inl decided ↦
          rw (register_local_root_trace_propagation_data, e, decided, get_trace_propagation_data, e)
            (decided, refl)
      | inr undecided ↦
          rw
            (
              register_local_root_trace_propagation_data, e, undecided, get_trace_propagation_data,
              lookup-insert_self,
            )
            refl
    ]
  ]

  known_data :
      (trace_id : ℕ) (r : InnerTraceRegistry SpanData span_id) (t : Trace SpanData)
      → lookup trace_id r.registry ≡ some t
      → get_trace_propagation_data SpanData span_id trace_id r ≡ t.propagation_data
  unfolding get_trace_propagation_data
  known_data trace_id r t e = rw (get_trace_propagation_data, e)

  -- A trace without a decision takes what it is given.
  register_undecided :
      (trace_id : ℕ) (given : TracePropagationData) (r : InnerTraceRegistry SpanData span_id)
      → (get_trace_propagation_data SpanData span_id trace_id r).sampling_decision.priority ≡ none
      → get_trace_propagation_data SpanData span_id trace_id
          (register_local_root_trace_propagation_data SpanData span_id trace_id given r).0
        ≡ given
  unfolding register_local_root_trace_propagation_data get_trace_propagation_data
  register_undecided trace_id given r h = elim (Option-cases (lookup trace_id r.registry)) [
    | inl e ↦
        rw
          (
            register_local_root_trace_propagation_data, e, get_trace_propagation_data,
            lookup-insert_self,
          )
          refl
    | inr (t, e) ↦
        let before : t.propagation_data.sampling_decision.priority ≡ none =
          ap (λ d. d.sampling_decision.priority) (sym (known_data trace_id r t e)) ∙ h in
        rw
          (
            register_local_root_trace_propagation_data, e, before, get_trace_propagation_data,
            lookup-insert_self,
          )
          refl
  ]

  module _ (hash : ℕ → ℕ) where
    pub registry_register_undecided :
        (trace_id : ℕ) (given : TracePropagationData) (t : TraceRegistry SpanData span_id hash)
        → (registry_propagation_data SpanData span_id hash trace_id t).sampling_decision.priority
          ≡ none
        → registry_propagation_data SpanData span_id hash trace_id
            (registry_register_data SpanData span_id hash trace_id given t).0
          ≡ given
    unfolding registry_register_data registry_propagation_data
    registry_register_undecided trace_id given t h =
        let i = hash trace_id % 64 in
        let same : (i == i) ≡ true = (==_iff i i).1 refl in
        rw (registry_propagation_data, same)
          (register_undecided trace_id given (get_shard SpanData span_id hash trace_id t) h)

    registry_register_data-Held :
        (trace_id : ℕ) (given : TracePropagationData) (t : TraceRegistry SpanData span_id hash)
        → let (t', answer) = registry_register_data SpanData span_id hash trace_id given t in
          Held trace_id given answer (registry_propagation_data SpanData span_id hash trace_id t')
    unfolding registry_register_data registry_propagation_data
    registry_register_data-Held trace_id given t =
        let i = hash trace_id % 64 in
        let same : (i == i) ≡ true = (==_iff i i).1 refl in
        rw (registry_propagation_data, same)
          (register-Held trace_id given (get_shard SpanData span_id hash trace_id t))

module _ (float : Float) (SpanData : Type 0) (span_id : SpanData → ℕ) (hash : ℕ → ℕ) where
  -- What is recorded is what the registry's decision keeps.
  pub record Agrees (answer : SamplingResult float) (found : TracePropagationData) : Type 0 where
    pub decided : is_some found.sampling_decision.priority ≡ true
    pub same : answer.decision ≡ to_decision (keeps found.sampling_decision)

  answered-Agrees :
      (parent : Option Context) (result : DdSamplingResult float)
      (info : TraceRootSamplingInfo float)
      (answer : RegisterTracePropagationResult SpanData span_id) (trace_id : ℕ)
      (found : TracePropagationData)
      → Priority.is_keep info.priority ≡ result.is_keep
      → Held SpanData span_id trace_id (root_data float parent info) answer found
      → Agrees (result_of float SpanData span_id hash parent result answer) found
  unfolding Held root_data
  answered-Agrees parent result info (existing d) trace_id found e h = record {
    decided = ap (λ s. is_some s.priority) h.1 ∙ h.0;
    same = ap (λ s. to_decision (keeps s)) (sym h.1);
  }
  answered-Agrees parent result info RegisterTracePropagationResult.new trace_id found e h =
      record {
        decided = ap (λ f. is_some f.sampling_decision.priority) h;
        same = ap to_decision (sym e) ∙ ap (λ f. to_decision (keeps f.sampling_decision)) (sym h);
      }

  register-Agrees :
      (trace_id : ℕ) (parent : Option Context) (result : DdSamplingResult float)
      (info : TraceRootSamplingInfo float) (registry : TraceRegistry SpanData span_id hash)
      → result.trace_root_info ≡ some info
      → Priority.is_keep info.priority ≡ result.is_keep
      → let (answer, registry') =
          register float SpanData span_id hash trace_id parent result
            (trace_propagation_data float parent result)
            registry in
        Agrees answer (registry_propagation_data SpanData span_id hash trace_id registry')
  unfolding register trace_propagation_data
  register-Agrees trace_id parent result info registry e consistent =
      let given = root_data float parent info in
      let e' : trace_propagation_data float parent result ≡ some given =
        rw (trace_propagation_data, e) in
      rw e' (
        answered-Agrees parent result info
          (registry_register_data SpanData span_id hash trace_id given registry).1 trace_id _
          consistent (registry_register_data-Held SpanData span_id hash trace_id given registry))

  module _ (conv : Semconv) (otel : OpenTelemetry float) where
    -- The trace of a span without an inherited decision is decided afterwards, and the span is
    -- recorded and sampled exactly when the registered decision keeps the trace.
    pub should_sample-Agrees :
        (now : ℕ) (parent : Option Context) (trace_id : ℕ) (name : Bytes) (kind : SpanKind)
        (attributes : List (KeyValue float)) (sampler : DatadogSampler float)
        (registry : TraceRegistry SpanData span_id hash)
        → is_parent_sampled parent ≡ none
        → let (answer, sampler', registry') =
            should_sample float SpanData span_id hash conv otel true now parent trace_id name kind
              attributes sampler registry in
          Agrees answer (registry_propagation_data SpanData span_id hash trace_id registry')
    unfolding should_sample
    should_sample-Agrees now parent trace_id name kind attributes sampler registry h =
        let (info, e, consistent) =
          sample_decides float conv otel now trace_id name kind attributes sampler in
        rw h (register-Agrees trace_id parent _ info registry e consistent)
