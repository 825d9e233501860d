-- ===== src/Tracer/Processor/Chunks.antt =====
-- What is exported of a finished trace.
use dd_trace_rs.Prelude.{
  ℕ, ◌≡◌, refl, ◌∙◌, List, [], ◌∷◌, ◌++◌, append_assoc, map, some, ◌==◌, unwrap_or, arith,
  Bool-cases, inl, inr,
}
use mathlib.Core.Path.{ap₂}
use dd_trace_rs.Prelude.Lists.{All}
use dd_trace_rs.Prelude.Text.{Bytes, codes}
use dd_trace_rs.Prelude.Dict.{Dict}
use dd_trace_rs.Decision.{SamplingDecision, SamplingPriority, SamplingMechanism}
use dd_trace_rs.Decision.Mechanism.{to_cow}
use dd_trace_rs.Registry.Segment.{Trace, TracePropagationData}
use dd_trace_rs.Sampler.Float.{Float}
use dd_trace_rs.Mapping.Value.{Value, KeyValue}
use dd_trace_rs.Tracer.Context.{OtelSpanContext}
use dd_trace_rs.Tracer.Processor.{
  SpanData, Settings, push, push_all, push_priority, push_mechanism, add_data,
  add_trace_propagation_data, tag_top_level, chunk_of,
}

module _ (float : Float) where
  abbrev pub context : SpanData float → OtelSpanContext
  context s = s.span_context

  context-push_all :
      (tags : Dict Bytes Bytes) (s : SpanData float) → context (push_all float tags s) ≡ context s
  unfolding push_all push
  context-push_all [] s = refl
  context-push_all ((k, v) ∷ tags) s = context-push_all tags (push float k (Value.string v) s)

  context-add_data :
      (root : ℕ) (d : TracePropagationData) (s : SpanData float)
      → context (add_data float root d s) ≡ context s
  unfolding add_data push push_priority push_mechanism
  context-add_data root d s = ground (arith, context-push_all (unwrap_or [] d.tags) s)

  add_all_context :
      (root : ℕ) (d : TracePropagationData) (spans : List (SpanData float))
      → map context (map (add_data float root d) spans) ≡ map context spans
  add_all_context root d [] = refl
  add_all_context root d (s ∷ spans) =
      ap₂ ◌∷◌ (context-add_data root d s) (add_all_context root d spans)

  tag_top_level-context :
      (root : ℕ) (spans : List (SpanData float))
      → map context (tag_top_level float root spans) ≡ map context spans
  unfolding tag_top_level push
  tag_top_level-context root [] = refl
  tag_top_level-context root (s ∷ spans) =
      let rest = tag_top_level-context root spans in
      elim (Bool-cases (s.span_context.span_id == root)) [
        | inl e ↦ rw e refl
        | inr e ↦ rw (e, rest)
      ]

  -- The exported chunk has the finished spans, in their order: none is lost, added or renamed.
  pub chunk_of_contexts :
      (config : Settings float) (trace : Trace (SpanData float))
      → map context (chunk_of float config trace) ≡ map context trace.finished_spans
  unfolding chunk_of add_trace_propagation_data
  chunk_of_contexts config trace =
      let root = trace.local_root_span_id in
      let d = trace.propagation_data in
      elim (Bool-cases config.trace_partial_flush_enabled) [
        | inl e ↦ rw e (
            add_all_context root d (tag_top_level float root trace.finished_spans)
            ∙ tag_top_level-context root trace.finished_spans)
        | inr e ↦ rw e (add_all_context root d trace.finished_spans)
      ]

  -- The last tags of a span are a priority and a mechanism.
  pub EndsWith : SamplingPriority → SamplingMechanism → SpanData float → Type 0
  EndsWith p m s =
      (before : List (KeyValue float)) × (s.attributes
        ≡ before
          ++ (codes "_sampling_priority_v1", Value.i64 p.value)
            ∷ (codes "_dd.p.dm", Value.string (to_cow m))
            ∷ [])

  push_priority_lem :
      (d : SamplingDecision) (p : SamplingPriority) (s : SpanData float)
      → d.priority ≡ some p
      → push_priority float d s ≡ push float (codes "_sampling_priority_v1") (Value.i64 p.value) s
  unfolding push_priority
  push_priority_lem d p s e = rw (push_priority, e)

  push_mechanism_lem :
      (d : SamplingDecision) (m : SamplingMechanism) (s : SpanData float)
      → d.mechanism ≡ some m
      → push_mechanism float d s ≡ push float (codes "_dd.p.dm") (Value.string (to_cow m)) s
  unfolding push_mechanism
  push_mechanism_lem d m s e = rw (push_mechanism, e)

  decision-EndsWith :
      (d : SamplingDecision) (p : SamplingPriority) (m : SamplingMechanism) (s : SpanData float)
      → d.priority ≡ some p
      → d.mechanism ≡ some m
      → EndsWith p m (push_mechanism float d (push_priority float d s))
  unfolding EndsWith push
  decision-EndsWith d p m s hp hm =
      rw (push_mechanism_lem d m (push_priority float d s) hm, push_priority_lem d p s hp)
        (s.attributes, append_assoc s.attributes _ _)

  add_data-EndsWith :
      (root : ℕ) (d : TracePropagationData) (p : SamplingPriority) (m : SamplingMechanism)
      (s : SpanData float)
      → d.sampling_decision.priority ≡ some p
      → d.sampling_decision.mechanism ≡ some m
      → EndsWith p m (add_data float root d s)
  unfolding add_data
  add_data-EndsWith root d p m s hp hm = decision-EndsWith d.sampling_decision p m _ hp hm

  add-All-EndsWith :
      (root : ℕ) (d : TracePropagationData) (p : SamplingPriority) (m : SamplingMechanism)
      (spans : List (SpanData float))
      → d.sampling_decision.priority ≡ some p
      → d.sampling_decision.mechanism ≡ some m
      → All (EndsWith p m) (map (add_data float root d) spans)
  add-All-EndsWith root d p m [] hp hm = tt
  add-All-EndsWith root d p m (s ∷ spans) hp hm =
      (add_data-EndsWith root d p m s hp hm, add-All-EndsWith root d p m spans hp hm)

  -- Every exported span of a decided trace, the local root or not, has the trace's priority and
  -- mechanism as its last attributes, whatever attributes of these names it had before.
  pub chunk_of-EndsWith :
      (config : Settings float) (trace : Trace (SpanData float)) (p : SamplingPriority)
      (m : SamplingMechanism)
      → trace.propagation_data.sampling_decision.priority ≡ some p
      → trace.propagation_data.sampling_decision.mechanism ≡ some m
      → All (EndsWith p m) (chunk_of float config trace)
  unfolding chunk_of add_trace_propagation_data
  chunk_of-EndsWith config trace p m hp hm =
      let root = trace.local_root_span_id in
      let d = trace.propagation_data in
      elim (Bool-cases config.trace_partial_flush_enabled) [
        | inl e ↦
            rw e (add-All-EndsWith root d p m (tag_top_level float root trace.finished_spans) hp hm)
        | inr e ↦ rw e (add-All-EndsWith root d p m trace.finished_spans hp hm)
      ]
