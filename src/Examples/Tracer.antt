-- ===== src/Examples/Tracer.antt =====
-- Sampling, finishing and passing on, on an empty registry with a hash that is the identity.
use dd_trace_rs.Prelude.{ℕ, ◌≡◌, refl, true, false, none, some, List, [], ◌∷◌}
use dd_trace_rs.Prelude.Lists.{All}
use dd_trace_rs.Prelude.Int.{pos}
use dd_trace_rs.Prelude.Text.{Bytes, codes}
use dd_trace_rs.Prelude.Dict.{lookup}
use dd_trace_rs.Decision.Priority
use dd_trace_rs.Decision.Mechanism
use dd_trace_rs.Registry.Segment.{Trace, Config}
use dd_trace_rs.Registry.{get_trace_propagation_data}
use dd_trace_rs.Registry.Shards
use dd_trace_rs.Registry.Shards.{TraceRegistry, registry_propagation_data}
use dd_trace_rs.Propagation.Context.{SpanContext}
use dd_trace_rs.Mapping.Value.{SpanKind, Value}
use dd_trace_rs.Sampler.Rules.{find_matching_rule, new_rule}
use dd_trace_rs.Sampler.Datadog
use dd_trace_rs.Sampler.Datadog.{DatadogSampler, sample}
use dd_trace_rs.Sampler.Datadog.Decides.{seen, Framed, sample_frame}
use dd_trace_rs.Tracer.Context.{Context}
use dd_trace_rs.Tracer.ShouldSample.{should_sample, is_parent_sampled}
use dd_trace_rs.Tracer.ShouldSample.Agrees.{Agrees, should_sample-Agrees}
use dd_trace_rs.Tracer.Processor.{SpanData, Settings, chunk_of}
use dd_trace_rs.Tracer.Processor.Chunks.{EndsWith, chunk_of-EndsWith}
use dd_trace_rs.Tracer.Propagator.{OtelContexts, with_extracted, sampling_of}
use dd_trace_rs.Tracer.Propagator.Inherits.{RemoteLaws}
use dd_trace_rs.Tracer.Propagator.PassesOn.{should_sample_passes_on}
use dd_trace_rs.Examples.Exact.{exact}
use dd_trace_rs.Examples.Names.{conventions, ascii, resource}

-- A rule for every span of the service `shop`, at the rate of one half, and one call in a second.
abbrev sampler : DatadogSampler exact
sampler =
    Datadog.new exact
      (new_rule exact conventions ascii 2 (some (codes "shop")) none none none none ∷ []) (pos 1)
      resource 0

abbrev attributes : List (Bytes × Value exact)
attributes = (codes "service.name", Value.string (codes "shop")) ∷ []

abbrev id : ℕ → ℕ
id n = n

abbrev settings : Config
settings = record { trace_partial_flush_enabled = false; trace_partial_flush_min_spans = 300 }

abbrev empty : TraceRegistry ℕ id id
empty = Shards.new ℕ id id settings

sample_frame_example :
    Framed exact conventions ascii 5 none 0
      (find_matching_rule exact conventions ascii sampler.rules
        (seen exact sampler (codes "pay") SpanKind.server attributes))
      sampler
      (sample exact conventions ascii 5 none 0 (codes "pay") SpanKind.server attributes sampler)
sample_frame_example =
    sample_frame exact conventions ascii 5 none 0 (codes "pay") SpanKind.server attributes sampler

should_sample-Agrees_example :
    let (answer, sampler', registry') =
      should_sample exact ℕ id id conventions ascii true 5 none 9
        (codes "pay")
        SpanKind.server
        attributes
        sampler
        empty in
    Agrees exact ℕ id id answer (registry_propagation_data ℕ id id 9 registry')
unfolding is_parent_sampled
should_sample-Agrees_example =
    should_sample-Agrees exact ℕ id id conventions ascii 5 none 9 (codes "pay") SpanKind.server
      attributes sampler empty refl

-- A remote context that was kept by its user.
abbrev incoming : SpanContext
incoming = record {
  trace_id = 9;
  span_id = 4;
  sampling = record { priority = some Priority.user_keep; mechanism = some Mechanism.manual };
  origin = none;
  tags = [];
  links = [];
  is_remote = true;
  tracestate = none;
}

abbrev no_context : Context
no_context = record {
  has_active_span = false;
  span_context = record {
    trace_id = 0;
    span_id = 0;
    trace_flags = 0;
    is_remote = false;
    trace_state = none;
  };
  extract_data = none;
}

abbrev contexts : OtelContexts
contexts = record {
  is_valid = λ _. true;
  from_key_value = λ _. none;
  with_remote =
      λ sc d cx. record { has_active_span = true; span_context = sc; extract_data = some d };
}

contexts_laws : RemoteLaws contexts
contexts_laws = record {
  active = λ sc d cx. refl;
  context_kept = λ sc d cx. refl;
  data_kept = λ sc d cx. refl;
}

not_decided : (registry_propagation_data ℕ id id 9 empty).sampling_decision.priority ≡ none
unfolding registry_propagation_data get_trace_propagation_data Shards.new lookup
not_decided = refl

should_sample_passes_on_example :
    sampling_of
      (registry_propagation_data ℕ id id 9
        (should_sample exact ℕ id id conventions ascii true 5
          (some (with_extracted contexts no_context (some incoming)))
          9
          (codes "pay")
          SpanKind.server
          attributes
          sampler
          empty).2).sampling_decision
      1
    ≡ incoming.sampling
should_sample_passes_on_example =
    should_sample_passes_on exact ℕ id id contexts contexts_laws conventions ascii 5 no_context
      incoming Priority.user_keep 1 (codes "pay") SpanKind.server attributes sampler empty refl refl
      not_decided

abbrev finished : ℕ → SpanData exact
finished n = record {
  span_context = record {
    trace_id = 9;
    span_id = n;
    trace_flags = 1;
    is_remote = false;
    trace_state = none;
  };
  attributes = [];
}

abbrev decided : Trace (SpanData exact)
decided = record {
  local_root_span_id = 5;
  finished_spans = finished 5 ∷ finished 6 ∷ [];
  open_span_count = 0;
  propagation_data = record {
    sampling_decision = record {
      priority = some Priority.user_keep;
      mechanism = some Mechanism.manual;
    };
    origin = some (codes "rum");
    tags = none;
  };
}

abbrev partial : Settings exact
partial = record { enabled = true; trace_partial_flush_enabled = true }

chunk_of-EndsWith_example :
    All (EndsWith exact Priority.user_keep Mechanism.manual) (chunk_of exact partial decided)
chunk_of-EndsWith_example =
    chunk_of-EndsWith exact partial decided Priority.user_keep Mechanism.manual refl refl
