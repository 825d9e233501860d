-- ===== src/Propagation/Context.antt =====
-- The contexts that are extracted and injected, and carriers: dd-trace-propagation/src/context.rs,
-- carrier.rs, error.rs. Ids are numbers: `u128` for traces, `u64` for spans.
use dd_trace_rs.Prelude.{
  ℕ, Bool, List, [], ◌∷◌, Option, some, ◌&&◌, not, is_empty, unwrap_or, if◌then◌else◌, ◌+◌, leb,
  map,
}
use dd_trace_rs.Prelude.Text.{Bytes, codes, beq, split, split_once}
use dd_trace_rs.Prelude.Dict.{Dict, lookup, insert, bytes_eq}
use dd_trace_rs.Decision.Priority
use dd_trace_rs.Decision.{SamplingPriority}
use dd_trace_rs.Propagation.Ids.{split_trace_id}
use dd_trace_rs.Propagation.Tracestate.{Sampling, Tracestate, valid_key, valid_value, dd_key}

pub data TracePropagationStyle : Type 0 where
  datadog trace_context none : TracePropagationStyle

abbrev pub datadog_propagation_tag_prefix : Bytes
datadog_propagation_tag_prefix = codes "_dd.p."

abbrev pub traceparent_key : Bytes
traceparent_key = codes "traceparent"

abbrev pub tracestate_key : Bytes
tracestate_key = codes "tracestate"

-- `Display` of a style: dd-trace/src/configuration/configuration.rs.
abbrev style_text : TracePropagationStyle → Bytes
style_text TracePropagationStyle.datadog = codes "datadog"
style_text TracePropagationStyle.trace_context = codes "tracecontext"
style_text TracePropagationStyle.none = codes "none"

pub record SpanLink : Type 0 where
  pub trace_id : ℕ
  pub trace_id_high : Option ℕ
  pub span_id : ℕ
  pub attributes : Option (Dict Bytes Bytes)
  pub tracestate : Option Bytes
  pub flags : Option ℕ

pub record SpanContext : Type 0 where
  pub trace_id : ℕ
  pub span_id : ℕ
  pub sampling : Sampling
  pub origin : Option Bytes
  pub tags : Dict Bytes Bytes
  pub links : List SpanLink
  pub is_remote : Bool
  pub tracestate : Option Tracestate

pub record InjectTraceState : Type 0 where
  pub header : Bytes

pub record InjectSpanContext : Type 0 where
  pub trace_id : ℕ
  pub span_id : ℕ
  pub sampling : Sampling
  pub origin : Option Bytes
  pub tags : Dict Bytes Bytes
  pub is_remote : Bool
  pub tracestate : Option InjectTraceState

abbrev flag_of : SamplingPriority → ℕ
flag_of p = if Priority.is_keep p then 1 else 0

abbrev pub map_option : {A B : Type 0} → (A → B) → Option A → Option B
map_option f Option.none = Option.none
map_option f (some a) = some (f a)

-- `SpanLink::new`.
unfoldable new_link : SpanContext → TracePropagationStyle → Option (Dict Bytes Bytes) → SpanLink
new_link context style attributes =
    let (trace_id_high, trace_id) = split_trace_id context.trace_id in
    record {
      trace_id = trace_id;
      trace_id_high = trace_id_high;
      span_id = context.span_id;
      attributes = attributes;
      tracestate = elim style [
        | TracePropagationStyle.trace_context ↦ lookup tracestate_key context.tags
        | _ ↦ Option.none
      ];
      flags = map_option flag_of context.sampling.priority;
    }

unfoldable pub terminated_context : SpanContext → TracePropagationStyle → SpanLink
unfolding new_link
terminated_context context style = new_link context style (
    some (
      (codes "reason", codes "terminated_context")
      ∷ (codes "context_headers", style_text style)
      ∷ []))

abbrev keeps_part : Bytes → Bool
keeps_part part =
    let (key, value) = unwrap_or (part, []) (split_once b'=' part) in
    not (beq key dd_key) && not (is_empty value) && valid_key key && valid_value value

filter_parts : List Bytes → List Bytes
filter_parts [] = []
filter_parts (p ∷ ps) = let rest = filter_parts ps in if keeps_part p then p ∷ rest else rest

-- `InjectTraceState::additional_values`.
unfoldable pub additional_values : InjectTraceState → List Bytes
unfolding filter_parts
additional_values ts = filter_parts (split b',' ts.header)

-- The errors that end an extraction or an injection.
pub record Error : Type 0 where
  pub message : Bytes
  pub propagator_name : Bytes
  pub operation : Bytes

abbrev pub extract_error : Bytes → Bytes → Error
extract_error message name = record {
  message = message;
  propagator_name = name;
  operation = codes "extract";
}

abbrev pub inject_error : Bytes → Bytes → Error
inject_error message name = record {
  message = message;
  propagator_name = name;
  operation = codes "inject";
}

pub data Result (A : Type 0) : Type 0 where
  ok : A → Result A
  err : Error → Result A

-- A carrier that is a `HashMap`, which keeps its keys in lower case. The propagators' own keys are
-- ASCII, so lower case is that of ASCII.
abbrev pub to_lower : ℕ → ℕ
to_lower c = if leb b'A' c && leb c b'Z' then c + 32 else c

abbrev pub Headers : Type 0
Headers = Dict Bytes Bytes

unfoldable pub set_header : Bytes → Bytes → Headers → Headers
set_header key value headers = insert (map to_lower key) value headers

unfoldable pub get_header : Headers → Bytes → Option Bytes
get_header headers key = lookup (map to_lower key) headers
