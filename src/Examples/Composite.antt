-- ===== src/Examples/Composite.antt =====
-- The composite propagator on two contexts of different traces.
use dd_trace_rs.Prelude.{
  ℕ, ◌≡◌, refl, true, false, [], ◌∷◌, Option, none, some, if◌then◌else◌, List,
}
use dd_trace_rs.Prelude.Text.{Bytes, codes, beq, split, split_once}
use dd_trace_rs.Prelude.Dict.{lookup}
use dd_trace_rs.Propagation.Ids.{combine_trace_id}
use dd_trace_rs.Numeral.{parse_unsigned, scan, to_digit}
use dd_trace_rs.Propagation.Tracestate.{no_sampling}
use dd_trace_rs.Propagation.Context.{TracePropagationStyle, SpanContext}
use dd_trace_rs.Propagation.Datadog.{trace_id_key}
use dd_trace_rs.Propagation.Datadog
use dd_trace_rs.Propagation.Composite.{Config, new, Found, extract_style, extract, resolve_contexts}
use dd_trace_rs.Propagation.Composite.Resolution.{
  links_to, SameTrace, resolve_contexts_first, extract_first_style,
}

abbrev context : ℕ → ℕ → SpanContext
context trace_id span_id = record {
  trace_id = trace_id;
  span_id = span_id;
  sampling = no_sampling;
  origin = none;
  tags = [];
  links = [];
  is_remote = true;
  tracestate = none;
}

abbrev first : Found
first = (context 1 2, TracePropagationStyle.datadog)

abbrev rest : List Found
rest = (context 3 4, TracePropagationStyle.trace_context) ∷ []

resolve_contexts_first_example :
    SameTrace (resolve_contexts first rest) first.0
    × ((resolve_contexts first rest).links ≡ links_to first.0.trace_id rest)
resolve_contexts_first_example = resolve_contexts_first first rest

abbrev both_styles : Config
both_styles = record {
  trace_propagation_style =
      some (TracePropagationStyle.datadog ∷ TracePropagationStyle.trace_context ∷ []);
  trace_propagation_style_extract = none;
  trace_propagation_style_inject = none;
  trace_propagation_extract_first = false;
  datadog_tags_max_length = 512;
}

abbrev carrier : Bytes → Option Bytes
carrier key = if beq key trace_id_key then some (codes "7") else none

abbrev from_headers : SpanContext
from_headers = context 7 0

extractors_in_order :
    (new both_styles).extractors
    ≡ TracePropagationStyle.datadog ∷ TracePropagationStyle.trace_context ∷ []
unfolding new
extractors_in_order = refl

datadog_extracts :
    extract_style carrier TracePropagationStyle.datadog both_styles ≡ some from_headers
unfolding extract_style Datadog.extract beq parse_unsigned scan to_digit split split_once lookup
    combine_trace_id
datadog_extracts = refl

extract_first_style_example :
    (r : SpanContext) × (extract carrier (new both_styles) ≡ some r) × SameTrace r from_headers
unfolding new
extract_first_style_example =
    extract_first_style carrier (new both_styles) TracePropagationStyle.datadog
      (TracePropagationStyle.trace_context ∷ []) from_headers extractors_in_order datadog_extracts
