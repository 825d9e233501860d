-- ===== src/Propagation/Composite.antt =====
-- `DatadogCompositePropagator`: dd-trace-propagation/src/lib.rs, with config.rs and
-- trace_propagation_style.rs.
pub mod Resolution
use dd_trace_rs.Prelude.{
  ℕ, Bool, true, false, not, ◌&&◌, List, [], ◌∷◌, ◌++◌, Option, none, some, ◌==◌, if◌then◌else◌,
  take, length, unwrap_or,
}
use dd_trace_rs.Prelude.Text.{Bytes}
use dd_trace_rs.Prelude.Dict.{lookup, insert, bytes_eq}
use dd_trace_rs.Propagation.Ids.{hex16}
use dd_trace_rs.Propagation.Context.{
  TracePropagationStyle, SpanContext, SpanLink, InjectSpanContext, terminated_context,
  traceparent_key, tracestate_key,
}
use dd_trace_rs.Propagation.Datadog
use dd_trace_rs.Propagation.Datadog.{Tags, last_parent_id_key}
use dd_trace_rs.Propagation.TraceContext.Inject
use dd_trace_rs.Propagation.TraceContext.Extract

-- The settings that the propagator reads.
pub record Config : Type 0 where
  pub trace_propagation_style : Option (List TracePropagationStyle)
  pub trace_propagation_style_extract : Option (List TracePropagationStyle)
  pub trace_propagation_style_inject : Option (List TracePropagationStyle)
  pub trace_propagation_extract_first : Bool
  pub datadog_tags_max_length : ℕ

abbrev get_extractors : Config → List TracePropagationStyle
get_extractors config = elim config.trace_propagation_style_extract [
  | some extractors ↦ extractors
  | none ↦ unwrap_or [] config.trace_propagation_style
]

abbrev get_injectors : Config → List TracePropagationStyle
get_injectors config = elim config.trace_propagation_style_inject [
  | some injectors ↦ injectors
  | none ↦ unwrap_or [] config.trace_propagation_style
]

-- `filter(|style| style != None)`.
unfoldable without_none : List TracePropagationStyle → List TracePropagationStyle
without_none [] = []
without_none (TracePropagationStyle.none ∷ styles) = without_none styles
without_none (TracePropagationStyle.datadog ∷ styles) =
    TracePropagationStyle.datadog ∷ without_none styles
without_none (TracePropagationStyle.trace_context ∷ styles) =
    TracePropagationStyle.trace_context ∷ without_none styles

abbrev keys_of : TracePropagationStyle → List Bytes
keys_of TracePropagationStyle.datadog = Datadog.header_keys
keys_of TracePropagationStyle.trace_context = traceparent_key ∷ tracestate_key ∷ []
keys_of TracePropagationStyle.none = []

unfoldable all_keys : List TracePropagationStyle → List Bytes
all_keys [] = []
all_keys (style ∷ styles) = keys_of style ++ all_keys styles

pub record DatadogCompositePropagator : Type 0 where
  pub config : Config
  pub extractors : List TracePropagationStyle
  pub injectors : List TracePropagationStyle
  pub keys : List Bytes

unfoldable pub new : Config → DatadogCompositePropagator
unfolding without_none all_keys
new config =
    let available = get_extractors config in
    let num_propagators = if config.trace_propagation_extract_first then 1 else length available in
    let extractors = without_none (take num_propagators available) in
    record {
      config = config;
      extractors = extractors;
      injectors = without_none (get_injectors config);
      keys = all_keys extractors;
    }

abbrev pub Found : Type 0
Found = SpanContext × TracePropagationStyle

-- A context of another trace, which is kept as a link.
abbrev pub conflicts : ℕ → SpanContext → Bool
conflicts primary_trace_id context =
    not (context.span_id == 0)
    && (not (context.trace_id == 0) && not (context.trace_id == primary_trace_id))

find_datadog : List Found → Option SpanContext
find_datadog [] = none
find_datadog ((context, TracePropagationStyle.datadog) ∷ found) = some context
find_datadog ((context, TracePropagationStyle.trace_context) ∷ found) = find_datadog found
find_datadog ((context, TracePropagationStyle.none) ∷ found) = find_datadog found

unfoldable pub copy_tracestate : SpanContext → SpanContext → SpanContext
copy_tracestate context primary = elim (lookup tracestate_key context.tags) [
  | some tracestate ↦ record primary {
    tags = insert tracestate_key tracestate primary.tags;
    tracestate = context.tracestate;
  }
  | none ↦ primary
]

unfoldable parent_tags : List Found → SpanContext → Tags → Tags
unfolding find_datadog
parent_tags contexts context tags = elim (lookup last_parent_id_key context.tags) [
  | some parent_id ↦ insert last_parent_id_key parent_id tags
  | none ↦ elim (find_datadog contexts) [
    | some sc ↦ insert last_parent_id_key (hex16 sc.span_id) tags
    | none ↦ tags
  ]
]

unfoldable pub take_span_id : List Found → SpanContext → SpanContext → SpanContext
unfolding parent_tags
take_span_id contexts context primary =
    if primary.trace_id == context.trace_id && not (primary.span_id == context.span_id)
    then record primary {
      tags = parent_tags contexts context primary.tags;
      span_id = context.span_id;
    }
    else primary

-- A context of the same trace, or one that is not valid.
unfoldable pub merge : List Found → Found → SpanContext → SpanContext
unfolding copy_tracestate take_span_id
merge contexts (context, TracePropagationStyle.trace_context) primary =
    take_span_id contexts context (copy_tracestate context primary)
merge contexts (context, TracePropagationStyle.datadog) primary = primary
merge contexts (context, TracePropagationStyle.none) primary = primary

-- The loop over the contexts after the first.
unfoldable pub resolve_rest : List Found → List Found → SpanContext → List SpanLink → SpanContext
unfolding merge
resolve_rest contexts [] primary links = record primary { links = links }
resolve_rest contexts (found ∷ rest) primary links =
    if conflicts primary.trace_id found.0
    then resolve_rest contexts rest primary (links ++ terminated_context found.0 found.1 ∷ [])
    else resolve_rest contexts rest (merge contexts found primary) links

-- `resolve_contexts` of a list that is not empty.
unfoldable pub resolve_contexts : Found → List Found → SpanContext
unfolding resolve_rest
resolve_contexts first rest = resolve_rest (first ∷ rest) rest first.0 []

module _ (get : Bytes → Option Bytes) where
  unfoldable pub extract_style : TracePropagationStyle → Config → Option SpanContext
  extract_style TracePropagationStyle.datadog config =
      Datadog.extract get config.datadog_tags_max_length
  extract_style TracePropagationStyle.trace_context config = Extract.extract get
  extract_style TracePropagationStyle.none config = none

  unfoldable pub extract_available_contexts : List TracePropagationStyle → Config → List Found
  unfolding extract_style
  extract_available_contexts [] config = []
  extract_available_contexts (style ∷ styles) config =
      let rest = extract_available_contexts styles config in
      elim (extract_style style config) [ some context ↦ (context, style) ∷ rest | none ↦ rest ]

  unfoldable pub extract : DatadogCompositePropagator → Option SpanContext
  unfolding extract_available_contexts resolve_contexts
  extract p = elim (extract_available_contexts p.extractors p.config) [
    | [] ↦ none
    | first ∷ rest ↦ some (resolve_contexts first rest)
  ]

module _ {C : Type 0} (set : Bytes → Bytes → C → C) where
  -- The Datadog style also changes the tags of the context, which the next style reads.
  unfoldable inject_style :
      TracePropagationStyle → Config → InjectSpanContext → C → C × InjectSpanContext
  inject_style TracePropagationStyle.datadog config context carrier =
      Datadog.inject set context carrier config.datadog_tags_max_length
  inject_style TracePropagationStyle.trace_context config context carrier =
      (Inject.inject set context carrier, context)
  inject_style TracePropagationStyle.none config context carrier = (carrier, context)

  unfoldable inject_styles :
      List TracePropagationStyle → Config → InjectSpanContext → C → C × InjectSpanContext
  unfolding inject_style
  inject_styles [] config context carrier = (carrier, context)
  inject_styles (style ∷ styles) config context carrier =
      let (c1, x1) = inject_style style config context carrier in inject_styles styles config x1 c1

  unfoldable pub inject : DatadogCompositePropagator → InjectSpanContext → C → C × InjectSpanContext
  unfolding inject_styles
  inject p context carrier = inject_styles p.injectors p.config context carrier
