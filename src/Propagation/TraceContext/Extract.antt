-- ===== src/Propagation/TraceContext/Extract.antt =====
-- `extract` of dd-trace-propagation/src/tracecontext.rs.
use dd_trace_rs.Prelude.{
  Bool, true, false, not, ◌&&◌, ◌||◌, [], ◌∷◌, ◌++◌, Option, none, some, ◌==◌, if◌then◌else◌, ◌>>=◌,
}
use dd_trace_rs.Prelude.Int.{ℤ, pos, negsuc}
use dd_trace_rs.Prelude.Text.{Bytes, codes, strip_prefix, trim}
use dd_trace_rs.Prelude.Dict.{lookup, insert, remove, bytes_eq}
use dd_trace_rs.Decision.Priority
use dd_trace_rs.Decision.Mechanism
use dd_trace_rs.Decision.{SamplingPriority}
use dd_trace_rs.Propagation.Tracestate.{Sampling, Tracestate, no_sampling, from_str}
use dd_trace_rs.Propagation.Context.{
  SpanContext, ok, err, datadog_propagation_tag_prefix, traceparent_key, tracestate_key,
}
use dd_trace_rs.Propagation.TraceContext.Traceparent.{Traceparent, extract_traceparent}
use dd_trace_rs.Propagation.Datadog.{Tags, last_parent_id_key, sampling_decision_maker_tag_key}

abbrev pub same_ℤ : ℤ → ℤ → Bool
same_ℤ (pos a) (pos b) = a == b
same_ℤ (pos a) (negsuc b) = false
same_ℤ (negsuc a) (pos b) = false
same_ℤ (negsuc a) (negsuc b) = a == b

-- `PartialEq` of priorities.
abbrev same_priority : SamplingPriority → SamplingPriority → Bool
same_priority p q = same_ℤ p.value q.value

-- The two headers agree on the decision.
abbrev pub agrees : SamplingPriority → SamplingPriority → Bool
agrees traceparent_priority ts_sp =
    (same_priority traceparent_priority Priority.auto_keep && Priority.is_keep ts_sp)
    || (same_priority traceparent_priority Priority.auto_reject && not (Priority.is_keep ts_sp))

-- The traceparent decides, and the decision maker becomes the default or none.
unfoldable pub use_traceparent : SamplingPriority → Tags → SamplingPriority × Tags
use_traceparent p tags = (
  p,
  if same_priority p Priority.auto_keep
      then insert sampling_decision_maker_tag_key (Mechanism.to_cow Mechanism.default) tags
      else if same_priority p Priority.auto_reject
      then remove sampling_decision_maker_tag_key tags
      else tags,
)

unfoldable pub define_sampling_priority :
    SamplingPriority → Option SamplingPriority → Tags → SamplingPriority × Tags
unfolding use_traceparent
define_sampling_priority traceparent_priority none tags = use_traceparent traceparent_priority tags
define_sampling_priority traceparent_priority (some ts_sp) tags =
    if agrees traceparent_priority ts_sp
    then (ts_sp, tags)
    else use_traceparent traceparent_priority tags

-- The tags of the `dd` member, `t.` in front becoming `_dd.p.`.
unfoldable convert_tags : Tags → Tags → Tags
convert_tags [] tags = tags
convert_tags ((k, v) ∷ m) tags = convert_tags m (elim (strip_prefix (codes "t.") k) [
  | none ↦ tags
  | some stripped ↦ insert (datadog_propagation_tag_prefix ++ stripped) v tags
])

abbrev insert_some : Bytes → Option Bytes → Tags → Tags
insert_some k none tags = tags
insert_some k (some v) tags = insert k v tags

abbrev tags_of : Option Tags → Tags
tags_of none = []
tags_of (some m) = m

abbrev sampling_or_default : Option Sampling → Sampling
sampling_or_default none = no_sampling
sampling_or_default (some s) = s

-- With a traceparent and no valid tracestate.
unfoldable pub without_tracestate : Traceparent → Tags → SpanContext
without_tracestate tp tags = record {
  trace_id = tp.trace_id;
  span_id = tp.span_id;
  sampling = record { priority = some tp.sampling_priority; mechanism = none };
  origin = none;
  tags = tags;
  links = [];
  is_remote = true;
  tracestate = none;
}

-- With a tracestate that was read from the text `header`.
unfoldable pub with_tracestate : Traceparent → Bytes → Tracestate → Tags → SpanContext
unfolding convert_tags define_sampling_priority
with_tracestate tp header ts tags =
    let t1 = convert_tags (tags_of ts.propagation_tags) (insert tracestate_key header tags) in
    let t2 = insert_some last_parent_id_key ts.lower_order_trace_id t1 in
    let (priority, t3) =
      define_sampling_priority tp.sampling_priority (sampling_or_default ts.sampling).priority t2 in
    record {
      trace_id = tp.trace_id;
      span_id = tp.span_id;
      sampling = record {
        priority = some priority;
        mechanism = lookup sampling_decision_maker_tag_key t3 >>= Mechanism.from_str;
      };
      origin = ts.origin;
      tags = t3;
      links = [];
      is_remote = true;
      tracestate = some ts;
    }

-- What a valid traceparent, whose text is `tp_text`, and the tracestate header give.
unfoldable pub context_of : Bytes → Traceparent → Option Bytes → SpanContext
unfolding with_tracestate without_tracestate
context_of tp_text tp none = without_tracestate tp (insert traceparent_key tp_text [])
context_of tp_text tp (some header) = elim (from_str header) [
  | none ↦ without_tracestate tp (insert traceparent_key tp_text [])
  | some ts ↦ with_tracestate tp header ts (insert traceparent_key tp_text [])
]

-- The carrier is known by its `get`.
module _ (get : Bytes → Option Bytes) where
  unfoldable pub valid_context : Bytes → Option SpanContext
  unfolding extract_traceparent context_of
  valid_context tp_text = elim (extract_traceparent tp_text) [
    | err e ↦ none
    | ok tp ↦ some (context_of tp_text tp (get tracestate_key))
  ]

  unfoldable pub extract : Option SpanContext
  unfolding valid_context
  extract = do header ← get traceparent_key; valid_context (trim header)
