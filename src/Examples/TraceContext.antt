-- ===== src/Examples/TraceContext.antt =====
-- The W3C headers of a context, at concrete values.
use dd_trace_rs.Prelude.{
  ℕ, ◌≡◌, ◌^◌, ◌+◌, ◌≤◌, ◌<◌, refl, true, false, Bool, [], ◌∷◌, some, none, arith, all,
  if◌then◌else◌, length, Option,
}
use dd_trace_rs.Prelude.Text.{Bytes, codes, beq, trim, strip_prefix}
use dd_trace_rs.Prelude.Dict.{bytes_eq}
use dd_trace_rs.Numeral.{parse_unsigned, scan, to_digit}
use dd_trace_rs.Numeral.RoundTrip.{length-pad}
use dd_trace_rs.Decision.Priority
use dd_trace_rs.Decision.Mechanism
use dd_trace_rs.Propagation.Context.{InjectSpanContext, SpanContext, ok, traceparent_key}
use dd_trace_rs.Propagation.TraceContext.Replace.{kept, replace_chars, replace_chars-kept}
use dd_trace_rs.Propagation.TraceContext.Inject.{traceparent_text, last_parent_id, dd_value}
use dd_trace_rs.Propagation.TraceContext.Bounds.{length-dd_value}
use dd_trace_rs.Propagation.TraceContext.Traceparent.{Traceparent, extract_traceparent}
use dd_trace_rs.Propagation.TraceContext.RoundTrip.{extract_traceparent-traceparent_text}
use dd_trace_rs.Propagation.TraceContext.Extract.{extract, context_of, valid_context}
use dd_trace_rs.Propagation.TraceContext.Decision.{ValidIds, Keeps, extract_sound}

abbrev sender : InjectSpanContext
sender = record {
  trace_id = 2 ^ 64 + 5;
  span_id = 42;
  sampling = record { priority = some Priority.user_keep; mechanism = some Mechanism.manual };
  origin = some (codes "rum");
  tags = (codes "_dd.p.usr.id", codes "aGVq") ∷ [];
  is_remote = false;
  tracestate = none;
}

abbrev is_comma : ℕ → Bool
is_comma c = beq (c ∷ []) (codes ",")

replace_chars-kept_example : all (kept is_comma) (replace_chars is_comma b'_' (codes "a,b")) ≡ true
unfolding beq
replace_chars-kept_example = replace_chars-kept is_comma b'_' (codes "a,b") refl

-- A character of three bytes gives one replacement.
three_bytes : replace_chars is_comma b'_' (97 ∷ 226 ∷ 130 ∷ 172 ∷ 98 ∷ []) ≡ codes "a_b"
unfolding replace_chars beq
three_bytes = refl

sender_parent : length (last_parent_id sender) ≤ 16
sender_parent = omega (arith, length-pad 16 42 15 (omega arith) (omega arith))

length-dd_value_example : length (dd_value sender) < 256
length-dd_value_example = length-dd_value sender (omega arith) sender_parent

extract_traceparent-traceparent_text_example :
    extract_traceparent (traceparent_text sender)
    ≡ ok (record { sampling_priority = Priority.auto_keep; trace_id = 2 ^ 64 + 5; span_id = 42 })
extract_traceparent-traceparent_text_example =
    extract_traceparent-traceparent_text sender Priority.user_keep refl (omega arith) (omega arith)
      (omega arith) (omega arith)

abbrev header : Bytes
header = codes "00-00000000000000010000000000000005-000000000000002a-01"

abbrev carrier : Bytes → Option Bytes
carrier key = if beq key traceparent_key then some header else none

abbrev received : SpanContext
received =
    context_of header
      (record { sampling_priority = Priority.auto_keep; trace_id = 2 ^ 64 + 5; span_id = 42 }) none

header_trimmed : trim header ≡ header
unfolding trim strip_prefix
header_trimmed = refl

header_read :
    extract_traceparent header
    ≡ ok (record { sampling_priority = Priority.auto_keep; trace_id = 2 ^ 64 + 5; span_id = 42 })
unfolding extract_traceparent parse_unsigned scan to_digit beq
header_read = refl

received_extracted : extract carrier ≡ some received
unfolding extract valid_context beq
received_extracted = rw header_trimmed (rw (header_read, valid_context))

extract_sound_example :
    (h : Bytes) × (tp : Traceparent) × (carrier traceparent_key ≡ some h)
    × (extract_traceparent (trim h) ≡ ok tp)
    × (received.trace_id ≡ tp.trace_id)
    × (received.span_id ≡ tp.span_id)
    × ValidIds received.trace_id received.span_id
    × Keeps received.sampling.priority (Priority.is_keep tp.sampling_priority)
extract_sound_example = extract_sound carrier received received_extracted
