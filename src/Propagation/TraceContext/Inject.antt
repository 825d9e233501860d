-- ===== src/Propagation/TraceContext/Inject.antt =====
-- `inject` of dd-trace-propagation/src/tracecontext.rs. A buffer is the text after `dd=`.
use dd_trace_rs.Prelude.{
  ℕ, ◌+◌, Bool, not, ◌&&◌, ◌||◌, List, [], ◌∷◌, ◌++◌, Option, none, some, ltb, leb, ◌==◌,
  if◌then◌else◌, length, take, unwrap_or,
}
use dd_trace_rs.Prelude.Text.{Bytes, codes, strip_prefix}
use dd_trace_rs.Prelude.Dict.{lookup, bytes_eq}
use dd_trace_rs.Numeral.{print, pad}
use dd_trace_rs.Decision.Priority
use dd_trace_rs.Decision.{SamplingPriority}
use dd_trace_rs.Propagation.Ids.{hex16}
use dd_trace_rs.Propagation.Tracestate.{encode_tag_value}
use dd_trace_rs.Propagation.Context.{
  InjectSpanContext, additional_values, datadog_propagation_tag_prefix, map_option, traceparent_key,
  tracestate_key,
}
use dd_trace_rs.Propagation.Datadog.{Tags, last_parent_id_key}
use dd_trace_rs.Propagation.TraceContext.Replace.{replace_chars}

abbrev tracestate_dd_key_max_length : ℕ
tracestate_dd_key_max_length = 256

abbrev invalid_char_replacement : ℕ
invalid_char_replacement = b'_'

abbrev pub flags_text : Option SamplingPriority → Bytes
flags_text priority =
    unwrap_or (codes "00")
      (map_option (λ p. if Priority.is_keep p then codes "01" else codes "00") priority)

-- `format!("00-{:032x}-{:016x}-{flags}", …)`.
unfoldable pub traceparent_text : InjectSpanContext → Bytes
traceparent_text context =
    codes "00-"
    ++ (pad 32 (print 16 context.trace_id)
        ++ (b'-' ∷ (hex16 context.span_id ++ (b'-' ∷ flags_text context.sampling.priority))))

-- What the closures of the source replace.
abbrev invalid_key_char : ℕ → Bool
invalid_key_char c =
    not ((leb b'!' c && leb c b'+') || (leb b'-' c && leb c b'<') || (leb b'>' c && leb c b'~'))

abbrev invalid_value_char : ℕ → Bool
invalid_value_char c =
    not ((leb b' ' c && leb c b'+') || (leb b'-' c && leb c b':') || (leb b'<' c && leb c b'}'))

abbrev is_equals_sign : ℕ → Bool
is_equals_sign c = c == b'='

-- The key and the value of a propagated tag, as they are written.
unfoldable pub encoded_key : Bytes → Bytes
encoded_key suffix = replace_chars invalid_key_char invalid_char_replacement suffix

unfoldable pub encoded_value : Bytes → Bytes
encoded_value value =
    encode_tag_value (replace_chars invalid_value_char invalid_char_replacement value)

-- The loop of `append_dd_propagation_tags`, which stops at the first tag that has no room.
unfoldable pub append_dd_propagation_tags : Tags → Bytes → Bytes
append_dd_propagation_tags [] tags_buffer = tags_buffer
append_dd_propagation_tags ((key, value) ∷ tags) tags_buffer =
    elim (strip_prefix datadog_propagation_tag_prefix key) [
      | none ↦ append_dd_propagation_tags tags tags_buffer
      | some key_suffix ↦
          let k = encoded_key key_suffix in
          let v = encoded_value value in
          let entry_size = 1 + 2 + length k + 1 + length v in
          if ltb 128 (length tags_buffer + entry_size)
          then tags_buffer
          else append_dd_propagation_tags tags (tags_buffer ++ (codes ";t." ++ (k ++ (b':' ∷ v))))
    ]

abbrev pub priority_part : InjectSpanContext → Bytes
priority_part context =
    codes "s:" ++ Priority.to_string (unwrap_or Priority.user_keep context.sampling.priority)

unfoldable pub encoded_origin : Bytes → Bytes
encoded_origin origin =
    replace_chars is_equals_sign b'~'
      (replace_chars invalid_value_char invalid_char_replacement origin)

unfoldable pub add_origin : Option Bytes → Bytes → Bytes
add_origin none dd_parts = dd_parts
add_origin (some origin) dd_parts =
    let o = encoded_origin origin in
    if ltb (length dd_parts + 1 + 1 + 1 + length o) tracestate_dd_key_max_length
    then dd_parts ++ (codes ";o:" ++ o)
    else dd_parts

-- The id that is written as the last parent's.
abbrev pub last_parent_id : InjectSpanContext → Bytes
last_parent_id context =
    if context.is_remote
    then unwrap_or (hex16 context.span_id) (lookup last_parent_id_key context.tags)
    else hex16 context.span_id

unfoldable pub add_last_parent_id : InjectSpanContext → Bytes → Bytes
add_last_parent_id context dd_parts =
    if ltb (length dd_parts + 1 + 1 + 1 + 16) tracestate_dd_key_max_length
    then dd_parts ++ (codes ";p:" ++ last_parent_id context)
    else dd_parts

unfoldable pub add_tags : Tags → Bytes → Bytes
unfolding append_dd_propagation_tags
add_tags tags dd_parts =
    let tags_buffer = append_dd_propagation_tags tags [] in
    if length tags_buffer == 0
      || leb tracestate_dd_key_max_length (length (dd_parts ++ tags_buffer))
    then dd_parts
    else dd_parts ++ tags_buffer

-- The value of the `dd` member.
unfoldable pub dd_value : InjectSpanContext → Bytes
unfolding add_origin add_last_parent_id add_tags
dd_value context =
    add_tags context.tags
      (add_last_parent_id context (add_origin context.origin (priority_part context)))

-- The members of other vendors, each behind a comma.
unfoldable append_members : List Bytes → Bytes
append_members [] = []
append_members (part ∷ parts) = b',' ∷ (part ++ append_members parts)

unfoldable pub tracestate_text : InjectSpanContext → Bytes
unfolding dd_value append_members
tracestate_text context =
    codes "dd="
    ++ (dd_value context
        ++ append_members
            (unwrap_or [] (map_option (λ ts. take 31 (additional_values ts)) context.tracestate)))

-- The carrier is known by its `set`.
module _ {C : Type 0} (set : Bytes → Bytes → C → C) where
  unfoldable inject_traceparent : InjectSpanContext → C → C
  inject_traceparent context carrier = set traceparent_key (traceparent_text context) carrier

  unfoldable inject_tracestate : InjectSpanContext → C → C
  inject_tracestate context carrier = set tracestate_key (tracestate_text context) carrier

  unfoldable pub inject : InjectSpanContext → C → C
  unfolding inject_traceparent inject_tracestate
  inject context carrier =
      if not (context.trace_id == 0) && not (context.span_id == 0)
      then inject_tracestate context (inject_traceparent context carrier)
      else carrier
