-- ===== src/Examples/Propagation.antt =====
-- A context through the Datadog headers and the tracestate parser, at concrete values.
use dd_trace_rs.Prelude.{
  ◌≡◌, ◌∙◌, All, ◌≤◌, ◌^◌, ◌+◌, refl, true, false, ◌≢◌, [], ◌∷◌, some, none, arith, all,
  if◌then◌else◌, ltb, length,
}
use dd_trace_rs.Prelude.Text.{
  Bytes, codes, beq, split, split_once, contains, starts_with, strip_prefix,
}
use dd_trace_rs.Prelude.Dict.{lookup, insert, remove, bytes_eq}
use dd_trace_rs.Numeral.{print, digits, digit_char, pad}
use dd_trace_rs.Decision.Priority
use dd_trace_rs.Decision.Mechanism
use dd_trace_rs.Propagation.Ids.{split_trace_id, combine_trace_id, hex16_of, combine-split}
use dd_trace_rs.Propagation.Context.{
  InjectSpanContext, ok, err, inject_error, set_header, get_header,
}
use dd_trace_rs.Propagation.Tracestate.{
  Tracestate, valid_key, valid_key_from, valid_value, from_str, assemble,
}
use dd_trace_rs.Propagation.Tracestate.Members.{valid_member, foreign, last_dd, from_str-members}
use dd_trace_rs.Propagation.Datadog.{
  Tags, validate_tag_key, validate_tag_value, inject_trace_id, inject_sampling, datadog, propagated,
  get_propagation_tags, collect_pairs, inject, extract,
}
use dd_trace_rs.Propagation.Datadog.Tags.{
  text, tail_text, valid_tag, encoding_error, get_propagation_tags-text,
}
use dd_trace_rs.Propagation.Datadog.ReadBack.{
  PlainKey, UniqueKeys, insert_all, collect_pairs_written,
}
use dd_trace_rs.Propagation.Datadog.Sent.{sent_tags}
use dd_trace_rs.Propagation.Datadog.RoundTrip.{received_context, extract-inject}

combine-split_example :
    combine_trace_id (split_trace_id (2 ^ 64 + 5)).1 (hex16_of (split_trace_id (2 ^ 64 + 5)).0)
    ≡ 2 ^ 64 + 5
combine-split_example = combine-split (2 ^ 64 + 5) (omega arith)

abbrev two_tags : Tags
two_tags = (codes "_dd.p.dm", codes "-4") ∷ (codes "_dd.p.usr.id", codes "aGVq") ∷ []

get_propagation_tags-text_example : get_propagation_tags two_tags 512 ≡ (
    if ltb 512 (length (text (propagated two_tags)))
    then err (inject_error (codes "inject_max_size") datadog)
    else if all valid_tag (propagated two_tags)
    then ok (text (propagated two_tags))
    else encoding_error)
get_propagation_tags-text_example = get_propagation_tags-text two_tags 512

collect_pairs_written_example :
    collect_pairs (split b',' (text two_tags)) [] ≡ insert_all two_tags []
unfolding validate_tag_key validate_tag_value strip_prefix
collect_pairs_written_example =
    collect_pairs_written two_tags [] refl (omega arith, (omega arith, tt))

abbrev header : Bytes
header = codes "dd=s:2;o:rum,foo=1"

from_str-members_example : from_str header ≡ (
    if all valid_member (split b',' header)
    then some (assemble (last_dd none (split b',' header)) (foreign (split b',' header)))
    else none)
from_str-members_example = from_str-members header

abbrev sender : InjectSpanContext
sender = record {
  trace_id = 2 ^ 64 + 5;
  span_id = 42;
  sampling = record { priority = some Priority.user_keep; mechanism = some Mechanism.manual };
  origin = some (codes "rum");
  tags = (codes "_dd.p.usr.id", codes "aGVq") ∷ (codes "http.route", codes "home") ∷ [];
  is_remote = false;
  tracestate = none;
}

header_valid : all valid_member (split b',' header) ≡ true
unfolding split split_once valid_key valid_key_from contains valid_value
header_valid = refl

abbrev parsed : Tracestate
parsed = assemble (last_dd none (split b',' header)) (foreign (split b',' header))

header_parsed : from_str header ≡ some parsed
header_parsed = from_str-members header ∙ rw header_valid

sent_tags-sender :
    propagated (sent_tags sender)
    ≡ (codes "_dd.p.usr.id", codes "aGVq")
      ∷ (codes "_dd.p.tid", codes "0000000000000001")
      ∷ (codes "_dd.p.dm", codes "-4")
      ∷ []
unfolding propagated inject_trace_id inject_sampling split_trace_id insert remove starts_with beq
    print digits digit_char pad Mechanism.to_cow
sent_tags-sender = refl

-- The three tags that travel.
abbrev travelling : Tags
travelling =
    (codes "_dd.p.usr.id", codes "aGVq")
    ∷ (codes "_dd.p.tid", codes "0000000000000001")
    ∷ (codes "_dd.p.dm", codes "-4")
    ∷ []

travelling_valid : all valid_tag travelling ≡ true
unfolding validate_tag_key validate_tag_value strip_prefix
travelling_valid = refl

travelling_plain : All PlainKey travelling
travelling_plain = (omega arith, (omega arith, (omega arith, tt)))

travelling_unique : UniqueKeys travelling
unfolding lookup beq
travelling_unique = (refl, (refl, (refl, tt)))

travelling_fits : length (text travelling) ≤ 512
unfolding text tail_text
travelling_fits = omega arith

sender_low : (split_trace_id sender.trace_id).1 ≢ 0
unfolding split_trace_id
sender_low = omega arith

extract-inject_example :
    (extract (get_header (inject set_header sender [] 512).0) 512 ≡ some (received_context sender))
    × ((key : Bytes)
        → lookup key (received_context sender).tags ≡ lookup key (propagated (sent_tags sender)))
extract-inject_example =
    extract-inject sender 512 Priority.user_keep Mechanism.manual (omega arith) sender_low
      (omega arith) refl (omega arith) refl (omega arith) (omega arith)
      (rw sent_tags-sender travelling_valid) (rw sent_tags-sender travelling_plain)
      (rw sent_tags-sender travelling_unique) (rw sent_tags-sender travelling_fits)
