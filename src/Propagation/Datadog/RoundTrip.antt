-- ===== src/Propagation/Datadog/RoundTrip.antt =====
-- A context that is injected into the Datadog headers is extracted from them.
use dd_trace_rs.Prelude.{
  ℕ, ◌^◌, ◌≤◌, ◌<◌, ◌≡◌, ◌≢◌, ap, ◌∙◌, true, false, ◌==◌, [], Option, none, some, length, all, All,
  arith, ◌>>=◌,
}
use dd_trace_rs.Prelude.Int.{InRange}
use dd_trace_rs.Prelude.Text.{Bytes}
use dd_trace_rs.Prelude.Dict.{lookup, bytes_eq}
use dd_trace_rs.Numeral.{print, u64_max}
use dd_trace_rs.Numeral.RoundTrip.{parse_unsigned-print}
use dd_trace_rs.Decision.Priority
use dd_trace_rs.Decision.Mechanism
use dd_trace_rs.Decision.{SamplingPriority, SamplingMechanism}
use dd_trace_rs.Decision.Laws.{priority_round_trip, mechanism_round_trip}
use dd_trace_rs.Propagation.Ids.{split_trace_id, combine_trace_id, combine-split}
use dd_trace_rs.Propagation.Context.{
  InjectSpanContext, SpanContext, ok, set_header, get_header, map_option,
}
use dd_trace_rs.Propagation.Datadog.{
  higher_order_trace_id_bits_key, sampling_decision_maker_tag_key, trace_id_key, origin_key,
  parent_id_key, sampling_priority_key, propagated, inject, extract_trace_id, extract_parent_id,
  extract_sampling_priority, extract_tags, sampling_of, parent_or_zero, extract,
}
use dd_trace_rs.Propagation.Datadog.Tags.{text, valid_tag}
use dd_trace_rs.Propagation.Datadog.ReadBack.{PlainKey, UniqueKeys, insert_all}
use dd_trace_rs.Propagation.Datadog.Sent.{
  sent_tags, sent_headers, inject-headers, get_trace_id, get_parent_id, get_origin, get_priority,
  get_tags,
}
use dd_trace_rs.Propagation.Datadog.Received.{
  lookup-received, received-bits, received-decision, extract_tags-sent,
}

-- The context that the receiver gets: the sender's, with the propagated tags.
abbrev pub received_context : InjectSpanContext → SpanContext
received_context c = record {
  trace_id = c.trace_id;
  span_id = c.span_id;
  sampling = c.sampling;
  origin = c.origin;
  tags = insert_all (propagated (sent_tags c)) [];
  links = [];
  is_remote = true;
  tracestate = none;
}

module _ (get : Bytes → Option Bytes) where
  read_trace_id :
      (n : ℕ)
      → n ≤ u64_max
      → n ≢ 0
      → get trace_id_key ≡ some (print 10 n)
      → extract_trace_id get ≡ ok (some n)
  unfolding extract_trace_id
  read_trace_id n fits positive e =
      let nonzero : (n == 0) ≡ false = ground arith in
      rw (e, extract_trace_id)
        (rw (
          parse_unsigned-print 10 u64_max n (omega arith) (omega arith) fits,
          nonzero,
          extract_trace_id,
        ))

  read_parent_id :
      (n : ℕ)
      → n ≤ u64_max
      → get parent_id_key ≡ some (print 10 n)
      → extract_parent_id get ≡ ok (some n)
  unfolding extract_parent_id
  read_parent_id n fits e =
      rw (e, extract_parent_id)
        (rw (parse_unsigned-print 10 u64_max n (omega arith) (omega arith) fits, extract_parent_id))

  read_priority :
      (p : SamplingPriority)
      → InRange 128 128 p.value
      → get sampling_priority_key ≡ some (Priority.to_string p)
      → extract_sampling_priority get ≡ ok (some p)
  unfolding extract_sampling_priority
  read_priority p range e =
      rw (e, extract_sampling_priority)
        (rw (priority_round_trip p range, extract_sampling_priority))

  read_context :
      (c : InjectSpanContext) (max_length : ℕ) (p : SamplingPriority) (m : SamplingMechanism)
      → extract_trace_id get ≡ ok (some (split_trace_id c.trace_id).1)
      → extract_parent_id get ≡ ok (some c.span_id)
      → extract_sampling_priority get ≡ ok (some p)
      → get origin_key ≡ c.origin
      → extract_tags get max_length ≡ insert_all (propagated (sent_tags c)) []
      → combine_trace_id
          (split_trace_id c.trace_id).1
          (lookup higher_order_trace_id_bits_key (insert_all (propagated (sent_tags c)) []))
        ≡ c.trace_id
      → lookup sampling_decision_maker_tag_key (insert_all (propagated (sent_tags c)) [])
        ≡ some (Mechanism.to_cow m)
      → m.value ≤ 255
      → c.sampling.priority ≡ some p
      → c.sampling.mechanism ≡ some m
      → extract get max_length ≡ some (received_context c)
  unfolding extract sampling_of parent_or_zero
  read_context c max_length p m tid pid prio origin tags whole dm fits has_p has_m =
      let decided : (lookup sampling_decision_maker_tag_key
              (insert_all (propagated (sent_tags c)) [])
            >>= Mechanism.from_str)
          ≡ some m =
        rw dm (mechanism_round_trip m fits) in
      rw (tid, extract) (rw (tags, pid, prio, origin, whole, decided, has_p, has_m))

lower_fits : (trace_id : ℕ) → (split_trace_id trace_id).1 ≤ u64_max
unfolding split_trace_id
lower_fits trace_id = omega arith

-- A context that is injected into an empty hash map is extracted from its headers: the trace id with
-- all its 128 bits, the span id, the sampling decision, the origin, and under every key the tag that
-- was propagated. The conditions: the ids fit 128 and 64 bits and the lower half of the trace id is
-- not 0; the priority is an `i8` and the mechanism, at most 128, its decision maker; the propagated
-- tags pass the validation, their keys are distinct and have no `=`, and their text fits the limit,
-- which is not 0.
pub extract-inject :
    (c : InjectSpanContext) (max_length : ℕ) (p : SamplingPriority) (m : SamplingMechanism)
    → c.trace_id < 2 ^ 128
    → (split_trace_id c.trace_id).1 ≢ 0
    → c.span_id < 2 ^ 64
    → c.sampling.priority ≡ some p
    → InRange 128 128 p.value
    → c.sampling.mechanism ≡ some m
    → m.value ≤ 128
    → max_length ≢ 0
    → all valid_tag (propagated (sent_tags c)) ≡ true
    → All PlainKey (propagated (sent_tags c))
    → UniqueKeys (propagated (sent_tags c))
    → length (text (propagated (sent_tags c))) ≤ max_length
    → (extract (get_header (inject set_header c [] max_length).0) max_length
        ≡ some (received_context c))
      × ((key : Bytes)
          → lookup key (received_context c).tags ≡ lookup key (propagated (sent_tags c)))
extract-inject c max_length p m wide low id_fits has_p range has_m small positive valid plain unique
      fits =
    let headers = sent_headers c in
    let get = get_header headers in
    let whole =
      ap (combine_trace_id (split_trace_id c.trace_id).1) (received-bits c max_length m p unique)
      ∙ combine-split c.trace_id wide in
    let prio = get_priority c ∙ ap (map_option Priority.to_string) has_p in
    (
      rw (inject-headers c max_length positive valid fits) (
          read_context get c max_length p m
            (read_trace_id get (split_trace_id c.trace_id).1 (lower_fits c.trace_id) low
              (get_trace_id c))
            (read_parent_id get c.span_id (omega arith) (get_parent_id c))
            (read_priority get p range prio) (get_origin c)
            (extract_tags-sent c max_length m p get (get_tags c) valid plain unique fits has_m
              small)
            whole (received-decision c max_length m p unique has_m) (omega arith) has_p has_m),
      lookup-received c max_length m p unique,
    )
