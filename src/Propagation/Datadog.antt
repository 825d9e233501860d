-- ===== src/Propagation/Datadog.antt =====
-- The Datadog headers: dd-trace-propagation/src/datadog.rs.
pub mod Tags
pub mod ReadBack
pub mod Sent
pub mod Received
pub mod RoundTrip
use dd_trace_rs.Prelude.{
  ℕ, zero, suc, ◌+◌, Bool, true, false, not, ◌&&◌, ◌||◌, List, [], ◌∷◌, ◌++◌, Option, none, some,
  ltb, leb, ◌==◌, if◌then◌else◌, ◌>>=◌, length, all, is_empty, is_some, unwrap_or,
}
use dd_trace_rs.Prelude.Int.{ℤ, pos, ltb_ℤ}
use dd_trace_rs.Prelude.Text.{Bytes, codes, starts_with, strip_prefix, split, split_once}
use dd_trace_rs.Prelude.Dict.{Dict, lookup, insert, remove, bytes_eq}
use dd_trace_rs.Numeral.{print, parse_unsigned, parse_signed, u64_max}
use dd_trace_rs.Decision.Priority
use dd_trace_rs.Decision.Mechanism
use dd_trace_rs.Decision.{SamplingPriority}
use dd_trace_rs.Propagation.Ids.{split_trace_id, combine_trace_id, hex16}
use dd_trace_rs.Propagation.Tracestate.{Sampling, no_sampling}
use dd_trace_rs.Propagation.Context.{
  InjectSpanContext, SpanContext, Error, extract_error, inject_error, Result, ok, err,
  datadog_propagation_tag_prefix,
}

abbrev pub higher_order_trace_id_bits_key : Bytes
higher_order_trace_id_bits_key = codes "_dd.p.tid"

abbrev pub trace_id_key : Bytes
trace_id_key = codes "x-datadog-trace-id"

abbrev pub origin_key : Bytes
origin_key = codes "x-datadog-origin"

abbrev pub parent_id_key : Bytes
parent_id_key = codes "x-datadog-parent-id"

abbrev pub sampling_priority_key : Bytes
sampling_priority_key = codes "x-datadog-sampling-priority"

abbrev pub tags_key : Bytes
tags_key = codes "x-datadog-tags"

abbrev propagation_error_key : Bytes
propagation_error_key = codes "_dd.propagation_error"

abbrev pub last_parent_id_key : Bytes
last_parent_id_key = codes "_dd.parent_id"

-- dd-trace/src/constants.rs.
abbrev pub sampling_decision_maker_tag_key : Bytes
sampling_decision_maker_tag_key = codes "_dd.p.dm"

abbrev pub Tags : Type 0
Tags = Dict Bytes Bytes

abbrev pub datadog : Bytes
datadog = codes "datadog"

-- `keys`.
abbrev pub header_keys : List Bytes
header_keys = trace_id_key ∷ origin_key ∷ parent_id_key ∷ sampling_priority_key ∷ tags_key ∷ []

-- The bytes `' '..='+' | '-'..='~'` of a value, and the same without the space for a key.
abbrev value_byte : ℕ → Bool
value_byte c = (leb b' ' c && leb c b'+') || (leb b'-' c && leb c b'~')

abbrev pub key_byte : ℕ → Bool
key_byte c = (leb b'!' c && leb c b'+') || (leb b'-' c && leb c b'~')

unfoldable pub validate_tag_key : Bytes → Bool
validate_tag_key key = elim (strip_prefix (codes "_dd.p.") key) [
  | none ↦ false
  | some tail ↦ all key_byte tail
]

unfoldable pub validate_tag_value : Bytes → Bool
validate_tag_value value = all value_byte value

-- `tags.iter().filter(…)`: the tags that are propagated.
unfoldable pub propagated : Tags → Tags
propagated [] = []
propagated ((k, v) ∷ m) =
    let rest = propagated m in
    if starts_with datadog_propagation_tag_prefix k then (k, v) ∷ rest else rest

-- The sum of the sizes, from the tag number `i` on.
unfoldable pub total_size : ℕ → Tags → ℕ
total_size i [] = 0
total_size i ((k, v) ∷ m) =
    length k + length v + 1 + (if i == 0 then 0 else 1) + total_size (i + 1) m

-- The loop that writes, from the tag number `i` on.
unfoldable pub write_tags : ℕ → Tags → Bytes → Result Bytes
unfolding validate_tag_key validate_tag_value
write_tags i [] out = ok out
write_tags i ((k, v) ∷ m) out =
    let rest =
      write_tags (i + 1) m (((if i == 0 then out else out ++ b',' ∷ []) ++ k) ++ b'=' ∷ [] ++ v) in
    if not (validate_tag_key k) || not (validate_tag_value v)
    then err (inject_error (codes "encoding_error") datadog)
    else rest

unfoldable pub get_propagation_tags : Tags → ℕ → Result Bytes
unfolding write_tags propagated total_size
get_propagation_tags tags max_length =
    if ltb max_length (total_size 0 (propagated tags))
    then err (inject_error (codes "inject_max_size") datadog)
    else write_tags 0 (propagated tags) []

-- The carrier is known by its `set`.
module _ {C : Type 0} (set : Bytes → Bytes → C → C) where
  unfoldable pub inject_trace_id : ℕ → C → Tags → C × Tags
  inject_trace_id trace_id carrier tags =
      let (higher, lower) = split_trace_id trace_id in
      (
        set trace_id_key (print 10 lower) carrier,
        elim higher [
          | some h ↦ insert higher_order_trace_id_bits_key (hex16 h) tags
          | none ↦ remove higher_order_trace_id_bits_key tags
        ],
      )

  unfoldable pub inject_sampling : Sampling → C → Tags → C × Tags
  inject_sampling sampling carrier tags = (
    elim sampling.priority [
      | some p ↦ set sampling_priority_key (Priority.to_string p) carrier
      | none ↦ carrier
    ],
    elim sampling.mechanism [
      | some m ↦ insert sampling_decision_maker_tag_key (Mechanism.to_cow m) tags
      | none ↦ tags
    ],
  )

  unfoldable pub inject_tags : Tags → C → ℕ → C × Tags
  inject_tags tags carrier max_length =
      if max_length == 0
      then (carrier, insert propagation_error_key (codes "disabled") tags)
      else elim (get_propagation_tags tags max_length) [
        | ok text ↦ (if not (is_empty text) then set tags_key text carrier else carrier, tags)
        | err e ↦ (carrier, insert propagation_error_key e.message tags)
      ]

  unfoldable pub inject : InjectSpanContext → C → ℕ → C × InjectSpanContext
  unfolding inject_trace_id inject_sampling inject_tags
  inject context carrier max_length =
      let (c1, t1) = inject_trace_id context.trace_id carrier context.tags in
      let c2 = set parent_id_key (print 10 context.span_id) c1 in
      let c3 : C = elim context.origin [ some o ↦ set origin_key o c2 | none ↦ c2 ] in
      let (c4, t2) = inject_sampling context.sampling c3 t1 in
      let (c5, t3) = inject_tags t2 c4 max_length in (c5, record context { tags = t3 })

unfoldable pub higher_order_bits_valid : Bytes → Bool
higher_order_bits_valid s =
    if not (length s == 16) then false else is_some (parse_unsigned 16 u64_max s)

-- Of `parse::<i8>`: an error or a positive number.
abbrev pub invalid_decision : Bytes → Bool
invalid_decision s = elim (parse_signed 128 128 s) [ none ↦ true | some m ↦ ltb_ℤ (pos 0) m ]

unfoldable pub validate_sampling_decision : Tags → Tags
validate_sampling_decision tags = elim (lookup sampling_decision_maker_tag_key tags) [
  | none ↦ tags
  | some s ↦
      if invalid_decision s
      then insert propagation_error_key (codes "decoding_error")
          (remove sampling_decision_maker_tag_key tags)
      else tags
]

-- The loop over the pairs.
unfoldable pub collect_pairs : List Bytes → Tags → Tags
collect_pairs [] tags = tags
collect_pairs (p ∷ ps) tags = collect_pairs ps (elim (split_once b'=' p) [
  | none ↦ tags
  | some (k, v) ↦ if starts_with datadog_propagation_tag_prefix k then insert k v tags else tags
])

unfoldable pub check_higher_order_bits : Tags → Tags
check_higher_order_bits tags = elim (lookup higher_order_trace_id_bits_key tags) [
  | none ↦ tags
  | some bits ↦
      if higher_order_bits_valid bits
      then tags
      else remove higher_order_trace_id_bits_key
          (insert propagation_error_key (codes "malformed_tid " ++ bits) tags)
]

-- The carrier is known by its `get`.
module _ (get : Bytes → Option Bytes) where
  unfoldable pub extract_trace_id : Result (Option ℕ)
  extract_trace_id = elim (get trace_id_key) [
    | none ↦ ok none
    | some s ↦ elim (parse_unsigned 10 u64_max s) [
      | none ↦ err (extract_error (codes "Failed to decode `trace_id`") datadog)
      | some trace_id ↦
          if trace_id == 0
          then err (extract_error (codes "Invalid `trace_id` found") datadog)
          else ok (some trace_id)
    ]
  ]

  unfoldable pub extract_parent_id : Result (Option ℕ)
  extract_parent_id = elim (get parent_id_key) [
    | none ↦ ok none
    | some s ↦ elim (parse_unsigned 10 u64_max s) [
      | none ↦ err (extract_error (codes "Failed to decode `parent_id`") datadog)
      | some parent_id ↦ ok (some parent_id)
    ]
  ]

  unfoldable pub extract_sampling_priority : Result (Option SamplingPriority)
  extract_sampling_priority = elim (get sampling_priority_key) [
    | none ↦ ok none
    | some s ↦ elim (Priority.from_str s) [
      | none ↦ err (extract_error (codes "Failed to decode `sampling_priority`") datadog)
      | some p ↦ ok (some p)
    ]
  ]

  unfoldable pub extract_tags : ℕ → Tags
  unfolding collect_pairs check_higher_order_bits validate_sampling_decision
  extract_tags max_length =
      let carrier_tags = unwrap_or [] (get tags_key) in
      if ltb max_length (length carrier_tags)
      then insert propagation_error_key
          (if max_length == 0 then codes "disabled" else codes "extract_max_size") []
      else validate_sampling_decision
          (check_higher_order_bits (collect_pairs (split b',' carrier_tags) []))

  -- The sampling decision: no priority, no mechanism.
  unfoldable pub sampling_of : Result (Option SamplingPriority) → Tags → Sampling
  sampling_of (ok p) tags = record {
    priority = p;
    mechanism =
        if is_some p
        then lookup sampling_decision_maker_tag_key tags >>= Mechanism.from_str
        else none;
  }
  sampling_of (err e) tags = no_sampling

  unfoldable pub parent_or_zero : Result (Option ℕ) → ℕ
  parent_or_zero (ok p) = unwrap_or 0 p
  parent_or_zero (err e) = 0

  unfoldable pub extract : ℕ → Option SpanContext
  unfolding extract_trace_id extract_parent_id extract_sampling_priority extract_tags sampling_of
      parent_or_zero
  extract max_length = elim extract_trace_id [
    | err e ↦ none
    | ok none ↦ none
    | ok (some lower_trace_id) ↦
        let tags = extract_tags max_length in
        some (record {
          trace_id = combine_trace_id lower_trace_id (lookup higher_order_trace_id_bits_key tags);
          span_id = parent_or_zero extract_parent_id;
          sampling = sampling_of extract_sampling_priority tags;
          origin = get origin_key;
          tags = tags;
          links = [];
          is_remote = true;
          tracestate = none;
        })
  ]
