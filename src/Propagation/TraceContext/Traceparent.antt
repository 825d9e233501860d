-- ===== src/Propagation/TraceContext/Traceparent.antt =====
-- `extract_traceparent` of dd-trace-propagation/src/tracecontext.rs.
use dd_trace_rs.Prelude.{
  ℕ, ◌%◌, Bool, not, ◌&&◌, ◌||◌, [], ◌∷◌, Option, none, some, ltb, leb, ◌==◌, if◌then◌else◌, ◌>>=◌,
  length, take, drop, all, is_empty,
}
use dd_trace_rs.Prelude.Text.{Bytes, codes, beq}
use dd_trace_rs.Prelude.Dict.{bytes_eq}
use dd_trace_rs.Numeral.{parse_unsigned, u8_max, u64_max, u128_max}
use dd_trace_rs.Decision.Priority
use dd_trace_rs.Decision.{SamplingPriority}
use dd_trace_rs.Propagation.Context.{extract_error, Result, ok, err}

pub record Traceparent : Type 0 where
  pub sampling_priority : SamplingPriority
  pub trace_id : ℕ
  pub span_id : ℕ

unfoldable pub take_char : Bytes → ℕ → Option Bytes
take_char [] c = none
take_char (d ∷ s) c = if d == c then some s else none

abbrev pub hex_char : ℕ → Bool
hex_char c = (leb b'0' c && leb c b'9') || (leb b'a' c && leb c b'f')

unfoldable pub take_n_hex_chars : Bytes → ℕ → Option (Bytes × Bytes)
take_n_hex_chars s n =
    if ltb (length s) n
    then none
    else if all hex_char (take n s)
    then some (take n s, drop n s)
    else none

pub record Components : Type 0 where
  pub version : Bytes
  pub trace_id : Bytes
  pub span_id : Bytes
  pub flags : Bytes
  pub tail : Bytes

abbrev tail_of : Bytes → Option Bytes
tail_of [] = some []
tail_of (c ∷ s) = take_char (c ∷ s) b'-'

unfoldable pub parse_traceparent_components : Bytes → Option Components
unfolding take_char take_n_hex_chars
parse_traceparent_components traceparent = do
  (version, r1) ← take_n_hex_chars traceparent 2
  r2 ← take_char r1 b'-'
  (trace_id, r3) ← take_n_hex_chars r2 32
  r4 ← take_char r3 b'-'
  (span_id, r5) ← take_n_hex_chars r4 16
  r6 ← take_char r5 b'-'
  (flags, r7) ← take_n_hex_chars r6 2
  tail ← tail_of r7
  some (record {
    version = version;
    trace_id = trace_id;
    span_id = span_id;
    flags = flags;
    tail = tail;
  })

abbrev failed : {A : Type 0} → Bytes → Result A
failed message = err (extract_error message (codes "traceparent"))

unfoldable pub extract_trace_id : Bytes → Result ℕ
extract_trace_id s = elim (parse_unsigned 16 u128_max s) [
  | none ↦ failed (codes "Failed to decode trace_id")
  | some trace_id ↦
      if trace_id == 0 then failed (codes "`0` value for trace_id is invalid") else ok trace_id
]

unfoldable pub extract_span_id : Bytes → Result ℕ
extract_span_id s = elim (parse_unsigned 16 u64_max s) [
  | none ↦ failed (codes "Failed to decode span_id")
  | some span_id ↦
      if span_id == 0 then failed (codes "`0` value for span_id is invalid") else ok span_id
]

unfoldable pub extract_trace_flags : Bytes → Result ℕ
extract_trace_flags flags =
    if not (length flags == 2)
    then failed (codes "Invalid trace flags length")
    else elim (parse_unsigned 16 u8_max flags) [
      | none ↦ failed (codes "Failed to decode trace_flags")
      | some f ↦ ok f
    ]

-- What a header of the version, with the tail and the flags, fails with.
unfoldable pub extract_version : Bytes → Bytes → ℕ → Option Bytes
extract_version version tail trace_flags =
    if beq version (codes "ff")
    then some (codes "`ff` is an invalid traceparent version")
    else if beq version (codes "00")
    then (if not (is_empty tail)
        then some
            (codes "Traceparent with version `00` should contain only 4 values delimited by `-`")
        else if ltb 2 trace_flags
        then some (codes "invalid trace flags for version 00")
        else none)
    else none

abbrev pub and_then : {A B : Type 0} → Result A → (A → Result B) → Result B
and_then (ok a) k = k a
and_then (err e) k = err e

abbrev pub require : {A : Type 0} → Option Bytes → Result A → Result A
require none r = r
require (some message) r = failed message

abbrev priority_of_flags : ℕ → SamplingPriority
priority_of_flags trace_flags =
    if trace_flags % 2 == 1 then Priority.auto_keep else Priority.auto_reject

-- The fields of a header that has the shape.
unfoldable pub read_components : Components → Result Traceparent
unfolding extract_trace_id extract_span_id extract_trace_flags extract_version
read_components c = and_then (extract_trace_id c.trace_id) (λ trace_id.
    and_then (extract_span_id c.span_id) (λ span_id.
      and_then (extract_trace_flags c.flags) (λ trace_flags.
        require (extract_version c.version c.tail trace_flags) (
          ok (record {
            sampling_priority = priority_of_flags trace_flags;
            trace_id = trace_id;
            span_id = span_id;
          })))))

unfoldable pub extract_traceparent : Bytes → Result Traceparent
unfolding parse_traceparent_components read_components
extract_traceparent traceparent = elim (parse_traceparent_components traceparent) [
  | none ↦ failed (codes "invalid traceparent")
  | some c ↦ read_components c
]
