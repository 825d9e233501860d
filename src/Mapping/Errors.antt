-- ===== src/Mapping/Errors.antt =====
-- The error of a span: `status_to_error` and `tag_span_if_contains_exception` of
-- datadog-opentelemetry-mappings/src/transform/mod.rs.
use dd_trace_rs.Prelude.{
  ℕ, ◌+◌, Bool, true, false, not, ◌&&◌, ◌||◌, Option, none, some, List, [], ◌∷◌, ◌++◌, map,
  is_empty, is_some, if◌then◌else◌, leb,
}
use dd_trace_rs.Prelude.Int.{ℤ, pos}
use dd_trace_rs.Prelude.Text.{Bytes, codes, beq}
use dd_trace_rs.Prelude.Dict.{Dict, lookup, insert, bytes_eq}
use dd_trace_rs.Sampler.Float.{Float}
use dd_trace_rs.Mapping.Keys.{Semconv}
use dd_trace_rs.Mapping.Datadog.{DdSpan, DdSpanEvent, DdAnyValue, set_meta, dd_value_to_string}

pub data Status : Type 0 where
  unset : Status
  ok : Status
  error : Bytes → Status

abbrev pub is_error : Status → Bool
is_error (error _) = true
is_error _ = false

to_ascii_lowercase : ℕ → ℕ
to_ascii_lowercase c = if leb b'A' c && leb c b'Z' then c + 32 else c

unfoldable pub eq_ignore_ascii_case : Bytes → Bytes → Bool
unfolding to_ascii_lowercase
eq_ignore_ascii_case s t = beq (map to_ascii_lowercase s) (map to_ascii_lowercase t)

module _ (float : Float) (conv : Semconv) where
  abbrev pub is_exception : DdSpanEvent float → Bool
  is_exception e = eq_ignore_ascii_case e.name (codes "exception")

  -- The attributes of an exception and the keys they are stored under.
  exception_keys : Dict Bytes Bytes
  exception_keys =
      (conv.exception_message, codes "error.message")
      ∷ (conv.exception_type, codes "error.type")
      ∷ (conv.exception_stacktrace, codes "error.stack")
      ∷ []

  copy_attributes :
      Dict Bytes (DdAnyValue float) → Dict Bytes Bytes → Dict Bytes Bytes → Dict Bytes Bytes
  copy_attributes attributes [] meta = meta
  copy_attributes attributes ((otel_key, dd_key) ∷ keys) meta =
      copy_attributes attributes keys (elim (lookup otel_key attributes) [
        | some attr ↦ insert dd_key (dd_value_to_string float attr) meta
        | none ↦ meta
      ])

  unfoldable pub copy_exceptions : List (DdSpanEvent float) → Dict Bytes Bytes → Dict Bytes Bytes
  unfolding copy_attributes exception_keys
  copy_exceptions [] meta = meta
  copy_exceptions (e ∷ es) meta =
      copy_exceptions es
        (if is_exception e then copy_attributes e.attributes exception_keys meta else meta)

  -- The first of the two keys of a status code that has one.
  status_code_text : Dict Bytes Bytes → Option Bytes
  status_code_text meta = elim (lookup (codes "http.response.status_code") meta) [
    | some code ↦ some code
    | none ↦ lookup (codes "http.status_code") meta
  ]

  http_message : Dict Bytes Bytes → Option Bytes
  unfolding status_code_text
  http_message meta = elim (status_code_text meta) [
    | none ↦ none
    | some code ↦ elim (lookup (codes "http.status_text") meta) [
      | some http_text ↦ some (code ++ codes " " ++ http_text)
      | none ↦ some code
    ]
  ]

  -- What fills a vacant message.
  unfoldable pub error_message : Bytes → Dict Bytes Bytes → Option Bytes
  unfolding http_message
  error_message description meta =
      if is_empty description then http_message meta else some description

  unfoldable pub fill_message : Bytes → Dict Bytes Bytes → Dict Bytes Bytes
  unfolding error_message
  fill_message description meta = elim (lookup (codes "error.message") meta) [
    | some _ ↦ meta
    | none ↦ elim (error_message description meta) [
      | some text ↦ insert (codes "error.message") text meta
      | none ↦ meta
    ]
  ]

  unfoldable pub status_to_error : Status → DdSpan float → ℤ × DdSpan float
  unfolding fill_message
  status_to_error (error description) dd_span = (
    pos 1,
    record dd_span {
      meta = fill_message description (copy_exceptions dd_span.span_events dd_span.meta);
    },
  )
  status_to_error unset dd_span = (pos 0, dd_span)
  status_to_error ok dd_span = (pos 0, dd_span)

  -- `any`.
  contains_exception : List (DdSpanEvent float) → Bool
  contains_exception [] = false
  contains_exception (e ∷ es) = is_exception e || contains_exception es

  unfoldable pub tag_span_if_contains_exception : DdSpan float → DdSpan float
  unfolding contains_exception
  tag_span_if_contains_exception dd_span =
      if contains_exception dd_span.span_events
      then set_meta float (codes "_dd.span_events.has_exception") (codes "true") dd_span
      else dd_span

  unfoldable pub lacks_error_key : Dict Bytes Bytes → Bool
  lacks_error_key meta =
      not (is_some (lookup (codes "error.message") meta))
      || not (is_some (lookup (codes "error.type") meta))
      || not (is_some (lookup (codes "error.stack") meta))

  -- The end of `otel_span_to_dd_span`: the error is set again unless all three keys are there.
  unfoldable pub set_error : Status → DdSpan float → DdSpan float
  unfolding lacks_error_key
  set_error status dd_span =
      if lacks_error_key dd_span.meta
      then (let (code, dd_span') = status_to_error status dd_span in
          record dd_span' { error = code })
      else dd_span
