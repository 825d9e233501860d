-- ===== src/Mapping/Transform/Fields.antt =====
-- What the fields of the converted span are.
use dd_trace_rs.Prelude.{
  ℕ, ◌+◌, ◌-◌, ◌%◌, ◌^◌, ◌*◌, ◌<◌, ◌≡◌, refl, ap, ◌∙◌, Bool, true, false, is_empty, arith,
}
use dd_trace_rs.Prelude.Int.{pos, sub_ℤ, from_difference}
use dd_trace_rs.Prelude.Text.{Bytes, codes}
use dd_trace_rs.Sampler.Float.{Float}
use dd_trace_rs.Mapping.Keys.{Semconv}
use dd_trace_rs.Mapping.Value.{Value, OpenTelemetry, Resource}
use dd_trace_rs.Mapping.Names.Laws.{get_otel_service_present}
use dd_trace_rs.Mapping.Datadog.{DdSpan, set_meta, set_metric}
use dd_trace_rs.Mapping.Transform.{
  SdkSpan, time_as_unix_nanos, as_i64, fits_i64, duration, otel_trace_id_to_dd_id, or_else,
  set_code, set_flag, fields_of, status_code_of, is_measured, extracted,
  otel_span_to_dd_span_minimal, otel_span_to_dd_span,
}
use dd_trace_rs.Mapping.Transform.Identity.{identity, otel_span_to_dd_span-identity}

as_i64_small : (n : ℕ) → n < 2 ^ 63 → as_i64 n ≡ pos n
unfolding as_i64
as_i64_small n h = let e : n % 2 ^ 64 ≡ n = omega arith in ground arith

-- Times before the year 2262 are kept, and a span that ends before it starts lasts no time.
pub duration_sound :
    (start end : ℕ)
    → start < 2 ^ 63
    → end < 2 ^ 63
    → (time_as_unix_nanos (pos start) ≡ pos start)
      × (duration (time_as_unix_nanos (pos start)) (time_as_unix_nanos (pos end))
          ≡ pos (end - start))
unfolding time_as_unix_nanos duration fits_i64 sub_ℤ from_difference
duration_sound start end h h' = (
  as_i64_small start h,
  rw (duration, as_i64_small start h, as_i64_small end h', sub_ℤ) (ground arith),
)

module _ (float : Float) (conv : Semconv) (otel : OpenTelemetry float) where
  set_flag-identity :
      (b : Bool) (k : Bytes) (s : DdSpan float)
      → identity float (set_flag float conv otel b k s) ≡ identity float s
  unfolding set_flag set_metric
  set_flag-identity true k s = refl
  set_flag-identity false k s = refl

  set_code-identity :
      (code : ℕ) (s : DdSpan float)
      → identity float (set_code float conv otel code s) ≡ identity float s
  unfolding set_code set_meta
  set_code-identity code s = ground arith

  -- The fields of the converted span are those first set.
  fields_of-identity :
      (otel_span : SdkSpan float) (resource : Resource float)
      → identity float (otel_span_to_dd_span float conv otel otel_span resource)
        ≡ identity float
            (fields_of float conv otel otel_span (extracted float conv otel otel_span resource))
  unfolding otel_span_to_dd_span_minimal
  fields_of-identity otel_span resource =
      let span = extracted float conv otel otel_span resource in
      let s = fields_of float conv otel otel_span span in
      let coded = set_code float conv otel (status_code_of float conv otel span) s in
      let measured = is_measured float conv otel span in
      otel_span_to_dd_span-identity float conv otel otel_span resource
      ∙ set_flag-identity measured (codes "_dd.measured")
          (set_flag float conv otel false (codes "_top_level") coded)
      ∙ set_flag-identity false (codes "_top_level") coded
      ∙ set_code-identity (status_code_of float conv otel span) s

  -- A converted span has a service.
  pub otel_span_to_dd_span_service :
      (otel_span : SdkSpan float) (resource : Resource float)
      → ((v : Value float) → is_empty (otel.to_string v) ≡ true → is_empty (otel.as_str v) ≡ true)
      → is_empty (otel_span_to_dd_span float conv otel otel_span resource).service ≡ false
  unfolding or_else fields_of
  otel_span_to_dd_span_service otel_span resource shown =
      let span = extracted float conv otel otel_span resource in
      let e = ap (λ i. i.service) (fields_of-identity otel_span resource) in
      let present = get_otel_service_present conv otel span shown in rw e (ground arith)

  -- The ids are those of the span: the trace id's lower half, with its higher half, is the whole.
  pub otel_span_to_dd_span_ids :
      (otel_span : SdkSpan float) (resource : Resource float)
      → let s = otel_span_to_dd_span float conv otel otel_span resource in
        let context = otel_span.span_context in
        (s.trace_id + (otel_trace_id_to_dd_id context.trace_id).1 * 2 ^ 64 ≡ context.trace_id)
        × (s.span_id ≡ context.span_id)
        × (s.parent_id ≡ otel_span.parent_span_id)
  unfolding otel_trace_id_to_dd_id fields_of
  otel_span_to_dd_span_ids otel_span resource =
      let e = fields_of-identity otel_span resource in
      (omega (arith, ap (λ i. i.trace_id) e), ap (λ i. i.span_id) e, ap (λ i. i.parent_id) e)
