-- ===== src/Propagation/TraceContext/Bounds.antt =====
-- The `dd` member of the tracestate is bounded.
use dd_trace_rs.Prelude.{
  suc, ◌+◌, ◌≤◌, ◌<◌, [], ◌++◌, Option, none, some, ltb, leb, ◌==◌, length, unwrap_or, arith,
  Bool-cases, inl, inr, length-append, ◌||◌,
}
use dd_trace_rs.Prelude.Int.{ℤ, pos, negsuc, InRange}
use dd_trace_rs.Prelude.Text.{Bytes, codes}
use dd_trace_rs.Prelude.Dict.{bytes_eq}
use dd_trace_rs.Numeral.{print_signed}
use dd_trace_rs.Numeral.RoundTrip.{length-print}
use dd_trace_rs.Decision.Priority
use dd_trace_rs.Propagation.Context.{InjectSpanContext}
use dd_trace_rs.Propagation.Datadog.{Tags}
use dd_trace_rs.Propagation.TraceContext.Inject.{
  priority_part, encoded_origin, add_origin, last_parent_id, add_last_parent_id, add_tags,
  append_dd_propagation_tags, dd_value,
}

add_origin-bound :
    (o : Option Bytes) (dd : Bytes) → length dd < 256 → length (add_origin o dd) < 256
unfolding add_origin
add_origin-bound none dd h = h
add_origin-bound (some origin) dd h =
    elim (Bool-cases (ltb (length dd + 1 + 1 + 1 + length (encoded_origin origin)) 256)) [
      | inl fits ↦ rw (fits, length-append dd (codes ";o:" ++ encoded_origin origin)) (ground arith)
      | inr full ↦ rw full h
    ]

add_last_parent_id-bound :
    (c : InjectSpanContext) (dd : Bytes)
    → length (last_parent_id c) ≤ 16
    → length dd < 256
    → length (add_last_parent_id c dd) < 256
unfolding add_last_parent_id
add_last_parent_id-bound c dd short h = elim (Bool-cases (ltb (length dd + 1 + 1 + 1 + 16) 256)) [
  | inl fits ↦ rw (fits, length-append dd (codes ";p:" ++ last_parent_id c)) (ground arith)
  | inr full ↦ rw full h
]

add_tags-bound : (tags : Tags) (dd : Bytes) → length dd < 256 → length (add_tags tags dd) < 256
unfolding add_tags
add_tags-bound tags dd h =
    elim (Bool-cases (
      length (append_dd_propagation_tags tags []) == 0
      || leb 256 (length (dd ++ append_dd_propagation_tags tags [])))) [
        | inl drop ↦ rw drop h
        | inr room ↦ rw room (ground arith)
      ]

length-print_signed : (z : ℤ) → InRange 128 128 z → length (print_signed z) ≤ 4
unfolding print_signed
length-print_signed (pos n) h = omega (arith, length-print 10 n 2 (omega arith) (omega arith))
length-print_signed (negsuc n) h =
    omega (arith, length-print 10 (suc n) 2 (omega arith) (omega arith))

-- The value of the `dd` member that is injected has fewer than 256 bytes, whatever the origin and the
-- tags, if the priority is an `i8` and the last parent's id has at most 16 bytes.
pub length-dd_value :
    (c : InjectSpanContext)
    → InRange 128 128 (unwrap_or Priority.user_keep c.sampling.priority).value
    → length (last_parent_id c) ≤ 16
    → length (dd_value c) < 256
unfolding dd_value
length-dd_value c range short = add_tags-bound c.tags _ (
    add_last_parent_id-bound c _ short (
      add_origin-bound c.origin (priority_part c) (
        omega (
          arith,
          length-print_signed (unwrap_or Priority.user_keep c.sampling.priority).value range,
        ))))
