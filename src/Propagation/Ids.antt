-- ===== src/Propagation/Ids.antt =====
-- Trace ids of 128 bits and their halves: dd-trace-propagation/src/context.rs.
use dd_trace_rs.Prelude.{
  ℕ, ◌+◌, ◌*◌, ◌/◌, ◌%◌, ◌^◌, ◌<◌, ◌≡◌, refl, Option, none, some, arith, ltb, if◌then◌else◌, ◌>>=◌,
  Bool-cases, inl, inr,
}
use dd_trace_rs.Prelude.Text.{Bytes}
use dd_trace_rs.Numeral.{print, pad, parse_unsigned, u64_max}
use dd_trace_rs.Numeral.RoundTrip.{parse_unsigned-pad}

-- The two halves: the higher one only if it is not zero.
unfoldable pub split_trace_id : ℕ → Option ℕ × ℕ
split_trace_id trace_id =
    let trace_id_lower_order_bits = trace_id % 2 ^ 64 in
    let higher = trace_id / 2 ^ 64 % 2 ^ 64 in
    (if ltb 0 higher then some higher else none, trace_id_lower_order_bits)

unfoldable pub combine_trace_id : ℕ → Option Bytes → ℕ
combine_trace_id trace_id higher_bits_hex = elim (higher_bits_hex >>= parse_unsigned 16 u64_max) [
  | some higher ↦ higher * 2 ^ 64 + trace_id
  | none ↦ trace_id
]

-- `format!("{higher:016x}")`.
abbrev pub hex16 : ℕ → Bytes
hex16 n = pad 16 (print 16 n)

abbrev pub hex16_of : Option ℕ → Option Bytes
hex16_of none = none
hex16_of (some n) = some (hex16 n)

combine-hex16 :
    (lower higher : ℕ)
    → higher < 2 ^ 64
    → combine_trace_id lower (some (hex16 higher)) ≡ higher * 2 ^ 64 + lower
unfolding combine_trace_id
combine-hex16 lower higher h = rw (
  parse_unsigned-pad 16 u64_max higher (omega arith) (omega arith) (omega arith) 16,
  combine_trace_id,
)

combine-none : (lower : ℕ) → combine_trace_id lower none ≡ lower
unfolding combine_trace_id
combine-none lower = refl

-- A trace id of 128 bits is put together again from its lower half and the hexadecimal text of its
-- higher half, which is left out if it is zero.
pub combine-split :
    (trace_id : ℕ)
    → trace_id < 2 ^ 128
    → combine_trace_id (split_trace_id trace_id).1 (hex16_of (split_trace_id trace_id).0) ≡ trace_id
unfolding split_trace_id
combine-split trace_id h =
    let higher = trace_id / 2 ^ 64 % 2 ^ 64 in
    elim (Bool-cases (ltb 0 higher)) [
      | inl long ↦ rw (long, combine-hex16 (trace_id % 2 ^ 64) higher (omega arith)) (omega arith)
      | inr short ↦ rw (short, combine-none (trace_id % 2 ^ 64)) (ground arith)
    ]
