-- ===== src/Decision/Laws.antt =====
-- Printed decisions are read back, and a mechanism's priorities say what was decided.
use dd_trace_rs.Prelude.{
  ℕ, zero, suc, ◌≤◌, ◌<◌, ◌≡◌, refl, Bool, some, arith, ◌⊎◌, Option-cases, inl, inr, ◌+◌, ◌∷◌, [],
}
use dd_trace_rs.Prelude.Int.{ℤ, pos, negsuc, InRange}
use dd_trace_rs.Prelude.Text.{Bytes, codes}
use dd_trace_rs.Numeral.{parse_signed, print, digits, digit_char, negate}
use dd_trace_rs.Numeral.RoundTrip.{scan-print, print-ne-nil}
use dd_trace_rs.Numeral.Signed.{parse_signed-print, parse_signed-InRange, parse_signed-minus}
use dd_trace_rs.Decision.Priority
use dd_trace_rs.Decision.Priority.{SamplingPriority}
use dd_trace_rs.Decision.Mechanism
use dd_trace_rs.Decision.Mechanism.{SamplingMechanism, to_priority, to_cow, accept}

-- Every priority that an i8 can hold is read back from its print.
pub priority_round_trip :
    (p : SamplingPriority)
    → InRange 128 128 p.value
    → Priority.from_str (Priority.to_string p) ≡ some p
priority_round_trip p h = rw (parse_signed-print 128 128 p.value h)

-- A mechanism gives a priority that keeps the trace exactly when the sampler kept it, for every
-- mechanism, known or not.
pub is_keep-to_priority :
    (m : SamplingMechanism) (keep : Bool) → Priority.is_keep (to_priority m keep) ≡ keep
unfolding to_priority
is_keep-to_priority m keep = ground arith

print_digit : (d : ℕ) → d < 10 → print 10 d ≡ (d + 48) ∷ []
unfolding print digits digit_char
print_digit d h = ground arith

print_ten : print 10 10 ≡ codes "10"
unfolding print digits digit_char
print_ten = refl

print_eleven : print 10 11 ≡ codes "11"
unfolding print digits digit_char
print_eleven = refl

print_twelve : print 10 12 ≡ codes "12"
unfolding print digits digit_char
print_twelve = refl

-- The table of borrowed texts agrees with the printed form.
pub to_cow-to_string : (m : SamplingMechanism) → to_cow m ≡ Mechanism.to_string m
unfolding to_cow
to_cow-to_string m = ground (arith, print_digit m.value, print_ten, print_eleven, print_twelve)

accept-negate : (n : ℕ) → n ≤ 255 → accept (negate n) ≡ some (Mechanism.from_u8 n)
unfolding accept
accept-negate zero h = refl
accept-negate (suc n) h = ground arith

accept_sound :
    (z : ℤ) (m : SamplingMechanism)
    → InRange 32768 32768 z
    → accept z ≡ some m
    → (m.value ≤ 255) × ((z ≡ negate m.value) ⊎ (z ≡ negsuc 32767) × (m ≡ Mechanism.default))
unfolding accept
accept_sound (pos n) m range h = ground arith
accept_sound (negsuc n) m range h = ground arith

-- Every mechanism of one byte is read back from the text that goes into `_dd.p.dm`.
pub mechanism_round_trip :
    (m : SamplingMechanism) → m.value ≤ 255 → Mechanism.from_str (to_cow m) ≡ some m
unfolding Mechanism.from_str
mechanism_round_trip m h =
    rw
      (
        to_cow-to_string m,
        parse_signed-minus 32768 32768 (print 10 m.value) (print-ne-nil 10 m.value),
        scan-print 10 32768 m.value (omega arith) (omega arith) (omega arith),
      )
      (accept-negate m.value h)

-- What is accepted: a text that reads as -n with n in a byte, which gives the mechanism n. The one
-- exception is the lowest `i16`, whose negation wraps around: it is read as the default mechanism.
pub mechanism_sound :
    (s : Bytes) (m : SamplingMechanism)
    → Mechanism.from_str s ≡ some m
    → (m.value ≤ 255)
      × ((parse_signed 32768 32768 s ≡ some (negate m.value))
          ⊎ (parse_signed 32768 32768 s ≡ some (negsuc 32767)) × (m ≡ Mechanism.default))
unfolding Mechanism.from_str
mechanism_sound s m h = elim (Option-cases (parse_signed 32768 32768 s)) [
  | inl e ↦ absurd (ground arith)
  | inr (z, e) ↦
      let range = parse_signed-InRange 32768 32768 s z (omega arith) e in
      ground (arith, accept_sound z m range)
]
