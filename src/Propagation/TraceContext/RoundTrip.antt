-- ===== src/Propagation/TraceContext/RoundTrip.antt =====
-- The traceparent header is read back.
use dd_trace_rs.Prelude.{
  ℕ, zero, suc, ◌-◌, ◌^◌, ◌≡◌, ◌≢◌, ◌<◌, refl, sym, ap, Bool, true, false, List, [], ◌∷◌, ◌++◌, map,
  some, ltb, ◌==◌, if◌then◌else◌, length, take, drop, replicate, all, arith,
}
use dd_trace_rs.Prelude.Text.{Bytes, codes, beq}
use dd_trace_rs.Numeral.{
  print, pad, digits, digit_char, scan, to_digit, parse_unsigned, u64_max, u128_max,
}
use dd_trace_rs.Numeral.RoundTrip.{AllBelow, digits-AllBelow, parse_unsigned-pad, length-pad}
use dd_trace_rs.Decision.Priority
use dd_trace_rs.Decision.{SamplingPriority}
use dd_trace_rs.Propagation.Ids.{hex16}
use dd_trace_rs.Propagation.Context.{InjectSpanContext, ok}
use dd_trace_rs.Propagation.TraceContext.Inject.{traceparent_text, flags_text}
use dd_trace_rs.Propagation.TraceContext.Traceparent.{
  Components, read_components, take_char, hex_char, take_n_hex_chars, parse_traceparent_components,
  extract_trace_id, extract_span_id, extract_trace_flags, extract_version, extract_traceparent,
}

take-append : (x r : Bytes) → take (length x) (x ++ r) ≡ x
take-append [] r = refl
take-append (c ∷ x) r = ap (λ t. c ∷ t) (take-append x r)

drop-append : (x r : Bytes) → drop (length x) (x ++ r) ≡ r
drop-append [] r = refl
drop-append (c ∷ x) r = drop-append x r

short : (x r : Bytes) → ltb (length (x ++ r)) (length x) ≡ false
short [] r = ground arith
short (c ∷ x) r = ground (arith, short x r)

take_hex-append :
    (x r : Bytes) → all hex_char x ≡ true → take_n_hex_chars (x ++ r) (length x) ≡ some (x, r)
unfolding take_n_hex_chars
take_hex-append x r h = rw (short x r, take-append x r, drop-append x r, h)

take_n_hex_chars-append :
    (n : ℕ) (x r : Bytes)
    → length x ≡ n
    → all hex_char x ≡ true
    → take_n_hex_chars (x ++ r) n ≡ some (x, r)
take_n_hex_chars-append n x r e h = rw (sym e) (take_hex-append x r h)

all-hex-map : (ds : List ℕ) → AllBelow 16 ds → all hex_char (map digit_char ds) ≡ true
unfolding digit_char
all-hex-map [] h = refl
all-hex-map (d ∷ ds) h = ground (arith, all-hex-map ds h.1)

all-hex-zeros :
    (k : ℕ) (s : Bytes) → all hex_char s ≡ true → all hex_char (replicate k 48 ++ s) ≡ true
all-hex-zeros zero s h = h
all-hex-zeros (suc k) s h = all-hex-zeros k s h

all-hex-pad : (w n : ℕ) → all hex_char (pad w (print 16 n)) ≡ true
unfolding pad print
all-hex-pad w n =
    all-hex-zeros (w - length (print 16 n)) (print 16 n)
      (all-hex-map (digits 16 (suc n) n) (digits-AllBelow 16 (suc n) n (omega arith)))

-- The flags of a sampled trace, or of one that is not.
abbrev flag : Bool → Bytes
flag b = if b then codes "01" else codes "00"

abbrev parts : Bytes → Bytes → Bytes → Components
parts t s f = record { version = codes "00"; trace_id = t; span_id = s; flags = f; tail = [] }

abbrev dashed : Bytes → Bytes → Bytes → Bytes
dashed t s f = codes "00-" ++ (t ++ (b'-' ∷ (s ++ (b'-' ∷ f))))

last_part : (b : Bool) → take_n_hex_chars (flag b) 2 ≡ some (flag b, [])
unfolding take_n_hex_chars
last_part true = refl
last_part false = refl

parse-dashed :
    (t s : Bytes) (b : Bool)
    → length t ≡ 32
    → all hex_char t ≡ true
    → length s ≡ 16
    → all hex_char s ≡ true
    → parse_traceparent_components (dashed t s (flag b)) ≡ some (parts t s (flag b))
unfolding parse_traceparent_components take_char
parse-dashed t s b lt ht ls hs =
    let f : Bytes = flag b in
    let r3 : Bytes = s ++ b'-' ∷ f in
    rw (take_n_hex_chars-append 2 (codes "00") (b'-' ∷ (t ++ b'-' ∷ r3)) refl refl) (
      rw (take_n_hex_chars-append 32 t (b'-' ∷ r3) lt ht)
        (rw (take_n_hex_chars-append 16 s (b'-' ∷ f) ls hs) (rw (last_part b))))

flags-flag : (p : SamplingPriority) → flags_text (some p) ≡ flag (Priority.is_keep p)
flags-flag p = refl

read_flags : (b : Bool) → extract_trace_flags (flag b) ≡ ok (if b then 1 else 0)
unfolding extract_trace_flags parse_unsigned scan to_digit
read_flags true = refl
read_flags false = refl

module _ (n : ℕ) (positive : n ≢ 0) where
  nonzero : (n == 0) ≡ false
  nonzero = ground arith

  read_trace_id : n < 2 ^ 128 → extract_trace_id (pad 32 (print 16 n)) ≡ ok n
  unfolding extract_trace_id
  read_trace_id fits =
      rw
        (
          parse_unsigned-pad 16 u128_max n (omega arith) (omega arith) (omega arith) 32,
          extract_trace_id,
        )
        (rw nonzero)

  read_span_id : n < 2 ^ 64 → extract_span_id (pad 16 (print 16 n)) ≡ ok n
  unfolding extract_span_id
  read_span_id fits =
      rw
        (
          parse_unsigned-pad 16 u64_max n (omega arith) (omega arith) (omega arith) 16,
          extract_span_id,
        )
        (rw nonzero)

read_parts :
    (header : Bytes) (t s : ℕ) (b : Bool)
    → parse_traceparent_components header ≡ some (parts (pad 32 (print 16 t)) (hex16 s) (flag b))
    → t ≢ 0
    → t < 2 ^ 128
    → s ≢ 0
    → s < 2 ^ 64
    → extract_traceparent header
      ≡ ok (record {
        sampling_priority = if b then Priority.auto_keep else Priority.auto_reject;
        trace_id = t;
        span_id = s;
      })
unfolding extract_traceparent read_components extract_version beq
read_parts header t s true e t_positive t_fits s_positive s_fits =
    rw (e, extract_traceparent)
      (rw (read_trace_id t t_positive t_fits, read_span_id s s_positive s_fits, read_flags true))
read_parts header t s false e t_positive t_fits s_positive s_fits =
    rw (e, extract_traceparent)
      (rw (read_trace_id t t_positive t_fits, read_span_id s s_positive s_fits, read_flags false))

-- The traceparent header that is injected for a context with a priority is read back: the trace id
-- with all its 128 bits, the span id, and whether the trace is kept. The ids fit 128 and 64 bits and
-- are not 0, as the injection checks.
pub extract_traceparent-traceparent_text :
    (c : InjectSpanContext) (p : SamplingPriority)
    → c.sampling.priority ≡ some p
    → c.trace_id ≢ 0
    → c.trace_id < 2 ^ 128
    → c.span_id ≢ 0
    → c.span_id < 2 ^ 64
    → extract_traceparent (traceparent_text c)
      ≡ ok (record {
        sampling_priority = if Priority.is_keep p then Priority.auto_keep else Priority.auto_reject;
        trace_id = c.trace_id;
        span_id = c.span_id;
      })
unfolding traceparent_text
extract_traceparent-traceparent_text c p has_p t_positive t_fits s_positive s_fits =
    let header =
      parse-dashed (pad 32 (print 16 c.trace_id)) (hex16 c.span_id) (Priority.is_keep p)
        (length-pad 16 c.trace_id 31 (omega arith) (omega arith)) (all-hex-pad 32 c.trace_id)
        (length-pad 16 c.span_id 15 (omega arith) (omega arith)) (all-hex-pad 16 c.span_id) in
    rw has_p (
      read_parts _ c.trace_id c.span_id (Priority.is_keep p) header t_positive t_fits s_positive
        s_fits)
