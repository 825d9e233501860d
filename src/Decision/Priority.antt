-- ===== src/Decision/Priority.antt =====
-- `SamplingPriority`: dd-trace/src/sampling.rs. The value is an `i8`.
use dd_trace_rs.Prelude.{Bool, Option, some, ◌>>=◌}
use dd_trace_rs.Prelude.Int.{ℤ, pos, negsuc, ltb_ℤ}
use dd_trace_rs.Prelude.Text.{Bytes}
use dd_trace_rs.Numeral.{parse_signed, print_signed}

pub record SamplingPriority : Type 0 where
  pub value : ℤ

abbrev from_i8 : ℤ → SamplingPriority
from_i8 z = record { value = z }

abbrev pub into_i8 : SamplingPriority → ℤ
into_i8 p = p.value

abbrev pub is_keep : SamplingPriority → Bool
is_keep p = ltb_ℤ (pos 0) p.value

abbrev pub user_reject : SamplingPriority
user_reject = from_i8 (negsuc 0)

abbrev pub user_keep : SamplingPriority
user_keep = from_i8 (pos 2)

abbrev pub auto_reject : SamplingPriority
auto_reject = from_i8 (pos 0)

abbrev pub auto_keep : SamplingPriority
auto_keep = from_i8 (pos 1)

-- `Display`.
abbrev pub to_string : SamplingPriority → Bytes
to_string p = print_signed p.value

-- `FromStr`: `parse::<i8>`, whose error carries nothing.
abbrev pub from_str : Bytes → Option SamplingPriority
from_str s = parse_signed 128 128 s >>= λ z. some (from_i8 z)
