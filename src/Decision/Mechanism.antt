-- ===== src/Decision/Mechanism.antt =====
-- `SamplingMechanism`: dd-trace/src/sampling.rs. The value is a `u8`.
use dd_trace_rs.Prelude.{
  ℕ, suc, ◌%◌, ◌+◌, ◌-◌, Bool, false, ◌||◌, Option, some, none, ◌∷◌, ◌>>=◌, ◌==◌, ltb,
  if◌then◌else◌,
}
use dd_trace_rs.Prelude.Int.{ℤ, pos, negsuc}
use dd_trace_rs.Prelude.Text.{Bytes, codes}
use dd_trace_rs.Numeral.{parse_signed, print, negate}
use dd_trace_rs.Decision.Priority.{SamplingPriority, auto_keep, auto_reject, user_keep, user_reject}

pub record SamplingMechanism : Type 0 where
  pub value : ℕ

abbrev pub from_u8 : ℕ → SamplingMechanism
from_u8 n = record { value = n }

abbrev pub default : SamplingMechanism
default = from_u8 0

abbrev pub agent_rate_by_service : SamplingMechanism
agent_rate_by_service = from_u8 1

abbrev remote_rate : SamplingMechanism
remote_rate = from_u8 2

abbrev pub local_user_trace_sampling_rule : SamplingMechanism
local_user_trace_sampling_rule = from_u8 3

abbrev pub manual : SamplingMechanism
manual = from_u8 4

abbrev pub appsec : SamplingMechanism
appsec = from_u8 5

abbrev remote_rate_user : SamplingMechanism
remote_rate_user = from_u8 6

abbrev remote_rate_datadog : SamplingMechanism
remote_rate_datadog = from_u8 7

abbrev span_sampling_rule : SamplingMechanism
span_sampling_rule = from_u8 8

abbrev otlp_ingest_probabilistic_sampling : SamplingMechanism
otlp_ingest_probabilistic_sampling = from_u8 9

abbrev pub data_jobs_monitoring : SamplingMechanism
data_jobs_monitoring = from_u8 10

abbrev pub remote_user_trace_sampling_rule : SamplingMechanism
remote_user_trace_sampling_rule = from_u8 11

abbrev pub remote_dynamic_trace_sampling_rule : SamplingMechanism
remote_dynamic_trace_sampling_rule = from_u8 12

-- `PartialEq`, as the constant patterns of `match` use it.
abbrev pub is : SamplingMechanism → SamplingMechanism → Bool
is m n = m.value == n.value

record PriorityPair : Type 0 where
  keep : SamplingPriority
  reject : SamplingPriority

abbrev auto_pair : PriorityPair
auto_pair = record { keep = auto_keep; reject = auto_reject }

abbrev user_pair : PriorityPair
user_pair = record { keep = user_keep; reject = user_reject }

priority_pair : SamplingMechanism → PriorityPair
priority_pair m =
    if is m agent_rate_by_service || is m default
    then auto_pair
    else if is m manual
        || is m local_user_trace_sampling_rule
        || is m remote_user_trace_sampling_rule
        || is m remote_dynamic_trace_sampling_rule
        || is m appsec
        || is m span_sampling_rule
        || is m data_jobs_monitoring
    then user_pair
    else auto_pair

unfoldable pub to_priority : SamplingMechanism → Bool → SamplingPriority
unfolding priority_pair
to_priority m is_keep = let pair = priority_pair m in if is_keep then pair.keep else pair.reject

-- `Display`.
abbrev pub to_string : SamplingMechanism → Bytes
to_string m = b'-' ∷ print 10 m.value

unfoldable pub to_cow : SamplingMechanism → Bytes
to_cow m =
    if is m default
    then codes "-0"
    else if is m agent_rate_by_service
    then codes "-1"
    else if is m remote_rate
    then codes "-2"
    else if is m local_user_trace_sampling_rule
    then codes "-3"
    else if is m manual
    then codes "-4"
    else if is m appsec
    then codes "-5"
    else if is m remote_rate_user
    then codes "-6"
    else if is m remote_rate_datadog
    then codes "-7"
    else if is m span_sampling_rule
    then codes "-8"
    else if is m otlp_ingest_probabilistic_sampling
    then codes "-9"
    else if is m data_jobs_monitoring
    then codes "-10"
    else if is m remote_user_trace_sampling_rule
    then codes "-11"
    else if is m remote_dynamic_trace_sampling_rule
    then codes "-12"
    else to_string m

-- `-val` on `i16`, in a build without overflow checks: the lowest value is its own negation.
neg_i16 : ℤ → ℤ
neg_i16 (pos n) = negate n
neg_i16 (negsuc n) = if n == 32767 then negsuc n else pos (suc n)

-- The two range tests and the cast `val as u8` of what is left.
narrow : ℤ → Option SamplingMechanism
narrow (pos n) = if ltb 255 n then none else some (from_u8 n)
narrow (negsuc n) = some (from_u8 ((256 + 65535 - n) % 256))

is_positive : ℤ → Bool
is_positive (pos n) = ltb 0 n
is_positive (negsuc n) = false

-- What `from_str` makes of the number.
unfoldable pub accept : ℤ → Option SamplingMechanism
unfolding neg_i16 narrow is_positive
accept val = if is_positive val then none else narrow (neg_i16 val)

-- `FromStr`.
unfoldable pub from_str : Bytes → Option SamplingMechanism
from_str s = parse_signed 32768 32768 s >>= accept
