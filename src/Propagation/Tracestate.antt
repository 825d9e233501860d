-- ===== src/Propagation/Tracestate.antt =====
-- The tracestate header: `Tracestate` of dd-trace-propagation/src/context.rs.
pub mod Members
use dd_trace_rs.Prelude.{
  ℕ, zero, suc, ◌+◌, Bool, true, false, not, ◌&&◌, ◌||◌, List, [], ◌∷◌, ◌++◌, map, Option, none,
  some, ltb, leb, ◌==◌, if◌then◌else◌, ◌>>=◌, length, all, is_empty, is_some, unwrap_or,
}
use mathlib.Core.List.{foldl}
use dd_trace_rs.Prelude.Text.{Bytes, codes, beq, contains, split, split_once, trim}
use dd_trace_rs.Prelude.Dict.{Dict, insert, bytes_eq}
use dd_trace_rs.Decision.Priority
use dd_trace_rs.Decision.Mechanism
use dd_trace_rs.Decision.{SamplingPriority, SamplingMechanism}

pub record Sampling : Type 0 where
  pub priority : Option SamplingPriority
  pub mechanism : Option SamplingMechanism

-- `Sampling::default()`.
abbrev pub no_sampling : Sampling
no_sampling = record { priority = none; mechanism = none }

pub record Tracestate : Type 0 where
  pub sampling : Option Sampling
  pub origin : Option Bytes
  pub lower_order_trace_id : Option Bytes
  pub propagation_tags : Option (Dict Bytes Bytes)
  pub additional_values : Option (List (Bytes × Bytes))

abbrev is_ascii_lowercase : ℕ → Bool
is_ascii_lowercase b = leb b'a' b && leb b b'z'

abbrev is_ascii_digit : ℕ → Bool
is_ascii_digit b = leb b'0' b && leb b b'9'

abbrev allowed_special : ℕ → Bool
allowed_special b = b == b'_' || b == b'-' || b == b'*' || b == b'/'

-- The `for` loop of `valid_key`, from byte `i` of a key of `key_len` bytes.
unfoldable pub valid_key_from : ℕ → ℕ → Option ℕ → Bytes → Bool
valid_key_from key_len i vendor_start [] = true
valid_key_from key_len i vendor_start (b ∷ bs) =
    let plain = valid_key_from key_len (i + 1) vendor_start bs in
    let vendor = valid_key_from key_len (i + 1) (some i) bs in
    if not (is_ascii_lowercase b || is_ascii_digit b || allowed_special b || b == b'@')
    then false
    else if i == 0 && (not (is_ascii_lowercase b) && not (is_ascii_digit b))
    then false
    else if b == b'@'
    then (if is_some vendor_start || ltb (i + 14) key_len then false else vendor)
    else elim vendor_start [
      | some start ↦
          if i == start + 1 && not (is_ascii_lowercase b || is_ascii_digit b) then false else plain
      | none ↦ plain
    ]

unfoldable pub valid_key : Bytes → Bool
unfolding valid_key_from
valid_key key = if ltb 256 (length key) then false else valid_key_from (length key) 0 none key

unfoldable pub valid_value : Bytes → Bool
valid_value value =
    if ltb 256 (length value) then false else not (contains b',' value || contains b'=' value)

abbrev replace_byte : ℕ → ℕ → ℕ → ℕ
replace_byte old new c = if c == old then new else c

-- `value.replace('~', "=")` and its reverse; a text without the byte is passed on.
unfoldable pub decode_tag_value : Bytes → Bytes
decode_tag_value value = if contains b'~' value then map (replace_byte b'~' b'=') value else value

unfoldable pub encode_tag_value : Bytes → Bytes
encode_tag_value tag = if contains b'=' tag then map (replace_byte b'=' b'~') tag else tag

-- One item of the `dd` member; an item with another byte than printable ASCII, or with no colon, is
-- dropped.
unfoldable dd_item : Bytes → Option (Bytes × Bytes)
unfolding decode_tag_value
dd_item item =
    if not (all (λ c. leb b' ' c && leb c b'~') item)
    then none
    else elim (split_once b':' item) [ none ↦ none | some (k, v) ↦ some (k, decode_tag_value v) ]

-- Collect into a map: a later item replaces an earlier one of its key.
unfoldable collect_items : List Bytes → Dict Bytes Bytes → Dict Bytes Bytes
unfolding dd_item
collect_items [] m = m
collect_items (i ∷ is) m =
    collect_items is (elim (dd_item i) [ none ↦ m | some (k, v) ↦ insert k v m ])

unfoldable pub parse_dd : Bytes → Dict Bytes Bytes
unfolding collect_items
parse_dd value = collect_items (split b';' (trim value)) []

abbrev pub dd_key : Bytes
dd_key = codes "dd"

-- The `for` loop over the list members. `none` is the error of `from_str`.
unfoldable pub members :
    List Bytes
    → Option (Dict Bytes Bytes)
    → List (Bytes × Bytes)
    → Option (Option (Dict Bytes Bytes) × List (Bytes × Bytes))
unfolding parse_dd valid_key valid_value
members [] dd additional_values = some (dd, additional_values)
members (v ∷ vs) dd additional_values =
    let (key, value) = unwrap_or ([], []) (split_once b'=' v) in
    let ours = members vs (some (parse_dd value)) additional_values in
    let theirs = members vs dd (additional_values ++ (key, value) ∷ []) in
    if not (valid_key key) || is_empty value || not (valid_value value)
    then none
    else if beq key dd_key
    then ours
    else theirs

-- What the loop over the `dd` map gathers.
pub record DdParts : Type 0 where
  pub tags : Dict Bytes Bytes
  pub priority : Option SamplingPriority
  pub mechanism : Option SamplingMechanism
  pub origin : Option Bytes
  pub parent : Option Bytes

abbrev or_keep {ℓ} : {A : Type ℓ} → Option A → Option A → Option A
or_keep none old = old
or_keep (some a) old = some a

unfoldable pub gather : DdParts → Bytes × Bytes → DdParts
gather p (k, v) =
    if beq k (codes "s")
    then record p { priority = or_keep (Priority.from_str v) p.priority }
    else if beq k (codes "o")
    then record p { origin = some v }
    else if beq k (codes "p")
    then record p { parent = some v }
    else if beq k (codes "t.dm")
    then record p {
      mechanism = or_keep (Mechanism.from_str v) p.mechanism;
      tags = insert k v p.tags;
    }
    else record p { tags = insert k v p.tags }

abbrev no_parts : DdParts
no_parts = record { tags = []; priority = none; mechanism = none; origin = none; parent = none }

abbrev pub assemble : Option (Dict Bytes Bytes) → List (Bytes × Bytes) → Tracestate
assemble dd additional =
    let rest = if is_empty additional then none else some additional in
    elim dd [
      | none ↦ record {
        sampling = none;
        origin = none;
        lower_order_trace_id = none;
        propagation_tags = none;
        additional_values = rest;
      }
      | some items ↦
          let parts = foldl gather no_parts items in
          record {
            sampling = some (record { priority = parts.priority; mechanism = parts.mechanism });
            origin = parts.origin;
            lower_order_trace_id = parts.parent;
            propagation_tags = some parts.tags;
            additional_values = rest;
          }
    ]

-- `FromStr`.
unfoldable pub from_str : Bytes → Option Tracestate
unfolding members gather
from_str tracestate = do
  (dd, additional) ← members (split b',' tracestate) none []
  some (assemble dd additional)
