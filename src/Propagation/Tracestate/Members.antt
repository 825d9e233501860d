-- ===== src/Propagation/Tracestate/Members.antt =====
-- What the tracestate parser accepts, and that it keeps the other vendors' members.
use dd_trace_rs.Prelude.{
  Bool, true, false, not, ◌&&◌, ◌||◌, List, [], ◌∷◌, ◌++◌, append-nil, append_assoc, map, Option,
  none, some, if◌then◌else◌, ◌∙◌, sym, ap, some_inj, none-ne-some, all, is_empty, unwrap_or, ◌≡◌,
  refl, arith, Bool-cases, inl, inr, ℕ,
}
use dd_trace_rs.Prelude.Text.{Bytes, beq, split, split_once, contains, Lacks}
use dd_trace_rs.Prelude.Dict.{Dict}
use dd_trace_rs.Propagation.Tracestate.{
  Tracestate, valid_key, valid_value, parse_dd, dd_key, members, assemble, from_str, replace_byte,
  decode_tag_value, encode_tag_value,
}

-- A member as key and value; one with no equals sign has neither.
abbrev entry : Bytes → Bytes × Bytes
entry v = unwrap_or ([], []) (split_once b'=' v)

-- A member that the W3C grammar, as the code reads it, allows.
abbrev pub valid_member : Bytes → Bool
valid_member v = valid_key (entry v).0 && not (is_empty (entry v).1) && valid_value (entry v).1

-- The members of other vendors, in order.
pub foreign : List Bytes → List (Bytes × Bytes)
foreign [] = []
foreign (v ∷ vs) = let rest = foreign vs in if beq (entry v).0 dd_key then rest else entry v ∷ rest

-- The last `dd` member.
pub last_dd : Option (Dict Bytes Bytes) → List Bytes → Option (Dict Bytes Bytes)
last_dd dd [] = dd
last_dd dd (v ∷ vs) =
    last_dd (if beq (entry v).0 dd_key then some (parse_dd (entry v).1) else dd) vs

refused : (a b c : Bool) → (not a || b || not c) ≡ not (a && not b && c)
refused true true c = ground arith
refused true false c = ground arith
refused false b c = ground arith

members_lem :
    (vs : List Bytes) (dd : Option (Dict Bytes Bytes)) (additional : List (Bytes × Bytes))
    → members vs dd additional
      ≡ (if all valid_member vs then some (last_dd dd vs, additional ++ foreign vs) else none)
unfolding members foreign last_dd
members_lem [] dd additional = rw append-nil
members_lem (v ∷ vs) dd additional = elim (Bool-cases (valid_member v)) [
  | inl valid ↦ elim (Bool-cases (beq (entry v).0 dd_key)) [
    | inl ours ↦
        rw
          (
            refused (valid_key (entry v).0) (is_empty (entry v).1) (valid_value (entry v).1),
            valid,
            ours,
          )
          (members_lem vs (some (parse_dd (entry v).1)) additional)
    | inr theirs ↦
        rw
          (
            refused (valid_key (entry v).0) (is_empty (entry v).1) (valid_value (entry v).1),
            valid,
            theirs,
          )
          (members_lem vs dd (additional ++ entry v ∷ [])
            ∙ rw (append_assoc additional (entry v ∷ []) (foreign vs)))
  ]
  | inr invalid ↦
      rw (refused (valid_key (entry v).0) (is_empty (entry v).1) (valid_value (entry v).1), invalid)
]

-- A tracestate is accepted exactly when each of its members is valid.
-- The list of the other vendors' members is then theirs, in the header's order.
pub from_str-members :
    (header : Bytes)
    → from_str header ≡ (
        if all valid_member (split b',' header)
        then some (assemble (last_dd none (split b',' header)) (foreign (split b',' header)))
        else none)
unfolding from_str
from_str-members header =
    rw (members_lem (split b',' header) none [])
      (elim (Bool-cases (all valid_member (split b',' header))) [
        | inl valid ↦ rw valid
        | inr invalid ↦ rw invalid
      ])

additional-assemble :
    (dd : Option (Dict Bytes Bytes)) (vs : List (Bytes × Bytes))
    → unwrap_or [] (assemble dd vs).additional_values ≡ vs
additional-assemble none [] = refl
additional-assemble none (v ∷ vs) = refl
additional-assemble (some m) [] = refl
additional-assemble (some m) (v ∷ vs) = refl

-- An accepted tracestate has valid members only, and keeps the members of other vendors, in order.
pub from_str-additional :
    (header : Bytes) (ts : Tracestate)
    → from_str header ≡ some ts
    → (all valid_member (split b',' header) ≡ true)
      × (unwrap_or [] ts.additional_values ≡ foreign (split b',' header))
from_str-additional header ts h = elim (Bool-cases (all valid_member (split b',' header))) [
  | inl valid ↦
      let same : some (assemble (last_dd none (split b',' header)) (foreign (split b',' header)))
          ≡ some ts =
        rw (from_str-members header, valid) at h in
      (
        valid,
        sym (ap (λ (t : Tracestate). unwrap_or [] t.additional_values) (some_inj same))
            ∙ additional-assemble (last_dd none (split b',' header)) (foreign (split b',' header)),
      )
  | inr invalid ↦ absurd (none-ne-some (rw (from_str-members header, invalid) at h))
]

replace-absent :
    (old new : ℕ) (v : Bytes) → contains old v ≡ false → map (replace_byte old new) v ≡ v
unfolding contains
replace-absent old new [] h = refl
replace-absent old new (c ∷ v) h = ground (arith, replace-absent old new v)

-- The test for the byte only saves a copy.
decode-map : (v : Bytes) → decode_tag_value v ≡ map (replace_byte b'~' b'=') v
unfolding decode_tag_value
decode-map v = elim (Bool-cases (contains b'~' v)) [
  | inl found ↦ rw found
  | inr absent ↦ rw absent (sym (replace-absent b'~' b'=' v absent))
]

encode-map : (v : Bytes) → encode_tag_value v ≡ map (replace_byte b'=' b'~') v
unfolding encode_tag_value
encode-map v = elim (Bool-cases (contains b'=' v)) [
  | inl found ↦ rw found
  | inr absent ↦ rw absent (sym (replace-absent b'=' b'~' v absent))
]

back_and_forth :
    (v : Bytes) → Lacks b'~' v → map (replace_byte b'~' b'=') (map (replace_byte b'=' b'~') v) ≡ v
back_and_forth [] h = refl
back_and_forth (c ∷ v) h = ground (arith, back_and_forth v h.1)

-- Writing a tag value into a tracestate and reading it back gives the value, if it holds no tilde.
pub decode-encode : (v : Bytes) → Lacks b'~' v → decode_tag_value (encode_tag_value v) ≡ v
decode-encode v h =
    rw (encode-map v, decode-map (map (replace_byte b'=' b'~') v)) (back_and_forth v h)
