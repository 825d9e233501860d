-- ===== src/Propagation/Datadog/Tags.antt =====
-- The `x-datadog-tags` header: what is written, how long it is, and that it is read back.
use dd_trace_rs.Prelude.{
  ℕ, suc, ◌≡◌, refl, Bool, true, false, not, ◌&&◌, ◌||◌, List, [], ◌∷◌, ◌++◌, append-nil,
  append_assoc, ltb, ◌==◌, if◌then◌else◌, length, length-append, all, All, arith, Bool-cases,
  Option-cases, inl, inr,
}
use native.Mathlib.Numerals.{add-one}
use dd_trace_rs.Prelude.Text.{Bytes, codes, Lacks, starts_with, strip_prefix, strip_prefix_sound}
use dd_trace_rs.Prelude.Dict.{bytes_eq}
use dd_trace_rs.Propagation.Context.{Result, ok, err, inject_error, datadog_propagation_tag_prefix}
use dd_trace_rs.Propagation.Datadog.{
  Tags, datadog, key_byte, validate_tag_key, validate_tag_value, propagated, total_size, write_tags,
  get_propagation_tags,
}

abbrev pub pair : Bytes × Bytes → Bytes
pair (k, v) = k ++ b'=' ∷ v

-- The header that is meant: pairs with commas between them.
unfoldable pub tail_text : Tags → Bytes
tail_text [] = []
tail_text (e ∷ m) = b',' ∷ (pair e ++ tail_text m)

unfoldable pub text : Tags → Bytes
unfolding tail_text
text [] = []
text (e ∷ m) = pair e ++ tail_text m

abbrev pub valid_tag : Bytes × Bytes → Bool
valid_tag (k, v) = validate_tag_key k && validate_tag_value v

refused : (a b : Bool) → (not a || not b) ≡ not (a && b)
refused true b = refl
refused false b = refl

abbrev pub encoding_error : Result Bytes
encoding_error = err (inject_error (codes "encoding_error") datadog)

not_first : (i : ℕ) → (suc i == 0) ≡ false
not_first i = ground arith

regroup :
    (out k v rest : Bytes)
    → (((out ++ b',' ∷ []) ++ k) ++ b'=' ∷ [] ++ v) ++ rest ≡ out ++ b',' ∷ (pair (k, v) ++ rest)
regroup out k v rest = simp append_assoc

write_tags-tail :
    (i : ℕ) (m : Tags) (out : Bytes)
    → write_tags (suc i) m out
      ≡ (if all valid_tag m then ok (out ++ tail_text m) else encoding_error)
unfolding write_tags tail_text
write_tags-tail i [] out = rw append-nil
write_tags-tail i ((k, v) ∷ m) out = elim (Bool-cases (valid_tag (k, v))) [
  | inl valid ↦
      rw (refused (validate_tag_key k) (validate_tag_value v), valid) rw
        (
          not_first i,
          add-one (suc i),
          write_tags-tail (suc i) m (((out ++ b',' ∷ []) ++ k) ++ b'=' ∷ [] ++ v),
          regroup out k v (tail_text m),
        )
  | inr invalid ↦ rw (refused (validate_tag_key k) (validate_tag_value v), invalid)
]

total_size-tail : (i : ℕ) (m : Tags) → total_size (suc i) m ≡ length (tail_text m)
unfolding total_size tail_text
total_size-tail i [] = refl
total_size-tail i ((k, v) ∷ m) =
    rw (not_first i, add-one (suc i), total_size-tail (suc i) m)
      (omega (arith, length-append (pair (k, v)) (tail_text m), length-append k (b'=' ∷ v)))

-- The loops from the first tag on.
write_tags-text :
    (m : Tags) → write_tags 0 m [] ≡ (if all valid_tag m then ok (text m) else encoding_error)
unfolding write_tags text
write_tags-text [] = refl
write_tags-text ((k, v) ∷ m) = elim (Bool-cases (valid_tag (k, v))) [
  | inl valid ↦ rw (
    refused (validate_tag_key k) (validate_tag_value v),
    valid,
    add-one 0,
    write_tags-tail 0 m ((k ++ b'=' ∷ []) ++ v),
    append_assoc k (b'=' ∷ []) v,
  )
  | inr invalid ↦ rw (refused (validate_tag_key k) (validate_tag_value v), invalid)
]

total_size-text : (m : Tags) → total_size 0 m ≡ length (text m)
unfolding total_size text
total_size-text [] = refl
total_size-text ((k, v) ∷ m) =
    rw (add-one 0, total_size-tail 0 m)
      (omega (arith, length-append (pair (k, v)) (tail_text m), length-append k (b'=' ∷ v)))

-- `get_propagation_tags` on every branch: a header that would be longer than the limit is refused,
-- then one with a tag that cannot be encoded, and otherwise it is the pairs with commas between them.
pub get_propagation_tags-text :
    (tags : Tags) (max_length : ℕ)
    → get_propagation_tags tags max_length ≡ (
        if ltb max_length (length (text (propagated tags)))
        then err (inject_error (codes "inject_max_size") datadog)
        else if all valid_tag (propagated tags)
        then ok (text (propagated tags))
        else encoding_error)
unfolding get_propagation_tags
get_propagation_tags-text tags max_length =
    rw (total_size-text (propagated tags), write_tags-text (propagated tags))

all→All {ℓ} : {A : Type ℓ} (p : A → Bool) (xs : List A) → all p xs ≡ true → All (λ x. p x ≡ true) xs
all→All p [] h = tt
all→All p (x ∷ xs) h = (ground arith, all→All p xs (ground arith))

-- A valid key or value holds no comma.
pub value-Lacks : (v : Bytes) → validate_tag_value v ≡ true → Lacks b',' v
unfolding validate_tag_value
value-Lacks [] h = tt
value-Lacks (c ∷ v) h = (ground arith, value-Lacks v (ground arith))

pub tail-Lacks : (v : Bytes) → all key_byte v ≡ true → Lacks b',' v
tail-Lacks [] h = tt
tail-Lacks (c ∷ v) h = (ground arith, tail-Lacks v (ground arith))

pub starts_with-append : (p s : Bytes) → starts_with p (p ++ s) ≡ true
unfolding starts_with
starts_with-append [] s = refl
starts_with-append (c ∷ p) s = ground (arith, starts_with-append p s)

pub valid_key_shape :
    (k : Bytes)
    → validate_tag_key k ≡ true
    → (tail : Bytes) × (k ≡ datadog_propagation_tag_prefix ++ tail) × (all key_byte tail ≡ true)
unfolding validate_tag_key
valid_key_shape k h = elim (Option-cases (strip_prefix (codes "_dd.p.") k)) [
  | inl e ↦ absurd (ground arith)
  | inr (tail, e) ↦ (tail, strip_prefix_sound (codes "_dd.p.") k tail e, ground arith)
]
