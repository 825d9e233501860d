-- ===== src/Propagation/Datadog/Received.antt =====
-- What the receiver makes of the tags that a sender wrote.
use dd_trace_rs.Prelude.{
  ℕ, zero, suc, ◌^◌, ◌≤◌, ◌<◌, ◌≡◌, refl, ◌∙◌, true, false, [], ◌∷◌, Option, none, some, ltb,
  if◌then◌else◌, length, all, All, is_some, unwrap_or, arith,
}
use dd_trace_rs.Prelude.Int.{ℤ, pos, ltb_ℤ}
use dd_trace_rs.Prelude.Text.{Bytes, beq, starts_with}
use dd_trace_rs.Prelude.Dict.{
  lookup, insert, remove, bytes_eq, lookup-insert, lookup-insert_self, lookup-remove_self,
}
use dd_trace_rs.Numeral.{print, negate, parse_signed, u64_max}
use dd_trace_rs.Numeral.RoundTrip.{parse_unsigned-pad, length-pad, scan-print, print-ne-nil}
use dd_trace_rs.Numeral.Signed.{parse_signed-minus}
use dd_trace_rs.Decision.Mechanism
use dd_trace_rs.Decision.{SamplingPriority, SamplingMechanism}
use dd_trace_rs.Decision.Laws.{to_cow-to_string}
use dd_trace_rs.Propagation.Ids.{split_trace_id, hex16, hex16_of}
use dd_trace_rs.Propagation.Context.{InjectSpanContext, set_header}
use dd_trace_rs.Propagation.Datadog.{
  Tags, tags_key, higher_order_trace_id_bits_key, sampling_decision_maker_tag_key, propagated,
  inject_trace_id, inject_sampling, higher_order_bits_valid, invalid_decision,
  validate_sampling_decision, check_higher_order_bits, extract_tags,
}
use dd_trace_rs.Propagation.Datadog.Tags.{text, valid_tag}
use dd_trace_rs.Propagation.Datadog.ReadBack.{
  PlainKey, UniqueKeys, insert_all, collect_pairs_written, lookup-insert_all,
}
use dd_trace_rs.Propagation.Datadog.Sent.{sent_tags, lookup-propagated}

-- The texts of the two checked tags pass their checks.
hex16-valid : (h : ℕ) → h < 2 ^ 64 → higher_order_bits_valid (hex16 h) ≡ true
unfolding higher_order_bits_valid
hex16-valid h fits = rw (
  length-pad 16 h 15 (omega arith) (omega arith),
  parse_unsigned-pad 16 u64_max h (omega arith) (omega arith) (omega arith) 16,
)

negate_not_positive : (n : ℕ) → ltb_ℤ (pos 0) (negate n) ≡ false
negate_not_positive zero = refl
negate_not_positive (suc n) = ground arith

decision_sign :
    (s : Bytes) (z : ℤ) → parse_signed 128 128 s ≡ some z → invalid_decision s ≡ ltb_ℤ (pos 0) z
decision_sign s z h = rw (h, invalid_decision)

decision-valid :
    (m : SamplingMechanism) → m.value ≤ 128 → invalid_decision (Mechanism.to_cow m) ≡ false
decision-valid m fits =
    let parsed : parse_signed 128 128 (b'-' ∷ print 10 m.value) ≡ some (negate m.value) =
      parse_signed-minus 128 128 (print 10 m.value) (print-ne-nil 10 m.value)
      ∙ rw (scan-print 10 128 m.value (omega arith) (omega arith) fits) refl in
    rw (to_cow-to_string m)
      (decision_sign (Mechanism.to_string m) (negate m.value) parsed ∙ negate_not_positive m.value)

bits_kept :
    (o : Option SamplingMechanism) (d : Tags)
    → lookup higher_order_trace_id_bits_key (
        let r : Tags = elim o [
          | some m ↦ insert sampling_decision_maker_tag_key (Mechanism.to_cow m) d
          | none ↦ d
        ] in
        r)
      ≡ lookup higher_order_trace_id_bits_key d
bits_kept none d = refl
bits_kept (some m) d =
    lookup-insert sampling_decision_maker_tag_key higher_order_trace_id_bits_key
      (Mechanism.to_cow m) d
    ∙ unfold beq in refl

bits_written :
    (o : Option ℕ) (d : Tags)
    → lookup higher_order_trace_id_bits_key (
        let r : Tags = elim o [
          | some h ↦ insert higher_order_trace_id_bits_key (hex16 h) d
          | none ↦ remove higher_order_trace_id_bits_key d
        ] in
        r)
      ≡ hex16_of o
bits_written none d = lookup-remove_self higher_order_trace_id_bits_key d
bits_written (some h) d = lookup-insert_self higher_order_trace_id_bits_key (hex16 h) d

sent_bits :
    (c : InjectSpanContext)
    → lookup higher_order_trace_id_bits_key (sent_tags c) ≡ hex16_of (split_trace_id c.trace_id).0
unfolding inject_sampling inject_trace_id
sent_bits c =
    bits_kept c.sampling.mechanism (inject_trace_id set_header c.trace_id [] c.tags).1
    ∙ bits_written (split_trace_id c.trace_id).0 c.tags

sent_decision :
    (c : InjectSpanContext) (m : SamplingMechanism)
    → c.sampling.mechanism ≡ some m
    → lookup sampling_decision_maker_tag_key (sent_tags c) ≡ some (Mechanism.to_cow m)
unfolding inject_sampling
sent_decision c m e =
    rw (e, inject_sampling)
      (lookup-insert_self sampling_decision_maker_tag_key (Mechanism.to_cow m)
        (inject_trace_id set_header c.trace_id [] c.tags).1)

check_bits_id :
    (t : Tags) (o : Option ℕ)
    → ((h : ℕ) → o ≡ some h → h < 2 ^ 64)
    → lookup higher_order_trace_id_bits_key t ≡ hex16_of o
    → check_higher_order_bits t ≡ t
unfolding check_higher_order_bits
check_bits_id t none fits e = rw (e, check_higher_order_bits)
check_bits_id t (some h) fits e = rw (e, check_higher_order_bits) (rw (hex16-valid h (fits h refl)))

check_decision_id :
    (t : Tags) (m : SamplingMechanism)
    → m.value ≤ 128
    → lookup sampling_decision_maker_tag_key t ≡ some (Mechanism.to_cow m)
    → validate_sampling_decision t ≡ t
unfolding validate_sampling_decision
check_decision_id t m fits e = rw (e, validate_sampling_decision) (rw (decision-valid m fits))

higher_fits : (trace_id h : ℕ) → (split_trace_id trace_id).0 ≡ some h → h < 2 ^ 64
unfolding split_trace_id
higher_fits trace_id h e = ground arith

lookup_same : (o : Option Bytes) → (if is_some o then o else none) ≡ o
lookup_same none = refl
lookup_same (some v) = refl

-- What the sender's context must satisfy to be received as it was.
module _ (c : InjectSpanContext) (max_length : ℕ) (m : SamplingMechanism)
    (p : SamplingPriority) where
  abbrev pub sent : Tags
  sent = propagated (sent_tags c)

  abbrev pub received : Tags
  received = insert_all sent []

  pub lookup-received : UniqueKeys sent → (k : Bytes) → lookup k received ≡ lookup k sent
  lookup-received unique k =
      lookup-insert_all k sent [] unique ∙ unfold lookup in lookup_same (lookup k sent)

  pub received-bits :
      UniqueKeys sent
      → lookup higher_order_trace_id_bits_key received ≡ hex16_of (split_trace_id c.trace_id).0
  unfolding starts_with
  received-bits unique =
      lookup-received unique higher_order_trace_id_bits_key
      ∙ lookup-propagated higher_order_trace_id_bits_key (sent_tags c) refl
      ∙ sent_bits c

  pub received-decision :
      UniqueKeys sent
      → c.sampling.mechanism ≡ some m
      → lookup sampling_decision_maker_tag_key received ≡ some (Mechanism.to_cow m)
  unfolding starts_with
  received-decision unique e =
      lookup-received unique sampling_decision_maker_tag_key
      ∙ lookup-propagated sampling_decision_maker_tag_key (sent_tags c) refl
      ∙ sent_decision c m e

  pub extract_tags-sent :
      (get : Bytes → Option Bytes)
      → unwrap_or [] (get tags_key) ≡ text sent
      → all valid_tag sent ≡ true
      → All PlainKey sent
      → UniqueKeys sent
      → length (text sent) ≤ max_length
      → c.sampling.mechanism ≡ some m
      → m.value ≤ 128
      → extract_tags get max_length ≡ received
  unfolding extract_tags
  extract_tags-sent get e valid plain unique fits dm small =
      let short : ltb max_length (length (text sent)) ≡ false = ground arith in
      rw (e, short, collect_pairs_written sent [] valid plain)
        (rw
          (check_bits_id received (split_trace_id c.trace_id).0 (higher_fits c.trace_id)
            (received-bits unique))
          (check_decision_id received m small (received-decision unique dm)))
