-- ===== src/Propagation/Datadog/Sent.antt =====
-- The headers and the tags that the injection leaves behind, in a carrier that is a hash map.
use dd_trace_rs.Prelude.{
  ℕ, ◌≤◌, ◌≡◌, ◌≢◌, refl, ap, ◌∙◌, true, false, [], ◌∷◌, map, Option, none, some, ltb, ◌==◌,
  if◌then◌else◌, length, all, is_empty, unwrap_or, arith, Bool-cases, inl, inr,
}
use dd_trace_rs.Prelude.Text.{Bytes, beq, beq_iff, starts_with}
use dd_trace_rs.Prelude.Dict.{lookup, bytes_eq, lookup-insert}
use dd_trace_rs.Numeral.{print}
use dd_trace_rs.Decision.Priority
use dd_trace_rs.Propagation.Ids.{split_trace_id}
use dd_trace_rs.Decision.{SamplingPriority}
use dd_trace_rs.Propagation.Tracestate.{Sampling}
use dd_trace_rs.Propagation.Context.{
  ok, InjectSpanContext, Headers, set_header, get_header, datadog_propagation_tag_prefix,
  map_option, to_lower,
}
use dd_trace_rs.Propagation.Datadog.{
  Tags, trace_id_key, origin_key, parent_id_key, sampling_priority_key, tags_key, propagated,
  inject_trace_id, inject_sampling, inject_tags, inject, get_propagation_tags,
}
use dd_trace_rs.Propagation.Datadog.Tags.{text, valid_tag, get_propagation_tags-text}

-- Set a header if there is a value for it.
abbrev set_if : Bytes → Option Bytes → Headers → Headers
set_if key none h = h
set_if key (some v) h = set_header key v h

abbrev or_else : Option Bytes → Option Bytes → Option Bytes
or_else none old = old
or_else (some v) old = some v

get-set :
    (j k v : Bytes) (h : Headers)
    → get_header (set_header j v h) k
      ≡ (if beq (map to_lower j) (map to_lower k) then some v else get_header h k)
unfolding get_header set_header
get-set j k v h = lookup-insert (map to_lower j) (map to_lower k) v h

get-set_if :
    (j k : Bytes) (v : Option Bytes) (h : Headers)
    → get_header (set_if j v h) k ≡ (
        if beq (map to_lower j) (map to_lower k)
        then or_else v (get_header h k)
        else get_header h k)
get-set_if j k none h = ground arith
get-set_if j k (some v) h = get-set j k v h

-- The tags once the trace id and the sampling decision are in them.
abbrev pub sent_tags : InjectSpanContext → Tags
sent_tags c =
    (inject_sampling set_header c.sampling [] (inject_trace_id set_header c.trace_id [] c.tags).1).1

-- The five headers, in the order in which they are set.
abbrev pub sent_headers : InjectSpanContext → Headers
sent_headers c =
    let body = text (propagated (sent_tags c)) in
    set_if tags_key (if is_empty body then none else some body) (
      set_if sampling_priority_key (map_option Priority.to_string c.sampling.priority) (
        set_if origin_key c.origin (
          set_if parent_id_key (some (print 10 c.span_id))
            (set_if trace_id_key (some (print 10 (split_trace_id c.trace_id).1)) []))))

origin_step :
    (o : Option Bytes) (h : Headers)
    → (let r : Headers = elim o [ some v ↦ set_header origin_key v h | none ↦ h ] in r)
      ≡ set_if origin_key o h
origin_step none h = refl
origin_step (some v) h = refl

priority_step :
    (s : Sampling) (h : Headers) (t : Tags)
    → (inject_sampling set_header s h t).0
      ≡ set_if sampling_priority_key (map_option Priority.to_string s.priority) h
unfolding inject_sampling
priority_step s h t = go s.priority
  where
    go :
        (p : Option SamplingPriority)
        → (let r : Headers = elim p [
          | some q ↦ set_header sampling_priority_key (Priority.to_string q) h
          | none ↦ h
        ] in
            r)
          ≡ set_if sampling_priority_key (map_option Priority.to_string p) h
    go none = refl
    go (some q) = refl

tags_step :
    (t : Tags) (h : Headers) (max_length : ℕ)
    → max_length ≢ 0
    → all valid_tag (propagated t) ≡ true
    → length (text (propagated t)) ≤ max_length
    → (inject_tags set_header t h max_length).0
      ≡ set_if tags_key
          (if is_empty (text (propagated t)) then none else some (text (propagated t)))
          h
unfolding inject_tags
tags_step t h max_length positive valid fits =
    let limited : (max_length == 0) ≡ false = ground arith in
    let short : ltb max_length (length (text (propagated t))) ≡ false = ground arith in
    let written : get_propagation_tags t max_length ≡ ok (text (propagated t)) =
      get_propagation_tags-text t max_length ∙ rw (short, valid) in
    rw limited (
      rw (written, inject_tags)
        (elim (Bool-cases (is_empty (text (propagated t)))) [
          | inl nothing ↦ rw nothing
          | inr something ↦ rw something
        ]))

pub inject-headers :
    (c : InjectSpanContext) (max_length : ℕ)
    → max_length ≢ 0
    → all valid_tag (propagated (sent_tags c)) ≡ true
    → length (text (propagated (sent_tags c))) ≤ max_length
    → (inject set_header c [] max_length).0 ≡ sent_headers c
unfolding inject
inject-headers c max_length positive valid fits =
    let body = text (propagated (sent_tags c)) in
    let (h1, t1) = inject_trace_id set_header c.trace_id [] c.tags in
    let h2 = set_header parent_id_key (print 10 c.span_id) h1 in
    let h3 = set_if origin_key c.origin h2 in
    let h4 = set_if sampling_priority_key (map_option Priority.to_string c.sampling.priority) h3 in
    ap
      (λ h.
        (inject_tags set_header (sent_tags c) (inject_sampling set_header c.sampling h t1).0
          max_length).0)
      (origin_step c.origin h2)
    ∙ ap (λ h. (inject_tags set_header (sent_tags c) h max_length).0)
        (priority_step c.sampling h3 t1)
    ∙ tags_step (sent_tags c) h4 max_length positive valid fits

-- What the receiver finds under each of the five keys.
module _ (c : InjectSpanContext) where
  abbrev body : Bytes
  body = text (propagated (sent_tags c))

  pub get_trace_id :
      get_header (sent_headers c) trace_id_key ≡ some (print 10 (split_trace_id c.trace_id).1)
  unfolding beq get_header lookup
  get_trace_id = simp get-set_if

  pub get_parent_id : get_header (sent_headers c) parent_id_key ≡ some (print 10 c.span_id)
  unfolding beq
  get_parent_id = simp get-set_if

  or_else_none : (o : Option Bytes) → or_else o none ≡ o
  or_else_none none = refl
  or_else_none (some v) = refl

  pub get_origin : get_header (sent_headers c) origin_key ≡ c.origin
  unfolding beq get_header lookup
  get_origin = simp get-set_if (or_else_none c.origin)

  pub get_priority :
      get_header (sent_headers c) sampling_priority_key
      ≡ map_option Priority.to_string c.sampling.priority
  unfolding beq get_header lookup
  get_priority = simp get-set_if (or_else_none (map_option Priority.to_string c.sampling.priority))

  pub get_tags : unwrap_or [] (get_header (sent_headers c) tags_key) ≡ body
  unfolding beq get_header lookup
  get_tags = simp get-set_if (go body)
    where
      go : (b : Bytes) → unwrap_or [] (or_else (if is_empty b then none else some b) none) ≡ b
      go [] = refl
      go (x ∷ xs) = refl

pub lookup-propagated :
    (k : Bytes) (m : Tags)
    → starts_with datadog_propagation_tag_prefix k ≡ true
    → lookup k (propagated m) ≡ lookup k m
unfolding propagated lookup
lookup-propagated k [] h = refl
lookup-propagated k ((j, v) ∷ m) h = ground (arith, beq_iff j k, lookup-propagated k m)
