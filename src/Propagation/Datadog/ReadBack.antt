-- ===== src/Propagation/Datadog/ReadBack.antt =====
-- The tags that are written into `x-datadog-tags` are read back from it.
use dd_trace_rs.Prelude.{
  ◌≡◌, ◌≢◌, refl, ◌∙◌, subst, true, List, [], ◌∷◌, ◌++◌, append-nil, none, is_some, if◌then◌else◌,
  all, All, All-append, arith, Bool-cases, inl, inr,
}
use dd_trace_rs.Prelude.Text.{
  Bytes, Lacks, beq, beq_iff, starts_with, split, split_once, split-append, split-single,
  split_once-append,
}
use dd_trace_rs.Prelude.Dict.{lookup, insert, bytes_eq, lookup-insert}
use dd_trace_rs.Propagation.Context.{datadog_propagation_tag_prefix}
use dd_trace_rs.Propagation.Datadog.{Tags, collect_pairs}
use dd_trace_rs.Propagation.Datadog.Tags.{
  pair, text, tail_text, valid_tag, value-Lacks, tail-Lacks, valid_key_shape, starts_with-append,
}

-- A key with an equals sign is cut at the sign when it is read back.
abbrev pub PlainKey : Bytes × Bytes → Type 0
PlainKey (k, v) = Lacks b'=' k

-- All entries inserted in turn.
pub insert_all : Tags → Tags → Tags
insert_all [] d = d
insert_all ((k, v) ∷ m) d = insert_all m (insert k v d)

valid-Lacks : (k v : Bytes) → valid_tag (k, v) ≡ true → Lacks b',' (pair (k, v))
valid-Lacks k v h =
    let (tail, shape, ok_tail) = valid_key_shape k (ground arith) in
    rw shape (
      All-append (λ c. c ≢ b',') (datadog_propagation_tag_prefix ++ tail) (b'=' ∷ v)
        (All-append (λ c. c ≢ b',') datadog_propagation_tag_prefix tail (omega arith)
          (tail-Lacks tail ok_tail))
        (omega arith, value-Lacks v (ground arith)))

collect_pair :
    (k v : Bytes) (ps : List Bytes) (d : Tags)
    → valid_tag (k, v) ≡ true
    → Lacks b'=' k
    → collect_pairs (pair (k, v) ∷ ps) d ≡ collect_pairs ps (insert k v d)
unfolding collect_pairs
collect_pair k v ps d valid plain =
    let (tail, shape, _) = valid_key_shape k (ground arith) in
    let prefixed : starts_with datadog_propagation_tag_prefix k ≡ true =
      rw shape (starts_with-append datadog_propagation_tag_prefix tail) in
    rw (split_once-append b'=' k v plain, prefixed)

collect_pairs-text :
    (e : Bytes × Bytes) (m d : Tags)
    → all valid_tag (e ∷ m) ≡ true
    → All PlainKey (e ∷ m)
    → collect_pairs (split b',' (pair e ++ tail_text m)) d ≡ insert_all (e ∷ m) d
unfolding tail_text insert_all
collect_pairs-text (k, v) [] d valid plain =
    rw (append-nil (pair (k, v)), split-single b',' (pair (k, v)) (valid-Lacks k v (ground arith)))
      (collect_pair k v [] d (ground arith) plain.0 ∙ unfold collect_pairs in refl)
collect_pairs-text (k, v) (e ∷ m) d valid plain =
    rw
      (
        split-append b',' (pair (k, v)) (pair e ++ tail_text m) (valid-Lacks k v (ground arith)),
        collect_pair k v (split b',' (pair e ++ tail_text m)) d (ground arith) plain.0,
      )
      (collect_pairs-text e m (insert k v d) (ground arith) plain.1)

-- The written header gives the propagated tags back, inserted in turn.
pub collect_pairs_written :
    (m d : Tags)
    → all valid_tag m ≡ true
    → All PlainKey m
    → collect_pairs (split b',' (text m)) d ≡ insert_all m d
unfolding text
collect_pairs_written [] d valid plain = unfold insert_all collect_pairs split split_once in refl
collect_pairs_written (e ∷ m) d valid plain = collect_pairs-text e m d valid plain

-- No key twice, as in a hash map.
abbrev pub UniqueKeys : Tags → Type 0
UniqueKeys [] = Unit
UniqueKeys ((k, v) ∷ m) = (lookup k m ≡ none) × UniqueKeys m

pub lookup-insert_all :
    (k : Bytes) (m d : Tags)
    → UniqueKeys m
    → lookup k (insert_all m d) ≡ (if is_some (lookup k m) then lookup k m else lookup k d)
unfolding insert_all lookup
lookup-insert_all k [] d u = refl
lookup-insert_all k ((j, v) ∷ m) d (fresh, u) =
    rw (lookup-insert_all k m (insert j v d) u, lookup-insert j k v d)
      (elim (Bool-cases (beq j k)) [
        | inl same ↦
            let gone : lookup k m ≡ none =
              subst (λ i. lookup i m ≡ none) ((beq_iff j k).0 same) fresh in
            rw (same, gone)
        | inr other ↦ rw other
      ])
