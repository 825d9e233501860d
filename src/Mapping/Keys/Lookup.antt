-- ===== src/Mapping/Keys/Lookup.antt =====
-- The index of the attributes finds, for each key, the last attribute with its name.
use dd_trace_rs.Prelude.{
  ℕ, zero, suc, ◌+◌, ◌%◌, ◌^◌, ◌<◌, ◌≤◌, ◌≡◌, refl, sym, ap, ◌∙◌, false, Option, none, some, List,
  [], ◌∷◌, replicate, get_elem?, if◌then◌else◌, ◌==◌, length, arith, Option-cases, Bool-cases, inl,
  inr, ◌⊎◌,
}
use dd_trace_rs.Prelude.Text.{Bytes, beq, beq_iff}
use dd_trace_rs.Mapping.Keys.{
  Semconv, AttributeKey, AttributeIndices, find_key, set_at, set, get, index_from,
  from_attribute_slice, attribute_keys, u32_max, default, set_found, number_of_attributes,
}

-- Where the name stands last, from position `i` on, or else `before`.
unfoldable pub last_from : Bytes → ℕ → List Bytes → Option ℕ → Option ℕ
last_from key i [] before = before
last_from key i (name ∷ names) before =
    last_from key (i + 1) names (if beq name key then some i else before)

get_elem?-set_at :
    {A : Type 0} (xs : List A) (i j : ℕ) (x : A)
    → i < length xs
    → get_elem? (set_at xs i x) j ≡ (if i == j then some x else get_elem? xs j)
unfolding set_at
get_elem?-set_at [] i j x h = absurd (omega arith)
get_elem?-set_at (y ∷ ys) zero zero x h = refl
get_elem?-set_at (y ∷ ys) zero (suc j) x h = ground arith
get_elem?-set_at (y ∷ ys) (suc i) zero x h = ground arith
get_elem?-set_at (y ∷ ys) (suc i) (suc j) x h =
    ground (arith, get_elem?-set_at ys i j x (omega arith))

length-set_at : {A : Type 0} (xs : List A) (i : ℕ) (x : A) → length (set_at xs i x) ≡ length xs
unfolding set_at
length-set_at [] i x = refl
length-set_at (y ∷ ys) zero x = refl
length-set_at (y ∷ ys) (suc i) x = omega (arith, length-set_at ys i x)

get-set :
    (s : AttributeIndices) (j key : AttributeKey) (i : ℕ)
    → j.idx < length s
    → i < u32_max
    → get (set s j i) key ≡ (if j.idx == key.idx then some i else get s key)
unfolding get set
get-set s j key i h fits =
    rw (get, get_elem?-set_at s j.idx key.idx (i % 2 ^ 32) h)
      (elim (Bool-cases (j.idx == key.idx)) [ inl e ↦ rw e (ground arith) | inr e ↦ rw e refl ])

-- The keys are numbered from `i` on.
unfoldable pub Numbered : ℕ → List AttributeKey → Type 0
Numbered i [] = Unit
Numbered i (k ∷ ks) = (k.idx ≡ i) × Numbered (suc i) ks

-- A key that is found stands at its index.
find_key_place :
    (i : ℕ) (ks : List AttributeKey) (name : Bytes) (k : AttributeKey)
    → Numbered i ks
    → find_key name ks ≡ some k
    → (d : ℕ) × (k.idx ≡ i + d) × (get_elem? ks d ≡ some k) × (k.key ≡ name) × (d < length ks)
unfolding find_key Numbered
find_key_place i [] name k _ e = absurd (ground arith)
find_key_place i (j ∷ ks) name k (n, ns) e = elim (Bool-cases (beq name j.key)) [
  | inl same ↦
      let e' : j ≡ k = ground arith in
      (
        0,
        omega (arith, n, ap (λ a. a.idx) e'),
        ap some e',
        rw (← e') (sym ((beq_iff name j.key).0 same)),
        omega arith,
      )
  | inr differ ↦
      let e' : find_key name ks ≡ some k = ground arith in
      let (d, at_d, there, named, bound) = find_key_place (suc i) ks name k ns e' in
      (suc d, omega arith, there, named, omega arith)
]

module _ (ks : List AttributeKey) (numbered : Numbered 0 ks) (key : AttributeKey)
    (found : find_key key.key ks ≡ some key) where
  -- A name finds the key's index exactly when it is the key's name.
  same_idx :
      (name : Bytes) (k : AttributeKey)
      → find_key name ks ≡ some k
      → (k.idx < length ks) × ((k.idx == key.idx) ≡ beq name key.key)
  same_idx name k e =
      let (d, at_d, there, named, bound) = find_key_place 0 ks name k numbered e in
      let (d', at_d', there', named', bound') = find_key_place 0 ks key.key key numbered found in
      (
        omega arith,
        elim (Bool-cases (beq name key.key)) [
          | inl same ↦
              let same_key : k ≡ key = ground (arith, beq_iff name key.key) in
              rw (same, same_key) (ground arith)
          | inr differ ↦ elim (Bool-cases (k.idx == key.idx)) [
            | inl e' ↦
                let same_place : d ≡ d' = ground arith in
                let same_key : some k ≡ some key =
                  sym there ∙ ap (get_elem? ks) same_place ∙ there' in
                absurd (ground (arith, beq_iff name key.key))
            | inr e' ↦ e' ∙ sym differ
          ]
        ],
      )

  get-set_found :
      (i : ℕ) (name : Bytes) (s : AttributeIndices)
      → length s ≡ length ks
      → i < u32_max
      → get (set_found s i (find_key name ks)) key
        ≡ (if beq name key.key then some i else get s key)
  get-set_found i name s h fits = elim (Option-cases (find_key name ks)) [
    | inl e ↦
        let other : beq name key.key ≡ false = ground (arith, beq_iff name key.key) in rw (e, other)
    | inr (k, e) ↦
        let same = same_idx name k e in rw (e, ← same.1) (get-set s k key i (omega arith) fits)
  ]

  length-set_found :
      (i : ℕ) (s : AttributeIndices) (k : Option AttributeKey) → length (set_found s i k) ≡ length s
  unfolding set
  length-set_found i s none = refl
  length-set_found i s (some k) = length-set_at s k.idx (i % 2 ^ 32)

  pub index_from-last :
      (i : ℕ) (names : List Bytes) (s : AttributeIndices)
      → length s ≡ length ks
      → i + length names ≤ u32_max
      → get (index_from ks i names s) key ≡ last_from key.key i names (get s key)
  unfolding index_from last_from
  index_from-last i [] s _ _ = refl
  index_from-last i (name ∷ names) s h fits = rw (← get-set_found i name s h (omega arith)) (
      index_from-last (i + 1) names (set_found s i (find_key name ks))
        (length-set_found i s (find_key name ks) ∙ h) (omega arith))

get-default : (n : ℕ) (key : AttributeKey) → get (replicate n u32_max) key ≡ none
unfolding get
get-default n key = elim (get_elem?-replicate n key.idx) [
  | inl e ↦ rw (get, e)
  | inr e ↦ rw (get, e)
]
  where
    get_elem?-replicate :
        (n i : ℕ)
        → (get_elem? (replicate n u32_max) i ≡ none)
          ⊎ (get_elem? (replicate n u32_max) i ≡ some u32_max)
    get_elem?-replicate zero i = inl refl
    get_elem?-replicate (suc n) zero = inr refl
    get_elem?-replicate (suc n) (suc i) = get_elem?-replicate n i

attribute_keys-Numbered : (conv : Semconv) → Numbered 0 (attribute_keys conv)
unfolding Numbered
attribute_keys-Numbered conv = ground arith

-- The position that the index gives for a key of the table is that of the last attribute with the
-- key's name, or none.
pub from_attribute_slice-last :
    (conv : Semconv) (names : List Bytes) (key : AttributeKey)
    → find_key key.key (attribute_keys conv) ≡ some key
    → length names ≤ u32_max
    → get (from_attribute_slice conv names) key ≡ last_from key.key 0 names none
unfolding from_attribute_slice
from_attribute_slice-last conv names key found fits = rw (← get-default number_of_attributes key) (
    index_from-last (attribute_keys conv) (attribute_keys-Numbered conv) key found 0 names default
      refl (omega arith))
