-- ===== src/Glob/Cached.antt =====
-- `GlobMatcher::matches` with its short cuts and its cache.
use dd_trace_rs.Prelude.{
  ℕ, ◌≡◌, ◌↔◌, ◌⊎◌, inl, inr, refl, Bool, true, false, [], ◌∷◌, ◌==◌, sym, subst, ◌∙◌, Option, none,
  some, arith, Bool-cases, Option-cases,
}
use mathlib.Core.Path.{ap, ap₂, subst₂}
use dd_trace_rs.Prelude.Text.{Bytes, beq, beq_iff, contains, codes}
use dd_trace_rs.Glob.{star, question, LruCache, GlobMatcher, new, clone, compute, matches, uncached}
use dd_trace_rs.Glob.Language.{Matches, empty, byte, leave, take}
use dd_trace_rs.Glob.Search.{search_iff}

-- A text matches itself, wildcards included: the short cut for an exact match is right.
Matches_self : (p : Bytes) → Matches p p
Matches_self [] = empty
Matches_self (a ∷ p) = elim (Bool-cases (a == star)) [
  | inl st ↦ take (ground arith) (leave (ground arith) (Matches_self p))
  | inr ns ↦ byte (ground arith) (ground arith) (Matches_self p)
]

-- A lone star matches every text.
Matches_lone_star : (s : Bytes) → Matches (star ∷ []) s
Matches_lone_star [] = leave refl empty
Matches_lone_star (c ∷ s) = take refl (Matches_lone_star s)

-- A pattern with no wildcard matches itself only.
Matches-literal :
    (p s : Bytes) → contains star p ≡ false → contains question p ≡ false → Matches p s → p ≡ s
unfolding contains
Matches-literal [] s hs hq empty = refl
Matches-literal (a ∷ p) s hs hq (byte {c} ns ok w) =
    ap₂ ◌∷◌ (ground arith) (Matches-literal p _ (ground arith) (ground arith) w)
Matches-literal (a ∷ p) s hs hq (leave e w) = absurd (ground arith)
Matches-literal (a ∷ p) s hs hq (take e w) = absurd (ground arith)

literal :
    (p k : Bytes)
    → beq p k ≡ false
    → contains star p ≡ false
    → contains question p ≡ false
    → (false ≡ true) ↔ Matches p k
literal p k differs no_star no_question = (
  λ e. absurd (cc),
  λ w. sym differs ∙ (beq_iff p k).1 (Matches-literal p k no_star no_question w),
)

exact : (p k : Bytes) → beq p k ≡ true → (true ≡ true) ↔ Matches p k
exact p k same = (λ _. subst (Matches p) ((beq_iff p k).0 same) (Matches_self p), λ _. refl)

everything : (p k : Bytes) → beq p (codes "*") ≡ true → (true ≡ true) ↔ Matches p k
everything p k lone = (
  λ _. subst (λ p. Matches p k) (sym ((beq_iff p (codes "*")).0 lone)) (Matches_lone_star k),
  λ _. refl,
)

-- The matcher without its cache is right as well.
uncached_iff :
    (to_lowercase : Bytes → Bytes) (p subject : Bytes)
    → (uncached to_lowercase p subject ≡ true) ↔ Matches p (to_lowercase subject)
unfolding uncached
uncached_iff to_lowercase p subject =
    let k = to_lowercase subject in
    elim (Bool-cases (beq p (codes "*"))) [
      | inl lone ↦ rw lone (everything p k lone)
      | inr several ↦ elim (Bool-cases (beq p k)) [
        | inl same ↦ rw (several, same) (exact p k same)
        | inr differs ↦
            let (b, found, right) = search_iff p k in
            elim (Bool-cases (contains star p)) [
              | inl has_star ↦ rw (several, differs, has_star, found) right
              | inr no_star ↦ elim (Bool-cases (contains question p)) [
                | inl has_question ↦ rw (several, differs, no_star, has_question, found) right
                | inr no_question ↦
                    rw (several, differs, no_star, no_question)
                      (literal p k differs no_star no_question)
              ]
            ]
      ]
    ]

module _ (lru : LruCache) where
  open lru use {Cache, empty as new_cache, get, put}

  -- What the program relies on of the `lru` crate: the cache may forget, and never answers what was
  -- not put under the key.
  pub record LruLaws : Type 1 where
    pub Holds : Cache → Bytes → Bool → Type 0
    pub empty_holds : (n : ℕ) (k : Bytes) (v : Bool) → ¬ Holds (new_cache n) k v
    pub get_held : (k : Bytes) (c : Cache) (v : Bool) → (get k c).0 ≡ some v → Holds c k v
    pub get_keeps : (k j : Bytes) (c : Cache) (v : Bool) → Holds (get k c).1 j v → Holds c j v
    pub put_holds :
        (k j : Bytes) (v w : Bool) (c : Cache)
        → Holds (put k v c) j w
        → (j ≡ k) × (w ≡ v) ⊎ Holds c j w

module _ (lru : LruCache) (laws : LruLaws lru) (to_lowercase : Bytes → Bytes) where
  open lru use {get, put}
  open laws use {Holds, empty_holds, get_held, get_keeps, put_holds}

  abbrev Matcher : Type 0
  Matcher = GlobMatcher lru to_lowercase

  -- Every answer in the cache is right for the matcher's pattern.
  pub record IsSound (m : Matcher) : Type 0 where
    pub right : (k : Bytes) (v : Bool) → Holds m.cache k v → (v ≡ true) ↔ Matches m.pattern_lower k

  -- A new matcher, and a clone, start sound.
  pub new-IsSound : (pattern : Bytes) → IsSound (new lru to_lowercase pattern)
  unfolding new
  new-IsSound pattern = record { right = λ k v h. absurd (empty_holds 256 k v h) }

  clone-IsSound : (m : Matcher) → IsSound (clone lru to_lowercase m)
  unfolding clone
  clone-IsSound m = record { right = λ k v h. absurd (empty_holds 256 k v h) }

  -- What a call gives: an answer that is right, and a matcher for the same pattern, still sound.
  abbrev pub Answers : Bytes → Bytes → Option (Bool × Matcher) → Type 0
  Answers pattern k r =
      (b : Bool) × (m' : Matcher) × (r ≡ some (b, m'))
      × ((b ≡ true) ↔ Matches pattern k)
      × (m'.pattern_lower ≡ pattern)
      × IsSound m'

  after_get :
      (m : Matcher) (k : Bytes) → IsSound m → IsSound (record m { cache = (get k m.cache).1 })
  after_get m k sound = record { right = λ j v h. sound.right j v (get_keeps k j m.cache v h) }

  answered :
      (m : Matcher) (k : Bytes) (b : Bool)
      → IsSound m
      → (b ≡ true) ↔ Matches m.pattern_lower k
      → Answers m.pattern_lower k (some (b, m))
  answered m k b sound right = (b, m, refl, right, refl, sound)

  compute-Answers :
      (m : Matcher) (k : Bytes)
      → IsSound m
      → Answers m.pattern_lower k (compute lru to_lowercase m k)
  unfolding compute
  compute-Answers m k sound =
      let (b, found, right) = search_iff m.pattern_lower k in
      let stored : IsSound (record m { cache = put k b m.cache }) = record {
        right = λ j v h. elim (put_holds k j b v m.cache h) [
          | inl (same, value) ↦
              subst₂ (λ w x. (w ≡ true) ↔ Matches m.pattern_lower x) (sym value) (sym same) right
          | inr old ↦ sound.right j v old
        ];
      } in
      rw found (answered (record m { cache = put k b m.cache }) k b stored right)

  -- The last part of `matches`: the cache is asked, and the loop runs on a miss.
  lookup-Answers :
      (m : Matcher) (k : Bytes)
      → IsSound m
      → Answers m.pattern_lower k (elim (get k m.cache).0 [
        | some result ↦ some (result, record m { cache = (get k m.cache).1 })
        | none ↦ compute lru to_lowercase (record m { cache = (get k m.cache).1 }) k
      ])
  lookup-Answers m k sound = elim (Option-cases (get k m.cache).0) [
    | inl miss ↦
        rw miss (compute-Answers (record m { cache = (get k m.cache).1 }) k (after_get m k sound))
    | inr (v, hit) ↦ rw hit (
        answered (record m { cache = (get k m.cache).1 }) k v (after_get m k sound)
          (sound.right k v (get_held k m.cache v hit)))
  ]

  -- A sound matcher answers every subject, the answer is true exactly when the lower-cased subject
  -- matches the lower-cased pattern, and the matcher it leaves is sound again.
  pub matches-Answers :
      (m : Matcher) (subject : Bytes)
      → IsSound m
      → Answers m.pattern_lower (to_lowercase subject) (matches lru to_lowercase m subject)
  unfolding matches
  matches-Answers m subject sound =
      let k = to_lowercase subject in
      elim (Bool-cases (beq m.pattern_lower (codes "*"))) [
        | inl lone ↦ rw lone (answered m k true sound (everything m.pattern_lower k lone))
        | inr several ↦ elim (Bool-cases (beq m.pattern_lower k)) [
          | inl same ↦ rw (several, same) (answered m k true sound (exact m.pattern_lower k same))
          | inr differs ↦ elim (Bool-cases (contains star m.pattern_lower)) [
            | inl has_star ↦ rw (several, differs, has_star) (lookup-Answers m k sound)
            | inr no_star ↦ elim (Bool-cases (contains question m.pattern_lower)) [
              | inl has_question ↦
                  rw (several, differs, no_star, has_question) (lookup-Answers m k sound)
              | inr no_question ↦
                  rw (several, differs, no_star, no_question)
                    (answered m k false sound
                      (literal m.pattern_lower k differs no_star no_question))
            ]
          ]
        ]
      ]

  -- The cache does not show: the answer is that of the matcher without one.
  pub matches-uncached :
      (m : Matcher) (subject : Bytes)
      → IsSound m
      → (m' : Matcher) × (matches lru to_lowercase m subject
          ≡ some (uncached to_lowercase m.pattern_lower subject, m'))
        × IsSound m'
  matches-uncached m subject sound =
      let (b, m', e, right, same, sound') = matches-Answers m subject sound in
      let pure = uncached_iff to_lowercase m.pattern_lower subject in
      let agree : b ≡ uncached to_lowercase m.pattern_lower subject = same_test b _ right pure in
      (m', e ∙ ap (λ a. some (a, m')) agree, sound')
    where
      same_test : {P : Type 0} (a b : Bool) → (a ≡ true) ↔ P → (b ≡ true) ↔ P → a ≡ b
      same_test true b h k = sym (k.1 (h.0 refl))
      same_test false true h k = h.1 (k.0 refl)
      same_test false false h k = refl
