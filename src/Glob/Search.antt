-- ===== src/Glob/Search.antt =====
-- The loop ends within its fuel and decides `Matches`.
use dd_trace_rs.Prelude.{
  ℕ, zero, suc, ◌<◌, ◌≡◌, ◌≢◌, ◌↔◌, inl, inr, refl, Bool, true, false, ◌||◌, ◌==◌, Option, none,
  some, arith, sym, subst, length, get_elem?, Bool-cases, ltb,
}
use mathlib.Core.Path.{subst₂}
use dd_trace_rs.Prelude.Text.{Bytes}
use dd_trace_rs.Glob.{
  star, question, Cursor, start, backtrack, round, loop, enough, search_from_start,
}
use dd_trace_rs.Glob.Language.{accepts, Matches, empty, byte_inv, not-byte_at_end}
use dd_trace_rs.Glob.Suffixes.{drop-get_none, drop-lt, at_some, drop_past, not-nil_cons}
use dd_trace_rs.Glob.Invariant.{Decides, Inv, Next, backtrack-Next, byte-Inv, star-Inv}

-- `G` is the question asked at the start.
module _ (G : Type 0) (pattern subject : Bytes) where
  -- The pattern is used up before the subject.
  past_pattern :
      (f m : ℕ) (c : Cursor)
      → Inv G pattern subject (suc f) m c
      → get_elem? pattern c.px ≡ none
      → c.sx < length subject
      → Next G pattern subject f (backtrack (length subject) c)
  past_pattern f m c inv at_p room =
      let (here, _) = drop-get_none pattern c.px at_p in
      let (d, rest) = drop-lt subject c.sx room in
      backtrack-Next G pattern subject f m c inv (λ w. not-nil_cons (subst₂ Matches here rest w))
        (cc)

  -- The subject is used up, and the pattern goes on with a byte that is no star.
  past_subject :
      (f m a : ℕ) (c : Cursor)
      → Inv G pattern subject (suc f) m c
      → get_elem? pattern c.px ≡ some a
      → get_elem? subject c.sx ≡ none
      → a ≢ star
      → Next G pattern subject f (backtrack (length subject) c)
  past_subject f m a c inv at_p at_s not_star =
      let (p_here, _) = at_some pattern c.px a at_p in
      let (s_here, _) = drop-get_none subject c.sx at_s in
      backtrack-Next G pattern subject f m c inv
        (λ w. not-byte_at_end not_star (subst₂ Matches p_here s_here w)) (λ e. not_star (cc))

  mismatch :
      (f m a d : ℕ) (c : Cursor)
      → Inv G pattern subject (suc f) m c
      → get_elem? pattern c.px ≡ some a
      → get_elem? subject c.sx ≡ some d
      → a ≢ star
      → accepts a d ≡ false
      → Next G pattern subject f (backtrack (length subject) c)
  mismatch f m a d c inv at_p at_s not_star differs =
      let (p_here, _) = at_some pattern c.px a at_p in
      let (s_here, _) = at_some subject c.sx d at_s in
      backtrack-Next G pattern subject f m c inv
        (λ w. let refused = (byte_inv not_star (subst₂ Matches p_here s_here w)).0 in cc)
        (λ e. not_star (cc))

  round-Next :
      (f m : ℕ) (c : Cursor) (x y : Option ℕ)
      → Inv G pattern subject (suc f) m c
      → (ltb c.px (length pattern) || ltb c.sx (length subject)) ≡ true
      → get_elem? pattern c.px ≡ x
      → get_elem? subject c.sx ≡ y
      → Next G pattern subject f (round (length subject) x y c)
  round-Next f m c none y inv more at_p at_s =
      past_pattern f m c inv at_p (ground (arith, (drop-get_none pattern c.px at_p).1))
  round-Next f m c (some a) none inv more at_p at_s = elim (Bool-cases (a == question)) [
    | inl q ↦ rw q (past_subject f m a c inv at_p at_s (ground arith))
    | inr nq ↦ elim (Bool-cases (a == star)) [
      | inl st ↦ rw (nq, st) (m, star-Inv G pattern subject f m a c inv at_p (ground arith))
      | inr ns ↦ rw (nq, ns) (past_subject f m a c inv at_p at_s (ground arith))
    ]
  ]
  round-Next f m c (some a) (some d) inv more at_p at_s = elim (Bool-cases (a == question)) [
    | inl q ↦
        rw q (m, byte-Inv G pattern subject f m a d c inv at_p at_s (ground arith) (ground arith))
    | inr nq ↦ elim (Bool-cases (a == star)) [
      | inl st ↦ rw (nq, st) (m, star-Inv G pattern subject f m a c inv at_p (ground arith))
      | inr ns ↦ elim (Bool-cases (d == a)) [
        | inl same ↦
            rw (nq, ns, same)
              (m, byte-Inv G pattern subject f m a d c inv at_p at_s (ground arith) (ground arith))
        | inr differs ↦
            rw (nq, ns, differs) (mismatch f m a d c inv at_p at_s (ground arith) (ground arith))
      ]
    ]
  ]

  ends_on_match :
      (f : ℕ) (c : Cursor)
      → (ltb c.px (length pattern) || ltb c.sx (length subject)) ≡ false
      → loop pattern subject (suc f) c ≡ some true
  unfolding loop
  ends_on_match f c done = ground arith

  at_end :
      (m f : ℕ) (c : Cursor)
      → Inv G pattern subject f m c
      → (ltb c.px (length pattern) || ltb c.sx (length subject)) ≡ false
      → G
  at_end m f c inv done = inv.now (
      subst₂ Matches (sym (drop_past pattern c.px (ground arith)))
        (sym (drop_past subject c.sx (ground arith))) empty)

  after_round :
      (f : ℕ) (c : Cursor) (r : Option Cursor)
      → ((m : ℕ) (c' : Cursor)
          → Inv G pattern subject f m c'
          → Decides G (loop pattern subject f c'))
      → (ltb c.px (length pattern) || ltb c.sx (length subject)) ≡ true
      → round (length subject) (get_elem? pattern c.px) (get_elem? subject c.sx) c ≡ r
      → Next G pattern subject f r
      → Decides G (loop pattern subject (suc f) c)
  unfolding loop
  after_round f c none ih more e next =
      let stop : loop pattern subject (suc f) c ≡ some false = rw (more, e, loop) in
      subst (Decides G) (sym stop) next
  after_round f c (some c') ih more e (m, inv) =
      let onward : loop pattern subject (suc f) c ≡ loop pattern subject f c' =
        rw (more, e, loop) in
      subst (Decides G) (sym onward) (ih m c' inv)

  loop-Decides :
      (f m : ℕ) (c : Cursor) → Inv G pattern subject f m c → Decides G (loop pattern subject f c)
  loop-Decides zero m c inv = absurd (omega (arith, inv.fuel))
  loop-Decides (suc f) m c inv =
      elim (Bool-cases (ltb c.px (length pattern) || ltb c.sx (length subject))) [
        | inl more ↦
            after_round f c
              (round (length subject) (get_elem? pattern c.px) (get_elem? subject c.sx) c)
              (loop-Decides f) more refl
              (round-Next f m c (get_elem? pattern c.px) (get_elem? subject c.sx) inv more refl
                refl)
        | inr done ↦ subst (Decides G) (sym (ends_on_match f c done)) (at_end m (suc f) c inv done)
      ]

-- The search ends within its fuel, and its answer is right.
search-Decides :
    (pattern subject : Bytes)
    → Decides (Matches pattern subject) (search_from_start pattern subject)
unfolding search_from_start
search-Decides pattern subject =
    loop-Decides (Matches pattern subject) pattern subject (enough pattern subject) (length subject)
      start
      (record {
        now = λ w. w;
        saved = inl (record { onward = λ g. g; no_star = inl refl });
        px_bound = omega arith;
        sx_bound = omega arith;
        text_bound = omega arith;
        fuel = omega arith;
      })

Decides-iff :
    (G : Type 0) (r : Option Bool) → Decides G r → (b : Bool) × (r ≡ some b) × ((b ≡ true) ↔ G)
Decides-iff G none d = absurd d
Decides-iff G (some true) d = (true, refl, (λ _. d, λ _. refl))
Decides-iff G (some false) d = (false, refl, (λ e. absurd (cc), λ g. absurd (d g)))

-- The loop of `GlobMatcher::matches` returns, and returns true exactly on the subjects that match.
pub search_iff :
    (pattern subject : Bytes)
    → (b : Bool) × (search_from_start pattern subject ≡ some b)
      × ((b ≡ true) ↔ Matches pattern subject)
search_iff pattern subject = Decides-iff _ _ (search-Decides pattern subject)
