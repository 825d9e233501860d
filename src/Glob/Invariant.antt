-- ===== src/Glob/Invariant.antt =====
-- The invariant of the loop: what is left to decide, and the fuel that it takes.
use dd_trace_rs.Prelude.{
  ℕ, zero, suc, ◌+◌, ◌-◌, ◌*◌, ◌≤◌, ◌<◌, ◌≡◌, ◌≢◌, ◌⊎◌, inl, inr, Bool, true, false, ◌&&◌, [], ◌∷◌,
  Option, none, some, arith, ap, sym, subst, ◌∙◌, length, drop, get_elem?, Bool-cases, ltb, leb,
}
use mathlib.Core.Path.{subst₂}
use native.Mathlib.Numerals.{add-one}
use dd_trace_rs.Prelude.Text.{Bytes}
use dd_trace_rs.Glob.{star, Cursor, advance, at_star, backtrack}
use dd_trace_rs.Glob.Language.{
  accepts, Matches, byte, leave, take, byte_inv, star_at_end, must_take, two_stars, drop_byte,
}
use dd_trace_rs.Glob.Suffixes.{get-drop, drop-lt, at_some, drop_past}

abbrev pub Decides : Type 0 → Option Bool → Type 0
Decides G none = ⊥
Decides G (some true) = G
Decides G (some false) = ¬ G

-- `G` is the question asked at the start.
module _ (G : Type 0) (pattern subject : Bytes) where
  abbrev Here : Cursor → Type 0
  Here c = Matches (drop c.px pattern) (drop c.sx subject)

  -- The last star is at `next_px`, and was last tried with the subject from `b` on.
  pub record Resumable (m : ℕ) (c : Cursor) : Type 0 where
    pub b : ℕ
    pub bp : Bytes
    pub a : ℕ
    pub is_star : a ≡ star
    pub at_b : c.next_sx ≡ suc b
    pub star_at : drop c.next_px pattern ≡ a ∷ bp
    pub in_pattern : c.next_px ≤ length pattern
    question_at_b :
        (G → Matches (a ∷ bp) (drop b subject)) × (Matches (a ∷ bp) (drop b subject) → G)
    pub only_way : Matches bp (drop b subject) → Here c
    pub later : G → Matches (a ∷ drop c.px pattern) (drop c.sx subject)
    pub text_bound : length subject ≤ b + m

  -- No star is to be resumed: the question is whether the rest matches here.
  pub record Fresh (c : Cursor) : Type 0 where
    pub onward : G → Here c
    pub no_star : (c.next_sx ≡ 0) ⊎ (get_elem? pattern c.px ≡ some star)

  pub record Inv (f m : ℕ) (c : Cursor) : Type 0 where
    pub now : Here c → G
    pub saved : Fresh c ⊎ Resumable m c
    pub px_bound : c.px ≤ length pattern
    pub sx_bound : c.sx ≤ length subject
    pub text_bound : length subject ≤ c.sx + m
    pub fuel : m * (length pattern + 2) + (length pattern - c.px) < f

  -- What a round leaves: no match, or an invariant with one unit of fuel less.
  abbrev pub Next : ℕ → Option Cursor → Type 0
  Next f none = ¬ G
  Next f (some c) = (m : ℕ) × Inv f m c

  resume-Inv :
      (f m : ℕ) (c : Cursor) (r : Resumable (suc m) c)
      → r.b < length subject
      → suc m * (length pattern + 2) + (length pattern - c.px) < suc f
      → ¬ Here c
      → Inv f m (record c { px = c.next_px; sx = c.next_sx })
  resume-Inv f m c r room fuel no_match =
      let (d, rest) = drop-lt subject r.b room in
      let onward : G → Matches (r.a ∷ r.bp) (drop (suc r.b) subject) = λ g.
        must_take r.is_star (subst (Matches (r.a ∷ r.bp)) rest (r.question_at_b.0 g))
          (λ w. no_match (r.only_way (subst (Matches r.bp) (sym rest) w))) in
      let now : Matches (r.a ∷ r.bp) (drop (suc r.b) subject) → G =
        λ w. r.question_at_b.1 (subst (Matches (r.a ∷ r.bp)) (sym rest) (take r.is_star w)) in
      record {
        now = λ w. now (subst₂ Matches r.star_at (ap (λ k. drop k subject) r.at_b) w);
        saved = inl (record {
          onward = λ g.
              subst₂ Matches (sym r.star_at) (sym (ap (λ k. drop k subject) r.at_b)) (onward g);
          no_star = inr (get-drop pattern c.next_px r.a r.bp r.star_at ∙ ap some r.is_star);
        });
        px_bound = r.in_pattern;
        sx_bound = omega (arith, r.at_b);
        text_bound = omega (arith, r.at_b, r.text_bound);
        fuel = grind arith;
      }

  resume-Next :
      (f m : ℕ) (c : Cursor) (r : Resumable m c)
      → r.b < length subject
      → m * (length pattern + 2) + (length pattern - c.px) < suc f
      → ¬ Here c
      → Next f (backtrack (length subject) c)
  resume-Next f zero c r room fuel no_match = absurd (omega (arith, r.text_bound))
  resume-Next f (suc m) c r room fuel no_match =
      let on : (ltb 0 c.next_sx && leb c.next_sx (length subject)) ≡ true =
        ground (arith, r.at_b) in
      rw on (m, resume-Inv f m c r room fuel no_match)

  -- After a mismatch the search resumes at the last star, or the answer is no.
  pub backtrack-Next :
      (f m : ℕ) (c : Cursor)
      → Inv (suc f) m c
      → ¬ Here c
      → get_elem? pattern c.px ≢ some star
      → Next f (backtrack (length subject) c)
  backtrack-Next f m c inv no_match not_star = elim inv.saved [
    | inl fresh ↦ elim fresh.no_star [
      | inl never ↦
          let off : (ltb 0 c.next_sx && leb c.next_sx (length subject)) ≡ false = ground arith in
          rw off (λ g. no_match (fresh.onward g))
      | inr here ↦ absurd (not_star here)
    ]
    | inr r ↦ elim (Bool-cases (leb c.next_sx (length subject))) [
      | inl room ↦ resume-Next f m c r (ground (arith, r.at_b)) inv.fuel no_match
      | inr full ↦
          let off : (ltb 0 c.next_sx && leb c.next_sx (length subject)) ≡ false = ground arith in
          let rest : drop r.b subject ≡ [] = drop_past subject r.b (ground (arith, r.at_b)) in
          rw off (λ g. no_match (
            r.only_way (
              subst (Matches r.bp) (sym rest)
                (star_at_end r.is_star (subst (Matches (r.a ∷ r.bp)) rest (r.question_at_b.0 g))))))
    ]
  ]

  pub byte-Inv :
      (f m a d : ℕ) (c : Cursor)
      → Inv (suc f) m c
      → get_elem? pattern c.px ≡ some a
      → get_elem? subject c.sx ≡ some d
      → a ≢ star
      → accepts a d ≡ true
      → Inv f m (advance c)
  byte-Inv f m a d c inv at_p at_s not_star ok =
      let (p_here, p_room) = at_some pattern c.px a at_p in
      let (s_here, s_room) = at_some subject c.sx d at_s in
      let next : Here c → Here (advance c) =
        λ w. (byte_inv not_star (subst₂ Matches p_here s_here w)).1 in
      record {
        now = λ w. inv.now (subst₂ Matches (sym p_here) (sym s_here) (byte not_star ok w));
        saved = elim inv.saved [
          | inl fresh ↦ inl (record {
            onward = λ g. next (fresh.onward g);
            no_star = elim fresh.no_star [
              | inl never ↦ inl never
              | inr here ↦ absurd (not_star (cc))
            ];
          })
          | inr r ↦ inr (record {
            b = r.b;
            bp = r.bp;
            a = r.a;
            is_star = r.is_star;
            at_b = r.at_b;
            star_at = r.star_at;
            in_pattern = r.in_pattern;
            question_at_b = r.question_at_b;
            only_way = λ w. next (r.only_way w);
            later = λ g.
                drop_byte (drop (c.sx + 1) subject) r.is_star not_star
                  (subst₂ (λ x y. Matches (r.a ∷ x) y) p_here s_here (r.later g));
            text_bound = r.text_bound;
          })
        ];
        px_bound = p_room;
        sx_bound = s_room;
        text_bound = omega (arith, inv.text_bound);
        fuel = grind arith;
      }

  pub star-Inv :
      (f m a : ℕ) (c : Cursor)
      → Inv (suc f) m c
      → get_elem? pattern c.px ≡ some a
      → a ≡ star
      → Inv f m (at_star c)
  star-Inv f m a c inv at_p is_star =
      let (p_here, p_room) = at_some pattern c.px a at_p in
      let onward : G → Matches (a ∷ drop (c.px + 1) pattern) (drop c.sx subject) = elim inv.saved [
        | inl fresh ↦ λ g. subst (λ x. Matches x (drop c.sx subject)) p_here (fresh.onward g)
        | inr r ↦ λ g.
            two_stars (drop c.sx subject) r.is_star is_star
              (subst (λ x. Matches (r.a ∷ x) (drop c.sx subject)) p_here (r.later g))
      ] in
      let back : Matches (a ∷ drop (c.px + 1) pattern) (drop c.sx subject) → G =
        λ w. inv.now (subst (λ x. Matches x (drop c.sx subject)) (sym p_here) w) in
      record {
        now = λ w. back (leave is_star w);
        saved = inr (record {
          b = c.sx;
          bp = drop (c.px + 1) pattern;
          a = a;
          is_star = is_star;
          at_b = add-one c.sx;
          star_at = p_here;
          in_pattern = inv.px_bound;
          question_at_b = (onward, back);
          only_way = λ w. w;
          later = onward;
          text_bound = inv.text_bound;
        });
        px_bound = p_room;
        sx_bound = inv.sx_bound;
        text_bound = inv.text_bound;
        fuel = grind arith;
      }
