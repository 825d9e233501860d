-- ===== src/Glob.antt =====
-- `GlobMatcher`: dd-trace-sampling/src/glob_matcher.rs. The pattern and the subject are the bytes of
-- the lower-cased texts, as the loop reads them; the loop keeps the four indices of the source.
pub mod Language
pub mod Suffixes
pub mod Invariant
pub mod Search
pub mod Cached
use dd_trace_rs.Prelude.{
  ℕ, zero, suc, ◌+◌, ◌*◌, Bool, true, false, not, ◌&&◌, ◌||◌, Option, none, some, ◌∷◌, [], ltb, leb,
  ◌==◌, if◌then◌else◌, ◌>>=◌, unwrap_or, length, get_elem?,
}
use dd_trace_rs.Prelude.Text.{Bytes, codes, beq, contains}

abbrev pub star : ℕ
star = b'*'

abbrev pub question : ℕ
question = b'?'

-- The variables of the loop.
pub record Cursor : Type 0 where
  pub px : ℕ
  pub sx : ℕ
  pub next_px : ℕ
  pub next_sx : ℕ

abbrev pub start : Cursor
start = record { px = 0; sx = 0; next_px = 0; next_sx = 0 }

abbrev pub advance : Cursor → Cursor
advance c = record c { px = c.px + 1; sx = c.sx + 1 }

abbrev pub at_star : Cursor → Cursor
at_star c = record c { next_px = c.px; next_sx = c.sx + 1; px = c.px + 1 }

-- Back to the last star, if there is one and the subject has bytes left for it.
abbrev pub backtrack : ℕ → Cursor → Option Cursor
backtrack subject_len c =
    if ltb 0 c.next_sx && leb c.next_sx subject_len
    then some (record c { px = c.next_px; sx = c.next_sx })
    else none

-- One round, at the pattern's byte and the subject's byte (`none` past the end). `none` is the
-- `return false` at the end of the body.
abbrev pub round : ℕ → Option ℕ → Option ℕ → Cursor → Option Cursor
round subject_len none d c = backtrack subject_len c
round subject_len (some char) none c =
    if char == question
    then backtrack subject_len c
    else if char == star
    then some (at_star c)
    else backtrack subject_len c
round subject_len (some char) (some d) c =
    if char == question
    then some (advance c)
    else if char == star
    then some (at_star c)
    else if d == char
    then some (advance c)
    else backtrack subject_len c

-- The `while` loop. `none` means that the fuel ran out.
pub loop : Bytes → Bytes → ℕ → Cursor → Option Bool
loop pattern subject zero c = none
loop pattern subject (suc f) c = elim (ltb c.px (length pattern) || ltb c.sx (length subject)) [
  | true ↦ elim (round (length subject) (get_elem? pattern c.px) (get_elem? subject c.sx) c) [
    | none ↦ some false
    | some c' ↦ loop pattern subject f c'
  ]
  | false ↦ some true
]

-- Rounds that are enough for every pattern and subject.
abbrev pub enough : Bytes → Bytes → ℕ
enough pattern subject = length subject * (length pattern + 2) + length pattern + 1

unfoldable pub search_from_start : Bytes → Bytes → Option Bool
unfolding loop
search_from_start pattern subject = loop pattern subject (enough pattern subject) start

-- `matches` without its cache, for a pattern in lower case.
unfoldable pub uncached : (Bytes → Bytes) → Bytes → Bytes → Bool
uncached to_lowercase pattern_lower subject =
    let subject_lower = to_lowercase subject in
    if beq pattern_lower (codes "*")
    then true
    else if beq pattern_lower subject_lower
    then true
    else if not (contains star pattern_lower) && not (contains question pattern_lower)
    then false
    else unwrap_or false (search_from_start pattern_lower subject_lower)

-- The `lru` crate's cache, of which the program uses these operations. What it relies on is
-- `LruLaws` in `Glob.Cached`.
pub record LruCache : Type 1 where
  pub Cache : Type 0
  pub empty : ℕ → Cache
  pub get : Bytes → Cache → Option Bool × Cache
  pub put : Bytes → Bool → Cache → Cache

module _ (lru : LruCache) (to_lowercase : Bytes → Bytes) where
  open lru use {Cache, empty, get, put}

  pub record GlobMatcher : Type 0 where
    pub pattern_lower : Bytes
    pub cache : Cache

  unfoldable pub new : Bytes → GlobMatcher
  new pattern = record { pattern_lower = to_lowercase pattern; cache = empty 256 }

  -- `Clone`: the clone starts with a cache of its own.
  unfoldable pub clone : GlobMatcher → GlobMatcher
  clone m = record { pattern_lower = m.pattern_lower; cache = empty 256 }

  -- The loop on a cache miss, and the answer stored.
  pub compute : GlobMatcher → Bytes → Option (Bool × GlobMatcher)
  compute m subject_lower = do
    answer ← search_from_start m.pattern_lower subject_lower
    some (answer, record m { cache = put subject_lower answer m.cache })

  unfoldable pub matches : GlobMatcher → Bytes → Option (Bool × GlobMatcher)
  unfolding compute
  matches m subject =
      let subject_lower = to_lowercase subject in
      if beq m.pattern_lower (codes "*")
      then some (true, m)
      else if beq m.pattern_lower subject_lower
      then some (true, m)
      else if not (contains star m.pattern_lower) && not (contains question m.pattern_lower)
      then some (false, m)
      else let (cached, cache') = get subject_lower m.cache in
        elim cached [
          | some result ↦ some (result, record m { cache = cache' })
          | none ↦ compute (record m { cache = cache' }) subject_lower
        ]
