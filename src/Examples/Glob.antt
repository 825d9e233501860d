-- ===== src/Examples/Glob.antt =====
-- The glob matcher on a concrete cache, and a run of it.
use dd_trace_rs.Prelude.{◌≡◌, ◌↔◌, refl, Bool, true, false, [], some, arith, ◌⊎◌}
use dd_trace_rs.Prelude.Text.{Bytes, beq_iff, codes}
use dd_trace_rs.Prelude.Dict.{Dict, lookup, insert, bytes_eq, lookup-insert}
use dd_trace_rs.Glob.{LruCache, GlobMatcher, new, matches, uncached, search_from_start}
use dd_trace_rs.Glob.Language.{Matches}
use dd_trace_rs.Glob.Search.{search_iff}
use dd_trace_rs.Glob.Cached.{
  LruLaws, new-IsSound, IsSound, Answers, matches-Answers, matches-uncached,
}

search_iff_example :
    (b : Bool) × (search_from_start (codes "a*c") (codes "abbc") ≡ some b)
    × ((b ≡ true) ↔ Matches (codes "a*c") (codes "abbc"))
search_iff_example = search_iff (codes "a*c") (codes "abbc")

backtracks : search_from_start (codes "a*bc") (codes "abbbc") ≡ some true
unfolding search_from_start
backtracks = refl

misses : search_from_start (codes "a?c*d") (codes "abcx") ≡ some false
unfolding search_from_start
misses = refl

-- A cache that forgets nothing.
abbrev whole_cache : LruCache
whole_cache = record {
  Cache = Dict Bytes Bool;
  empty = λ _. [];
  get = λ k c. (lookup k c, c);
  put = insert;
}

put_law :
    (k j : Bytes) (v w : Bool) (c : Dict Bytes Bool)
    → lookup j (insert k v c) ≡ some w
    → (j ≡ k) × (w ≡ v) ⊎ (lookup j c ≡ some w)
put_law k j v w c h = ground (arith, lookup-insert k j v c, beq_iff k j)

whole_cache_laws : LruLaws whole_cache
unfolding lookup
whole_cache_laws = record {
  Holds = λ c k v. lookup k c ≡ some v;
  empty_holds = λ n k v h. cc;
  get_held = λ k c v h. h;
  get_keeps = λ k j c v h. h;
  put_holds = put_law;
}

abbrev unchanged : Bytes → Bytes
unchanged s = s

abbrev service_matcher : GlobMatcher whole_cache unchanged
service_matcher = new whole_cache unchanged (codes "web-*")

matches-Answers_example :
    Answers whole_cache whole_cache_laws unchanged service_matcher.pattern_lower
      (unchanged (codes "web-shop"))
      (matches whole_cache unchanged service_matcher (codes "web-shop"))
matches-Answers_example =
    matches-Answers whole_cache whole_cache_laws unchanged service_matcher (codes "web-shop")
      (new-IsSound whole_cache whole_cache_laws unchanged (codes "web-*"))

matches-uncached_example :
    (m' : GlobMatcher whole_cache unchanged) × (matches whole_cache unchanged service_matcher
        (codes "web-shop")
      ≡ some (uncached unchanged service_matcher.pattern_lower (codes "web-shop"), m'))
    × IsSound whole_cache whole_cache_laws unchanged m'
matches-uncached_example =
    matches-uncached whole_cache whole_cache_laws unchanged service_matcher (codes "web-shop")
      (new-IsSound whole_cache whole_cache_laws unchanged (codes "web-*"))
