-- ===== src/Examples/Hashing.antt =====
-- Runs of include/ycetl/hash.hpp, on the published values of FNV-1a among others.
use ycetl.Base.{◌^◌, ◌<◌, ◌≡◌, refl, [], ◌∷◌, ◌++◌, arith}
use ycetl.Hash.{fnv1a_hash, mix64}
use ycetl.Hash.Laws.{none, more, mix64-apart, fnv1a_hash-apart}

fnv1a_empty : fnv1a_hash [] ≡ 14695981039346656037
unfolding fnv1a_hash
fnv1a_empty = refl

-- "foobar"
fnv1a_foobar : fnv1a_hash (102 ∷ 111 ∷ 111 ∷ 98 ∷ 97 ∷ 114 ∷ []) ≡ 9625390261332436968
unfolding fnv1a_hash
fnv1a_foobar = refl

mix64_seven : mix64 7 ≡ 9406415178646722915
unfolding mix64
mix64_seven = refl

mix64-apart_example : mix64 7 < 2 ^ 64 × ¬ mix64 7 ≡ mix64 9
mix64-apart_example = mix64-apart 7 9 (omega arith) (omega arith) (omega arith)

-- "bar" and "baz"
fnv1a_hash-apart_example :
    fnv1a_hash ((98 ∷ 97 ∷ []) ++ 114 ∷ []) < 2 ^ 64
    × ¬ fnv1a_hash ((98 ∷ 97 ∷ []) ++ 114 ∷ []) ≡ fnv1a_hash ((98 ∷ 97 ∷ []) ++ 122 ∷ [])
fnv1a_hash-apart_example =
    fnv1a_hash-apart (98 ∷ 97 ∷ []) [] 114 122 (more (omega arith) (more (omega arith) none)) none
      (omega arith) (omega arith) (omega arith)
