-- ===== src/Bitset/Building.antt =====
-- The constructor from a word of include/ycetl/bitset.hpp, and `reset` of all the bits.
use native.Mathlib.Decide.{dec_lt}
use ycetl.Base.{
  ℕ, ◌/◌, ◌%◌, ◌^◌, ◌<◌, ◌≡◌, refl, ◌∙◌, ap, true, false, ◌&&◌, none, some, arith, ◌==◌, ltb,
  if◌then◌else◌, ◌>>=◌, Returns, length, map, replicate, get_elem?, length-replicate,
  get_elem?-replicate, get_elem?-set, length-set, set, write, lt→ltb, ltb-false, get_elem?-none,
  get_elem?-some,
}
use ycetl.Bits.{testbit}
use ycetl.Bits.Masks.{testbit-zero}
use ycetl.Bitset.{Words, storage_count, word_count, clear_tail, from_word, reset_all}
use ycetl.Bitset.Access.{member, IsBitset}
use ycetl.Bitset.Whole.{
  IsStorage, clear_tail-member, counts, get_elem?-map, get_elem?-map-some, length-map,
}

abbrev blank : ℕ → ℕ → Words
blank n v = set (replicate (storage_count n) 0) 0 v

blank-IsStorage : (n v : ℕ) → v < 2 ^ 64 → IsStorage n (blank n v)
blank-IsStorage n v small = record {
  size =
      length-set (replicate (storage_count n) 0) 0 v ∙ length-replicate {A = ℕ} (storage_count n) 0;
  width = λ k w e. ground (
    arith,
    get_elem?-set (replicate (storage_count n) 0) 0 k v,
    get_elem?-replicate {A = ℕ} (storage_count n) 0 k,
  );
}

member-blank : (n v j : ℕ) → 0 < n → v < 2 ^ 64 → member j (blank n v) ≡ (testbit v j && ltb j 64)
member-blank n v j pos small = elim (dec_lt j 64) [
  | yes lt ↦
      let word : j / 64 ≡ 0 = omega arith in
      let digit : j % 64 ≡ j = omega arith in
      let first : get_elem? (blank n v) 0 ≡ some v = ground (
        arith,
        get_elem?-set (replicate (storage_count n) 0) 0 0 v,
        length-replicate {A = ℕ} (storage_count n) 0,
        (counts n pos).1,
      ) in
      let below = lt→ltb j 64 lt in rw (word, digit, first, below) (ground arith)
  | no ge ↦
      let past = ltb-false j 64 (omega arith) in
      rw past (elim (dec_lt (j / 64) (storage_count n)) [
        | yes lt ↦
            let later : get_elem? (blank n v) (j / 64) ≡ some 0 = ground (
              arith,
              get_elem?-set (replicate (storage_count n) 0) 0 (j / 64) v,
              get_elem?-replicate {A = ℕ} (storage_count n) 0 (j / 64),
            ) in
            rw (later, testbit-zero (j % 64)) (ground arith)
        | no out ↦
            let later : get_elem? (blank n v) (j / 64) ≡ none = ground (
              arith,
              get_elem?-set (replicate (storage_count n) 0) 0 (j / 64) v,
              get_elem?-replicate {A = ℕ} (storage_count n) 0 (j / 64),
            ) in
            rw later (ground arith)
      ])
]

first_word :
    (n v : ℕ)
    → 0 < n
    → (if word_count n == 0
        then some (replicate (storage_count n) 0)
        else write (replicate (storage_count n) 0) 0 v)
      ≡ some (blank n v)
first_word n v pos =
    let many : (word_count n == 0) ≡ false = ground (arith, (counts n pos).0) in
    let room : ltb 0 (length {A = ℕ} (replicate (storage_count n) 0)) ≡ true =
      ground (arith, (counts n pos).1, length-replicate {A = ℕ} (storage_count n) 0) in
    rw (many, room) refl

member-reset : (ws : Words) (j : ℕ) → member j (map (λ w. 0) ws) ≡ false
member-reset ws j = elim (dec_lt (j / 64) (length ws)) [
  | yes lt ↦
      let (w, at) = get_elem?-some ws (j / 64) lt in
      rw (get_elem?-map-some (λ w. 0) ws (j / 64) w at) (testbit-zero (j % 64))
  | no ge ↦
      let past : get_elem? {A = ℕ} (map (λ w. 0) ws) (j / 64) ≡ none =
        get_elem?-none (map (λ w. 0) ws) (j / 64) (omega (arith, length-map (λ w. 0) ws)) in
      rw past refl
]

-- For a bitset that is not empty, the constructor from a word does not fault and takes the lowest
-- digits of the word, and `reset()` leaves no bit set.
pub from_word-member :
    (n v : ℕ) (ws : Words)
    → 0 < n
    → v < 2 ^ 64
    → IsBitset n ws
    → Returns
        (from_word n v)
        (λ ys. IsBitset n ys × ((j : ℕ) → member j ys ≡ ((testbit v j && ltb j 64) && ltb j n)))
      × IsBitset n (reset_all ws)
      × ((j : ℕ) → member j (reset_all ws) ≡ false)
unfolding from_word reset_all
from_word-member n v ws pos small b =
    let (ys, run, (kept, reads)) =
      clear_tail-member n (blank n v) pos (blank-IsStorage n v small) in
    (
      (
        ys,
        start ys run,
        (kept, λ j. reads j ∙ ap (λ c. c && ltb j n) (member-blank n v j pos small)),
      ),
      record {
        size = length-map (λ w. 0) ws ∙ b.size;
        width =
            λ k u e. let (w, at, same) = get_elem?-map (λ w. 0) ws k u e in rw same (omega arith);
        clean = λ j le. member-reset ws j;
      },
      member-reset ws,
    )
  where
    start : (ys : Words) → clear_tail n (blank n v) ≡ some ys → from_word n v ≡ some ys
    start ys run = ap (λ m. m >>= clear_tail n) (first_word n v pos) ∙ run
