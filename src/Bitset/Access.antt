-- ===== src/Bitset/Access.antt =====
-- The accesses of include/ycetl/bitset.hpp to one bit.
use Prim.Native.Nat.{bit_and, bit_or, bit_xor}
use native.Mathlib.Nat.{pow-le-pow_right}
use native.Mathlib.Decide.{ℕ_discrete}
use ycetl.Base.{
  ℕ, ◌+◌, ◌/◌, ◌%◌, ◌^◌, ◌≤◌, ◌<◌, ◌≡◌, refl, ◌∙◌, ap, Bool, true, false, not, Option, none, some,
  arith, ◌==◌, if◌then◌else◌, ◌>>=◌, Returns, length, get_elem?, get_elem?-some, get_elem?-set,
  length-set, set, lt→ltb, lt_of_get_elem?,
}
use ycetl.Bits.{testbit}
use ycetl.Bits.Digits.{
  testbit-bit_and, testbit-bit_or, testbit-bit_xor, xor, bit_and-lt, bit_or-lt, bit_xor-lt,
}
use ycetl.Bits.Ones.{bit_and-one}
use ycetl.Bits.Masks.{testbit-bit, testbit-shift, testbit-complement}
use ycetl.Bitset.{
  Words, bits_per_word, storage_count, word_count, test, set_bit, complement, flip_bit,
}

-- The reference definition of a bit, without shifts and masks.
abbrev pub bit_of : Option ℕ → ℕ → Bool
bit_of none j = false
bit_of (some w) j = testbit w j

abbrev pub member : ℕ → Words → Bool
member i ws = bit_of (get_elem? ws (i / bits_per_word)) (i % bits_per_word)

-- The words are as many as `n` bits take and each has 64 digits; no bit from `n` on is set.
pub record IsBitset (n : ℕ) (ws : Words) : Type 0 where
  pub size : length ws ≡ storage_count n
  pub width : (k w : ℕ) → get_elem? ws k ≡ some w → w < 2 ^ 64
  pub clean : (i : ℕ) → n ≤ i → member i ws ≡ false

index_in_range : (n i : ℕ) → i < n → i / bits_per_word < storage_count n
unfolding storage_count word_count
index_in_range n i h = ground arith

test_low : (a : ℕ) → not (bit_and a 1 == 0) ≡ (a % 2 == 1)
test_low a = ground (arith, bit_and-one a)

-- `test` of an index in range does not fault, and returns the bit.
pub test-member : (n i : ℕ) (ws : Words) → IsBitset n ws → i < n → test i ws ≡ some (member i ws)
unfolding test
test-member n i ws b h =
    let (w, at) =
      get_elem?-some ws (i / bits_per_word) (omega (arith, b.size, index_in_range n i h)) in
    let here : i % 64 + 0 ≡ i % 64 = omega arith in
    rw (at, ◌>>=◌)
      (ap some (test_low (w / 2 ^ (i % 64)) ∙ testbit-shift (i % 64) 0 w ∙ ap (testbit w) here))

-- A write of one word that changes one digit changes one bit.
digit-member :
    (n i : ℕ) (ws : Words) (w w' : ℕ) (v : Bool)
    → IsBitset n ws
    → i < n
    → get_elem? ws (i / bits_per_word) ≡ some w
    → w' < 2 ^ 64
    → ((j : ℕ) → j < 64 → testbit w' j ≡ (if i % 64 == j then v else testbit w j))
    → IsBitset n (set ws (i / bits_per_word) w')
      × ((j : ℕ) → member j (set ws (i / bits_per_word) w') ≡ (if i == j then v else member j ws))
digit-member n i ws w w' v b h at small digits = (kept, reads)
  where
    reads : (j : ℕ) → member j (set ws (i / bits_per_word) w') ≡ (if i == j then v else member j ws)
    reads j = elim (ℕ_discrete (j / 64) (i / 64)) [
      | yes same ↦
          let read : get_elem? (set ws (i / 64) w') (j / 64) ≡ some w' =
            ground (arith, get_elem?-set ws (i / 64) (j / 64) w', lt_of_get_elem? ws (i / 64) at) in
          let old : get_elem? ws (j / 64) ≡ some w = rw same at in
          let agree : (i % 64 == j % 64) ≡ (i == j) = ground arith in
          rw (read, old, ← agree) (digits (j % 64) (omega arith))
      | no ne ↦
          let old : get_elem? (set ws (i / 64) w') (j / 64) ≡ get_elem? ws (j / 64) =
            ground (arith, get_elem?-set ws (i / 64) (j / 64) w') in
          let apart : (i == j) ≡ false = ground arith in rw (old, apart) refl
    ]

    kept : IsBitset n (set ws (i / bits_per_word) w')
    kept = record {
      size = length-set ws (i / 64) w' ∙ b.size;
      width = λ k u e. ground (arith, get_elem?-set ws (i / 64) k w', b.width k u);
      clean = λ j le. reads j ∙ ground (arith, b.clean j le);
    }

low_shift : (i : ℕ) → 2 ^ (i % 64) < 2 ^ 64
low_shift i =
    omega (arith, pow-le-pow_right {n = 2} (omega arith) {i = i % 64} {j = 63} (omega arith))

-- The word that `set` writes, and the one that `flip` writes.
abbrev written : ℕ → Bool → ℕ → ℕ
written i v w = if v then bit_or w (2 ^ (i % 64)) else bit_and w (complement (2 ^ (i % 64)))

written-lt : (i : ℕ) (v : Bool) (w : ℕ) → w < 2 ^ 64 → written i v w < 2 ^ 64
written-lt i true w h = bit_or-lt 64 w (2 ^ (i % 64)) h (low_shift i)
written-lt i false w h = bit_and-lt 64 w (complement (2 ^ (i % 64))) h (omega arith)

testbit-written :
    (i : ℕ) (v : Bool) (w j : ℕ)
    → j < 64
    → testbit (written i v w) j ≡ (if i % 64 == j then v else testbit w j)
testbit-written i true w j h =
    ground (arith, testbit-bit_or j w (2 ^ (i % 64)), testbit-bit (i % 64) j)
testbit-written i false w j h = ground (
  arith,
  testbit-bit_and j w (complement (2 ^ (i % 64))),
  testbit-complement 64 j (2 ^ (i % 64)) h (low_shift i),
  testbit-bit (i % 64) j,
)

testbit-flipped :
    (i w j : ℕ)
    → testbit (bit_xor w (2 ^ (i % 64))) j
      ≡ (if i % 64 == j then not (testbit w j) else testbit w j)
testbit-flipped i w j =
    testbit-bit_xor j w (2 ^ (i % 64))
    ∙ rw (testbit-bit (i % 64) j) (cases (testbit w j) (i % 64 == j))
  where
    cases : (b c : Bool) → xor b c ≡ (if c then not b else b)
    cases true true = refl
    cases true false = refl
    cases false true = refl
    cases false false = refl

-- On a bitset of `n` bits and an index below `n`, `set` does not fault; it writes the bit and
-- leaves the others, and no bit past the last is set.
pub set_bit-member :
    (n i : ℕ) (v : Bool) (ws : Words)
    → IsBitset n ws
    → i < n
    → Returns
        (set_bit i v ws)
        λ ys. IsBitset n ys × ((j : ℕ) → member j ys ≡ (if i == j then v else member j ws))
unfolding set_bit
set_bit-member n i v ws b h =
    let (w, at) =
      get_elem?-some ws (i / bits_per_word) (omega (arith, b.size, index_in_range n i h)) in
    (
      set ws (i / bits_per_word) (written i v w),
      rw (at, ◌>>=◌, lt→ltb (i / 64) (length ws) (lt_of_get_elem? ws (i / bits_per_word) at)) refl,
      digit-member n i ws w (written i v w) v b h at
          (written-lt i v w (b.width (i / bits_per_word) w at)) (testbit-written i v w),
    )

-- On an index in range, `flip` does not fault; it inverts the bit and leaves the others.
pub flip_bit-member :
    (n i : ℕ) (ws : Words)
    → IsBitset n ws
    → i < n
    → Returns (flip_bit i ws) λ ys.
      IsBitset n ys × ((j : ℕ) → member j ys ≡ (if i == j then not (member j ws) else member j ws))
unfolding flip_bit
flip_bit-member n i ws b h =
    let (w, at) =
      get_elem?-some ws (i / bits_per_word) (omega (arith, b.size, index_in_range n i h)) in
    let flipped = bit_xor w (2 ^ (i % 64)) in
    let (kept, reads) =
      digit-member n i ws w flipped (not (testbit w (i % 64))) b h at
        (bit_xor-lt 64 w (2 ^ (i % 64)) (b.width (i / bits_per_word) w at) (low_shift i))
        (λ j lt. testbit-flipped i w j ∙ ground arith) in
    (
      set ws (i / bits_per_word) flipped,
      rw (at, ◌>>=◌, lt→ltb (i / 64) (length ws) (lt_of_get_elem? ws (i / bits_per_word) at)) refl,
      (kept, λ j. reads j ∙ inverts w at j),
    )
  where
    inverts :
        (w : ℕ)
        → get_elem? ws (i / bits_per_word) ≡ some w
        → (j : ℕ)
        → (if i == j then not (testbit w (i % 64)) else member j ws)
          ≡ (if i == j then not (member j ws) else member j ws)
    inverts w at j = elim (ℕ_discrete i j) [
      | yes e ↦ rw (← e, at) refl
      | no ne ↦ let apart : (i == j) ≡ false = ground arith in rw apart refl
    ]
