-- ===== src/Examples/Bitsets.antt =====
-- Runs of include/ycetl/bitset.hpp on bitsets of ten bits.
use native.Mathlib.Nat.{pow-le-pow_right}
use native.Mathlib.Decide.{dec_lt}
use ycetl.Base.{
  ℕ, zero, suc, ◌/◌, ◌%◌, ◌^◌, ◌≤◌, ◌<◌, ◌≡◌, refl, false, not, ◌&&◌, ◌||◌, [], ◌∷◌, none, some,
  arith, ◌==◌, Returns, get_elem?, get_elem?-none,
}
use ycetl.Bits.Digits.{xor}
use ycetl.Bits.Masks.{testbit-past}
use ycetl.Bitset.{Words, storage_count, set_all, and_assign, or_assign, xor_assign, count, any, all}
use ycetl.Bitset.Access.{member, IsBitset}
use ycetl.Bitset.Combine.{assign-member}
use ycetl.Bitset.Counting.{tally, count-tally}

one_word : (w : ℕ) → w < 2 ^ 10 → IsBitset 10 (w ∷ [])
unfolding storage_count
one_word w small = record { size = refl; width = wide; clean = past }
  where
    wide : (k u : ℕ) → get_elem? (w ∷ []) k ≡ some u → u < 2 ^ 64
    wide zero u e = let same : w ≡ u = cc e in omega arith
    wide (suc k) u e = absurd (cc e)

    past : (i : ℕ) → 10 ≤ i → member i (w ∷ []) ≡ false
    past i le = elim (dec_lt i 64) [
      | yes lt ↦
          let word : i / 64 ≡ 0 = omega arith in
          let digit : i % 64 ≡ i = omega arith in
          rw (word, digit)
            (testbit-past i w
              (omega (arith, pow-le-pow_right {n = 2} (omega arith) {i = 10} {j = i} le)))
      | no ge ↦
          let word : get_elem? (w ∷ []) (i / 64) ≡ none =
            get_elem?-none (w ∷ []) (i / 64) (omega arith) in
          rw word refl
    ]

abbrev five : Words
five = 5 ∷ []

abbrev six : Words
six = 6 ∷ []

assign-member_example :
    (IsBitset 10 (and_assign five six)
      × ((j : ℕ) → member j (and_assign five six) ≡ (member j five && member j six)))
    × (IsBitset 10 (or_assign five six)
        × ((j : ℕ) → member j (or_assign five six) ≡ (member j five || member j six)))
    × Returns
        (xor_assign 10 five six)
        (λ ys. IsBitset 10 ys × ((j : ℕ) → member j ys ≡ xor (member j five) (member j six)))
assign-member_example =
    assign-member 10 five six (omega arith) (one_word 5 (omega arith)) (one_word 6 (omega arith))

count-tally_example :
    (count five ≡ some (tally 10 (λ i. member i five)))
    × (any five ≡ not (tally 10 (λ i. member i five) == 0))
    × (all 10 five ≡ some (tally 10 (λ i. member i five) == 10))
count-tally_example = count-tally 10 five (one_word 5 (omega arith))

-- Bit 0 is set in 5, and 5 has two ones.
two_ones : count five ≡ some 2
unfolding count
two_ones = refl

-- A bitset of no bits has a word, which `set()` fills.
none_but_all : set_all 0 (0 ∷ []) ≡ some (18446744073709551615 ∷ [])
unfolding set_all
none_but_all = refl
