-- ===== src/Bitset/Counting.antt =====
-- `count`, `any` and `all` of include/ycetl/bitset.hpp against the number of members.
use Prim.Native.Nat.{bit_and}
use ycetl.Base.{
  ℕ, zero, suc, ◌+◌, ◌-◌, ◌*◌, ◌/◌, ◌%◌, ◌^◌, ◌≤◌, ◌<◌, ◌≡◌, refl, ◌∙◌, ap, Bool, false, not, [],
  ◌∷◌, some, arith, ◌==◌, if◌then◌else◌, ◌>>=◌, length, get_elem?,
}
use ycetl.Bits.{testbit}
use ycetl.Bits.Digits.{bit_and-lt}
use ycetl.Bits.Ones.{ones, ones-clear, ones-le, ones-pos, ones-zero}
use ycetl.Bitset.{Words, count_word, count_from, count, any, all, storage_count, word_count}
use ycetl.Bitset.Access.{member, IsBitset}

-- The loop ends within a round for each digit, and counts the ones.
count_word-ones :
    (n fuel w c : ℕ) → w < 2 ^ n → ones n w ≤ fuel → count_word fuel w c ≡ some (c + ones n w)
unfolding count_word
count_word-ones n zero zero c h le = ap some (omega (arith, ones-zero n))
count_word-ones n (suc fuel) zero c h le = ap some (omega (arith, ones-zero n))
count_word-ones n zero (suc w) c h le = absurd (omega (arith, ones-pos n (suc w) (omega arith) h))
count_word-ones n (suc fuel) (suc w) c h le =
    let cleared = ones-clear n (suc w) (omega arith) h in
    let more : (suc w == 0) ≡ false = ground arith in
    rw more (
      count_word-ones n fuel (bit_and (suc w) (suc w - 1)) (c + 1)
        (bit_and-lt n (suc w) (suc w - 1) h (omega arith)) (omega arith)
      ∙ ap some (omega arith))

-- How many of the first indices have the property.
abbrev pub tally : ℕ → (ℕ → Bool) → ℕ
tally zero p = 0
tally (suc n) p = (if p 0 then 1 else 0) + tally n (λ i. p (suc i))

tally_congr : (n : ℕ) (p q : ℕ → Bool) → ((i : ℕ) → i < n → p i ≡ q i) → tally n p ≡ tally n q
tally_congr zero p q h = refl
tally_congr (suc n) p q h = rw (h 0 (omega arith)) (
    ap (λ m. (if q 0 then 1 else 0) + m)
      (tally_congr n (λ i. p (suc i)) (λ i. q (suc i)) (λ i lt. h (suc i) (omega arith))))

tally-split : (m n : ℕ) (p : ℕ → Bool) → tally (m + n) p ≡ tally m p + tally n (λ i. p (m + i))
tally-split zero n p =
    let none_first : 0 + n ≡ n = omega arith in
    rw none_first (omega (arith, tally_congr n p (λ i. p (0 + i)) (λ i lt. ap p (omega arith))))
tally-split (suc m) n p =
    let next : suc m + n ≡ suc (m + n) = omega arith in
    rw next (
      omega (
        arith,
        tally-split m n (λ i. p (suc i)),
        tally_congr n (λ i. p (suc (m + i))) (λ i. p (suc m + i)) (λ i lt. ap p (omega arith)),
      ))

tally-ones : (n a : ℕ) → tally n (λ i. testbit a i) ≡ ones n a
unfolding ones
tally-ones zero a = refl
tally-ones (suc n) a = ground (arith, tally-ones n (a / 2))

-- The digits of a first word, then those of the others.
member-first : (w : ℕ) (ws : Words) (i : ℕ) → i < 64 → member i (w ∷ ws) ≡ testbit w i
member-first w ws i lt =
    let word : i / 64 ≡ 0 = omega arith in
    let digit : i % 64 ≡ i = omega arith in rw (word, digit) refl

member-next : (w : ℕ) (ws : Words) (i : ℕ) → member (64 + i) (w ∷ ws) ≡ member i ws
member-next w ws i =
    let word : (64 + i) / 64 ≡ suc (i / 64) = omega arith in
    let digit : (64 + i) % 64 ≡ i % 64 = omega arith in rw (word, digit) refl

abbrev members : Words → ℕ
members ws = tally (64 * length ws) (λ i. member i ws)

members-cons : (w : ℕ) (ws : Words) → members (w ∷ ws) ≡ ones 64 w + members ws
members-cons w ws = first_word 64 refl
  where
    first_word : (k : ℕ) → k ≡ 64 → members (w ∷ ws) ≡ ones 64 w + members ws
    first_word k e =
        let size : 64 * suc (length ws) ≡ k + 64 * length ws = omega arith in
        ap (λ m. tally m (λ i. member i (w ∷ ws))) size
        ∙ tally-split k (64 * length ws) (λ i. member i (w ∷ ws))
        ∙ ap (λ m. m + tally (64 * length ws) (λ i. member (k + i) (w ∷ ws)))
            (tally_congr k (λ i. member i (w ∷ ws)) (λ i. testbit w i)
                (λ i lt. member-first w ws i (omega arith))
              ∙ tally-ones k w
              ∙ ap (λ m. ones m w) e)
        ∙ ap (λ m. ones 64 w + m)
            (tally_congr (64 * length ws) (λ i. member (k + i) (w ∷ ws)) (λ i. member i ws)
              (λ i lt. ap (λ m. member (m + i) (w ∷ ws)) e ∙ member-next w ws i))

count_from-members :
    (ws : Words) (c : ℕ)
    → ((k w : ℕ) → get_elem? ws k ≡ some w → w < 2 ^ 64)
    → count_from ws c ≡ some (c + members ws)
unfolding count_from
count_from-members [] c wide = ap some (omega arith)
count_from-members (w ∷ ws) c wide =
    rw (count_word-ones 64 64 w c (wide 0 w refl) (ones-le 64 w), ◌>>=◌)
      (count_from-members ws (c + ones 64 w) (λ k v e. wide (suc k) v e)
        ∙ ap some (omega (arith, members-cons w ws)))

any-members :
    (ws : Words)
    → ((k w : ℕ) → get_elem? ws k ≡ some w → w < 2 ^ 64)
    → any ws ≡ not (members ws == 0)
unfolding any
any-members [] wide = refl
any-members (zero ∷ ws) wide =
    any-members ws (λ k v e. wide (suc k) v e)
    ∙ ap (λ m. not (m == 0)) (omega (arith, members-cons 0 ws, ones-zero 64))
any-members (suc w ∷ ws) wide =
    let some_bit = ones-pos 64 (suc w) (omega arith) (wide 0 (suc w) refl) in
    let more : (members (suc w ∷ ws) == 0) ≡ false = ground (arith, members-cons (suc w) ws) in
    let inner : (suc w == 0) ≡ false = ground arith in rw (more, inner) refl

tally-false : (n : ℕ) (p : ℕ → Bool) → ((i : ℕ) → p i ≡ false) → tally n p ≡ 0
tally-false zero p h = refl
tally-false (suc n) p h = rw (h 0) (omega (arith, tally-false n (λ i. p (suc i)) (λ i. h (suc i))))

members-tally : (n : ℕ) (ws : Words) → IsBitset n ws → members ws ≡ tally n (λ i. member i ws)
unfolding storage_count word_count
members-tally n ws b =
    let room : n ≤ 64 * storage_count n = ground arith in
    let size : 64 * length ws ≡ n + (64 * length ws - n) = omega (arith, b.size) in
    ap (λ m. tally m (λ i. member i ws)) size
    ∙ tally-split n (64 * length ws - n) (λ i. member i ws)
    ∙ ap (λ m. tally n (λ i. member i ws) + m)
        (tally-false (64 * length ws - n) (λ i. member (n + i) ws)
          (λ i. b.clean (n + i) (omega arith)))
    ∙ omega arith

-- On a bitset of `n` bits, `count` ends and returns how many of the `n` bits are set; `any` says
-- whether one is, and `all` whether all of them are.
pub count-tally :
    (n : ℕ) (ws : Words)
    → IsBitset n ws
    → (count ws ≡ some (tally n (λ i. member i ws)))
      × (any ws ≡ not (tally n (λ i. member i ws) == 0))
      × (all n ws ≡ some (tally n (λ i. member i ws) == n))
unfolding count all
count-tally n ws b =
    let total : count_from ws 0 ≡ some (tally n (λ i. member i ws)) =
      count_from-members ws 0 b.width ∙ ap some (omega (arith, members-tally n ws b)) in
    (total, any-members ws b.width ∙ ap (λ m. not (m == 0)) (members-tally n ws b), rw total refl)
