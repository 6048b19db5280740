-- ===== src/Bitset.antt =====
-- `bitset<N>` of include/ycetl/bitset.hpp: bit `i` is digit `i % 64` of word `i / 64`. The words are
-- numbers below 2 ^ 64; an access out of the array is a fault.
pub mod Access
pub mod Whole
pub mod Counting
pub mod Combine
pub mod Building
use Prim.Native.Nat.{bit_and, bit_or, bit_xor}
use ycetl.Base.{
  ℕ, zero, suc, ◌+◌, ◌-◌, ◌/◌, ◌%◌, ◌^◌, ◌<◌, ◌≡◌, Bool, true, false, not, ◌&&◌, ◌||◌, List, [],
  ◌∷◌, Option, none, some, ◌==◌, if◌then◌else◌, ◌>>=◌, length, get_elem?, write, map, replicate,
}

abbrev pub Words : Type 0
Words = List ℕ

abbrev pub bits_per_word : ℕ
bits_per_word = 64

abbrev pub all_ones : ℕ
all_ones = 2 ^ 64 - 1

-- `~w`
abbrev pub complement : ℕ → ℕ
complement w = all_ones - w

unfoldable pub word_count : ℕ → ℕ
word_count n = (n + bits_per_word - 1) / bits_per_word

unfoldable pub storage_count : ℕ → ℕ
unfolding word_count
storage_count n = if word_count n == 0 then 1 else word_count n

unfoldable pub tail_mask : ℕ → ℕ
tail_mask n = if (n == 0) || (n % bits_per_word == 0) then all_ones else 2 ^ (n % bits_per_word) - 1

unfoldable pub clear_tail : ℕ → Words → Option Words
unfolding word_count tail_mask
clear_tail n ws =
    let cleared =
      get_elem? ws (word_count n - 1)
      >>= (λ w. write ws (word_count n - 1) (bit_and w (tail_mask n))) in
    if word_count n == 0 then some ws else cleared

-- `bitset(word_type v)`
unfoldable pub from_word : ℕ → ℕ → Option Words
unfolding word_count storage_count clear_tail
from_word n v =
    let ws = replicate (storage_count n) 0 in
    let first = if word_count n == 0 then some ws else write ws 0 v in
    first >>= (λ xs. clear_tail n xs)

-- `(_words[i / 64] >> (i % 64)) & 1`, as a `bool`
unfoldable pub test : ℕ → Words → Option Bool
test i ws = do
  w ← get_elem? ws (i / bits_per_word)
  some (not (bit_and (w / 2 ^ (i % bits_per_word)) 1 == 0))

unfoldable pub set_bit : ℕ → Bool → Words → Option Words
set_bit i v ws =
    let mask = 2 ^ (i % bits_per_word) in
    get_elem? ws (i / bits_per_word) >>= (λ w.
      write ws (i / bits_per_word) (if v then bit_or w mask else bit_and w (complement mask)))

unfoldable pub set_all : ℕ → Words → Option Words
unfolding clear_tail
set_all n ws = clear_tail n (map (λ w. all_ones) ws)

unfoldable pub reset_bit : ℕ → Words → Option Words
unfolding set_bit
reset_bit i ws = set_bit i false ws

unfoldable pub reset_all : Words → Words
reset_all ws = map (λ w. 0) ws

unfoldable pub flip_bit : ℕ → Words → Option Words
flip_bit i ws =
    get_elem? ws (i / bits_per_word)
    >>= (λ w. write ws (i / bits_per_word) (bit_xor w (2 ^ (i % bits_per_word))))

unfoldable pub flip_all : ℕ → Words → Option Words
unfolding clear_tail
flip_all n ws = clear_tail n (map complement ws)

-- `while (w) { w &= w - 1; ++c; }`; a word has 64 digits, which bound the rounds
unfoldable pub count_word : (fuel w c : ℕ) → Option ℕ
count_word zero w c = if w == 0 then some c else none
count_word (suc fuel) w c =
    let round = count_word fuel (bit_and w (w - 1)) (c + 1) in if w == 0 then some c else round

-- the loop over the words of `count`, from the count `c` on
unfoldable pub count_from : Words → ℕ → Option ℕ
unfolding count_word
count_from [] c = some c
count_from (w ∷ ws) c = count_word bits_per_word w c >>= (λ c'. count_from ws c')

unfoldable pub count : Words → Option ℕ
unfolding count_from
count ws = count_from ws 0

unfoldable pub any : Words → Bool
any [] = false
any (w ∷ ws) = let rest = any ws in if w == 0 then rest else true

unfoldable pub none_set : Words → Bool
unfolding any
none_set ws = not (any ws)

unfoldable pub all : ℕ → Words → Option Bool
unfolding count
all n ws = count ws >>= (λ c. some (c == n))

-- The loop of `&=`, `|=` and `^=`, over arrays of one size.
unfoldable pub combine : (ℕ → ℕ → ℕ) → Words → Words → Words
combine op [] vs = []
combine op (w ∷ ws) [] = w ∷ ws
combine op (w ∷ ws) (v ∷ vs) = op w v ∷ combine op ws vs

unfoldable pub and_assign : Words → Words → Words
unfolding combine
and_assign ws vs = combine bit_and ws vs

unfoldable pub or_assign : Words → Words → Words
unfolding combine
or_assign ws vs = combine bit_or ws vs

unfoldable pub xor_assign : ℕ → Words → Words → Option Words
unfolding combine clear_tail
xor_assign n ws vs = clear_tail n (combine bit_xor ws vs)

-- `operator==`, over arrays of one size
unfoldable pub equal : Words → Words → Bool
equal [] vs = true
equal (w ∷ ws) [] = false
equal (w ∷ ws) (v ∷ vs) = (w == v) && equal ws vs
