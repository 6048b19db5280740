-- ===== src/Bitset/Whole.antt =====
-- The operations of include/ycetl/bitset.hpp on all the words.
use Prim.Native.Nat.{bit_and}
use native.Mathlib.Decide.{ℕ_discrete, dec_lt}
use native.Mathlib.Nat.{one-le-pow, pow-le-pow_right}
use ycetl.Base.{
  ℕ, zero, suc, ◌+◌, ◌-◌, ◌*◌, ◌/◌, ◌%◌, ◌^◌, ◌≤◌, ◌<◌, ◌≡◌, refl, ◌∙◌, ap, sym, Bool, true, false,
  not, ◌&&◌, [], ◌∷◌, none, some, arith, ◌==◌, ltb, ◌>>=◌, Returns, length, map, get_elem?,
  get_elem?-some, get_elem?-none, get_elem?-set, length-set, set, lt→ltb, ltb-false,
  lt_of_get_elem?,
}
use ycetl.Bits.{testbit}
use ycetl.Bits.Digits.{testbit-bit_and, bit_and-lt}
use ycetl.Bits.Masks.{testbit-low, testbit-complement}
use ycetl.Bitset.{
  Words, all_ones, complement, storage_count, word_count, tail_mask, clear_tail, set_all, flip_all,
}
use ycetl.Bitset.Access.{member, IsBitset}

-- The words are as many as `n` bits take, and each has 64 digits.
pub record IsStorage (n : ℕ) (ws : Words) : Type 0 where
  pub size : length ws ≡ storage_count n
  pub width : (k w : ℕ) → get_elem? ws k ≡ some w → w < 2 ^ 64

pub IsBitset-IsStorage : (n : ℕ) (ws : Words) → IsBitset n ws → IsStorage n ws
IsBitset-IsStorage n ws b = record { size = b.size; width = b.width }

and_true : (b : Bool) → b ≡ (b && true)
and_true true = refl
and_true false = refl

-- The number of bits in the last word.
abbrev rest : ℕ → ℕ
rest n = n - 64 * ((n - 1) / 64)

pub counts :
    (n : ℕ) → 0 < n → (word_count n ≡ (n - 1) / 64 + 1) × (storage_count n ≡ (n - 1) / 64 + 1)
unfolding word_count storage_count
counts n pos = (ground arith, ground arith)

tail_mask-low : (n : ℕ) → 0 < n → tail_mask n ≡ 2 ^ rest n - 1
unfolding tail_mask
tail_mask-low n pos = elim (ℕ_discrete (n % 64) 0) [
  | yes e ↦ let whole : rest n ≡ 64 = omega arith in rw whole (ground arith)
  | no ne ↦ let part : rest n ≡ n % 64 = omega arith in rw part (ground arith)
]

masked-lt : (w r : ℕ) → w < 2 ^ 64 → r ≤ 64 → bit_and w (2 ^ r - 1) < 2 ^ 64
masked-lt w r h k = bit_and-lt 64 w (2 ^ r - 1) h (
    omega (
      arith,
      pow-le-pow_right {n = 2} (omega arith) {i = r} {j = 64} k,
      one-le-pow r 2 (omega arith),
    ))

cleared :
    (n : ℕ) (ws : Words) (w : ℕ)
    → 0 < n
    → get_elem? ws ((n - 1) / 64) ≡ some w
    → clear_tail n ws ≡ some (set ws ((n - 1) / 64) (bit_and w (2 ^ rest n - 1)))
unfolding clear_tail
cleared n ws w pos at =
    let (wc, sc) = counts n pos in
    let last : word_count n - 1 ≡ (n - 1) / 64 = omega arith in
    let many : (word_count n == 0) ≡ false = ground arith in
    let room = lt→ltb ((n - 1) / 64) (length ws) (lt_of_get_elem? ws ((n - 1) / 64) at) in
    rw (many, last, at, ◌>>=◌, tail_mask-low n pos, room) refl

-- `clear_tail` does not fault, and keeps the bits of the set and no other.
pub clear_tail-member :
    (n : ℕ) (ws : Words)
    → 0 < n
    → IsStorage n ws
    → Returns
        (clear_tail n ws)
        λ ys. IsBitset n ys × ((j : ℕ) → member j ys ≡ (member j ws && ltb j n))
unfolding clear_tail
clear_tail-member n ws pos s =
    let (wc, sc) = counts n pos in
    let (w, at) = get_elem?-some ws ((n - 1) / 64) (omega (arith, s.size)) in
    let w' = bit_and w (2 ^ rest n - 1) in
    let small = masked-lt w (rest n) (s.width ((n - 1) / 64) w at) (omega arith) in
    let reads = bits w at (omega (arith, s.size)) in
    (
      set ws ((n - 1) / 64) w',
      cleared n ws w pos at,
      (
        record {
          size = length-set ws ((n - 1) / 64) w' ∙ s.size;
          width = λ k u e. ground (arith, get_elem?-set ws ((n - 1) / 64) k w', s.width k u);
          clean = λ j le. reads j ∙ ground arith;
        },
        reads,
      ),
    )
  where
    bits :
        (w : ℕ)
        → get_elem? ws ((n - 1) / 64) ≡ some w
        → length ws ≡ (n - 1) / 64 + 1
        → (j : ℕ)
        → member j (set ws ((n - 1) / 64) (bit_and w (2 ^ rest n - 1))) ≡ (member j ws && ltb j n)
    bits w at len j = elim (ℕ_discrete (j / 64) ((n - 1) / 64)) [
      | yes e ↦
          let w' = bit_and w (2 ^ rest n - 1) in
          let read : get_elem? (set ws ((n - 1) / 64) w') (j / 64) ≡ some w' =
            ground (arith, get_elem?-set ws ((n - 1) / 64) (j / 64) w') in
          let old : get_elem? ws (j / 64) ≡ some w = rw e at in
          let within : ltb (j % 64) (rest n) ≡ ltb j n = ground arith in
          rw (read, old, ← within)
            (testbit-bit_and (j % 64) w (2 ^ rest n - 1)
              ∙ ap (λ c. testbit w (j % 64) && c) (testbit-low (rest n) (j % 64)))
      | no ne ↦
          let w' = bit_and w (2 ^ rest n - 1) in
          let read : get_elem? (set ws ((n - 1) / 64) w') (j / 64) ≡ get_elem? ws (j / 64) =
            ground (arith, get_elem?-set ws ((n - 1) / 64) (j / 64) w') in
          rw read (elim (dec_lt j n) [
            | yes lt ↦ let below = lt→ltb j n lt in rw below (and_true (member j ws))
            | no ge ↦
                let past : get_elem? ws (j / 64) ≡ none =
                  get_elem?-none ws (j / 64) (omega arith) in
                rw past refl
          ])
    ]

pub get_elem?-map :
    (f : ℕ → ℕ) (ws : Words) (k u : ℕ)
    → get_elem? (map f ws) k ≡ some u
    → (w : ℕ) × (get_elem? ws k ≡ some w) × (u ≡ f w)
get_elem?-map f [] k u e = absurd (cc e)
get_elem?-map f (w ∷ ws) zero u e = (w, refl, sym (cc e))
get_elem?-map f (w ∷ ws) (suc k) u e = get_elem?-map f ws k u e

pub length-map : (f : ℕ → ℕ) (ws : Words) → length (map f ws) ≡ length ws
length-map f [] = refl
length-map f (w ∷ ws) = ap suc (length-map f ws)

pub get_elem?-map-some :
    (f : ℕ → ℕ) (ws : Words) (k w : ℕ)
    → get_elem? ws k ≡ some w
    → get_elem? (map f ws) k ≡ some (f w)
get_elem?-map-some f [] k w e = absurd (cc e)
get_elem?-map-some f (v ∷ ws) zero w e = ap (λ o. elim o [ none ↦ none | some u ↦ some (f u) ]) e
get_elem?-map-some f (v ∷ ws) (suc k) w e = get_elem?-map-some f ws k w e

-- A map that keeps the width, with what it makes of each digit.
map-member :
    (n : ℕ) (f : ℕ → ℕ) (g : Bool → Bool) (ws : Words)
    → 0 < n
    → IsStorage n ws
    → ((w : ℕ) → w < 2 ^ 64 → f w < 2 ^ 64)
    → ((w j : ℕ) → w < 2 ^ 64 → j < 64 → testbit (f w) j ≡ g (testbit w j))
    → IsStorage n (map f ws)
      × ((j : ℕ) → (member j (map f ws) && ltb j n) ≡ (g (member j ws) && ltb j n))
map-member n f g ws pos s small digit = (stored, bits)
  where
    stored : IsStorage n (map f ws)
    stored = record {
      size = length-map f ws ∙ s.size;
      width = λ k u e.
          let (w, at, same) = get_elem?-map f ws k u e in rw same (small w (s.width k w at));
    }

    bits : (j : ℕ) → (member j (map f ws) && ltb j n) ≡ (g (member j ws) && ltb j n)
    bits j = elim (dec_lt j n) [
      | no ge ↦ rw (ltb-false j n (omega arith)) (ground arith)
      | yes lt ↦
          let (w, at) = get_elem?-some ws (j / 64) (omega (arith, s.size, (counts n pos).1)) in
          rw (get_elem?-map-some f ws (j / 64) w at, at)
            (ap (λ b. b && ltb j n) (digit w (j % 64) (s.width (j / 64) w at) (omega arith)))
    ]

-- For a bitset that is not empty, `set()` and `flip()` do not fault; `set` sets all its bits,
-- `flip` inverts them, and no bit past the last is set.
pub set_all-flip_all :
    (n : ℕ) (ws : Words)
    → 0 < n
    → IsBitset n ws
    → Returns (set_all n ws) (λ ys. IsBitset n ys × ((j : ℕ) → member j ys ≡ ltb j n))
      × Returns
          (flip_all n ws)
          (λ ys. IsBitset n ys × ((j : ℕ) → member j ys ≡ (not (member j ws) && ltb j n)))
unfolding set_all flip_all
set_all-flip_all n ws pos b =
    let s = IsBitset-IsStorage n ws b in
    let (full, fulls) =
      map-member n (λ w. all_ones) (λ b. true) ws pos s (λ w h. omega arith)
        (λ w j h lt. testbit-low 64 j ∙ ground arith) in
    let (flipped, flips) =
      map-member n complement not ws pos s (λ w h. omega arith)
        (λ w j h lt. testbit-complement 64 j w lt h) in
    let (ys, run, (kept, reads)) = clear_tail-member n (map (λ w. all_ones) ws) pos full in
    let (zs, run', (kept', reads')) = clear_tail-member n (map complement ws) pos flipped in
    ((ys, run, (kept, λ j. reads j ∙ fulls j)), (zs, run', (kept', λ j. reads' j ∙ flips j)))
