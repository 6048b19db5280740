-- ===== src/Bits/Masks.antt =====
-- The digits of a shifted word, of a mask of one digit, of a low mask, and of a complement.
use native.Mathlib.Nat.{pow-suc, pow-succ', div-div-eq-div-mul, one-le-pow}
use ycetl.Base.{
  ℕ, zero, suc, ◌+◌, ◌-◌, ◌/◌, ◌^◌, ◌<◌, ◌≡◌, refl, ◌∙◌, ap, sym, false, not, arith, ◌==◌, ltb,
}
use ycetl.Bits.{testbit}

-- `(a >> k)`
pub testbit-shift : (k j a : ℕ) → testbit (a / 2 ^ k) j ≡ testbit a (k + j)
testbit-shift zero j a =
    let e : a / 1 ≡ a = omega arith in let z : 0 + j ≡ j = omega arith in rw (e, z) refl
testbit-shift (suc k) j a =
    let e : a / 2 ^ suc k ≡ a / 2 / 2 ^ k =
      ap (λ (m : ℕ). a / m) (pow-succ' 2 k) ∙ sym (div-div-eq-div-mul a 2 (2 ^ k)) in
    let next : suc k + j ≡ suc (k + j) = omega arith in rw (e, next) (testbit-shift k j (a / 2))

pub testbit-zero : (j : ℕ) → testbit 0 j ≡ false
testbit-zero zero = refl
testbit-zero (suc j) = testbit-zero j

-- `1 << k`
pub testbit-bit : (k j : ℕ) → testbit (2 ^ k) j ≡ (k == j)
testbit-bit zero zero = refl
testbit-bit zero (suc j) = testbit-zero j ∙ ground arith
testbit-bit (suc k) zero = ground (arith, pow-suc 2 k)
testbit-bit (suc k) (suc j) =
    let e : 2 ^ suc k / 2 ≡ 2 ^ k = omega (arith, pow-suc 2 k) in
    rw e (ground (arith, testbit-bit k j))

-- Past its width a word has no digits.
pub testbit-past : (j a : ℕ) → a < 2 ^ j → testbit a j ≡ false
testbit-past zero a h = ground arith
testbit-past (suc j) a h = testbit-past j (a / 2) (omega (arith, pow-suc 2 j))

-- `(1 << n) - 1`
pub testbit-low : (n j : ℕ) → testbit (2 ^ n - 1) j ≡ ltb j n
testbit-low zero j = testbit-zero j ∙ ground arith
testbit-low (suc n) zero = ground (arith, pow-suc 2 n, one-le-pow n 2)
testbit-low (suc n) (suc j) =
    let e : (2 ^ suc n - 1) / 2 ≡ 2 ^ n - 1 = omega (arith, pow-suc 2 n) in
    rw e (ground (arith, testbit-low n j))

-- `~a` in a word of `w` digits
pub testbit-complement :
    (w j a : ℕ) → j < w → a < 2 ^ w → testbit (2 ^ w - 1 - a) j ≡ not (testbit a j)
testbit-complement zero j a h k = absurd (omega arith)
testbit-complement (suc w) zero a h k = ground (arith, pow-suc 2 w)
testbit-complement (suc w) (suc j) a h k =
    let e : (2 ^ suc w - 1 - a) / 2 ≡ 2 ^ w - 1 - a / 2 = omega (arith, pow-suc 2 w) in
    rw e (testbit-complement w j (a / 2) (omega arith) (omega (arith, pow-suc 2 w)))
