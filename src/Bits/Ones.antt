-- ===== src/Bits/Ones.antt =====
-- The number of ones of a word, and the loop that clears them one by one.
use Prim.Native.Nat.{bit_and}
use native.Mathlib.Nat.{pow-suc}
use ycetl.Base.{
  ℕ, zero, suc, ◌+◌, ◌-◌, ◌*◌, ◌/◌, ◌%◌, ◌^◌, ◌≤◌, ◌<◌, ◌≡◌, refl, arith, ◌⊎◌, inl, inr,
}
use ycetl.Bits.Digits.{bit_and-step}

-- The number of ones among the lowest digits.
unfoldable pub ones : ℕ → ℕ → ℕ
ones zero a = 0
ones (suc n) a = a % 2 + ones n (a / 2)

bit_and_self : (n a : ℕ) → a ≤ n → bit_and a a ≡ a
bit_and_self n zero h = refl
bit_and_self zero (suc a) h = absurd (omega arith)
bit_and_self (suc n) (suc a) h =
    omega (arith, bit_and-step (suc a) (suc a), bit_and_self n (suc a / 2) (omega arith))

bit_and-zero : (n a : ℕ) → a ≤ n → bit_and a 0 ≡ 0
bit_and-zero n zero h = refl
bit_and-zero zero (suc a) h = absurd (omega arith)
bit_and-zero (suc n) (suc a) h =
    omega (arith, bit_and-step (suc a) 0, bit_and-zero n (suc a / 2) (omega arith))

-- `a & 1`
pub bit_and-one : (a : ℕ) → bit_and a 1 ≡ a % 2
bit_and-one a = omega (arith, bit_and-step a 1, bit_and-zero (a / 2) (a / 2) (omega arith))

even_or_odd : (a : ℕ) → (a % 2 ≡ 0) ⊎ (a % 2 ≡ 1)
even_or_odd a = ground arith

-- `w & (w - 1)` clears the lowest one, and no other.
pub ones-clear : (n a : ℕ) → 0 < a → a < 2 ^ n → ones n a ≡ suc (ones n (bit_and a (a - 1)))
unfolding ones
ones-clear zero a pos lt = absurd (omega arith)
ones-clear (suc n) a pos lt = elim (even_or_odd a) [
  | inr odd ↦
      let rest : bit_and (a / 2) ((a - 1) / 2) ≡ a / 2 =
        let half : (a - 1) / 2 ≡ a / 2 = omega arith in
        rw half (bit_and_self (a / 2) (a / 2) (omega arith)) in
      let whole : bit_and a (a - 1) ≡ a / 2 * 2 = omega (arith, bit_and-step a (a - 1)) in
      let low : a / 2 * 2 % 2 ≡ 0 = omega arith in
      let high : a / 2 * 2 / 2 ≡ a / 2 = omega arith in rw (whole, low, high) (omega arith)
  | inl even ↦
      let half : (a - 1) / 2 ≡ a / 2 - 1 = omega arith in
      let whole : bit_and a (a - 1) ≡ bit_and (a / 2) (a / 2 - 1) * 2 =
        rw (← half) (omega (arith, bit_and-step a (a - 1))) in
      let b : ℕ = bit_and (a / 2) (a / 2 - 1) in
      let low : b * 2 % 2 ≡ 0 = omega arith in
      let high : b * 2 / 2 ≡ b = omega arith in
      rw (whole, low, high)
        (omega (arith, ones-clear n (a / 2) (omega arith) (omega (arith, pow-suc 2 n))))
]

pub ones-pos : (n a : ℕ) → 0 < a → a < 2 ^ n → 0 < ones n a
ones-pos n a pos lt = omega (arith, ones-clear n a pos lt)

pub ones-le : (n a : ℕ) → ones n a ≤ n
unfolding ones
ones-le zero a = omega arith
ones-le (suc n) a = omega (arith, ones-le n (a / 2))

pub ones-zero : (n : ℕ) → ones n 0 ≡ 0
unfolding ones
ones-zero zero = refl
ones-zero (suc n) = omega (arith, ones-zero n)
