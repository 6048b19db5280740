-- ===== src/Bits/Digits.antt =====
-- `&`, `|` and `^` work digit by digit.
use Prim.Native.Nat.{
  min, max, digits, bitwise, bit_and, bit_or, bit_xor, bit_and-bitwise, bit_or-bitwise,
  bit_xor-bitwise, differ,
}
use native.Mathlib.Nat.{pow-suc}
use ycetl.Base.{
  ℕ, zero, suc, ◌+◌, ◌*◌, ◌/◌, ◌%◌, ◌^◌, ◌≤◌, ◌<◌, ◌≡◌, refl, Bool, true, false, not, ◌&&◌, ◌||◌,
  arith, ◌==◌,
}
use ycetl.Bits.{testbit}

module _ (z : ℕ → ℕ) (f : ℕ → ℕ → ℕ) where
  -- The count of digits to go does not matter once it covers the first number.
  enough : (n m a b : ℕ) → a ≤ n → a ≤ m → digits z f n a b ≡ digits z f m a b
  enough zero zero a b p q = refl
  enough zero (suc m) zero b p q = refl
  enough zero (suc m) (suc a) b p q = absurd (omega arith)
  enough (suc n) zero zero b p q = refl
  enough (suc n) zero (suc a) b p q = absurd (omega arith)
  enough (suc n) (suc m) zero b p q = refl
  enough (suc n) (suc m) (suc a) b p q =
      omega (arith, enough n m (suc a / 2) (b / 2) (omega arith) (omega arith))

  bitwise-step :
      (a b : ℕ)
      → bitwise z f (suc a) b ≡ bitwise z f (suc a / 2) (b / 2) * 2 + f (suc a % 2) (b % 2)
  bitwise-step a b =
      omega (arith, enough a (suc a / 2) (suc a / 2) (b / 2) (omega arith) (omega arith))

pub bit_and-step : (a b : ℕ) → bit_and a b ≡ bit_and (a / 2) (b / 2) * 2 + min (a % 2) (b % 2)
bit_and-step zero b = simp bit_and-bitwise (omega arith)
bit_and-step (suc a) b = simp bit_and-bitwise (bitwise-step (λ y. 0) min a b)

pub bit_or-step : (a b : ℕ) → bit_or a b ≡ bit_or (a / 2) (b / 2) * 2 + max (a % 2) (b % 2)
bit_or-step zero b = simp bit_or-bitwise (omega arith)
bit_or-step (suc a) b = simp bit_or-bitwise (bitwise-step (λ y. y) max a b)

differ-zero : (b : ℕ) → differ 0 b ≡ b
differ-zero b = refl

pub bit_xor-step : (a b : ℕ) → bit_xor a b ≡ bit_xor (a / 2) (b / 2) * 2 + differ (a % 2) (b % 2)
bit_xor-step zero b = simp bit_xor-bitwise (omega arith)
bit_xor-step (suc a) b = simp bit_xor-bitwise (bitwise-step (λ y. y) differ a b)

-- An operation on words that is `f` on each digit is `g` on each bit, and keeps the width.
module _ (op f : ℕ → ℕ → ℕ) (g : Bool → Bool → Bool)
    (step : (a b : ℕ) → op a b ≡ op (a / 2) (b / 2) * 2 + f (a % 2) (b % 2))
    (small : (x y : ℕ) → x < 2 → y < 2 → f x y < 2)
    (bit : (x y : ℕ) → x < 2 → y < 2 → (f x y == 1) ≡ g (x == 1) (y == 1)) where
  digitwise : (j a b : ℕ) → testbit (op a b) j ≡ g (testbit a j) (testbit b j)
  digitwise zero a b =
      let low : op a b % 2 ≡ f (a % 2) (b % 2) =
        omega (arith, step a b, small (a % 2) (b % 2) (omega arith) (omega arith)) in
      rw low (bit (a % 2) (b % 2) (omega arith) (omega arith))
  digitwise (suc j) a b =
      let high : op a b / 2 ≡ op (a / 2) (b / 2) =
        omega (arith, step a b, small (a % 2) (b % 2) (omega arith) (omega arith)) in
      rw high (digitwise j (a / 2) (b / 2))

  bounded : op 0 0 ≡ 0 → (w a b : ℕ) → a < 2 ^ w → b < 2 ^ w → op a b < 2 ^ w
  bounded nothing zero a b h k =
      let a0 : a ≡ 0 = omega arith in
      let b0 : b ≡ 0 = omega arith in rw (a0, b0, nothing) (omega arith)
  bounded nothing (suc w) a b h k = omega (
    arith,
    pow-suc 2 w,
    step a b,
    small (a % 2) (b % 2) (omega arith) (omega arith),
    bounded nothing w (a / 2) (b / 2) (omega (arith, pow-suc 2 w)) (omega (arith, pow-suc 2 w)),
  )

and-small : (x y : ℕ) → x < 2 → y < 2 → min x y < 2
and-small x y h k = omega arith

and-bit : (x y : ℕ) → x < 2 → y < 2 → (min x y == 1) ≡ ((x == 1) && (y == 1))
and-bit x y h k = ground arith

or-small : (x y : ℕ) → x < 2 → y < 2 → max x y < 2
or-small x y h k = omega arith

or-bit : (x y : ℕ) → x < 2 → y < 2 → (max x y == 1) ≡ ((x == 1) || (y == 1))
or-bit x y h k = ground arith

abbrev pub xor : Bool → Bool → Bool
xor true b = not b
xor false b = b

xor-small : (x y : ℕ) → x < 2 → y < 2 → differ x y < 2
xor-small zero y h k = k
xor-small (suc zero) zero h k = h
xor-small (suc zero) (suc zero) h k = omega arith
xor-small (suc zero) (suc (suc y)) h k = absurd (omega arith)
xor-small (suc (suc x)) y h k = absurd (omega arith)

xor-bit : (x y : ℕ) → x < 2 → y < 2 → (differ x y == 1) ≡ xor (x == 1) (y == 1)
xor-bit zero y h k = refl
xor-bit (suc zero) zero h k = refl
xor-bit (suc zero) (suc zero) h k = refl
xor-bit (suc zero) (suc (suc y)) h k = absurd (omega arith)
xor-bit (suc (suc x)) y h k = absurd (omega arith)

pub testbit-bit_and : (j a b : ℕ) → testbit (bit_and a b) j ≡ (testbit a j && testbit b j)
testbit-bit_and j a b = digitwise bit_and min (λ x y. x && y) bit_and-step and-small and-bit j a b

pub testbit-bit_or : (j a b : ℕ) → testbit (bit_or a b) j ≡ (testbit a j || testbit b j)
testbit-bit_or j a b = digitwise bit_or max (λ x y. x || y) bit_or-step or-small or-bit j a b

pub testbit-bit_xor : (j a b : ℕ) → testbit (bit_xor a b) j ≡ xor (testbit a j) (testbit b j)
testbit-bit_xor j a b = digitwise bit_xor differ xor bit_xor-step xor-small xor-bit j a b

pub bit_and-lt : (w a b : ℕ) → a < 2 ^ w → b < 2 ^ w → bit_and a b < 2 ^ w
bit_and-lt = bounded bit_and min (λ x y. x && y) bit_and-step and-small and-bit refl

pub bit_or-lt : (w a b : ℕ) → a < 2 ^ w → b < 2 ^ w → bit_or a b < 2 ^ w
bit_or-lt = bounded bit_or max (λ x y. x || y) bit_or-step or-small or-bit refl

pub bit_xor-lt : (w a b : ℕ) → a < 2 ^ w → b < 2 ^ w → bit_xor a b < 2 ^ w
bit_xor-lt = bounded bit_xor differ xor bit_xor-step xor-small xor-bit refl
