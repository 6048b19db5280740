-- ===== src/Hash/Steps.antt =====
-- Each step of the hashes of include/ycetl/hash.hpp maps the 64-bit words one to one.
use Prim.Native.Nat.{bit_xor}
use native.Mathlib.Nat.{pow-suc, pow-le-pow_right, div-le_self}
use ycetl.Base.{
  ℕ, zero, suc, ◌+◌, ◌/◌, ◌%◌, ◌^◌, ◌≤◌, ◌<◌, ◌≡◌, refl, ◌∙◌, sym, ap, Bool, true, false, arith,
}
use ycetl.Bits.{testbit}
use ycetl.Bits.Digits.{xor, testbit-bit_xor, bit_xor-lt}
use ycetl.Bits.Masks.{testbit-shift, testbit-past}
use ycetl.Hash.{xor_shift, mix_first, mix_third, mix_fifth, mix_last}

-- A function on the words that gives words, and different ones for different ones.
pub record IsOneToOne (f : ℕ → ℕ) : Type 0 where
  pub bound : (x : ℕ) → x < 2 ^ 64 → f x < 2 ^ 64
  pub same : (x y : ℕ) → x < 2 ^ 64 → y < 2 ^ 64 → f x ≡ f y → x ≡ y

pub compose-IsOneToOne : (g f : ℕ → ℕ) → IsOneToOne g → IsOneToOne f → IsOneToOne (λ x. g (f x))
compose-IsOneToOne g f k h = record {
  bound = λ x lt. k.bound (f x) (h.bound x lt);
  same = λ x y lt lt' e. h.same x y lt lt' (k.same (f x) (f y) (h.bound x lt) (h.bound y lt') e);
}

-- Words with the same digits are the same.
pub ext_testbit :
    (w a b : ℕ) → a < 2 ^ w → b < 2 ^ w → ((j : ℕ) → testbit a j ≡ testbit b j) → a ≡ b
ext_testbit zero a b lt lt' same = omega arith
ext_testbit (suc w) a b lt lt' same =
    let rest =
      ext_testbit w (a / 2) (b / 2) (omega (arith, pow-suc 2 w)) (omega (arith, pow-suc 2 w))
        (λ j. same (suc j)) in
    let low : a % 2 ≡ b % 2 = ground (arith, same 0) in omega arith

pub xor_cancel : (a b c : Bool) → xor a c ≡ xor b c → a ≡ b
xor_cancel true true c e = refl
xor_cancel false false c e = refl
xor_cancel true false true e = absurd (cc e)
xor_cancel true false false e = absurd (cc e)
xor_cancel false true true e = absurd (cc e)
xor_cancel false true false e = absurd (cc e)

-- From the top digit down, `x ^ (x >> k)` gives each digit of `x`.
digits-xor_shift :
    (k x y : ℕ)
    → x < 2 ^ 64
    → y < 2 ^ 64
    → 0 < k
    → xor_shift k x ≡ xor_shift k y
    → (n j : ℕ) → 64 ≤ j + n
    → testbit x j ≡ testbit y j
unfolding xor_shift
digits-xor_shift k x y lt lt' pos e zero j le =
    let past : 2 ^ 64 ≤ 2 ^ j =
      pow-le-pow_right {n = 2} (omega arith) {i = 64} {j = j} (omega arith) in
    testbit-past j x (omega arith) ∙ sym (testbit-past j y (omega arith))
digits-xor_shift k x y lt lt' pos e (suc n) j le =
    let above = digits-xor_shift k x y lt lt' pos e n (k + j) (omega arith) in
    let digit : (w : ℕ)
        → testbit (bit_xor w (w / 2 ^ k)) j ≡ xor (testbit w j) (testbit w (k + j)) =
      λ w. testbit-bit_xor j w (w / 2 ^ k) ∙ ap (xor (testbit w j)) (testbit-shift k j w) in
    xor_cancel (testbit x j) (testbit y j) (testbit x (k + j))
      (sym (digit x) ∙ ap (λ w. testbit w j) e ∙ digit y ∙ ap (xor (testbit y j)) (sym above))

pub xor_shift-IsOneToOne : (k : ℕ) → 0 < k → IsOneToOne (xor_shift k)
unfolding xor_shift
xor_shift-IsOneToOne k pos = record {
  bound = λ x lt. bit_xor-lt 64 x (x / 2 ^ k) lt (omega (arith, div-le_self x (2 ^ k)));
  same = λ x y lt lt' e.
      ext_testbit 64 x y lt lt' (λ j. digits-xor_shift k x y lt lt' pos e 64 j (omega arith));
}

pub mix_last-IsOneToOne : IsOneToOne mix_last
unfolding mix_last
mix_last-IsOneToOne = record { bound = λ x lt. omega arith; same = λ x y lt lt' e. omega arith }

pub mix_first-IsOneToOne : IsOneToOne mix_first
unfolding mix_first
mix_first-IsOneToOne = record { bound = λ x lt. omega arith; same = λ x y lt lt' e. omega arith }

pub mix_third-IsOneToOne : IsOneToOne mix_third
unfolding mix_third
mix_third-IsOneToOne = record { bound = λ x lt. omega arith; same = λ x y lt lt' e. omega arith }

pub mix_fifth-IsOneToOne : IsOneToOne mix_fifth
unfolding mix_fifth
mix_fifth-IsOneToOne = record { bound = λ x lt. omega arith; same = λ x y lt lt' e. omega arith }
