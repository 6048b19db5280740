-- ===== src/Hash/Laws.antt =====
-- The hashes of include/ycetl/hash.hpp tell words, and strings that differ in one byte, apart.
use Prim.Native.Nat.{bit_xor}
use ycetl.Base.{
  ℕ, ◌*◌, ◌%◌, ◌^◌, ◌<◌, ◌≡◌, refl, ◌∙◌, sym, ap, Bool, true, false, List, [], ◌∷◌, ◌++◌, arith,
}
use ycetl.Bits.{testbit}
use ycetl.Bits.Digits.{xor, testbit-bit_xor, bit_xor-lt}
use ycetl.Hash.{offset_basis, absorb, fnv1a_loop, fnv1a_hash, mix64}
use ycetl.Hash.Steps.{
  IsOneToOne, compose-IsOneToOne, ext_testbit, xor_cancel, xor_shift-IsOneToOne,
  mix_first-IsOneToOne, mix_third-IsOneToOne, mix_fifth-IsOneToOne, mix_last-IsOneToOne,
}

pub mix64-IsOneToOne : IsOneToOne mix64
unfolding mix64
mix64-IsOneToOne = compose-IsOneToOne _ _ mix_last-IsOneToOne (
    compose-IsOneToOne _ _ (xor_shift-IsOneToOne 28 (omega arith)) (
      compose-IsOneToOne _ _ mix_fifth-IsOneToOne (
        compose-IsOneToOne _ _ (xor_shift-IsOneToOne 14 (omega arith)) (
          compose-IsOneToOne _ _ mix_third-IsOneToOne (
            compose-IsOneToOne _ _ (xor_shift-IsOneToOne 24 (omega arith)) mix_first-IsOneToOne)))))

-- On two different 64-bit words, `mix64` returns different values, below 2 ^ 64.
pub mix64-apart :
    (x y : ℕ) → x < 2 ^ 64 → y < 2 ^ 64 → ¬ x ≡ y → mix64 x < 2 ^ 64 × ¬ mix64 x ≡ mix64 y
mix64-apart x y lt lt' ne =
    (mix64-IsOneToOne.bound x lt, λ e. ne (mix64-IsOneToOne.same x y lt lt' e))

-- Every byte is below 2 ^ 8.
pub data AreBytes : List ℕ → Type 0 where
  none : AreBytes []
  more : {b : ℕ} {str : List ℕ} → b < 2 ^ 8 → AreBytes str → AreBytes (b ∷ str)

-- Flipping the digits of a number by those of another is undone by itself.
xor_injective : (a b c : ℕ) → a < 2 ^ 64 → b < 2 ^ 64 → bit_xor a c ≡ bit_xor b c → a ≡ b
xor_injective a b c lt lt' e = ext_testbit 64 a b lt lt' λ j.
    xor_cancel (testbit a j) (testbit b j) (testbit c j)
      (sym (testbit-bit_xor j a c) ∙ ap (λ w. testbit w j) e ∙ testbit-bit_xor j b c)

xor_comm : (a b : Bool) → xor a b ≡ xor b a
xor_comm true true = refl
xor_comm true false = refl
xor_comm false true = refl
xor_comm false false = refl

bit_xor_comm : (a b : ℕ) → a < 2 ^ 64 → b < 2 ^ 64 → bit_xor a b ≡ bit_xor b a
bit_xor_comm a b lt lt' =
    ext_testbit 64 (bit_xor a b) (bit_xor b a) (bit_xor-lt 64 a b lt lt') (bit_xor-lt 64 b a lt' lt)
      λ j.
        testbit-bit_xor j a b ∙ xor_comm (testbit a j) (testbit b j) ∙ sym (testbit-bit_xor j b a)

-- The prime is odd: the product with it modulo 2 ^ 64 is one to one.
prime_injective :
    (a b : ℕ)
    → a < 2 ^ 64
    → b < 2 ^ 64
    → a * 1099511628211 % 2 ^ 64 ≡ b * 1099511628211 % 2 ^ 64
    → a ≡ b
prime_injective a b lt lt' e = omega arith

absorb-IsOneToOne : (byte : ℕ) → byte < 2 ^ 64 → IsOneToOne (λ h. absorb h byte)
unfolding absorb
absorb-IsOneToOne byte small = record {
  bound = λ h lt. omega arith;
  same = λ h h' lt lt' e. xor_injective h h' byte lt lt' (
      prime_injective (bit_xor h byte) (bit_xor h' byte) (bit_xor-lt 64 h byte lt small)
        (bit_xor-lt 64 h' byte lt' small) e);
}

word : {b : ℕ} → b < 2 ^ 8 → b < 2 ^ 64
word lt = omega arith

fnv1a_loop-IsOneToOne : (str : List ℕ) → AreBytes str → IsOneToOne (λ h. fnv1a_loop h str)
unfolding fnv1a_loop
fnv1a_loop-IsOneToOne [] none = record { bound = λ h lt. lt; same = λ h h' lt lt' e. e }
fnv1a_loop-IsOneToOne (b ∷ str) (more lt rest) =
    compose-IsOneToOne _ _ (fnv1a_loop-IsOneToOne str rest) (absorb-IsOneToOne b (word lt))

-- Where the byte changes, the word does.
absorb-byte : (h b c : ℕ) → h < 2 ^ 64 → b < 2 ^ 8 → c < 2 ^ 8 → absorb h b ≡ absorb h c → b ≡ c
unfolding absorb
absorb-byte h b c lt small small' e = xor_injective b c h (word small) (word small') (
    bit_xor_comm b h (word small) lt
    ∙ prime_injective (bit_xor h b) (bit_xor h c) (bit_xor-lt 64 h b lt (word small))
        (bit_xor-lt 64 h c lt (word small')) e
    ∙ bit_xor_comm h c lt (word small'))

fnv1a_loop-append :
    (h : ℕ) (str rest : List ℕ) → fnv1a_loop h (str ++ rest) ≡ fnv1a_loop (fnv1a_loop h str) rest
unfolding fnv1a_loop
fnv1a_loop-append h [] rest = refl
fnv1a_loop-append h (b ∷ str) rest = fnv1a_loop-append (absorb h b) str rest

-- On two strings of bytes that differ in one place, `fnv1a_hash` returns different values, the
-- first of them below 2 ^ 64.
pub fnv1a_hash-apart :
    (before after : List ℕ) (b c : ℕ)
    → AreBytes before
    → AreBytes after
    → b < 2 ^ 8
    → c < 2 ^ 8
    → ¬ b ≡ c
    → fnv1a_hash (before ++ b ∷ after) < 2 ^ 64
      × ¬ fnv1a_hash (before ++ b ∷ after) ≡ fnv1a_hash (before ++ c ∷ after)
unfolding fnv1a_hash fnv1a_loop
fnv1a_hash-apart before after b c bytes bytes' small small' ne =
    let h = fnv1a_loop offset_basis before in
    let in_word : h < 2 ^ 64 =
      (fnv1a_loop-IsOneToOne before bytes).bound offset_basis (omega arith) in
    let rest = fnv1a_loop-IsOneToOne after bytes' in
    let absorbed : (a : ℕ) → a < 2 ^ 8 → absorb h a < 2 ^ 64 =
      λ a lt. (absorb-IsOneToOne a (word lt)).bound h in_word in
    let split : (a : ℕ)
        → fnv1a_loop offset_basis (before ++ a ∷ after) ≡ fnv1a_loop (absorb h a) after =
      λ a. fnv1a_loop-append offset_basis before (a ∷ after) in
    (
      rw (split b) (rest.bound (absorb h b) (absorbed b small)),
      λ e. ne (
          absorb-byte h b c in_word small small' (
            rest.same (absorb h b) (absorb h c) (absorbed b small) (absorbed c small')
              (sym (split b) ∙ e ∙ split c))),
    )
