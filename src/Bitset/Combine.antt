-- ===== src/Bitset/Combine.antt =====
-- `&=`, `|=`, `^=` and `==` of include/ycetl/bitset.hpp.
use Prim.Native.Nat.{bit_and, bit_or, bit_xor}
use native.Mathlib.Decide.{dec_lt}
use ycetl.Base.{
  ℕ, ◌↔◌, zero, suc, ◌/◌, ◌%◌, ◌^◌, ◌≤◌, ◌<◌, ◌≡◌, refl, ◌∙◌, ap, sym, Bool, true, false, ◌&&◌,
  ◌||◌, [], ◌∷◌, none, some, arith, ltb, Returns, length, get_elem?, get_elem?-some, get_elem?-none,
}
use ycetl.Bits.{testbit}
use ycetl.Bits.Digits.{
  testbit-bit_and, testbit-bit_or, testbit-bit_xor, xor, bit_and-lt, bit_or-lt, bit_xor-lt,
}
use ycetl.Bitset.{Words, combine, and_assign, or_assign, xor_assign, equal}
use ycetl.Bitset.Access.{member, IsBitset}
use ycetl.Bitset.Whole.{IsBitset-IsStorage, clear_tail-member}

length-combine :
    (op : ℕ → ℕ → ℕ) (ws vs : Words) → length vs ≡ length ws → length (combine op ws vs) ≡ length ws
unfolding combine
length-combine op [] vs h = refl
length-combine op (w ∷ ws) [] h = refl
length-combine op (w ∷ ws) (v ∷ vs) h = ap suc (length-combine op ws vs (omega arith))

get_elem?-combine :
    (op : ℕ → ℕ → ℕ) (ws vs : Words) (k w v : ℕ)
    → get_elem? ws k ≡ some w
    → get_elem? vs k ≡ some v
    → get_elem? (combine op ws vs) k ≡ some (op w v)
unfolding combine
get_elem?-combine op [] vs k w v a b = absurd (cc a)
get_elem?-combine op (x ∷ ws) [] k w v a b = absurd (cc b)
get_elem?-combine op (x ∷ ws) (y ∷ vs) zero w v a b =
    let xw : x ≡ w = cc a in let yv : y ≡ v = cc b in rw (xw, yv) refl
get_elem?-combine op (x ∷ ws) (y ∷ vs) (suc k) w v a b = get_elem?-combine op ws vs k w v a b

-- The loop over the words does `g` on each bit.
module _ (op : ℕ → ℕ → ℕ) (g : Bool → Bool → Bool) (nothing : g false false ≡ false)
    (small : (a b : ℕ) → a < 2 ^ 64 → b < 2 ^ 64 → op a b < 2 ^ 64)
    (digit : (j a b : ℕ) → testbit (op a b) j ≡ g (testbit a j) (testbit b j)) (n : ℕ)
    (ws vs : Words) (b : IsBitset n ws) (c : IsBitset n vs) where
  combine-member : (j : ℕ) → member j (combine op ws vs) ≡ g (member j ws) (member j vs)
  combine-member j = elim (dec_lt (j / 64) (length ws)) [
    | yes lt ↦
        let (w, at) = get_elem?-some ws (j / 64) lt in
        let (v, at') = get_elem?-some vs (j / 64) (omega (arith, b.size, c.size)) in
        rw (get_elem?-combine op ws vs (j / 64) w v at at', at, at') (digit (j % 64) w v)
    | no ge ↦
        let past : get_elem? ws (j / 64) ≡ none = get_elem?-none ws (j / 64) (omega arith) in
        let past' : get_elem? vs (j / 64) ≡ none =
          get_elem?-none vs (j / 64) (omega (arith, b.size, c.size)) in
        let past″ : get_elem? (combine op ws vs) (j / 64) ≡ none =
          get_elem?-none (combine op ws vs) (j / 64)
            (omega (arith, length-combine op ws vs (c.size ∙ sym b.size))) in
        rw (past, past', past″) (sym nothing)
  ]

  combine-IsBitset : IsBitset n (combine op ws vs)
  combine-IsBitset = record {
    size = length-combine op ws vs (c.size ∙ sym b.size) ∙ b.size;
    width = wide;
    clean = λ j le. combine-member j ∙ rw (b.clean j le, c.clean j le) nothing;
  }
    where
      wide : (k u : ℕ) → get_elem? (combine op ws vs) k ≡ some u → u < 2 ^ 64
      wide k u e = elim (dec_lt k (length ws)) [
        | yes lt ↦
            let (w, at) = get_elem?-some ws k lt in
            let (v, at') = get_elem?-some vs k (omega (arith, b.size, c.size)) in
            let same : u ≡ op w v = cc (e, get_elem?-combine op ws vs k w v at at') in
            rw same (small w v (b.width k w at) (c.width k v at'))
        | no ge ↦
            let past : get_elem? (combine op ws vs) k ≡ none =
              get_elem?-none (combine op ws vs) k
                (omega (arith, length-combine op ws vs (c.size ∙ sym b.size))) in
            absurd (cc)
      ]

-- On two bitsets of one size that is not 0, `&=`, `|=` and `^=` do not fault, and do the
-- conjunction, the disjunction and the difference of each pair of bits.
pub assign-member :
    (n : ℕ) (ws vs : Words)
    → 0 < n
    → IsBitset n ws
    → IsBitset n vs
    → (IsBitset n (and_assign ws vs)
        × ((j : ℕ) → member j (and_assign ws vs) ≡ (member j ws && member j vs)))
      × (IsBitset n (or_assign ws vs)
          × ((j : ℕ) → member j (or_assign ws vs) ≡ (member j ws || member j vs)))
      × Returns
          (xor_assign n ws vs)
          (λ ys. IsBitset n ys × ((j : ℕ) → member j ys ≡ xor (member j ws) (member j vs)))
unfolding and_assign or_assign xor_assign
assign-member n ws vs pos b c =
    let both =
      combine-member bit_and (λ x y. x && y) refl (bit_and-lt 64) testbit-bit_and n ws vs b c in
    let each =
      combine-member bit_or (λ x y. x || y) refl (bit_or-lt 64) testbit-bit_or n ws vs b c in
    let apart = combine-member bit_xor xor refl (bit_xor-lt 64) testbit-bit_xor n ws vs b c in
    let kept = combine-IsBitset bit_xor xor refl (bit_xor-lt 64) testbit-bit_xor n ws vs b c in
    let (ys, run, (clean, reads)) =
      clear_tail-member n (combine bit_xor ws vs) pos
        (IsBitset-IsStorage n (combine bit_xor ws vs) kept) in
    (
      (
        combine-IsBitset bit_and (λ x y. x && y) refl (bit_and-lt 64) testbit-bit_and n ws vs b c,
        both,
      ),
      (
        combine-IsBitset bit_or (λ x y. x || y) refl (bit_or-lt 64) testbit-bit_or n ws vs b c,
        each,
      ),
      (ys, run, (clean, λ j. reads j ∙ inside (kept.clean j) ∙ apart j)),
    )
  where
    inside : {j : ℕ} {b : Bool} → (n ≤ j → b ≡ false) → (b && ltb j n) ≡ b
    inside h = ground arith

-- On arrays of one size, `==` says whether the words are the same.
pub equal-eq : (ws vs : Words) → length ws ≡ length vs → (equal ws vs ≡ true) ↔ (ws ≡ vs)
unfolding equal
equal-eq [] [] len = (λ h. refl, λ h. refl)
equal-eq [] (v ∷ vs) len = absurd (omega arith)
equal-eq (w ∷ ws) [] len = absurd (omega arith)
equal-eq (w ∷ ws) (v ∷ vs) len =
    let (forth, back) = equal-eq ws vs (omega arith) in
    (
      λ h.
          let same : w ≡ v = ground arith in
          let rest : ws ≡ vs = forth (ground arith) in rw (same, rest) refl,
      λ h. ground (arith, back (cc h)),
    )
