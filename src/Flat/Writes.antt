-- ===== src/Flat/Writes.antt =====
-- What the writes of the sorted containers do to the order and to every lookup.
use ycetl.Base.{
  ℕ, ◌+◌, ◌-◌, ◌<◌, ◌≡◌, ◌∙◌, sym, inl, inr, true, List, none, some, arith, if◌then◌else◌, length,
  get_elem?, get_elem?-set, set, lt_of_get_elem?, Bool-cases,
}
use native.Mathlib.Decide.{dec_lt}
use ycetl.Order.{Order, equivalent, equivalent_trans, less_congr_left, less_congr_right}
use ycetl.Sequence.{insert_at, get_elem?-insert_at, remove_range, get_elem?-remove_range}
use ycetl.Flat.Lookup.{
  lookup, IsSorted, Absent, lookup-none, lookup_of_get, lookup_transfer, IsPlace,
}

module _ {E K : Type 0} ⦃o : Order K⦄ (key : E → K) (xs : List E) (sorted : IsSorted key xs)
    (n : ℕ) where
  -- A new key at its place keeps the order.
  pub insert_at-IsSorted :
      (e : E) → IsPlace key (key e) xs n → Absent key (key e) xs → IsSorted key (insert_at n e xs)
  insert_at-IsSorted e place absent i j x y lt at at' =
      let a = sym (get_elem?-insert_at n e xs i place.bound) ∙ at in
      let b = sym (get_elem?-insert_at n e xs j place.bound) ∙ at' in
      ground (
        arith,
        a,
        b,
        sorted i j x y,
        sorted i (j - 1) x y,
        sorted (i - 1) (j - 1) x y,
        place.below i x,
        place.above (j - 1) y,
        absent (j - 1) y,
      )

  -- A new key is found under itself, and every other lookup is what it was.
  pub lookup-insert_at :
      (e : E) (q : K)
      → IsPlace key (key e) xs n
      → Absent key (key e) xs
      → lookup key q (insert_at n e xs) ≡ (if equivalent (key e) q then some e else lookup key q xs)
  lookup-insert_at e q place absent =
      let kept = insert_at-IsSorted e place absent in
      let reads = λ (j : ℕ). get_elem?-insert_at n e xs j place.bound in
      elim (Bool-cases (equivalent (key e) q)) [
        | inl t ↦ rw t (lookup_of_get key q (insert_at n e xs) n e kept (reads n ∙ ground arith) t)
        | inr t ↦ rw t (
            lookup_transfer key q xs (insert_at n e xs) kept
              (λ i f at eq. elim (dec_lt i n) [
                | yes lt ↦ (i, reads i ∙ ground arith)
                | no ge ↦
                    let same : i + 1 - 1 ≡ i = omega arith in
                    (i + 1, reads (i + 1) ∙ rw same (ground arith))
              ])
              (λ j f at eq. elim (dec_lt j n) [
                | yes lt ↦ (j, ground (arith, reads j))
                | no ge ↦ (j - 1, ground (arith, reads j))
              ]))
      ]

  -- Without an element the order is kept.
  pub remove-IsSorted : n < length xs → IsSorted key (remove_range n (n + 1) xs)
  remove-IsSorted lt i j x y below at at' =
      let one : n + 1 - n ≡ 1 = omega arith in
      let reads = λ (k : ℕ). get_elem?-remove_range n (n + 1) xs k (omega arith) (omega arith) in
      ground (
        arith,
        reads i,
        reads j,
        one,
        sorted i j x y,
        sorted i (j + 1) x y,
        sorted (i + 1) (j + 1) x y,
      )

  -- Without its element a key is not found, and every other lookup is what it was.
  pub lookup-remove :
      (e : E) (k q : K)
      → get_elem? xs n ≡ some e
      → equivalent (key e) k ≡ true
      → lookup key q (remove_range n (n + 1) xs)
        ≡ (if equivalent k q then none else lookup key q xs)
  lookup-remove e k q at eq =
      let lt = lt_of_get_elem? xs n at in
      let one : n + 1 - n ≡ 1 = omega arith in
      let kept = remove-IsSorted lt in
      let reads =
        λ (j : ℕ). rw one at (get_elem?-remove_range n (n + 1) xs j (omega arith) (omega arith)) in
      elim (Bool-cases (equivalent k q)) [
        | inl t ↦
            let same : equivalent (key e) q ≡ true = sym (equivalent_trans (key e) k q eq) ∙ t in
            rw t (
              lookup-none key q (remove_range n (n + 1) xs) (λ j f at'. ground (
                arith,
                reads j,
                sorted j n f e,
                sorted n (j + 1) e f,
                less_congr_left (key e) q (key f) same,
                less_congr_right (key e) q (key f) same,
              )))
        | inr t ↦ rw t (
            lookup_transfer key q xs (remove_range n (n + 1) xs) kept
              (λ i f at' eq'. elim (dec_lt i n) [
                | yes below ↦ (i, reads i ∙ ground arith)
                | no ge ↦ elim (dec_lt n i) [
                  | no le ↦
                      let here : i ≡ n = omega arith in
                      let f_is_e : some f ≡ some e = sym at' ∙ rw here at in
                      absurd (ground (arith, equivalent_trans (key e) k q eq))
                  | yes gt ↦
                      let next : i - 1 + 1 ≡ i = omega arith in
                      (i - 1, reads (i - 1) ∙ rw next (ground arith))
                ]
              ])
              (λ j f at' eq'. elim (dec_lt j n) [
                | yes below ↦ (j, ground (arith, reads j))
                | no ge ↦ (j + 1, ground (arith, reads j))
              ]))
      ]

  -- A new value under the same key is found under it, and every other lookup is what it was.
  pub lookup-set :
      (e e' : E) (q : K)
      → get_elem? xs n ≡ some e
      → key e' ≡ key e
      → IsSorted key (set xs n e')
        × (lookup key q (set xs n e') ≡ (if equivalent (key e) q then some e' else lookup key q xs))
  lookup-set e e' q at same =
      let lt = lt_of_get_elem? xs n at in
      let reads = λ (j : ℕ). get_elem?-set xs n j e' in
      let kept : IsSorted key (set xs n e') = λ i j x y below at₁ at₂.
        ground (arith, reads i, reads j, sorted i j x y, sorted i j e y, sorted i j x e) in
      (
        kept,
        elim (Bool-cases (equivalent (key e) q)) [
          | inl t ↦
              rw t
                (lookup_of_get key q (set xs n e') n e' kept (ground (arith, reads n)) (rw same t))
          | inr t ↦ rw t (
              lookup_transfer key q xs (set xs n e') kept
                (λ i f at₁ eq. (i, ground (arith, reads i)))
                (λ j f at₁ eq. (j, ground (arith, reads j))))
        ],
      )
