-- ===== src/Flat/Runs.antt =====
-- Sorted storage with repeated keys: the elements under a key, in their order, and what the cuts of
-- the two binary searches say about them.
use ycetl.Base.{
  ℕ, suc, ◌+◌, ◌-◌, ◌<◌, ◌≡◌, refl, ◌∙◌, sym, ap, true, false, not, List, [], ◌∷◌, ◌++◌, some,
  arith, if◌then◌else◌, get_elem?, take, drop,
}
use native.Mathlib.Decide.{dec_lt}
use ycetl.Order.{Order, less, equivalent, equivalent_trans, equivalent_symm}
use ycetl.Sequence.{get_elem?-take, get_elem?-drop}
use ycetl.Flat.Search.{IsPartitioned, IsCut}

module _ {E : Type 0} where
  -- The run between the two cuts.
  abbrev pub run : ℕ → ℕ → List E → List E
  run lo hi xs = take (hi - lo) (drop lo xs)

module _ {E K : Type 0} ⦃o : Order K⦄ (key : E → K) where
  -- The elements with a key equivalent to `q`, in their order.
  unfoldable pub matching : K → List E → List E
  matching q [] = []
  matching q (e ∷ xs) = let rest = matching q xs in if equivalent (key e) q then e ∷ rest else rest

  -- No key comes before an earlier one.
  abbrev pub IsOrdered : List E → Type 0
  IsOrdered xs =
      (i j : ℕ) (e f : E)
      → i < j
      → get_elem? xs i ≡ some e
      → get_elem? xs j ≡ some f
      → less (key f) (key e) ≡ false

  abbrev pub IsLower : K → List E → ℕ → Type 0
  IsLower k xs n = IsCut (λ e. less (key e) k) xs n

  abbrev pub IsUpper : K → List E → ℕ → Type 0
  IsUpper k xs n = IsCut (λ e. not (less k (key e))) xs n

  pub IsOrdered-IsPartitioned :
      (k : K) (xs : List E) → IsOrdered xs → IsPartitioned (λ e. less (key e) k) xs
  IsOrdered-IsPartitioned k xs ordered i j x y le at at' h = elim (dec_lt i j) [
    | yes lt ↦ ground (arith, ordered i j x y lt at at', o.weak (key y) k (key x))
    | no ge ↦ let same : i ≡ j = omega arith in ground arith
  ]

  pub IsOrdered-upper :
      (k : K) (xs : List E) → IsOrdered xs → IsPartitioned (λ e. not (less k (key e))) xs
  IsOrdered-upper k xs ordered i j x y le at at' h = elim (dec_lt i j) [
    | yes lt ↦ ground (arith, ordered i j x y lt at at', o.weak k (key x) (key y))
    | no ge ↦ let same : i ≡ j = omega arith in ground arith
  ]

  pub matching-append :
      (q : K) (xs ys : List E) → matching q (xs ++ ys) ≡ matching q xs ++ matching q ys
  unfolding matching
  matching-append q [] ys = refl
  matching-append q (x ∷ xs) ys = ground (arith, matching-append q xs ys)

  -- Equivalent keys have the same elements.
  pub matching_congr :
      (k q : K) (xs : List E) → equivalent k q ≡ true → matching k xs ≡ matching q xs
  unfolding matching
  matching_congr k q [] h = refl
  matching_congr k q (x ∷ xs) h =
      let same : equivalent (key x) k ≡ equivalent (key x) q =
        equivalent_symm (key x) k
        ∙ sym (equivalent_trans k q (key x) h)
        ∙ equivalent_symm q (key x) in
      rw (same, matching_congr k q xs h)

  pub matching-none :
      (q : K) (xs : List E)
      → ((i : ℕ) (e : E) → get_elem? xs i ≡ some e → equivalent (key e) q ≡ false)
      → matching q xs ≡ []
  unfolding matching
  matching-none q [] h = refl
  matching-none q (x ∷ xs) h = rw (h 0 x refl) (matching-none q xs (λ i e at. h (suc i) e at))

  pub matching-all :
      (q : K) (xs : List E)
      → ((i : ℕ) (e : E) → get_elem? xs i ≡ some e → equivalent (key e) q ≡ true)
      → matching q xs ≡ xs
  unfolding matching
  matching-all q [] h = refl
  matching-all q (x ∷ xs) h =
      rw (h 0 x refl) (ap (λ ys. x ∷ ys) (matching-all q xs (λ i e at. h (suc i) e at)))

  -- Nothing under `k` stands before its lower cut or from its upper cut on.
  pub matching-take : (k : K) (xs : List E) (n : ℕ) → IsLower k xs n → matching k (take n xs) ≡ []
  matching-take k xs n cut =
      matching-none k (take n xs) (λ i e at. ground (arith, get_elem?-take n xs i, cut.below i e))

  pub matching-drop : (k : K) (xs : List E) (n : ℕ) → IsUpper k xs n → matching k (drop n xs) ≡ []
  matching-drop k xs n cut =
      matching-none k (drop n xs)
        (λ i e at. ground (arith, get_elem?-drop n xs i, cut.above (n + i) e))

  pub run-equivalent :
      (k : K) (xs : List E) (lo hi : ℕ)
      → IsLower k xs lo
      → IsUpper k xs hi
      → (i : ℕ) (e : E) → get_elem? (run lo hi xs) i ≡ some e
      → equivalent (key e) k ≡ true
  run-equivalent k xs lo hi low up i e at = ground (
    arith,
    get_elem?-take (hi - lo) (drop lo xs) i,
    get_elem?-drop lo xs i,
    low.above (lo + i) e,
    up.below (lo + i) e,
  )
