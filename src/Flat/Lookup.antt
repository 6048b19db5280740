-- ===== src/Flat/Lookup.antt =====
-- The reference definition of a lookup, a scan from the front, and what the writes of the sorted
-- containers do to it.
use ycetl.Base.{
  ℕ, suc, zero, ◌<◌, ◌≡◌, refl, ◌∙◌, sym, ◌⊎◌, inl, inr, true, false, List, [], ◌∷◌, Option, none,
  some, arith, if◌then◌else◌, get_elem?, lt_of_get_elem?, Bool-cases, get_elem?-some,
}
use native.Mathlib.Decide.{dec_lt}
use ycetl.Order.{Order, less, equivalent, equivalent_symm, equivalent_trans, less_congr_left}
use ycetl.Flat.Search.{IsPartitioned, IsCut}

module _ {E K : Type 0} ⦃o : Order K⦄ (key : E → K) where
  -- The first element with a key equivalent to `q`.
  unfoldable pub lookup : K → List E → Option E
  lookup q [] = none
  lookup q (e ∷ xs) = if equivalent (key e) q then some e else lookup q xs

  -- Equivalent keys are looked up alike.
  pub lookup_congr : (k q : K) (xs : List E) → equivalent k q ≡ true → lookup k xs ≡ lookup q xs
  unfolding lookup
  lookup_congr k q [] h = refl
  lookup_congr k q (x ∷ xs) h =
      let same : equivalent (key x) k ≡ equivalent (key x) q =
        equivalent_symm (key x) k
        ∙ sym (equivalent_trans k q (key x) h)
        ∙ equivalent_symm q (key x) in
      rw (same, lookup_congr k q xs h)

  -- Keys strictly increase.
  abbrev pub IsSorted : List E → Type 0
  IsSorted xs =
      (i j : ℕ) (e f : E)
      → i < j
      → get_elem? xs i ≡ some e
      → get_elem? xs j ≡ some f
      → less (key e) (key f) ≡ true

  abbrev pub Absent : K → List E → Type 0
  Absent q xs = (i : ℕ) (e : E) → get_elem? xs i ≡ some e → equivalent (key e) q ≡ false

  -- Either some element has the key, or none does.
  pub lookup_cases :
      (q : K) (xs : List E)
      → ((lookup q xs ≡ none) × Absent q xs)
        ⊎ ((i : ℕ) × (e : E) × (get_elem? xs i ≡ some e)
            × (equivalent (key e) q ≡ true)
            × (lookup q xs ≡ some e))
  unfolding lookup
  lookup_cases q [] = inl (refl, λ i e h. absurd (cc h))
  lookup_cases q (x ∷ xs) = elim (Bool-cases (equivalent (key x) q)) [
    | inl t ↦ inr (0, x, refl, t, rw t)
    | inr t ↦ elim (lookup_cases q xs) [
      | inl (e, absent) ↦ inl (rw t e, absent-cons t absent)
      | inr (i, e, at, eq, l) ↦ inr (suc i, e, at, eq, rw t l)
    ]
  ]
    where
      absent-cons : equivalent (key x) q ≡ false → Absent q xs → Absent q (x ∷ xs)
      absent-cons t absent zero e h = ground arith
      absent-cons t absent (suc i) e h = absent i e h

  pub lookup-none : (q : K) (xs : List E) → Absent q xs → lookup q xs ≡ none
  lookup-none q xs absent = elim (lookup_cases q xs) [
    | inl (e, _) ↦ e
    | inr (i, e, at, eq, _) ↦ absurd (cc (absent i e at))
  ]

  pub Absent-of_lookup : (q : K) (xs : List E) → lookup q xs ≡ none → Absent q xs
  Absent-of_lookup q xs h = elim (lookup_cases q xs) [
    | inl (_, absent) ↦ absent
    | inr (i, e, at, eq, l) ↦ absurd (cc)
  ]

  -- In sorted storage the element with a key is the one that the lookup finds.
  pub lookup_of_get :
      (q : K) (xs : List E) (i : ℕ) (e : E)
      → IsSorted xs
      → get_elem? xs i ≡ some e
      → equivalent (key e) q ≡ true
      → lookup q xs ≡ some e
  lookup_of_get q xs i e sorted at eq = elim (lookup_cases q xs) [
    | inl (_, absent) ↦ absurd (cc (absent i e at))
    | inr (j, f, at', eq', l) ↦ elim (dec_lt i j) [
      | yes lt ↦
          absurd (ground (arith, sorted i j e f lt at at', less_congr_left (key e) q (key f) eq))
      | no ge ↦ elim (dec_lt j i) [
        | yes gt ↦
            absurd (ground (arith, sorted j i f e gt at' at, less_congr_left (key f) q (key e) eq'))
        | no le ↦ let same : i ≡ j = omega arith in ground arith
      ]
    ]
  ]

  -- Sorted storage that has the same elements under a key has the same lookup of it.
  pub lookup_transfer :
      (q : K) (xs ys : List E)
      → IsSorted ys
      → ((i : ℕ) (e : E)
          → get_elem? xs i ≡ some e
          → equivalent (key e) q ≡ true
          → (j : ℕ) × (get_elem? ys j ≡ some e))
      → ((j : ℕ) (e : E)
          → get_elem? ys j ≡ some e
          → equivalent (key e) q ≡ true
          → (i : ℕ) × (get_elem? xs i ≡ some e))
      → lookup q ys ≡ lookup q xs
  lookup_transfer q xs ys sorted forth back = elim (lookup_cases q xs) [
    | inl (l, absent) ↦
        lookup-none q ys (λ j e at. elim (Bool-cases (equivalent (key e) q)) [
          | inr f ↦ f
          | inl t ↦ let (i, at') = back j e at t in absurd (cc (absent i e at'))
        ])
        ∙ sym l
    | inr (i, e, at, eq, l) ↦
        let (j, at') = forth i e at eq in lookup_of_get q ys j e sorted at' eq ∙ sym l
  ]

  pub IsSorted-IsPartitioned :
      (k : K) (xs : List E) → IsSorted xs → IsPartitioned (λ e. less (key e) k) xs
  IsSorted-IsPartitioned k xs sorted i j x y le at at' h = elim (dec_lt i j) [
    | yes lt ↦ o.transitive (key x) (key y) k (sorted i j x y lt at at') h
    | no ge ↦ let same : i ≡ j = omega arith in ground arith
  ]

  abbrev pub IsPlace : K → List E → ℕ → Type 0
  IsPlace k xs n = IsCut (λ e. less (key e) k) xs n

  module _ (k : K) (xs : List E) (n : ℕ) (sorted : IsSorted xs) (place : IsPlace k xs n) where
    -- The test after the binary search: a key at its place that does not come after `k` is `k`.
    pub hit-equivalent :
        (e : E) → get_elem? xs n ≡ some e → less k (key e) ≡ false → equivalent (key e) k ≡ true
    hit-equivalent e at h = ground (arith, place.above n e (omega arith) at)

    pub miss-Absent : ((e : E) → get_elem? xs n ≡ some e → less k (key e) ≡ true) → Absent k xs
    miss-Absent after i e at = elim (dec_lt i n) [
      | yes lt ↦ ground (arith, place.below i e lt at)
      | no ge ↦ elim (dec_lt n i) [
        | no le ↦ let same : i ≡ n = omega arith in ground (arith, after e (rw same at at))
        | yes gt ↦
            let (f, at') = get_elem?-some xs n (omega (arith, lt_of_get_elem? xs i at)) in
            ground (arith, o.transitive k (key f) (key e) (after f at') (sorted n i f e gt at' at))
      ]
    ]
