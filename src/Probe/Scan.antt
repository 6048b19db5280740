-- ===== src/Probe/Scan.antt =====
-- The first element of a list with a property, the reference definition of a lookup in the tables
-- of include/ycetl/unordered_map.hpp and unordered_set.hpp.
use ycetl.Base.{
  ℕ, zero, suc, ◌+◌, ◌<◌, ◌≡◌, refl, ◌∙◌, ap, ◌⊎◌, inl, inr, Bool, true, false, List, [], ◌∷◌, ◌++◌,
  Option, none, some, arith, if◌then◌else◌, get_elem?, set, length, ◌≤◌, Bool-cases, ◌&&◌, not,
}

module _ {A : Type 0} (p : A → Bool) where
  unfoldable pub first : List A → Option A
  first [] = none
  first (x ∷ xs) = if p x then some x else first xs

  unfoldable pub count : List A → ℕ
  count [] = 0
  count (x ∷ xs) = if p x then suc (count xs) else count xs

  -- No element has the property.
  abbrev pub Lacks : List A → Type 0
  Lacks xs = (i : ℕ) (x : A) → get_elem? xs i ≡ some x → p x ≡ false

  pub first-Lacks : (xs : List A) → Lacks xs → first xs ≡ none
  unfolding first
  first-Lacks [] lacks = refl
  first-Lacks (x ∷ xs) lacks = rw (lacks 0 x refl) (first-Lacks xs (λ i. lacks (suc i)))

  pub first-cases :
      (xs : List A)
      → ((first xs ≡ none) × Lacks xs)
        ⊎ ((i : ℕ) × (x : A) × (get_elem? xs i ≡ some x) × (p x ≡ true) × (first xs ≡ some x))
  unfolding first
  first-cases [] = inl (refl, λ i x e. absurd (cc e))
  first-cases (x ∷ xs) = elim (Bool-cases (p x)) [
    | inl t ↦ inr (0, x, refl, t, rw t)
    | inr t ↦ elim (first-cases xs) [
      | inl (e, lacks) ↦ inl (rw t e, lacks-cons t lacks)
      | inr (i, y, at, u, e) ↦ inr (suc i, y, at, u, rw t e)
    ]
  ]
    where
      lacks-cons : p x ≡ false → Lacks xs → Lacks (x ∷ xs)
      lacks-cons t lacks zero y at = ground arith
      lacks-cons t lacks (suc i) y at = lacks i y at

  -- An element with the property is the first, if no other index has one.
  pub first_unique :
      (xs : List A) (i : ℕ) (x : A)
      → get_elem? xs i ≡ some x
      → p x ≡ true
      → ((j : ℕ) (y : A) → get_elem? xs j ≡ some y → p y ≡ true → j ≡ i)
      → first xs ≡ some x
  first_unique xs i x at t only = elim (first-cases xs) [
    | inl (e, lacks) ↦ absurd (cc (lacks i x at))
    | inr (j, y, at', u, e) ↦ let same = only j y at' u in e ∙ ground arith
  ]

  -- Writing over an element changes nothing if neither it nor the new one has the property.
  pub first-set :
      (xs : List A) (i : ℕ) (x y : A)
      → get_elem? xs i ≡ some x
      → p x ≡ false
      → p y ≡ false
      → first (set xs i y) ≡ first xs
  unfolding first
  first-set [] i x y at t u = absurd (cc at)
  first-set (z ∷ xs) zero x y at t u = let here : p z ≡ false = ground arith in rw (here, u)
  first-set (z ∷ xs) (suc i) x y at t u =
      ap (λ r. if p z then some z else r) (first-set xs i x y at t u)

  pub count-set :
      (xs : List A) (i : ℕ) (x y : A)
      → get_elem? xs i ≡ some x
      → count (set xs i y) + (if p x then 1 else 0) ≡ count xs + (if p y then 1 else 0)
  unfolding count
  count-set [] i x y at = absurd (cc at)
  count-set (z ∷ xs) zero x y at = ground arith
  count-set (z ∷ xs) (suc i) x y at = ground (arith, count-set xs i x y at)

  pub count-le-length : (xs : List A) → count xs ≤ length xs
  unfolding count
  count-le-length [] = omega arith
  count-le-length (x ∷ xs) = ground (arith, count-le-length xs)

  -- If not all elements have the property, one lacks it.
  pub count-lt-length :
      (xs : List A)
      → count xs < length xs
      → (i : ℕ) × (x : A) × (get_elem? xs i ≡ some x) × (p x ≡ false)
  unfolding count
  count-lt-length [] lt = absurd (omega arith)
  count-lt-length (x ∷ xs) lt = elim (Bool-cases (p x)) [
    | inl t ↦
        let lt' : suc (count xs) < suc (length xs) = rw t at lt in
        let (i, y, at, u) = count-lt-length xs (omega arith) in (suc i, y, at, u)
    | inr t ↦ (0, x, refl, t)
  ]

  pub count-pos :
      (xs : List A) (i : ℕ) (x : A) → get_elem? xs i ≡ some x → p x ≡ true → 0 < count xs
  unfolding count
  count-pos [] i x at t = absurd (cc at)
  count-pos (y ∷ xs) zero x at t = ground arith
  count-pos (y ∷ xs) (suc i) x at t = ground (arith, count-pos xs i x at t)

  pub count-Lacks : (xs : List A) → Lacks xs → count xs ≡ 0
  unfolding count
  count-Lacks [] lacks = refl
  count-Lacks (x ∷ xs) lacks = rw (lacks 0 x refl) (count-Lacks xs (λ i. lacks (suc i)))

  pub count-snoc : (xs : List A) (x : A) → count (xs ++ x ∷ []) ≡ count (x ∷ xs)
  unfolding count
  count-snoc [] x = refl
  count-snoc (y ∷ xs) x = ground (arith, count-snoc xs x)

module _ {A : Type 0} (p q : A → Bool) where
  pub count-congr :
      (xs : List A)
      → ((i : ℕ) (x : A) → get_elem? xs i ≡ some x → p x ≡ q x)
      → count p xs ≡ count q xs
  unfolding count
  count-congr [] same = refl
  count-congr (x ∷ xs) same = ground (arith, same 0 x refl, count-congr xs (λ i. same (suc i)))

  -- Those with one property are those with another as well, and those without.
  pub count-split :
      (xs : List A)
      → ((x : A) → q x ≡ true → p x ≡ true)
      → count p xs ≡ count q xs + count (λ x. p x && not (q x)) xs
  unfolding count
  count-split [] sub = refl
  count-split (x ∷ xs) sub = ground (arith, sub x, count-split xs sub)
