-- ===== src/Flat/Search.antt =====
-- The binary search finds the first element at which the test fails.
use ycetl.Base.{
  ℕ, zero, suc, ◌+◌, ◌-◌, ◌/◌, ◌≤◌, ◌<◌, ◌≡◌, Bool, true, false, List, some, arith, ltb, ◌>>=◌,
  Returns, length, get_elem?, get_elem?-some, lt_of_get_elem?, Bool-cases, inl, inr, ltb→lt, ltb→le,
}
use ycetl.Flat.{search, partition_point}

module _ {A : Type 0} (p : A → Bool) (xs : List A) where
  -- The elements at which the test holds come first.
  abbrev pub IsPartitioned : Type 0
  IsPartitioned =
      (i j : ℕ) (x y : A)
      → i ≤ j
      → get_elem? xs i ≡ some x
      → get_elem? xs j ≡ some y
      → p y ≡ true
      → p x ≡ true

  -- The test holds before `n` and fails from `n` on.
  pub record IsCut (n : ℕ) : Type 0 where
    pub bound : n ≤ length xs
    pub below : (i : ℕ) (x : A) → i < n → get_elem? xs i ≡ some x → p x ≡ true
    pub above : (i : ℕ) (x : A) → n ≤ i → get_elem? xs i ≡ some x → p x ≡ false

  abbrev Below : ℕ → Type 0
  Below n = (i : ℕ) (x : A) → i < n → get_elem? xs i ≡ some x → p x ≡ true

  abbrev Above : ℕ → Type 0
  Above n = (i : ℕ) (x : A) → n ≤ i → get_elem? xs i ≡ some x → p x ≡ false

  search-IsCut :
      IsPartitioned
      → (fuel lo hi : ℕ) → hi ≤ lo + fuel
      → lo ≤ hi
      → hi ≤ length xs
      → Below lo
      → Above hi
      → Returns (search p xs fuel lo hi) IsCut
  unfolding search
  search-IsCut part zero lo hi fits le room below above =
      let stop : ltb lo hi ≡ false = ground arith in
      let e : lo ≡ hi = omega arith in
      (lo, rw stop, record { bound = omega arith; below = below; above = rw (← e) at above })
  search-IsCut part (suc fuel) lo hi fits le room below above = elim (Bool-cases (ltb lo hi)) [
    | inr t ↦
        let e : lo ≡ hi = omega (arith, ltb→le lo hi t) in
        (lo, rw t, record { bound = omega arith; below = below; above = rw (← e) at above })
    | inl t ↦
        let mid : ℕ = lo + (hi - lo) / 2 in
        let lt : lo < hi = ltb→lt lo hi t in
        let (x, e) = get_elem?-some xs mid (omega arith) in
        elim (Bool-cases (p x)) [
          | inl holds ↦
              let (n, run, cut) =
                search-IsCut part fuel (mid + 1) hi (omega arith) (omega arith) room
                  (λ i y lt' e'. part i mid y x (omega arith) e' e holds) above in
              (n, rw (t, e, ◌>>=◌, holds) run, cut)
          | inr fails ↦
              let (n, run, cut) =
                search-IsCut part fuel lo mid (omega arith) (omega arith) (omega arith) below
                  (λ i y le' e'. elim (Bool-cases (p y)) [
                    | inl q ↦ absurd (cc (part mid i x y le' e e' q, fails))
                    | inr q ↦ q
                  ]) in
              (n, rw (t, e, ◌>>=◌, fails) run, cut)
        ]
  ]

  -- The binary search ends within its fuel, reads in range only, and returns the cut.
  pub partition_point-IsCut : IsPartitioned → Returns (partition_point p xs) IsCut
  unfolding partition_point
  partition_point-IsCut part =
      search-IsCut part (length xs) 0 (length xs) (omega arith) (omega arith) (omega arith)
        (λ i x lt e. absurd (omega arith))
        (λ i x le e. absurd (omega (arith, lt_of_get_elem? xs i e)))
