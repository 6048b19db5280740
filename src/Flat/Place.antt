-- ===== src/Flat/Place.antt =====
-- What the binary search and the test after it find out about a key.
use ycetl.Base.{
  ℕ, ◌≡◌, ◌⊎◌, inl, inr, true, false, List, some, arith, ◌>>=◌, length, get_elem?, lt_of_get_elem?,
  get_elem?-some, Bool-cases, lt→ltb, ltb-false,
}
use native.Mathlib.Decide.{dec_lt}
use ycetl.Order.{Order, less, equivalent}
use ycetl.Flat.{partition_point, hit}
use ycetl.Flat.Search.{partition_point-IsCut}
use ycetl.Flat.Lookup.{
  IsSorted, Absent, hit-equivalent, miss-Absent, IsSorted-IsPartitioned, IsPlace,
}

module _ {E K : Type 0} ⦃o : Order K⦄ (key : E → K) (k : K) (xs : List E) where
  -- The element at `n` has the key, and the code says so.
  abbrev pub Hit : ℕ → Type 0
  Hit n =
      (x : E) × (get_elem? xs n ≡ some x)
      × (equivalent (key x) k ≡ true)
      × (hit (λ e. less k (key e)) n xs ≡ some true)

  -- No element has the key, and the code says so.
  abbrev pub Miss : ℕ → Type 0
  Miss n = Absent key k xs × (hit (λ e. less k (key e)) n xs ≡ some false)

  pub locate :
      IsSorted key xs
      → (n : ℕ) × (partition_point (λ e. less (key e) k) xs ≡ some n)
        × IsPlace key k xs n
        × (Hit n ⊎ Miss n)
  unfolding hit
  locate sorted =
      let (n, run, cut) =
        partition_point-IsCut (λ e. less (key e) k) xs (IsSorted-IsPartitioned key k xs sorted) in
      (
        n,
        run,
        cut,
        elim (dec_lt n (length xs)) [
          | no past ↦ inr (
            miss-Absent key k xs n sorted cut
                (λ e at. absurd (omega (arith, lt_of_get_elem? xs n at))),
            rw (ltb-false n (length xs) (omega arith)),
          )
          | yes lt ↦
              let (x, at) = get_elem?-some xs n lt in
              elim (Bool-cases (less k (key x))) [
                | inr t ↦ inl (
                  x,
                  at,
                  hit-equivalent key k xs n sorted cut x at t,
                  rw (lt→ltb n (length xs) lt, at, ◌>>=◌, t),
                )
                | inl t ↦ inr (
                  miss-Absent key k xs n sorted cut (λ e at'. ground arith),
                  rw (lt→ltb n (length xs) lt, at, ◌>>=◌, t),
                )
              ]
        ],
      )
