-- ===== src/PriorityQueue/Swap.antt =====
-- What the swap of two entries in include/ycetl/priority_queue.hpp does to the reads and to the
-- elements held.
use ycetl.Base.{
  ℕ, ◌<◌, ◌≡◌, refl, ◌∙◌, ◌≢◌, Bool, List, some, arith, ◌>>=◌, Returns, length, get_elem?,
  get_elem?-set, length-set, set, lt→ltb, lt_of_get_elem?,
}
use ycetl.Probe.Scan.{count, count-set}
use ycetl.PriorityQueue.{swap}

module _ {A : Type 0} where
  -- The same elements, each as often: no test tells their numbers apart.
  abbrev pub SameElements : List A → List A → Type 0
  SameElements xs ys = (p : A → Bool) → count p ys ≡ count p xs

  pub record Swapped (i j : ℕ) (xs ys : List A) : Type 0 where
    pub size : length ys ≡ length xs
    pub first : get_elem? ys i ≡ get_elem? xs j
    pub second : get_elem? ys j ≡ get_elem? xs i
    pub elsewhere : (k : ℕ) → k ≢ i → k ≢ j → get_elem? ys k ≡ get_elem? xs k
    pub same : SameElements xs ys

  pub swap_lem :
      (i j : ℕ) (xs : List A) (x y : A)
      → i ≢ j
      → get_elem? xs i ≡ some x
      → get_elem? xs j ≡ some y
      → Returns (swap i j xs) (Swapped i j xs)
  unfolding swap
  swap_lem i j xs x y apart at at' =
      let once : get_elem? (set xs i y) j ≡ some y = ground (arith, get_elem?-set xs i j y) in
      let below : i < length xs = lt_of_get_elem? xs i at in
      let below' : j < length (set xs i y) = lt_of_get_elem? (set xs i y) j once in
      let reads = λ (k : ℕ). get_elem?-set (set xs i y) j k x in
      let reads' = λ (k : ℕ). get_elem?-set xs i k y in
      (
        set (set xs i y) j x,
        rw (at, ◌>>=◌, at', lt→ltb i (length xs) below, lt→ltb j (length (set xs i y)) below') refl,
        record {
          size = length-set (set xs i y) j x ∙ length-set xs i y;
          first = ground (arith, reads i, reads' i);
          second = ground (arith, reads j);
          elsewhere = λ k ki kj. ground (arith, reads k, reads' k);
          same = λ p. omega (arith, count-set p xs i x y at, count-set p (set xs i y) j y x once);
        },
      )
