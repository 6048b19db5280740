-- ===== src/PriorityQueue/Up.antt =====
-- `sift_up` of include/ycetl/priority_queue.hpp ends and restores the heap.
use ycetl.Base.{
  ℕ, zero, suc, ◌≤◌, ◌<◌, ◌≡◌, ◌≢◌, refl, ◌∙◌, true, false, List, some, arith, ◌==◌, ◌>>=◌, Returns,
  length, get_elem?, get_elem?-some, Bool-cases, inl, inr,
}
use native.Mathlib.Decide.{ℕ_discrete}
use ycetl.Order.{Order, less, less_asymm}
use ycetl.PriorityQueue.{sift_up, before}
use ycetl.PriorityQueue.Swap.{SameElements, Swapped, swap_lem}
use ycetl.PriorityQueue.Heaps.{parent, Above, IsHeap, above_trans}

module _ {A : Type 0} ⦃o : Order A⦄ where
  -- Only the element at `i` may come after its parent; its children are below its parent.
  pub record IsRising (i : ℕ) (xs : List A) : Type 0 where
    pub others : (j : ℕ) → 0 < j → j ≢ i → Above xs (parent j) j
    pub across : (j : ℕ) → 0 < i → 0 < j → parent j ≡ i → Above xs (parent i) j

  -- The result of a sift.
  pub record Sifted (xs ys : List A) : Type 0 where
    pub heap : IsHeap ys
    pub size : length ys ≡ length xs
    pub same : SameElements xs ys

  pub Sifted-trans :
      (xs ys zs : List A) → SameElements xs ys → length ys ≡ length xs → Sifted ys zs → Sifted xs zs
  Sifted-trans xs ys zs same size done = record {
    heap = done.heap;
    size = done.size ∙ size;
    same = λ p. done.same p ∙ same p;
  }

  -- The step: the element rises to its parent's place.
  rising :
      (i : ℕ) (xs ys : List A) (x y : A)
      → 0 < i
      → IsRising i xs
      → get_elem? xs (parent i) ≡ some x
      → get_elem? xs i ≡ some y
      → less x y ≡ true
      → Swapped (parent i) i xs ys
      → IsRising (parent i) ys
  rising i xs ys x y pos r at at' lt s = record {
    others = λ j pj apart a b ea eb. elim (ℕ_discrete j i) [
      | yes e ↦ ground (arith, s.first, s.second, less_asymm x y lt)
      | no ne ↦ elim (ℕ_discrete (parent j) i) [
        | yes e ↦ ground (arith, s.second, s.elsewhere j apart ne, r.across j pos pj e x b)
        | no ne' ↦ elim (ℕ_discrete (parent j) (parent i)) [
          | yes e ↦ ground (
            arith,
            s.first,
            s.elsewhere j apart ne,
            r.others j pj ne x b,
            above_trans y x b (less_asymm x y lt),
          )
          | no ne'' ↦
              ground (
                arith,
                s.elsewhere (parent j) ne'' ne',
                s.elsewhere j apart ne,
                r.others j pj ne a b,
              )
        ]
      ]
    ];
    across = λ j pp pj up a b ea eb. elim (ℕ_discrete j i) [
      | yes e ↦ ground (
        arith,
        s.second,
        s.elsewhere (parent (parent i)) (omega arith) (omega arith),
        r.others (parent i) pp (omega arith) a x,
      )
      | no ne ↦ ground (
        arith,
        s.elsewhere (parent (parent i)) (omega arith) (omega arith),
        s.elsewhere j (omega arith) ne,
        r.others (parent i) pp (omega arith) a x,
        r.others j pj ne x b,
        above_trans a x b,
      )
    ];
  }

  at_root : (xs : List A) → IsRising 0 xs → Sifted xs xs
  at_root xs r = record {
    heap = λ j pos. r.others j pos (omega arith);
    size = refl;
    same = λ p. refl;
  }

  settled :
      (i : ℕ) (xs : List A) (x y : A)
      → IsRising i xs
      → get_elem? xs (parent i) ≡ some x
      → get_elem? xs i ≡ some y
      → less x y ≡ false
      → Sifted xs xs
  settled i xs x y r at at' ge = record {
    heap = λ j pos a b ea eb. elim (ℕ_discrete j i) [
      | yes e ↦ ground arith
      | no ne ↦ r.others j pos ne a b ea eb
    ];
    size = refl;
    same = λ p. refl;
  }

  -- `sift_up` ends within its fuel, reads in range only, and leaves a heap of the same elements.
  pub sift_up-Sifted :
      (fuel i : ℕ) (xs : List A)
      → i ≤ fuel
      → i < length xs
      → IsRising i xs
      → Returns (sift_up fuel i xs) (Sifted xs)
  unfolding sift_up before
  sift_up-Sifted zero zero xs fits room r = (xs, refl, at_root xs r)
  sift_up-Sifted (suc fuel) zero xs fits room r = (xs, refl, at_root xs r)
  sift_up-Sifted zero (suc i) xs fits room r = absurd (omega arith)
  sift_up-Sifted (suc fuel) (suc i) xs fits room r =
      let (x, at) = get_elem?-some xs (parent (suc i)) (omega arith) in
      let (y, at') = get_elem?-some xs (suc i) room in
      let inner : (suc i == 0) ≡ false = ground arith in
      elim (Bool-cases (less x y)) [
        | inr ge ↦ (xs, rw (inner, at, at', ◌>>=◌, ge) refl, settled (suc i) xs x y r at at' ge)
        | inl lt ↦
            let (ys, swapped, s) = swap_lem (parent (suc i)) (suc i) xs x y (omega arith) at at' in
            let (zs, run, done) =
              sift_up-Sifted fuel (parent (suc i)) ys (omega arith) (omega (arith, s.size))
                (rising (suc i) xs ys x y (omega arith) r at at' lt s) in
            (
              zs,
              rw (inner, at, at', ◌>>=◌, lt, swapped) run,
              Sifted-trans xs ys zs s.same s.size done,
            )
      ]
