-- ===== src/PriorityQueue/Heaps.antt =====
-- The heap order of include/ycetl/priority_queue.hpp: no element comes after its parent in the
-- order, so that the root is a greatest element.
use ycetl.Base.{
  ℕ, zero, suc, ◌-◌, ◌/◌, ◌≤◌, ◌<◌, ◌≡◌, false, List, some, arith, get_elem?, get_elem?-some,
  lt_of_get_elem?,
}
use ycetl.Order.{Order, less}

abbrev pub parent : ℕ → ℕ
parent i = (i - 1) / 2

module _ {A : Type 0} ⦃o : Order A⦄ where
  -- The element at `i` does not come before that at `j`.
  abbrev pub Above : List A → ℕ → ℕ → Type 0
  Above xs i j = (x y : A) → get_elem? xs i ≡ some x → get_elem? xs j ≡ some y → less x y ≡ false

  abbrev pub IsHeap : List A → Type 0
  IsHeap xs = (j : ℕ) → 0 < j → Above xs (parent j) j

  -- Not below and not below again is not below.
  pub above_trans : (x y z : A) → less x y ≡ false → less y z ≡ false → less x z ≡ false
  above_trans x y z h k = ground (arith, o.weak x z y)

  top_below :
      (xs : List A) (x : A)
      → IsHeap xs
      → get_elem? xs 0 ≡ some x
      → (fuel i : ℕ) (y : A) → i ≤ fuel
      → get_elem? xs i ≡ some y
      → less x y ≡ false
  top_below xs x heap at fuel zero y h at' =
      let same : some x ≡ some y = cc in let e : x ≡ y = cc in rw e (o.irreflexive y)
  top_below xs x heap at zero (suc i) y h at' = absurd (omega arith)
  top_below xs x heap at (suc fuel) (suc i) y h at' =
      let (z, e) =
        get_elem?-some xs (parent (suc i)) (omega (arith, lt_of_get_elem? xs (suc i) at')) in
      above_trans x z y (top_below xs x heap at fuel (parent (suc i)) z (omega arith) e)
        (heap (suc i) (omega arith) z y e at')

  -- The root of a heap comes before no element.
  pub top-Above : (xs : List A) → IsHeap xs → (i : ℕ) → Above xs 0 i
  top-Above xs heap i x y at at' = top_below xs x heap at i i y (omega arith) at'
