-- ===== src/PriorityQueue.antt =====
-- `priority_queue` of include/ycetl/priority_queue.hpp: a binary heap in the sequence that the
-- container `_c` holds. `_cmp(a, b)` is `less a b`, and the root holds a greatest element. `2 * i + 2`
-- stays below 2 ^ 64 since `i` is an index of an array of memory. The argument of `push` is a value,
-- never an element of the heap itself.
pub mod Swap
pub mod Heaps
pub mod Up
pub mod Down
pub mod Laws
use ycetl.Base.{
  ℕ, zero, suc, ◌+◌, ◌-◌, ◌*◌, ◌/◌, Bool, true, false, ◌||◌, List, [], ◌∷◌, ◌++◌, Option, none,
  some, ◌==◌, ltb, leb, if◌then◌else◌, ◌>>=◌, length, get_elem?, write,
}
use ycetl.Flat.{drop_last}
use ycetl.Order.{Order, less}

module _ {A : Type 0} where
  -- `auto tmp = c[i]; c[i] = c[j]; c[j] = tmp`
  unfoldable pub swap : ℕ → ℕ → List A → Option (List A)
  swap i j xs = do x ← get_elem? xs i; y ← get_elem? xs j; ys ← write xs i y; write ys j x

module _ {A : Type 0} ⦃o : Order A⦄ where
  -- `cmp(c[i], c[j])`
  unfoldable pub before : ℕ → ℕ → List A → Option Bool
  before i j xs = do x ← get_elem? xs i; y ← get_elem? xs j; some (less x y)

  -- The fuel bounds the rounds; without fuel the loop does not end, a fault here.
  unfoldable pub sift_up : (fuel i : ℕ) → List A → Option (List A)
  unfolding swap before
  sift_up zero i xs = if i == 0 then some xs else none
  sift_up (suc fuel) i xs =
      let parent : ℕ = (i - 1) / 2 in
      let round = before parent i xs >>= (λ b. elim b [
        | true ↦ swap parent i xs >>= (λ ys. sift_up fuel parent ys)
        | false ↦ some xs
      ]) in
      if i == 0 then some xs else round

  -- `if (l < n && cmp(c[best], c[l])) best = l`
  unfoldable pub better : (best l n : ℕ) → List A → Option ℕ
  unfolding before
  better best l n xs =
      let test = before best l xs >>= (λ b. some (if b then l else best)) in
      if ltb l n then test else some best

  unfoldable pub sift_down : (fuel i n : ℕ) → List A → Option (List A)
  unfolding swap better
  sift_down zero i n xs = none
  sift_down (suc fuel) i n xs = do
    left ← better i (2 * i + 1) n xs
    best ← better left (2 * i + 2) n xs
    elim (best == i) [
      | true ↦ some xs
      | false ↦ swap best i xs >>= (λ ys. sift_down fuel best n ys)
    ]

  -- `_c[0]`
  unfoldable pub top : List A → Option A
  top xs = get_elem? xs 0

  unfoldable pub push : A → List A → Option (List A)
  unfolding sift_up
  push v xs = let ys = xs ++ v ∷ [] in sift_up (length ys) (length ys - 1) ys

  unfoldable pub pop : List A → Option (List A)
  unfolding swap sift_down
  pop xs =
      let n = length xs in
      let rest =
        swap 0 (n - 1) xs
        >>= (λ ys. drop_last ys)
        >>= (λ zs. sift_down (length zs) 0 (length zs) zs) in
      if leb n 1 then drop_last xs else rest
