-- ===== src/PriorityQueue/Laws.antt =====
-- The operations of include/ycetl/priority_queue.hpp on a heap: `push` adds one element, `top` is a
-- greatest one, and `pop` takes it out.
use ycetl.Base.{
  ℕ, suc, ◌+◌, ◌-◌, ◌<◌, ◌≡◌, refl, ◌∙◌, ap, Bool, false, List, [], ◌∷◌, ◌++◌, some, arith, ◌==◌,
  leb, ◌>>=◌, Returns, Returns-bind, Returns-eq, Returns-map, length, get_elem?, get_elem?-some,
  take, length-append, ext_get_elem?, get_elem?-none, lt_of_get_elem?,
}
use ycetl.Order.{Order, less}
use ycetl.Sequence.{get_elem?-snoc, get_elem?-take, length-take}
use ycetl.Flat.{drop_last}
use ycetl.Probe.Scan.{count, count-snoc}
use ycetl.PriorityQueue.{top, push, pop, swap, sift_down}
use ycetl.PriorityQueue.Swap.{SameElements, Swapped, swap_lem}
use ycetl.PriorityQueue.Heaps.{parent, IsHeap, top-Above}
use ycetl.PriorityQueue.Up.{IsRising, sift_up-Sifted}
use ycetl.PriorityQueue.Down.{IsSinking, sift_down-Sifted}

module _ {A : Type 0} where
  dropped : (ys : List A) (n : ℕ) → length ys ≡ n + 1 → drop_last ys ≡ some (take n ys)
  unfolding drop_last
  dropped ys n long =
      let filled : (length ys == 0) ≡ false = ground arith in
      let whole : length ys - 1 ≡ n = omega arith in rw (filled, whole) refl

  -- A sequence is what stands before its last element, and that element.
  last_off :
      (xs : List A) (n : ℕ) (x : A)
      → length xs ≡ n + 1
      → get_elem? xs n ≡ some x
      → xs ≡ take n xs ++ x ∷ []
  last_off xs n x len at = ext_get_elem? xs (take n xs ++ x ∷ []) (λ k.
      rw (get_elem?-snoc (take n xs) x k)
        (ground (arith, length-take n xs, get_elem?-take n xs k, get_elem?-none xs k)))

module _ {A : Type 0} ⦃o : Order A⦄ where
  -- On a heap, `push` ends and does not fault; it leaves a heap with the elements there were and
  -- the new one, each as often.
  pub push-IsHeap :
      (v : A) (xs : List A)
      → IsHeap xs
      → Returns (push v xs) λ ys. IsHeap ys × SameElements (v ∷ xs) ys
  unfolding push
  push-IsHeap v xs heap =
      let long : length (xs ++ v ∷ []) ≡ length xs + 1 = length-append xs (v ∷ []) in
      let (ys, run, done) =
        sift_up-Sifted (length (xs ++ v ∷ [])) (length (xs ++ v ∷ []) - 1) (xs ++ v ∷ [])
          (omega arith) (omega arith) (fresh long) in
      (ys, run, (done.heap, λ p. done.same p ∙ count-snoc p xs v))
    where
      fresh :
          length (xs ++ v ∷ []) ≡ length xs + 1
          → IsRising (length (xs ++ v ∷ []) - 1) (xs ++ v ∷ [])
      fresh long = record {
        others = λ j pos ne x y e e'.
            ground (arith, get_elem?-snoc xs v j, get_elem?-snoc xs v (parent j), heap j pos x y);
        across =
            λ j pi pos up x y e e'. absurd (omega (arith, lt_of_get_elem? (xs ++ v ∷ []) j e'));
      }

  sinks : (xs ys : List A) (n : ℕ) → IsHeap xs → Swapped 0 n xs ys → IsSinking 0 (take n ys)
  sinks xs ys n heap s = record {
    others = λ j pos ne x y e e'. ground (
      arith,
      get_elem?-take n ys j,
      get_elem?-take n ys (parent j),
      s.elsewhere j,
      s.elsewhere (parent j),
      heap j pos x y,
    );
    across = λ j pos. absurd (omega arith);
  }

  -- The part of `pop` after its test of the size.
  pop_rest :
      (xs : List A) (n : ℕ) (x : A)
      → IsHeap xs
      → length xs ≡ n + 1
      → 0 < n
      → get_elem? xs 0 ≡ some x
      → Returns
          (swap 0 n xs >>= drop_last >>= (λ zs. sift_down (length zs) 0 (length zs) zs))
          λ ys. IsHeap ys × SameElements xs (x ∷ ys)
  unfolding drop_last count
  pop_rest xs n x heap len pos at =
      let (y, at') = get_elem?-some xs n (omega arith) in
      let (ys, swapped, s) = swap_lem 0 n xs x y (omega arith) at at' in
      let long : length ys ≡ n + 1 = s.size ∙ len in
      let short : length (take n ys) ≡ n = omega (arith, length-take n ys) in
      let ends : ys ≡ take n ys ++ x ∷ [] = last_off ys n x long (s.second ∙ at) in
      Returns-bind _ (take n ys) _ (ap (λ m. m >>= drop_last) swapped ∙ dropped ys n long) (
        Returns-map _
          (λ zs done. (
            done.heap,
            λ p.
                tally (take n ys) zs ys (take n ys ++ x ∷ []) p (done.same p)
                  (count-snoc p (take n ys) x) (ap (count p) ends) (s.same p),
          ))
          (sift_down-Sifted (length (take n ys)) 0 (take n ys) (omega arith) (omega arith)
            (sinks xs ys n heap s)))
    where
      tally :
          (ws zs ys us : List A) (p : A → Bool)
          → count p zs ≡ count p ws
          → count p us ≡ count p (x ∷ ws)
          → count p ys ≡ count p us
          → count p ys ≡ count p xs
          → count p (x ∷ zs) ≡ count p xs
      tally ws zs ys us p a b c d = ground arith

  -- On a heap with an element, `pop` ends and does not fault; it takes out the element that `top`
  -- returns, no element of the heap comes after that one in the order, and what is left is a heap.
  pub pop-top :
      (xs : List A)
      → IsHeap xs
      → 0 < length xs
      → Returns (pop xs) λ ys.
        IsHeap ys
        × ((x : A) × (top xs ≡ some x)
            × SameElements xs (x ∷ ys)
            × ((i : ℕ) (y : A) → get_elem? xs i ≡ some y → less x y ≡ false))
  unfolding pop top drop_last
  pop-top [] heap filled = absurd (omega arith)
  pop-top (x ∷ []) heap filled = (
    [],
    refl,
    (
      (λ j pos a b e. absurd (cc e)),
      (x, refl, (λ p. refl), λ i z. top-Above (x ∷ []) heap i x z refl),
    ),
  )
  pop-top (x ∷ y ∷ xs) heap filled =
      let many : leb (length (x ∷ y ∷ xs)) 1 ≡ false = ground arith in
      let n : length (x ∷ y ∷ xs) - 1 ≡ suc (length xs) = omega arith in
      Returns-eq _ _ (rw (many, n) refl) (
        Returns-map _
          (λ ys (kept, same).
            (kept, (x, refl, same, λ i z. top-Above (x ∷ y ∷ xs) heap i x z refl)))
          (pop_rest (x ∷ y ∷ xs) (suc (length xs)) x heap (omega arith) (omega arith) refl))
