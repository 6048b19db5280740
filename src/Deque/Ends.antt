-- ===== src/Deque/Ends.antt =====
-- Both ends of the deque of include/ycetl/deque.hpp.
use ycetl.Base.{◌^◌, ◌<◌, ◌≡◌, List, [], ◌∷◌, ◌++◌, some, Returns}
use ycetl.Deque.{Deque, cap, push_back, push_front, pop_front, pop_back, back}
use ycetl.Deque.Index.{Spans}
use ycetl.Deque.Laws.{
  push_back-Spans, push_front-Spans, pop_front-Spans, pop_back-Spans, back-Spans,
}

module _ {A : Type 0} where
  -- On a deque that holds `xs` in a ring of fewer than 2 ^ 61 slots, `push_front` returns a deque
  -- that holds the new element and then `xs`, and `push_back` one that holds `xs` and then the new
  -- element, whether or not the ring must grow.
  pub push-Spans :
      (blank v : A) {d : Deque A} {xs : List A}
      → Spans d xs
      → cap d < 2 ^ 61
      → Returns (push_front blank v d) (λ d'. Spans d' (v ∷ xs))
        × Returns (push_back blank v d) (λ d'. Spans d' (xs ++ v ∷ []))
  push-Spans blank v h small = (push_front-Spans blank v h small, push_back-Spans blank v h small)

  -- On a deque that holds `x`, `xs` and `y`, in a ring of fewer than 2 ^ 62 slots, `pop_front`
  -- returns a deque that holds `xs` and `y`, `pop_back` leaves one that holds `x` and `xs`, and
  -- `back` reads `y`.
  pub pop-Spans :
      {d : Deque A} (x y : A) (xs : List A)
      → Spans d (x ∷ xs ++ y ∷ [])
      → cap d < 2 ^ 62
      → Returns (pop_front d) (λ d'. Spans d' (xs ++ y ∷ []))
        × Spans (pop_back d) (x ∷ xs)
        × (back d ≡ some y)
  pop-Spans x y xs h small =
      (pop_front-Spans x h small, pop_back-Spans y h small, back-Spans (x ∷ xs) y h small)
