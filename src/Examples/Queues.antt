-- ===== src/Examples/Queues.antt =====
-- Runs of include/ycetl/priority_queue.hpp over the numbers.
use ycetl.Base.{ℕ, zero, suc, ◌≡◌, refl, false, List, [], ◌∷◌, some, arith, Returns, get_elem?}
use ycetl.Order.{less}
use ycetl.Examples.Sorted.{size_order}
use ycetl.Flat.{drop_last}
use ycetl.PriorityQueue.{top, push, pop}
use ycetl.PriorityQueue.Swap.{SameElements}
use ycetl.PriorityQueue.Heaps.{IsHeap}
use ycetl.PriorityQueue.Laws.{push-IsHeap, pop-top}

abbrev pile : List ℕ
pile = 9 ∷ 4 ∷ 7 ∷ []

pile-IsHeap : IsHeap pile
pile-IsHeap zero pos x y e e' = absurd (omega arith)
pile-IsHeap (suc zero) pos x y e e' = ground arith
pile-IsHeap (suc (suc zero)) pos x y e e' = ground arith
pile-IsHeap (suc (suc (suc j))) pos x y e e' = absurd (cc e')

push-IsHeap_example : Returns (push 8 pile) λ ys. IsHeap ys × SameElements (8 ∷ pile) ys
push-IsHeap_example = push-IsHeap 8 pile pile-IsHeap

pop-top_example : Returns (pop pile) λ ys.
    IsHeap ys
    × ((x : ℕ) × (top pile ≡ some x)
        × SameElements pile (x ∷ ys)
        × ((i : ℕ) (y : ℕ) → get_elem? pile i ≡ some y → less x y ≡ false))
pop-top_example = pop-top pile pile-IsHeap (omega arith)

-- 8 rises above 4, and 9 leaves.
rises : push 8 pile ≡ some (9 ∷ 8 ∷ 7 ∷ 4 ∷ [])
unfolding push
rises = refl

sinks : pop {A = ℕ} (9 ∷ 8 ∷ 7 ∷ 4 ∷ []) ≡ some (8 ∷ 4 ∷ 7 ∷ [])
unfolding pop drop_last
sinks = refl
