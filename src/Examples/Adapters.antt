-- ===== src/Examples/Adapters.antt =====
-- Runs of include/ycetl/queue.hpp and include/ycetl/stack.hpp.
use ycetl.Base.{ℕ, ◌≡◌, refl, List, [], ◌∷◌, arith, Returns}
use mathlib.Core.List.{reverse}
use ycetl.Adapter.{Command, put, get, run, order}
use ycetl.Deque.Index.{Spans}
use ycetl.DynamicArray.Contents.{Holds}
use ycetl.Examples.Arrays.{three, four-Holds}
use ycetl.Examples.Rings.{wrapped, wrapped-Spans}
use ycetl.Queue
use ycetl.Queue.Laws.{run-fifo}
use ycetl.Stack
use ycetl.Stack.Laws.{run-lifo}

abbrev commands : List (Command ℕ)
commands = put 9 ∷ get ∷ get ∷ []

run-fifo_example :
    Returns (run (Queue.adapter 0) commands wrapped) (λ r. Spans r.0 (9 ∷ []) × (r.1 ≡ 7 ∷ 8 ∷ []))
unfolding order
run-fifo_example =
    run-fifo 0 100 (omega arith) commands wrapped (7 ∷ 8 ∷ []) (9 ∷ []) (7 ∷ 8 ∷ []) wrapped-Spans
      (omega arith) (omega arith) refl

run-lifo_example :
    Returns
      (run Stack.adapter commands (three 4))
      (λ r. Holds r.0 (reverse (6 ∷ 5 ∷ [])) × (r.1 ≡ 9 ∷ 7 ∷ []))
unfolding order
run-lifo_example =
    run-lifo 100 (omega arith) commands (three 4) (7 ∷ 6 ∷ 5 ∷ []) (6 ∷ 5 ∷ []) (9 ∷ 7 ∷ [])
      four-Holds (omega arith) (omega arith) refl
