-- ===== src/Queue.antt =====
-- `queue` of include/ycetl/queue.hpp, over the deque that it has by default.
pub mod Laws
use ycetl.Base.{ℕ, Bool, Option, ◌==◌}
use ycetl.Deque.{Deque}
use ycetl.Deque
use ycetl.Adapter.{Adapter}

abbrev pub Queue : Type 0 → Type 0
Queue A = Deque A

module _ {A : Type 0} where
  unfoldable pub empty : Queue A → Bool
  empty q = q.size == 0

  unfoldable pub front : Queue A → Option A
  unfolding Deque.front
  front q = Deque.front q

  unfoldable pub back : Queue A → Option A
  unfolding Deque.back
  back q = Deque.back q

  -- `blank` stands for `T{}`.
  unfoldable pub push : A → A → Queue A → Option (Queue A)
  unfolding Deque.push_back
  push blank v q = Deque.push_back blank v q

  unfoldable pub pop : Queue A → Option (Queue A)
  unfolding Deque.pop_front
  pop q = Deque.pop_front q

  abbrev pub adapter : A → Adapter A (Queue A)
  adapter blank = record { push = push blank; pop = pop; peek = front }
