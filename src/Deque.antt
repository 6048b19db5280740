-- ===== src/Deque.antt =====
-- `deque` of include/ycetl/deque.hpp, a ring buffer. `_buf` is the sequence that its `dynamic_array`
-- holds; `blank` stands for `T{}`; a remainder by zero and an access out of range are faults. An
-- argument is a value, never an element of the deque itself.
pub mod Index
pub mod Laws
pub mod Ends
pub mod Growth
use ycetl.Base.{
  ℕ, zero, suc, ◌+◌, ◌%◌, Bool, List, [], Option, none, some, ◌==◌, ltb, if◌then◌else◌, ◌>>=◌,
  length, get_elem?, write, replicate,
}
use ycetl.Rounds.{modulo}
use ycetl.Size.{add_size, sub_size, mul_size}

pub record Deque (A : Type 0) : Type 0 where
  pub buf : List A
  pub head : ℕ
  pub size : ℕ

abbrev pub initial_capacity : ℕ
initial_capacity = 8

module _ {A : Type 0} where
  abbrev pub cap : Deque A → ℕ
  cap d = length d.buf

  unfoldable pub new : Deque A
  new = record { buf = []; head = 0; size = 0 }

  unfoldable pub tail_index : Deque A → Option ℕ
  tail_index d = if cap d == 0 then some 0 else modulo (add_size d.head d.size) (cap d)

  -- `operator[]`
  unfoldable pub at : ℕ → Deque A → Option A
  at i d = do j ← modulo (add_size d.head i) (cap d); get_elem? d.buf j

  -- The loop of `grow`, from index `i` on.
  unfoldable pub relay : (rounds i : ℕ) → Deque A → List A → Option (List A)
  unfolding at
  relay zero i d fresh = some fresh
  relay (suc rounds) i d fresh = do
    x ← at i d
    fresh' ← write fresh i x
    relay rounds (i + 1) d fresh'

  unfoldable pub grow : A → ℕ → Deque A → Option (Deque A)
  unfolding relay
  grow blank new_cap d = do
    fresh ← relay d.size 0 d (replicate new_cap blank)
    some (record d { buf = fresh; head = 0 })

  unfoldable pub ensure_room : A → Deque A → Option (Deque A)
  unfolding grow
  ensure_room blank d =
      if ltb (cap d) (add_size d.size 1)
      then grow blank (if cap d == 0 then initial_capacity else mul_size (cap d) 2) d
      else some d

  unfoldable pub clear : Deque A → Deque A
  clear d = record { buf = []; head = 0; size = 0 }

  unfoldable pub front : Deque A → Option A
  front d = get_elem? d.buf d.head

  unfoldable pub back : Deque A → Option A
  back d = do j ← modulo (sub_size (add_size d.head d.size) 1) (cap d); get_elem? d.buf j

  unfoldable pub push_back : A → A → Deque A → Option (Deque A)
  unfolding ensure_room tail_index
  push_back blank v d = do
    d' ← ensure_room blank d
    j ← tail_index d'
    buf ← write d'.buf j v
    some (record d' { buf = buf; size = add_size d'.size 1 })

  unfoldable pub push_front : A → A → Deque A → Option (Deque A)
  unfolding ensure_room
  push_front blank v d = do
    d' ← ensure_room blank d
    j ← modulo (sub_size (add_size d'.head (cap d')) 1) (cap d')
    buf ← write d'.buf j v
    some (record { buf = buf; head = j; size = add_size d'.size 1 })

  unfoldable pub pop_front : Deque A → Option (Deque A)
  pop_front d = do
    j ← modulo (add_size d.head 1) (cap d)
    some (record d { head = j; size = sub_size d.size 1 })

  unfoldable pub pop_back : Deque A → Deque A
  pop_back d = record d { size = sub_size d.size 1 }
