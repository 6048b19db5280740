-- ===== src/Stack.antt =====
-- `stack` of include/ycetl/stack.hpp, over the dynamic_array that it has by default.
pub mod Laws
use ycetl.Base.{ℕ, Bool, Option, ◌==◌}
use ycetl.DynamicArray.{DynamicArray, Reference, outside}
use ycetl.DynamicArray
use ycetl.Size.{sub_size}
use ycetl.Adapter.{Adapter}

abbrev pub Stack : Type 0 → Type 0
Stack A = DynamicArray A

module _ {A : Type 0} where
  unfoldable pub empty : Stack A → Bool
  empty s = s.size == 0

  -- `_c[_c.size() - 1]`
  unfoldable pub top : Stack A → Option A
  unfolding DynamicArray.at
  top s = DynamicArray.at (sub_size s.size 1) s

  unfoldable pub push : Reference A → Stack A → Option (Stack A)
  unfolding DynamicArray.push_back
  push v s = DynamicArray.push_back v s

  unfoldable pub pop : Stack A → Option (Stack A)
  unfolding DynamicArray.pop_back
  pop s = DynamicArray.pop_back s

  -- Both stacks, as the call leaves them.
  unfoldable pub swap : Stack A → Stack A → Stack A × Stack A
  swap s other = (other, s)

  -- With pushes of objects outside the stack.
  abbrev pub adapter : Adapter A (Stack A)
  adapter = record { push = λ v. push (outside v); pop = pop; peek = top }
