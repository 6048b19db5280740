-- ===== src/DynamicArray.antt =====
-- `dynamic_array` of include/ycetl/dynamic_array.hpp over the heap-backed memory of
-- include/ycetl/typed_dynamic_memory.hpp, with the lifetime of every slot, and the helpers
-- `construct_n` and `copy_construct_n` of include/ycetl/memory.hpp.
mod Slots
pub mod Loops
pub mod Contents
pub mod Growth
pub mod Resizing
pub mod Inserting
pub mod Erasing
pub mod Copying
pub use Slots.{Cell, Block, raw, live, moved}
unfoldable pub use Slots.{allocate, read}
use Slots.{construct_at, destroy_at, construct_n, destroy_loop, move_loop, copy_loop}
use Slots.{shift_up, shift_down}
use ycetl.Base.{ℕ, ◌+◌, ◌-◌, Bool, Option, none, some, ◌==◌, ltb, leb, if◌then◌else◌, ◌>>=◌}
use ycetl.Size.{add_size, sub_size, mul_size}

-- The members `_data`, `_size` and `_capacity`; the null pointer is a block of no slots.
pub record DynamicArray (A : Type 0) : Type 0 where
  pub buffer : Block A
  pub size : ℕ
  pub capacity : ℕ

-- What a `const T &` parameter refers to: an object outside the array, or an element of it.
pub data Reference (A : Type 0) : Type 0 where
  outside : A → Reference A
  element : ℕ → Reference A

-- `_capacity ? _capacity * 2 : 4`
unfoldable pub grown : ℕ → ℕ
grown n = if n == 0 then 4 else mul_size n 2

module _ {A : Type 0} where
  -- Reads a reference; an element is read in the block that held it when the call was made.
  unfoldable pub resolve : Block A → Reference A → Option A
  resolve b (outside v) = some v
  resolve b (element i) = read b i

  -- The constructor from a memory alone.
  unfoldable pub new : DynamicArray A
  new = record { buffer = allocate 0; size = 0; capacity = 0 }

  -- The constructor of `n` copies of `v`.
  unfoldable pub new_filled : ℕ → A → Option (DynamicArray A)
  unfolding construct_n
  new_filled n v = do
    b ← construct_n n 0 v (allocate n)
    some (record { buffer = b; size = n; capacity = n })

  -- The copy constructor.
  unfoldable pub copy : DynamicArray A → Option (DynamicArray A)
  unfolding copy_loop
  copy other = do
    b ← copy_loop other.size 0 other.buffer (allocate other.capacity)
    some (record other { buffer = b })

  -- `destroy_range(first, last)`
  unfoldable pub destroy_range : ℕ → ℕ → Block A → Option (Block A)
  unfolding destroy_loop
  destroy_range first last b = destroy_loop (last - first) first b

  -- `reserve`, with the block that was left behind: `deallocate` does nothing, so that its slots
  -- stay, with no objects in them.
  unfoldable pub reserve : ℕ → DynamicArray A → Option (DynamicArray A × Block A)
  unfolding move_loop destroy_range
  reserve new_cap a = if leb new_cap a.capacity then some (a, a.buffer) else do
    (old, fresh) ← move_loop a.size 0 a.buffer (allocate new_cap)
    old' ← destroy_range 0 a.size old
    some (record a { buffer = fresh; capacity = new_cap }, old')

  -- `if (_size == _capacity) reserve(...)`, with the block in which an element named before the
  -- call still is.
  unfoldable pub make_room : DynamicArray A → Option (DynamicArray A × Block A)
  unfolding reserve grown
  make_room a = if a.size == a.capacity then reserve (grown a.capacity) a else some (a, a.buffer)

  -- `emplace_back` and `push_back`.
  unfoldable pub push_back : Reference A → DynamicArray A → Option (DynamicArray A)
  unfolding make_room resolve construct_at
  push_back r a = do
    (a', old) ← make_room a
    v ← resolve old r
    b ← construct_at a'.size v a'.buffer
    some (record a' { buffer = b; size = add_size a'.size 1 })

  unfoldable pub pop_back : DynamicArray A → Option (DynamicArray A)
  unfolding destroy_at
  pop_back a = do
    let n = sub_size a.size 1
    b ← destroy_at n a.buffer
    some (record a { buffer = b; size = n })

  -- `resize(new_size, v)`; `resize(new_size)` is the case of a value-initialised `v`.
  unfoldable pub resize : ℕ → A → DynamicArray A → Option (DynamicArray A)
  unfolding reserve construct_n destroy_range
  resize n v a = do
    (a', _) ← if ltb a.capacity n then reserve n a else some (a, a.buffer)
    b ←
        if ltb a'.size n
        then construct_n (n - a'.size) a'.size v a'.buffer
        else if ltb n a'.size
        then destroy_range n a'.size a'.buffer
        else some a'.buffer
    some (record a' { buffer = b; size = n })

  unfoldable pub clear : DynamicArray A → Option (DynamicArray A)
  unfolding destroy_range
  clear a = do b ← destroy_range 0 a.size a.buffer; some (record a { buffer = b; size = 0 })

  unfoldable pub clear_and_deallocate_buffer : DynamicArray A → Option (DynamicArray A)
  unfolding destroy_range
  clear_and_deallocate_buffer a = do
    b ← destroy_range 0 a.size a.buffer
    some (record { buffer = if ltb 0 a.capacity then allocate 0 else b; size = 0; capacity = 0 })

  -- `insert(begin() + idx, v)`
  unfoldable pub insert : ℕ → Reference A → DynamicArray A → Option (DynamicArray A)
  unfolding make_room resolve shift_up construct_at
  insert idx r a = do
    (a', old) ← make_room a
    b ← shift_up (a'.size - idx) idx a'.size a'.buffer
    v ← resolve (if a.size == a.capacity then old else b) r
    b' ← construct_at idx v b
    some (record a' { buffer = b'; size = add_size a'.size 1 })

  -- `erase(pos)` at `pos == data() + idx`
  unfoldable pub erase : ℕ → DynamicArray A → Option (DynamicArray A)
  unfolding destroy_at shift_down
  erase idx a = do
    b ← destroy_at idx a.buffer
    b' ← shift_down (sub_size a.size 1 - idx) idx 1 b
    some (record a { buffer = b'; size = sub_size a.size 1 })

  -- `erase(first, last)`
  unfoldable pub erase_range : ℕ → ℕ → DynamicArray A → Option (DynamicArray A)
  unfolding destroy_range shift_down
  erase_range first last a = do
    let count = sub_size last first
    b ← destroy_range first last a.buffer
    b' ← shift_down (sub_size a.size count - first) first count b
    some (record a { buffer = b'; size = sub_size a.size count })

  -- `operator[]`
  unfoldable pub at : ℕ → DynamicArray A → Option A
  at i a = read a.buffer i

  -- The move constructor: the new array, and what is left of `other`.
  unfoldable pub move_out : DynamicArray A → DynamicArray A × DynamicArray A
  unfolding new
  move_out other = (other, new)

  -- Move assignment from another array: the array, and what is left of `other`.
  unfoldable pub move_assign :
      DynamicArray A → DynamicArray A → Option (DynamicArray A × DynamicArray A)
  unfolding clear_and_deallocate_buffer new
  move_assign a other = do _ ← clear_and_deallocate_buffer a; some (other, new)
