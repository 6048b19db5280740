-- ===== src/StaticMemory.antt =====
-- `typed_static_memory` of include/ycetl/typed_static_memory.hpp, a bump allocator over a fixed
-- array, and the pointers into it. A pointer is its offset; the offset 0 is the null pointer.
pub mod Laws
use ycetl.Base.{
  ℕ, suc, ◌+◌, ◌-◌, List, [], ◌∷◌, Option, none, some, ◌==◌, ltb, if◌then◌else◌, ◌>>=◌, get_elem?,
  write, replicate,
}
use ycetl.Size.{add_size, sub_size}

abbrev pub typed_static_memory_size : ℕ
typed_static_memory_size = 1024

-- `_capacity`, one more to reserve index 0
abbrev pub capacity : ℕ
capacity = typed_static_memory_size + 1

-- The members `_offset` and `_backend`.
pub record StaticMemory (A : Type 0) : Type 0 where
  pub offset : ℕ
  pub storage : List A

module _ {A : Type 0} where
  -- A new memory; `blank` is a value-initialised element.
  unfoldable pub new : A → StaticMemory A
  new blank = record { offset = 1; storage = replicate capacity blank }

  unfoldable pub remaining_size : StaticMemory A → ℕ
  remaining_size m = sub_size capacity m.offset

  unfoldable pub allocated_size : StaticMemory A → ℕ
  allocated_size m = sub_size m.offset 1

  -- The memory and the pointer.
  unfoldable pub allocate : ℕ → StaticMemory A → StaticMemory A × ℕ
  unfolding remaining_size
  allocate size m =
      if size == 0
      then (m, 0)
      else if ltb (remaining_size m) size
      then (m, 0)
      else (record m { offset = add_size m.offset size }, m.offset)

  -- `operator[]` of a pointer
  unfoldable pub load : ℕ → ℕ → StaticMemory A → Option A
  load pointer index m = get_elem? m.storage (add_size pointer index)

  -- An assignment through `operator[]` of a pointer.
  unfoldable pub store : ℕ → ℕ → A → StaticMemory A → Option (StaticMemory A)
  store pointer index v m = do
    storage ← write m.storage (add_size pointer index) v
    some (record m { storage = storage })

  -- One allocation after the other: the memory, and each pointer with the size asked for.
  unfoldable pub allocate_all : List ℕ → StaticMemory A → StaticMemory A × List (ℕ × ℕ)
  unfolding allocate
  allocate_all [] m = (m, [])
  allocate_all (size ∷ sizes) m =
      let (m', pointer) = allocate size m in
      let (m'', pointers) = allocate_all sizes m' in (m'', (pointer, size) ∷ pointers)
