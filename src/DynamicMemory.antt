-- ===== src/DynamicMemory.antt =====
-- `typed_dynamic_memory_backend` of include/ycetl/typed_dynamic_memory.hpp, over an explicit heap
-- which has the sizes of the blocks that `std::allocator` has handed out. The array with the
-- recorded allocations is a field of the backend, null or a list.
pub mod Recording
pub mod Owning
pub mod Laws
use ycetl.Base.{
  ℕ, zero, suc, ◌+◌, List, [], ◌∷◌, Option, none, some, ◌==◌, leb, if◌then◌else◌, ◌>>=◌, get_elem?,
  write, replicate,
}
use ycetl.Size.{add_size, mul_size}

pub record SizeAndPointer : Type 0 where
  pub ptr : Option ℕ
  pub size : ℕ

-- `{}` of the type above
abbrev pub unset : SizeAndPointer
unset = record { ptr = none; size = 0 }

-- `used` is the next address that the allocator gives out.
pub record Heap : Type 0 where
  pub live : ℕ → Option ℕ
  pub used : ℕ

-- The members `_array_allocation_vector`, `_current_array_vector_size` and `_array_slots_taken`.
pub record Backend : Type 0 where
  pub vector : Option (List SizeAndPointer)
  pub vector_size : ℕ
  pub slots_taken : ℕ

abbrev pub initial_vector_size : ℕ
initial_vector_size = 100

abbrev pub vector_growth_factor : ℕ
vector_growth_factor = 2

abbrev pub new : Backend
new = record { vector = none; vector_size = 0; slots_taken = 0 }

-- `alloc.allocate(size)`
unfoldable pub take_block : ℕ → Heap → Heap × ℕ
take_block size h =
    (record { live = λ a. if a == h.used then some size else h.live a; used = h.used + 1 }, h.used)

-- `alloc.deallocate(e.ptr, e.size)`, for a block that is live and has this size.
unfoldable pub free_block : SizeAndPointer → Heap → Option Heap
free_block e h = do
  p ← e.ptr
  size ← h.live p
  if size == e.size then some (record h { live = λ a. if a == p then none else h.live a }) else none

-- The loop of the growth, with the rounds left.
unfoldable pub copy_entries :
    List SizeAndPointer → List SizeAndPointer → ℕ → ℕ → Option (List SizeAndPointer)
copy_entries vector new_vector i zero = some new_vector
copy_entries vector new_vector i (suc rounds) = do
  e ← get_elem? vector i
  new_vector' ← write new_vector i e
  copy_entries vector new_vector' (i + 1) rounds

unfoldable pub grow_vector : Backend → Option Backend
unfolding copy_entries
grow_vector b = do
  let new_size = mul_size b.vector_size vector_growth_factor
  vector ← b.vector
  new_vector ← copy_entries vector (replicate new_size unset) 0 b.vector_size
  some (record b { vector = some new_vector; vector_size = new_size })

-- What `allocate` does before it asks the allocator.
unfoldable pub ensure_slot : Backend → Option Backend
unfolding grow_vector
ensure_slot b =
    if b.vector_size == 0
    then some (record {
      vector = some (replicate initial_vector_size unset);
      vector_size = initial_vector_size;
      slots_taken = 0;
    })
    else if leb b.vector_size b.slots_taken
    then grow_vector b
    else some b

-- With the pointer that it returns.
unfoldable pub allocate : ℕ → Heap → Backend → Option (Heap × Backend × Option ℕ)
unfolding ensure_slot take_block
allocate size h b = if size == 0 then some (h, b, none) else do
  b' ← ensure_slot b
  let (h', p) = take_block size h
  vector ← b'.vector
  vector' ← write vector b'.slots_taken (record { ptr = some p; size = size })
  some (h', record b' { vector = some vector'; slots_taken = add_size b'.slots_taken 1 }, some p)

-- It does nothing.
unfoldable pub deallocate : Option ℕ → ℕ → Heap → Backend → Heap × Backend
deallocate ptr size h b = (h, b)

-- The loop of the destructor, with the rounds left.
unfoldable pub release_entries : List SizeAndPointer → ℕ → ℕ → Heap → Option Heap
unfolding free_block
release_entries vector i zero h = some h
release_entries vector i (suc rounds) h = do
  e ← get_elem? vector i
  h' ← free_block e h
  release_entries vector (i + 1) rounds h'

-- `~typed_dynamic_memory_backend`
unfoldable pub destroy : Heap → Backend → Option Heap
unfolding release_entries
destroy h b = elim b.vector [ none ↦ some h | some v ↦ release_entries v 0 b.slots_taken h ]
