-- ===== src/Examples/Static.antt =====
-- Runs of include/ycetl/typed_static_memory.hpp.
use ycetl.Base.{ℕ, ◌≡◌, refl, List, [], ◌∷◌, arith, length-replicate}
use ycetl.StaticMemory.{StaticMemory, new, allocate, allocate_all, remaining_size}
use ycetl.StaticMemory.Laws.{IsMemory, Ordered, allocate_all-Ordered}

abbrev memory : StaticMemory ℕ
unfolding new
memory = new 0

memory-IsMemory : IsMemory memory
unfolding memory new
memory-IsMemory = record {
  storage = length-replicate {A = ℕ} 1025 0;
  low = omega arith;
  high = omega arith;
}

abbrev sizes : List ℕ
sizes = 1000 ∷ 100 ∷ 24 ∷ []

allocate_all-Ordered_example :
    IsMemory (allocate_all sizes memory).0
    × Ordered memory.offset (allocate_all sizes memory).0.offset (allocate_all sizes memory).1
allocate_all-Ordered_example = allocate_all-Ordered sizes memory memory-IsMemory

-- The second request does not fit, and the null pointer stands for it.
places : (allocate_all sizes memory).1 ≡ (1, 1000) ∷ (0, 100) ∷ (1001, 24) ∷ []
unfolding memory new allocate_all allocate remaining_size
places = refl
