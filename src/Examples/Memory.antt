-- ===== src/Examples/Memory.antt =====
-- Runs of include/ycetl/typed_dynamic_memory.hpp.
use ycetl.Base.{ℕ, ◌≡◌, refl, List, [], ◌∷◌, Option, none, some, arith, ◌>>=◌, Returns, replicate}
use ycetl.DynamicMemory.{Heap, new, allocate, deallocate, destroy}
use ycetl.DynamicMemory.Owning.{IsHeap, Owned}
use ycetl.DynamicMemory.Laws.{Request, take, give, session, Answers, session-Released}

-- Nothing is live, and addresses start at 1.
abbrev bare : Heap
bare = record { live = λ a. none; used = 1 }

bare-IsHeap : IsHeap bare
bare-IsHeap = record { ahead = λ a le. refl }

abbrev calls : List Request
calls = take 3 ∷ take 0 ∷ give (some 1) 3 ∷ take 2 ∷ []

session-Released_example : Returns (session calls bare new) λ r.
    ((blocks : List (ℕ × ℕ)) × Answers calls r.2 blocks × Owned bare.live r.0.live blocks)
    × Returns (destroy r.0 r.1) (λ h. (a : ℕ) → h.live a ≡ bare.live a)
session-Released_example = session-Released calls bare bare-IsHeap (omega arith)

-- A block stays live after `deallocate`, and goes with the memory.
abbrev sizes_at_one : Option (List (Option ℕ) × Option ℕ × Option ℕ)
unfolding session allocate deallocate destroy
sizes_at_one = do
  (h, b, ps) ← session calls bare new
  h' ← destroy h b
  some (ps, h.live 1, h'.live 1)

sizes_at_one_run : sizes_at_one ≡ some (some 1 ∷ none ∷ some 2 ∷ [], some 3, none)
unfolding sizes_at_one session allocate deallocate destroy
sizes_at_one_run = refl

-- The array of allocations grows from 100 to 200 entries with the 101st.
abbrev regrown : Option (ℕ × ℕ)
unfolding session allocate
regrown = do
  (h, b, ps) ← session (replicate 101 (take 1)) bare new
  some (b.vector_size, b.slots_taken)

regrown_run : regrown ≡ some (200, 101)
unfolding regrown session allocate
regrown_run = refl
